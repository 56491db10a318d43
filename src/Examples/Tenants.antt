-- ===== src/Examples/Tenants.antt =====
-- The theorems on the control plane (control-plane/internal/controller) at a tenant: an issuer answers once
-- its instance exists, and the workloads are up once a tenant is written.
use peristera.Prelude.{
  ℕ, ◌≡◌, ◌≢◌, refl, String, Bool, true, false, Option, none, some, List, [], ◌∷◌, map, arith, ok,
  err, Result, not_found,
}
use peristera.Prelude.Errors.{is_not_found, root_of}
use peristera.Prelude.Exec.{◌>>=◌}
use peristera.ControlPlane.{Tenant, Config, Condition, unset, ready}
use peristera.ControlPlane.Catalog.{
  keys, is_off, tenant_enables, catalog, contains, equal_string_set, enabled_callers_of,
}
use peristera.ControlPlane.Platform.{Iam, Cluster}
use peristera.ControlPlane.Reconcile.{
  Reached, reconcile_found, reconcile_deleting, delete_instance, delete_found, judge, instance_of,
  converge, add_finalizer, ensure_namespace, database_ready, provision_iam, ensure_workloads,
  apps_ready, set_status,
}
use peristera.ControlPlane.Reconcile.Provisioning.{Kept, converge-Kept}
use peristera.ControlPlane.Reconcile.Services.{IsLookup, IsServing, IsSettled, KeepsUp, IsRunning}
use peristera.ControlPlane.Reconcile.Progress.{converge_twice-ready}
use peristera.ControlPlane.OptionalApps.{Peer, no_pod, pods, caller_names, callers_update}
use peristera.ControlPlane.OptionalApps.Settles.{AreNamed, callers_update-settles}

-- Whether the instance exists.
abbrev looked_up : Bool → Result String
looked_up false = err not_found
looked_up true = ok "i1"

abbrev iam : Iam
iam = record {
  State = Bool;
  instance_by_domain = λ domain s. (looked_up s, s);
  create_instance = λ slug domain name s. (ok "i1", true);
  delete_instance = λ id s. (ok tt, false);
  discovery_alive = λ issuer s. (s, s);
  add_trusted_domain = λ issuer instance domain s. (ok tt, s);
  first_org_id = λ issuer s. (ok "org", s);
  ensure_stub_app = λ issuer org redirects logouts s. (ok "client", s);
}

-- The replicas of a workload.
abbrev up_with : List Tenant → Option ℕ
up_with [] = none
up_with (t ∷ ts) = some 1

abbrev cluster : Cluster
cluster = record {
  State = List Tenant;
  get_tenant = λ name s. (ok none, s);
  update = λ t s. (ok tt, t ∷ s);
  update_status = λ t s. (ok tt, t ∷ s);
  has_namespace = λ name s. (ok true, s);
  create_namespace = λ name t s. (ok tt, s);
  ready_instances = λ ns s. (ok (up_with s), s);
  available_replicas = λ ns app s. (ok (up_with s), s);
  ensure_database = λ t ns s. (ok tt, s);
  ensure_apps = λ t ns s. (ok tt, s);
  reconcile_optional_apps = λ t ns s. (ok tt, s);
  ensure_issuer_ingress = λ t s. (ok tt, s);
  set_condition = λ c cs. c ∷ cs;
}

abbrev cfg : Config
cfg = record {
  base_domain = "example.org";
  external_port = "8080";
  url_scheme = "http";
  login_domain = "login.example.org";
  host_name = λ url. "acme.example.org";
}

abbrev acme : Tenant
acme = record {
  name = "acme";
  generation = 1;
  is_deleting = false;
  has_finalizer = true;
  slug = "acme";
  display_name = "Acme";
  domain = "files.acme.com";
  apps = "office" ∷ [];
  status = record { phase = unset; instance_id = ""; issuer = ""; client_id = ""; conditions = [] };
}

abbrev settled : Tenant
settled = record acme {
  status = record {
    phase = ready;
    instance_id = "i1";
    issuer = "http://acme.example.org:8080";
    client_id = "client";
    conditions = [];
  };
}

-- The id of its instance was never written.
abbrev leaving : Tenant
leaving = record acme { is_deleting = true }

abbrev with_nothing : Reached iam cluster cfg
with_nothing = record { objects = []; identity = false }

abbrev with_instance : Reached iam cluster cfg
with_instance = record { objects = []; identity = true }

-- No instance is left.
abbrev IsGone : Bool → Type 0
IsGone s = s ≡ false

-- The search finds the instance, it is deleted, and the finalizer goes.
leaving_run :
    reconcile_found iam cluster cfg (some leaving) with_instance
    ≡ (ok 0, record { objects = record leaving { has_finalizer = false } ∷ []; identity = false })
unfolding reconcile_found reconcile_deleting delete_instance delete_found judge instance_of ◌>>=◌
leaving_run = refl

-- A Zitadel whose search does not show a new instance yet, while it exists.
abbrev lagging : Iam
lagging = record iam { instance_by_domain = λ domain s. (err not_found, s) }

-- The finalizer goes while the instance exists.
lagging_run :
    reconcile_found lagging cluster cfg (some leaving) (record { objects = []; identity = true })
    ≡ (ok 0, record { objects = record leaving { has_finalizer = false } ∷ []; identity = true })
unfolding reconcile_found reconcile_deleting delete_instance delete_found instance_of is_not_found
    root_of ◌>>=◌
lagging_run = refl

-- The service names every instance that it has.
found : (exists : Bool) → IsLookup (looked_up exists)
unfolding is_not_found
found false = refl
found true = λ e. cc

serving : IsServing iam
unfolding is_not_found
serving = record {
  looks_up = λ domain exists. found exists;
  creates = λ slug domain name s e. cc;
  trusts = λ issuer instance domain s up. tt;
  organises = λ issuer s up. tt;
  registers = λ issuer org redirects logouts s up. tt;
  after_lookup = λ domain issuer s up. up;
  after_create = λ slug domain name issuer s up. refl;
  after_discovery = λ asked issuer s up. up;
  after_trust = λ asked instance domain issuer s up. up;
  after_organise = λ asked issuer s up. up;
  after_register = λ asked org redirects logouts issuer s up. up;
}

-- What is up after a write.
grown : (t : Tenant) → KeepsUp iam cluster cfg t (λ s. (ok tt, t ∷ s))
grown t x s same = (
  (λ stores. omega arith),
  (λ runs. (
    (λ on. omega arith),
    ((λ on. omega arith), ((λ on. omega arith), ((λ on. omega arith), tt))),
  )),
)

same_state :
    {A : Type 0} (t : Tenant) (r : List Tenant → A) → KeepsUp iam cluster cfg t (λ s. (r s, s))
same_state t r x s same = ((λ stores. stores), (λ runs. runs))

running : IsRunning iam cluster cfg
running = record {
  updates = λ t. ((λ s. tt), grown t);
  status_updates = λ t. ((λ s. tt), grown t);
  knows = λ t name. ((λ s. tt), same_state {A = Result Bool} t (λ s. ok true));
  makes = λ t name. ((λ s. tt), same_state {A = Result (Unit {0})} t (λ s. ok tt));
  database = λ t ns. ((λ s. tt), same_state {A = Result (Unit {0})} t (λ s. ok tt));
  instances = λ t ns. ((λ s. tt), same_state {A = Result (Option ℕ)} t (λ s. ok (up_with s)));
  replicas = λ t ns app. ((λ s. tt), same_state {A = Result (Option ℕ)} t (λ s. ok (up_with s)));
  ingress = λ t. ((λ s. tt), same_state {A = Result (Unit {0})} t (λ s. ok tt));
  apps = λ t s stores. tt;
  optional_apps = λ t s stores. tt;
  after_apps = λ t ns. same_state {A = Result (Unit {0})} t (λ s. ok tt);
  after_optional_apps = λ t ns. same_state {A = Result (Unit {0})} t (λ s. ok tt);
}

-- After the first round an instance exists and a tenant is written.
abbrev after_first : Reached iam cluster cfg
after_first = record { objects = acme ∷ []; identity = true }

after_first-IsSettled :
    (t' : Tenant) (delay : ℕ)
    → (converge iam cluster cfg acme with_nothing).0 ≡ ok (t', delay)
    → IsSettled iam cluster cfg t' after_first
after_first-IsSettled t' delay e = record {
  serves = refl;
  stores = omega arith;
  runs = (
    (λ on. omega arith),
    ((λ on. omega arith), ((λ on. omega arith), ((λ on. omega arith), tt))),
  );
}

converge_twice-ready_example :
    (t' : Tenant) × (delay : ℕ) × ((converge iam cluster cfg acme with_nothing).0 ≡ ok (t', delay))
    × (t'.status.instance_id ≢ "")
    × ((t'' : Tenant) × (delay' : ℕ) × ((converge iam cluster cfg t' after_first).0
          ≡ ok (t'', delay'))
        × (t''.status.phase ≡ ready))
converge_twice-ready_example =
    converge_twice-ready iam cluster cfg serving running acme with_nothing after_first
      after_first-IsSettled

abbrev settled_rules : List (List Peer)
settled_rules = (no_pod ∷ pods "ergonomos" ∷ pods "office" ∷ []) ∷ []

catalog_named : AreNamed catalog
catalog_named = ((λ e. cc), ((λ e. cc), ((λ e. cc), ((λ e. cc), tt))))

callers_run :
    callers_update catalog acme ((no_pod ∷ pods "ergonomos" ∷ []) ∷ []) ≡ some settled_rules
unfolding callers_update equal_string_set keys contains enabled_callers_of is_off tenant_enables
callers_run = refl

callers_update-settles_example :
    (map caller_names settled_rules ≡ enabled_callers_of catalog acme "kamara" ∷ [])
    × (callers_update catalog acme settled_rules ≡ none)
callers_update-settles_example =
    callers_update-settles catalog acme ((no_pod ∷ pods "ergonomos" ∷ []) ∷ []) settled_rules
      catalog_named callers_run

-- What a round finds.
abbrev met : String → Condition
met kind = record { kind = kind; holds = true; generation = 1 }

abbrev confirmed : Tenant
confirmed = record settled {
  status = record {
    phase = ready;
    instance_id = "i1";
    issuer = "http://acme.example.org:8080";
    client_id = "client";
    conditions = met "AppsReady" ∷ met "IAMProvisioned" ∷ met "DatabaseReady" ∷ [];
  };
}

converge_run : (converge iam cluster cfg settled after_first).0 ≡ ok (confirmed, 0)
unfolding converge ◌>>=◌ add_finalizer ensure_namespace database_ready provision_iam
    ensure_workloads apps_ready is_off tenant_enables set_status
converge_run = refl

converge-Kept_example :
    Kept iam cluster cfg settled confirmed
    × (confirmed.status.phase ≡ ready → confirmed.status.instance_id ≢ "")
converge-Kept_example = converge-Kept iam cluster cfg settled after_first confirmed 0 converge_run
