-- ===== src/ControlPlane/Reconcile/Services.antt =====
-- What the services of the controller (control-plane/internal/controller/tenant_controller.go) are taken
-- to do where a tenant's progress is proved: calls that do not fail, and states in which a tenant's issuer,
-- database and apps are up, which come about on their own and which a call does not end.
use peristera.Prelude.{
  ℕ, ◌≡◌, ◌≢◌, ◌<◌, String, true, false, Option, none, some, List, Result, ok, err, All,
}
use peristera.Prelude.Errors.{is_not_found}
use peristera.ControlPlane.{Tenant, Config, tenant_issuer}
use peristera.ControlPlane.Catalog.{CatalogApp, catalog, is_off}
use peristera.ControlPlane.Platform.{Iam, Cluster}
use peristera.ControlPlane.Reconcile.{Reached, namespace_of}

-- An answer without an error, with the property.
abbrev pub Answers : {A : Type 0} → (A → Type 0) → Result A → Type 0
Answers P (ok a) = P a
Answers P (err e) = ⊥

abbrev pub Any : {A : Type 0} → A → Type 0
Any a = Unit

-- An instance that is named, or the sentinel for none.
abbrev pub IsLookup : Result String → Type 0
IsLookup (ok id) = id ≢ ""
IsLookup (err e) = is_not_found e ≡ true

abbrev pub IsUp : Option ℕ → Type 0
IsUp none = ⊥
IsUp (some n) = 0 < n

module _ (iam : Iam) where
  -- The issuer's OIDC discovery answers.
  abbrev pub Serves : String → iam.State → Type 0
  Serves issuer s = (iam.discovery_alive issuer s).0 ≡ true

  -- A call after which an issuer that answered still answers.
  abbrev pub KeepsServing : {A : Type 0} → (iam.State → A × iam.State) → Type 0
  KeepsServing f = (issuer : String) (s : iam.State) → Serves issuer s → Serves issuer (f s).1

  -- A lookup finds an instance or none, and a creation names it; an issuer is configured without an error
  -- once its discovery answers.
  pub record IsServing : Type 0 where
    pub looks_up : (domain : String) (s : iam.State) → IsLookup (iam.instance_by_domain domain s).0
    pub creates :
        (slug domain name : String) (s : iam.State)
        → Answers (λ id. id ≢ "") (iam.create_instance slug domain name s).0
    pub trusts :
        (issuer instance domain : String) (s : iam.State)
        → Serves issuer s
        → Answers Any (iam.add_trusted_domain issuer instance domain s).0
    pub organises :
        (issuer : String) (s : iam.State)
        → Serves issuer s
        → Answers Any (iam.first_org_id issuer s).0
    pub registers :
        (issuer org : String) (redirects logouts : List String) (s : iam.State)
        → Serves issuer s
        → Answers Any (iam.ensure_stub_app issuer org redirects logouts s).0
    pub after_lookup : (domain : String) → KeepsServing (iam.instance_by_domain domain)
    pub after_create :
        (slug domain name : String) → KeepsServing (iam.create_instance slug domain name)
    pub after_discovery : (issuer : String) → KeepsServing (iam.discovery_alive issuer)
    pub after_trust :
        (issuer instance domain : String)
        → KeepsServing (iam.add_trusted_domain issuer instance domain)
    pub after_organise : (issuer : String) → KeepsServing (iam.first_org_id issuer)
    pub after_register :
        (issuer org : String) (redirects logouts : List String)
        → KeepsServing (iam.ensure_stub_app issuer org redirects logouts)

-- The parts of two tenants' specs that decide what runs for them.
abbrev pub SameSpec : Tenant → Tenant → Type 0
SameSpec x t = (x.slug ≡ t.slug) × (x.apps ≡ t.apps)

module _ (iam : Iam) (cluster : Cluster) (cfg : Config) where
  -- The tenant's database has an instance that is ready.
  abbrev pub Stores : Tenant → cluster.State → Type 0
  Stores t s = Answers IsUp (cluster.ready_instances (namespace_of iam cluster cfg t) s).0

  -- Each app of the catalog that is on for the tenant has a replica.
  abbrev pub Runs : Tenant → cluster.State → Type 0
  Runs t s =
      All
        (λ (app : CatalogApp).
          is_off t app ≡ false
          → Answers IsUp (cluster.available_replicas (namespace_of iam cluster cfg t) app.name s).0)
        catalog

  -- The tenant's issuer, database and apps are up.
  pub record IsSettled (t : Tenant) (w : Reached iam cluster cfg) : Type 0 where
    pub serves : Serves iam (tenant_issuer cfg t) w.identity
    pub stores : Stores t w.objects
    pub runs : Runs t w.objects

  -- A call for a tenant after which what is up for it is still up.
  abbrev pub KeepsUp : {A : Type 0} → Tenant → (cluster.State → A × cluster.State) → Type 0
  KeepsUp t f =
      (x : Tenant) (s : cluster.State)
      → SameSpec x t
      → (Stores x s → Stores x (f s).1) × (Runs x s → Runs x (f s).1)

  -- A call for a tenant that never fails.
  abbrev pub Takes : {A : Type 0} → Tenant → (cluster.State → Result A × cluster.State) → Type 0
  Takes t f = ((s : cluster.State) → Answers Any (f s).0) × KeepsUp t f

  -- The API server takes every write and answers every read. The apps need the database's secret, so that
  -- they are ensured without an error once the database is up.
  pub record IsRunning : Type 0 where
    pub updates : (t : Tenant) → Takes t (cluster.update t)
    pub status_updates : (t : Tenant) → Takes t (cluster.update_status t)
    pub knows : (t : Tenant) (name : String) → Takes t (cluster.has_namespace name)
    pub makes : (t : Tenant) (name : String) → Takes t (cluster.create_namespace name t)
    pub database : (t : Tenant) (ns : String) → Takes t (cluster.ensure_database t ns)
    pub instances : (t : Tenant) (ns : String) → Takes t (cluster.ready_instances ns)
    pub replicas : (t : Tenant) (ns app : String) → Takes t (cluster.available_replicas ns app)
    pub ingress : (t : Tenant) → Takes t (cluster.ensure_issuer_ingress t)
    pub apps :
        (t : Tenant) (s : cluster.State)
        → Stores t s
        → Answers Any (cluster.ensure_apps t (namespace_of iam cluster cfg t) s).0
    pub optional_apps :
        (t : Tenant) (s : cluster.State)
        → Stores t s
        → Answers Any (cluster.reconcile_optional_apps t (namespace_of iam cluster cfg t) s).0
    pub after_apps : (t : Tenant) (ns : String) → KeepsUp t (cluster.ensure_apps t ns)
    pub after_optional_apps :
        (t : Tenant) (ns : String) → KeepsUp t (cluster.reconcile_optional_apps t ns)
