-- ===== src/ControlPlane/Reconcile.antt =====
-- Reconcile of control-plane/internal/controller/tenant_controller.go: one round for one tenant. A delay
-- is in seconds.
pub mod Deletion
pub mod Provisioning
pub mod Services
pub mod Steps
pub mod Identity
pub mod Workloads
pub mod Progress
use Prim.Native.String.{◌++◌ as join}
use peristera.Prelude.{
  ℕ, zero, suc, String, Bool, true, false, not, ◌&&◌, ◌||◌, Option, none, some, List, [], ◌∷◌,
  str_eq, ltb, ◌==◌, if◌then◌else◌, Result, ok, err, Error,
}
use peristera.Prelude.Errors.{is_not_found}
use peristera.Prelude.Exec.{Exec, pure, raise, lift, ◌>>=◌, ◌>>◌}
use peristera.ControlPlane.{
  Phase, unset, pending, ready, deleting, failed, Status, Tenant, Config, public_url, tenant_domain,
  tenant_issuer, instance_domain, org_name,
}
use peristera.ControlPlane.Catalog.{CatalogApp, catalog, is_off}
use peristera.ControlPlane.Platform.{Iam, Cluster}

module _ (iam : Iam) (cluster : Cluster) (cfg : Config) where
  pub record Reached : Type 0 where
    pub identity : iam.State
    pub objects : cluster.State

  abbrev pub on_iam : {A : Type 0} → (iam.State → Result A × iam.State) → Exec Reached A
  on_iam f w = let (r, s) = f w.identity in (r, record w { identity = s })

  abbrev pub on_cluster : {A : Type 0} → (cluster.State → Result A × cluster.State) → Exec Reached A
  on_cluster f w = let (r, s) = f w.objects in (r, record w { objects = s })

  abbrev pub alive : String → Exec Reached Bool
  alive issuer w =
      let (a, s) = iam.discovery_alive issuer w.identity in (ok a, record w { identity = s })

  abbrev with_status : Tenant → Status → Tenant
  with_status t status = record t { status = status }

  -- The lookup that adopts a stray instance, or the creation of one.
  unfoldable pub adopt_or_create : Tenant → Result String → Exec Reached String
  adopt_or_create t (ok id) = pure id
  adopt_or_create t (err e) =
      let create = on_iam (iam.create_instance t.slug (instance_domain cfg t) (org_name t)) in
      if is_not_found e then create else raise e

  unfoldable pub find_instance : Tenant → Exec Reached String
  find_instance t w =
      let (r, s) = iam.instance_by_domain (instance_domain cfg t) w.identity in
      adopt_or_create t r (record w { identity = s })

  -- provisionIAM returns the tenant as it leaves it, whether it is done, and the delay.
  abbrev pub Provisioned : Type 0
  Provisioned = Tenant × Bool × ℕ

  unfoldable pub record_instance : Tenant → Exec Reached Provisioned
  record_instance t = do
    id ← find_instance t
    pure (with_status t (record t.status { instance_id = id }), false, 3)

  unfoldable pub register_app : Tenant → Exec Reached Provisioned
  register_app t = do
    let issuer = tenant_issuer cfg t
    let base = public_url cfg (join "stub." (tenant_domain cfg t))
    on_iam (iam.add_trusted_domain issuer t.status.instance_id cfg.login_domain)
    org ← on_iam (iam.first_org_id issuer)
    client ←
        on_iam
          (iam.ensure_stub_app issuer org (join base "/auth/callback" ∷ []) (join base "/" ∷ []))
    pure (with_status t (record t.status { issuer = issuer; client_id = client }), true, 0)

  unfoldable pub when_alive : Tenant → Bool → Exec Reached Provisioned
  when_alive t true = register_app t
  when_alive t false = pure (t, false, 3)

  -- provisionIAM
  unfoldable pub provision_iam : Tenant → Exec Reached Provisioned
  provision_iam t = do
    on_cluster (cluster.ensure_issuer_ingress t)
    (if str_eq t.status.instance_id ""
        then record_instance t
        else if not (str_eq t.status.client_id "")
        then pure (t, true, 0)
        else do up ← alive (tenant_issuer cfg t); when_alive t up)

  -- deleteInstance: the instance that the status names, or that serves the domain.
  unfoldable pub instance_of : Tenant → Exec Reached String
  instance_of t =
      if str_eq t.status.instance_id ""
      then on_iam (iam.instance_by_domain (instance_domain cfg t))
      else pure t.status.instance_id

  -- What the answer of DeleteInstance means: a 404 is trusted only if the issuer is not served.
  unfoldable pub judge : Tenant → Result (Unit {0}) → Exec Reached Bool
  judge t (ok u) = pure true
  judge t (err e) =
      let check = (do up ← alive (tenant_issuer cfg t); pure (not up)) in
      if is_not_found e then check else raise e

  unfoldable pub delete_found : Tenant → Result String → Exec Reached Bool
  delete_found t (ok id) w =
      let (r, s) = iam.delete_instance id w.identity in judge t r (record w { identity = s })
  delete_found t (err e) w = if is_not_found e then (ok true, w) else (err e, w)

  -- deleteInstance: whether the instance is confirmed gone.
  unfoldable pub delete_instance : Tenant → Exec Reached Bool
  delete_instance t w = let (r, w') = instance_of t w in delete_found t r w'

  unfoldable pub ensure_namespace : Tenant → String → Exec Reached (Unit {0})
  ensure_namespace t name = do
    there ← on_cluster (cluster.has_namespace name)
    (if there then pure tt else on_cluster (cluster.create_namespace name t))

  abbrev pub at_least_one : Option ℕ → Bool
  at_least_one none = false
  at_least_one (some n) = ltb 0 n

  -- databaseReady
  unfoldable pub database_ready : String → Exec Reached Bool
  database_ready ns = do
    instances ← on_cluster (cluster.ready_instances ns)
    pure (at_least_one instances)

  -- appsReady, over a catalog.
  unfoldable pub apps_ready : Tenant → String → List CatalogApp → Exec Reached Bool
  apps_ready t ns [] = pure true
  apps_ready t ns (app ∷ apps) =
      let rest = apps_ready t ns apps in
      if is_off t app then rest else do
        replicas ← on_cluster (cluster.available_replicas ns app.name)
        (if at_least_one replicas then rest else pure false)

  -- The three conditions and the phase of a round that got to its end.
  unfoldable pub set_status : Tenant → Bool → Bool → Bool → Tenant
  set_status t db_ready iam_ready apps_are =
      let note = λ (kind : String) (holds : Bool).
        cluster.set_condition (record { kind = kind; holds = holds; generation = t.generation }) in
      record t {
        status = record t.status {
          phase = if db_ready && iam_ready && apps_are then ready else pending;
          conditions =
              note "AppsReady" apps_are (
                note "IAMProvisioned" iam_ready
                  (note "DatabaseReady" db_ready t.status.conditions));
        };
      }

  abbrev pub delay_of : Bool → ℕ → ℕ
  delay_of all_ready delay = if all_ready then delay else if delay == 0 then 10 else delay

  -- The apps, once both the database and the identity are there.
  unfoldable pub ensure_workloads : Tenant → String → Exec Reached Bool
  ensure_workloads t ns = do
    on_cluster (cluster.ensure_apps t ns)
    on_cluster (cluster.reconcile_optional_apps t ns)
    apps_ready t ns catalog

  unfoldable pub add_finalizer : Tenant → Exec Reached Tenant
  add_finalizer t = if t.has_finalizer then pure t else do
    on_cluster (cluster.update (record t { has_finalizer = true }))
    pure (record t { has_finalizer = true })

  unfoldable pub namespace_of : Tenant → String
  namespace_of t = join "tenant-" t.slug

  -- The rest of Reconcile, its write of the status included: the tenant as it is written, and the delay.
  unfoldable pub converge : Tenant → Exec Reached (Tenant × ℕ)
  converge t0 = do
    t1 ← add_finalizer t0
    ensure_namespace t1 (namespace_of t1)
    on_cluster (cluster.ensure_database t1 (namespace_of t1))
    db_ready ← database_ready (namespace_of t1)
    (t, iam_ready, delay) ← provision_iam t1
    apps_are ← (if iam_ready && db_ready then ensure_workloads t (namespace_of t) else pure false)
    let written = set_status t db_ready iam_ready apps_are
    on_cluster (cluster.update_status written)
    pure (written, delay_of (db_ready && iam_ready && apps_are) delay)

  abbrev pub after_delete : Tenant → Result Bool → Exec Reached ℕ
  after_delete t (err e) = pure 5
  after_delete t (ok false) = pure 5
  after_delete t (ok true) =
      if t.has_finalizer
      then on_cluster (cluster.update (record t { has_finalizer = false })) >> pure 0
      else pure 0

  -- The branch of Reconcile for a tenant that is being deleted.
  unfoldable pub reconcile_deleting : Tenant → Exec Reached ℕ
  reconcile_deleting t w = let (r, w') = delete_instance t w in after_delete t r w'

  unfoldable pub reconcile_found : Option Tenant → Exec Reached ℕ
  reconcile_found none = pure 0
  reconcile_found (some t) =
      let converged = (do (t', delay) ← converge t; pure delay) in
      if t.is_deleting then reconcile_deleting t else converged

  -- Reconcile, with a client of Zitadel: the delay after which to come back, zero for none.
  unfoldable pub reconcile : String → Exec Reached ℕ
  reconcile name = do found ← on_cluster (cluster.get_tenant name); reconcile_found found
