-- ===== src/ControlPlane/Reconcile/Deletion.antt =====
-- A tenant that is being deleted (control-plane/internal/controller/tenant_controller.go) keeps its
-- finalizer until its identity instance is gone, or its search by domain finds none.
use peristera.Prelude.{◌≡◌, String, Bool, true, false, ◌⊎◌, Result, ok, err, Error}
use peristera.Prelude.Errors.{is_not_found}
use peristera.Prelude.Exec.{Exec}
use peristera.ControlPlane.{Tenant, Config, tenant_issuer, instance_domain}
use peristera.ControlPlane.Platform.{Iam, Cluster}
use peristera.ControlPlane.Reconcile.{Reached, delete_instance, instance_of}

module _ (iam : Iam) (cluster : Cluster) (cfg : Config) (t : Tenant) where
  -- What Zitadel promises of the tenant's instance, the one that its status names or that the search by
  -- its domain has just found: a state without it is `Absent`.
  pub record Promises (Absent : iam.State → Type 0) : Type 0 where
    -- Its deletion is done when it is acknowledged.
    pub deleted :
        (id : String) (w : Reached iam cluster cfg)
        → let (found, w') = instance_of iam cluster cfg t w in
          found ≡ ok id
          → (iam.delete_instance id w'.identity).0 ≡ ok tt
          → Absent (iam.delete_instance id w'.identity).1
    -- Where its deletion does not find it, it is gone if its issuer does not answer either.
    pub silent :
        (id : String) (w : Reached iam cluster cfg) (e : Error)
        → let (found, w') = instance_of iam cluster cfg t w in
          let (deletion, s) = iam.delete_instance id w'.identity in
          found ≡ ok id
          → deletion ≡ err e
          → is_not_found e ≡ true
          → (iam.discovery_alive (tenant_issuer cfg t) s).0 ≡ false
          → Absent (iam.discovery_alive (tenant_issuer cfg t) s).1

  abbrev IsMissing : Result String → Type 0
  IsMissing (ok id) = ⊥
  IsMissing (err e) = is_not_found e ≡ true

  -- The status names no instance, and the search by the tenant's domain answers that there is none.
  abbrev pub Unfound : Reached iam cluster cfg → Type 0
  Unfound w =
      (t.status.instance_id ≡ "")
      × IsMissing (iam.instance_by_domain (instance_domain cfg t) w.identity).0

  module _ (Absent : iam.State → Type 0) (promises : Promises Absent) where
    -- From the state `w`, the answer is that the instance is gone only if it is absent or was not found, and
    -- no object is touched.
    abbrev Judged : Result Bool × Reached iam cluster cfg → Reached iam cluster cfg → Type 0
    Judged (ok true, w') w = (w'.objects ≡ w.objects) × (Unfound w ⊎ Absent w'.identity)
    Judged (ok false, w') w = w'.objects ≡ w.objects
    Judged (err e, w') w = w'.objects ≡ w.objects
