-- ===== src/ControlPlane/Reconcile/Progress.antt =====
-- A tenant becomes ready: a round of the controller
-- (control-plane/internal/controller/tenant_controller.go) writes its instance, and the next one writes it
-- ready if its issuer, its database and its apps are up by then.
use peristera.Prelude.{ℕ, ◌≡◌, ◌≢◌, refl, sym, ap, ◌∙◌, Bool, true, ◌&&◌, String, ok}
use peristera.Prelude.Returns.{Succeeds, Succeeds-pure, Succeeds-if, Succeeds-bind, Succeeds-post}
use peristera.ControlPlane.{ready, Status, Tenant, Config}
use peristera.ControlPlane.Platform.{Iam, Cluster}
use peristera.ControlPlane.Reconcile.{
  Reached, add_finalizer, ensure_namespace, set_status, provision_iam, converge, delay_of,
}
use peristera.ControlPlane.Reconcile.Services.{Any, IsServing, SameSpec, IsSettled, IsRunning}
use peristera.ControlPlane.Reconcile.Identity.{Ahead, provision_iam-Steps}
use peristera.ControlPlane.Reconcile.Workloads.{
  Before, Given, taken, database_ready-Succeeds, own_namespace, workloads-Succeeds,
}

module _ (iam : Iam) (cluster : Cluster) (cfg : Config) (serving : IsServing iam)
    (running : IsRunning iam cluster cfg) where
  module _ (t0 : Tenant) (Now : Type 0) where
    -- A stored tenant, with the finalizer that a round adds.
    abbrev Finalized : Tenant → Type 0
    Finalized t1 = SameSpec t0 t1 × (t1.status ≡ t0.status)

    add_finalizer-Succeeds :
        Succeeds
          (Before iam cluster cfg serving running t0 Now)
          Finalized
          (λ _. Before iam cluster cfg serving running t0 Now)
          (add_finalizer iam cluster cfg t0)
    unfolding add_finalizer
    add_finalizer-Succeeds =
        Succeeds-if t0.has_finalizer _ _ (λ _. Succeeds-pure t0 ((refl, refl), refl))
          λ _.
            Succeeds-bind _ _
              (taken iam cluster cfg serving running t0 Now ⊥ (record t0 { has_finalizer = true }) _
                (refl, refl) (running.updates _))
              λ _ _. Succeeds-pure _ ((refl, refl), refl)

    ensure_namespace-Succeeds :
        (t : Tenant) (ns : String)
        → SameSpec t0 t
        → Succeeds
            (Before iam cluster cfg serving running t0 Now)
            Any
            (λ _. Before iam cluster cfg serving running t0 Now)
            (ensure_namespace iam cluster cfg t ns)
    unfolding ensure_namespace
    ensure_namespace-Succeeds t ns same =
        Succeeds-bind _ _
          (taken iam cluster cfg serving running t0 Now ⊥ t _ same (running.knows t ns))
          λ there _.
            Succeeds-if there _ _ (λ _. Succeeds-pure tt tt)
              λ _. taken iam cluster cfg serving running t0 Now ⊥ t _ same (running.makes t ns)

    -- The written tenant names its instance; it is ready if it named one before, from a settled state.
    abbrev Progresses : Tenant × ℕ → Type 0
    Progresses (t', delay) =
        (t'.status.instance_id ≢ "") × (Now → t0.status.instance_id ≢ "" → t'.status.phase ≡ ready)

    set_status-Progresses :
        (t : Tenant) (db done apps : Bool) (delay : ℕ)
        → t.status.instance_id ≢ ""
        → (Now → t0.status.instance_id ≢ "" → db && done && apps ≡ true)
        → Progresses (set_status iam cluster cfg t db done apps, delay)
    unfolding set_status
    set_status-Progresses t db done apps delay known all = (known, λ now old. rw (all now old) refl)

    set_status-SameSpec :
        (t : Tenant) (db done apps : Bool)
        → SameSpec t0 t
        → SameSpec t0 (set_status iam cluster cfg t db done apps)
    unfolding set_status
    set_status-SameSpec t db done apps same = same

    converge-Succeeds :
        Succeeds
          (Before iam cluster cfg serving running t0 Now)
          Progresses
          (λ _. Before iam cluster cfg serving running t0 Now)
          (converge iam cluster cfg t0)
    unfolding converge
    converge-Succeeds = Succeeds-bind _ _ add_finalizer-Succeeds λ t1 fin.
        Succeeds-bind _ _ (ensure_namespace-Succeeds t1 _ fin.0) λ _ _.
          Succeeds-bind _ _
            (taken iam cluster cfg serving running t0 Now ⊥ t1 _ fin.0 (running.database t1 _))
            λ _ _.
              Succeeds-bind _ _
                (database_ready-Succeeds iam cluster cfg serving running t0 Now _
                  (own_namespace iam cluster cfg serving running t0 Now t1 fin.0))
                λ db up.
                  Succeeds-post {M = λ _. Given iam cluster cfg serving running t0 Now (db ≡ true)}
                    _ (λ _ f. f) (λ _ w p. (p.0, (λ no. absurd no), p.2))
                    (Succeeds-bind _ _ (provisioned (db ≡ true) t1 fin) λ p ahead.
                      Succeeds-bind _ _
                        (workloads-Succeeds iam cluster cfg serving running t0 Now p.0 p.1 db
                          ahead.0)
                        λ apps run.
                          Succeeds-bind _ _
                            (taken iam cluster cfg serving running t0 Now (db ≡ true)
                              (set_status iam cluster cfg p.0 db p.1 apps) _
                              (set_status-SameSpec p.0 db p.1 apps ahead.0)
                              (running.status_updates _))
                            λ _ _. Succeeds-pure _ (
                              set_status-Progresses p.0 db p.1 apps
                                (delay_of iam cluster cfg (db && p.1 && apps) p.2) ahead.1
                                (λ now old.
                                  let done = ahead.2 now (λ e. old (sym (ap_id fin.1) ∙ e)) in
                                  rw (up now, done, run now done (up now)) refl)))
      where
        provisioned :
            (Db : Type 0) (t1 : Tenant)
            → Finalized t1
            → Succeeds
                (Given iam cluster cfg serving running t0 Now Db)
                (Ahead iam cluster cfg serving running t0 Now Db ⊥ t1)
                (λ _. Given iam cluster cfg serving running t0 Now Db)
                (provision_iam iam cluster cfg t1)
        provisioned Db t1 fin =
            provision_iam-Steps iam cluster cfg serving running t0 Now Db t1 fin.0 fin.1

        ap_id : {a b : Status} → a ≡ b → a.instance_id ≡ b.instance_id
        ap_id e = ap (λ (s : Status). s.instance_id) e

  -- Assume that the calls to Zitadel and to the API server do not fail, those that configure an issuer
  -- while its discovery answers and those that ensure the apps while the database has a ready instance; that
  -- a lookup by domain finds an instance with an id or answers not found, and a creation returns an id; and
  -- that a call for a tenant leaves up what is up for it. Then a round for a tenant that is not being
  -- deleted does not fail, whatever is up, its write of the status included, and writes the tenant with an
  -- instance. A next round on the tenant that it wrote, from any state in which that tenant's discovery
  -- answers, its database has a ready instance and each of its apps has an available replica, does not fail
  -- and writes the tenant ready.
  pub converge_twice-ready :
      (t : Tenant) (w w' : Reached iam cluster cfg)
      → ((t' : Tenant) (delay : ℕ)
          → (converge iam cluster cfg t w).0 ≡ ok (t', delay)
          → IsSettled iam cluster cfg t' w')
      → (t' : Tenant) × (delay : ℕ) × ((converge iam cluster cfg t w).0 ≡ ok (t', delay))
        × (t'.status.instance_id ≢ "")
        × ((t'' : Tenant) × (delay' : ℕ) × ((converge iam cluster cfg t' w').0 ≡ ok (t'', delay'))
            × (t''.status.phase ≡ ready))
  converge_twice-ready t w w' settled =
      let ((t', delay), e, first, _) =
        (converge-Succeeds t ⊥).run w ((λ no. absurd no), (λ no. absurd no), (λ no. absurd no)) in
      let ((t'', delay'), e', second, _) =
        (converge-Succeeds t' Unit).run w'
          ((λ _. settled t' delay e), (λ no. absurd no), (λ no. absurd no)) in
      (t', delay, e, first.0, (t'', delay', e', second.1 tt first.0))
