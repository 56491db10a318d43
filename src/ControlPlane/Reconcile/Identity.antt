-- ===== src/ControlPlane/Reconcile/Identity.antt =====
-- The identity of a tenant in a round of the controller
-- (control-plane/internal/controller/tenant_controller.go): each step of provisionIAM succeeds, and makes
-- the instance known.
use peristera.Prelude.{
  ℕ, ◌≡◌, ◌≢◌, refl, sym, subst, String, Bool, true, false, not, str_eq, eq_iff, Result, ok, err,
}
use peristera.Prelude.Returns.{Succeeds, Succeeds-pure, Succeeds-if, Succeeds-bind, Succeeds-post}
use peristera.ControlPlane.{Tenant, Config, instance_domain, tenant_issuer}
use peristera.ControlPlane.Platform.{Iam, Cluster}
use peristera.ControlPlane.Reconcile.{
  Reached, alive, adopt_or_create, find_instance, record_instance, register_app, when_alive,
  provision_iam,
}
use peristera.ControlPlane.Reconcile.Services.{
  Any, IsLookup, Serves, IsServing, SameSpec, IsRunning,
}
use peristera.ControlPlane.Reconcile.Provisioning.{unequal}
use peristera.ControlPlane.Reconcile.Steps.{
  Meets, Steps, after_iam, iam_step, cluster_step, same_issuer,
}

module _ (iam : Iam) (cluster : Cluster) (cfg : Config) (serving : IsServing iam)
    (running : IsRunning iam cluster cfg) (t0 : Tenant) where
  module _ (Now Db Live : Type 0) where
    adopt-Steps :
        (t : Tenant) (r : Result String)
        → IsLookup r
        → Steps iam cluster cfg serving running t0 Now Db Live
            (λ (id : String). id ≢ "")
            (adopt_or_create iam cluster cfg t r)
    unfolding adopt_or_create
    adopt-Steps t (ok id) h = Succeeds-pure id h
    adopt-Steps t (err e) h = rw h (
        iam_step iam cluster cfg serving running t0 Now Db Live _ _
          (λ w _. serving.creates _ _ _ w.identity) (serving.after_create _ _ _))

    find_instance-Steps :
        (t : Tenant)
        → Steps iam cluster cfg serving running t0 Now Db Live
            (λ (id : String). id ≢ "")
            (find_instance iam cluster cfg t)
    unfolding find_instance
    find_instance-Steps t = record {
      run = λ w p.
          let domain = instance_domain cfg t in
          (adopt-Steps t (iam.instance_by_domain domain w.identity).0
              (serving.looks_up domain w.identity)).run
            _
            (after_iam iam cluster cfg serving running t0 Now Db Live
              (iam.instance_by_domain domain) w (serving.after_lookup domain) p);
    }

    -- The instance is known afterwards, and the identity is done if it was known before and the tenant is
    -- settled.
    abbrev pub Ahead : Tenant → Tenant × Bool × ℕ → Type 0
    Ahead t (t', done, delay) =
        SameSpec t0 t'
        × (t'.status.instance_id ≢ "")
        × (Now → t.status.instance_id ≢ "" → done ≡ true)

    record_instance-Steps :
        (t : Tenant)
        → SameSpec t0 t
        → t.status.instance_id ≡ ""
        → Steps iam cluster cfg serving running t0 Now Db Live
            (Ahead t)
            (record_instance iam cluster cfg t)
    unfolding record_instance
    record_instance-Steps t same new =
        Succeeds-bind _ _ (find_instance-Steps t)
          λ id known. Succeeds-pure _ (same, known, λ _ old. absurd (old new))

    register_app-Steps :
        (t : Tenant)
        → Live
        → SameSpec t0 t
        → t.status ≡ t0.status
        → t.status.instance_id ≢ ""
        → Steps iam cluster cfg serving running t0 Now Db Live
            (Ahead t)
            (register_app iam cluster cfg t)
    unfolding register_app
    register_app-Steps t live same st known =
        Succeeds-bind _ _
          (iam_step iam cluster cfg serving running t0 Now Db Live Any _
            (λ w p. serving.trusts _ _ _ w.identity (up w p)) (serving.after_trust _ _ _))
          λ _ _.
            Succeeds-bind _ _
              (iam_step iam cluster cfg serving running t0 Now Db Live Any _
                (λ w p. serving.organises _ w.identity (up w p)) (serving.after_organise _))
              λ org _.
                Succeeds-bind _ _
                  (iam_step iam cluster cfg serving running t0 Now Db Live Any _
                    (λ w p. serving.registers _ _ _ _ w.identity (up w p))
                    (serving.after_register _ _ _ _))
                  λ client _. Succeeds-pure _ (same, known, λ _ _. refl)
      where
        up :
            (w : Reached iam cluster cfg)
            → Meets iam cluster cfg serving running t0 Now Db Live w
            → Serves iam (tenant_issuer cfg t) w.identity
        up w p =
            subst (λ i. Serves iam i w.identity)
              (sym (same_issuer iam cluster cfg serving running t0 t same st)) (p.2 live)

  module _ (Now Db : Type 0) where
    -- Discovery, which is told by its answer.
    alive-Succeeds :
        (issuer : String)
        → tenant_issuer cfg t0 ≡ issuer
        → Succeeds
            (Meets iam cluster cfg serving running t0 Now Db ⊥)
            (λ (up : Bool). Now → up ≡ true)
            (λ up. Meets iam cluster cfg serving running t0 Now Db (up ≡ true))
            (alive iam cluster cfg issuer)
    alive-Succeeds issuer e =
        subst
          (λ i.
            Succeeds (Meets iam cluster cfg serving running t0 Now Db ⊥)
              (λ (up : Bool). Now → up ≡ true)
              (λ up. Meets iam cluster cfg serving running t0 Now Db (up ≡ true))
              (alive iam cluster cfg i))
          e
          (record {
            run = λ w p.
                let own = tenant_issuer cfg t0 in
                let keep = serving.after_discovery own in
                let kept =
                  after_iam iam cluster cfg serving running t0 Now Db ⊥ (iam.discovery_alive own) w
                    keep p in
                (_, refl, (λ now. (p.0 now).serves), (kept.0, kept.1, keep own w.identity));
          })

    forget :
        {A : Type 0} {F : A → Type 0} {Live : Type 0}
        (m : Reached iam cluster cfg → Result A × Reached iam cluster cfg)
        → Steps iam cluster cfg serving running t0 Now Db Live F m
        → Succeeds
            (Meets iam cluster cfg serving running t0 Now Db Live)
            F
            (λ _. Meets iam cluster cfg serving running t0 Now Db ⊥)
            m
    forget m h = Succeeds-post m (λ a f. f) (λ a w p. (p.0, p.1, λ no. absurd no)) h

    when_alive-Succeeds :
        (t : Tenant) (up : Bool)
        → (Now → up ≡ true)
        → SameSpec t0 t
        → t.status ≡ t0.status
        → t.status.instance_id ≢ ""
        → Succeeds
            (Meets iam cluster cfg serving running t0 Now Db (up ≡ true))
            (Ahead Now Db ⊥ t)
            (λ _. Meets iam cluster cfg serving running t0 Now Db ⊥)
            (when_alive iam cluster cfg t up)
    unfolding when_alive
    when_alive-Succeeds t true e same st known =
        forget _ (register_app-Steps Now Db (true ≡ true) t refl same st known)
    when_alive-Succeeds t false e same st known =
        forget _ (Succeeds-pure _ (same, known, λ now _. e now))

    pub provision_iam-Steps :
        (t : Tenant)
        → SameSpec t0 t
        → t.status ≡ t0.status
        → Steps iam cluster cfg serving running t0 Now Db ⊥
            (Ahead Now Db ⊥ t)
            (provision_iam iam cluster cfg t)
    unfolding provision_iam
    provision_iam-Steps t same st =
        Succeeds-bind _ _
          (cluster_step iam cluster cfg serving running t0 Now Db ⊥ Any t _ same
            (λ w _. (running.ingress t).0 w.objects) (running.ingress t).1)
          λ _ _.
            Succeeds-if (str_eq t.status.instance_id "") _ _
              (λ new.
                record_instance-Steps Now Db ⊥ t same ((eq_iff t.status.instance_id "").0 new))
              λ known.
                Succeeds-if (not (str_eq t.status.client_id "")) _ _
                  (λ old. Succeeds-pure _ (same, unequal t.status.instance_id known, λ _ _. refl))
                  λ new.
                    Succeeds-bind _ _
                      (alive-Succeeds (tenant_issuer cfg t)
                        (sym (same_issuer iam cluster cfg serving running t0 t same st)))
                      λ up e.
                        when_alive-Succeeds t up e same st (unequal t.status.instance_id known)
