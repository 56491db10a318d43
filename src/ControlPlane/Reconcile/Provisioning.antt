-- ===== src/ControlPlane/Reconcile/Provisioning.antt =====
-- What a round of the controller (control-plane/internal/controller/tenant_controller.go) makes of the
-- identity of a tenant: its instance, its issuer and its client.
use peristera.Prelude.{
  ℕ, ◌≡◌, ◌≢◌, refl, subst, String, Bool, true, false, not, ◌&&◌, ◌⊎◌, inl, inr, str_eq, eq_iff,
  if◌then◌else◌, arith, ok,
}
use peristera.Prelude.Returns.{Gives, Gives-pure, Gives-if, Gives-bind, Gives-step}
use peristera.ControlPlane.{ready, pending, Tenant, Config, tenant_issuer, issuer_host, public_url}
use peristera.ControlPlane.Platform.{Iam, Cluster}
use peristera.ControlPlane.Reconcile.{
  Reached, record_instance, register_app, when_alive, provision_iam, add_finalizer, set_status,
  converge, delay_of,
}

pub equal : (a : String) → not (str_eq a "") ≡ false → a ≡ ""
equal a e = ground (arith, eq_iff a "")

pub unequal : (a : String) → str_eq a "" ≡ false → a ≢ ""
unequal a e = λ same. absurd (ground (arith, eq_iff a ""))

ready-done :
    (db done apps : Bool) → (if db && done && apps then ready else pending) ≡ ready → done ≡ true
ready-done db done apps e = ground arith

module _ (iam : Iam) (cluster : Cluster) (cfg : Config) where
  -- What is recorded stays; a first issuer is on the tenant's own host under the platform's domain.
  pub record Kept (t t' : Tenant) : Type 0 where
    pub instance_stays : t.status.instance_id ≢ "" → t'.status.instance_id ≡ t.status.instance_id
    pub issuer_stays : t.status.issuer ≢ "" → t'.status.issuer ≡ t.status.issuer
    pub client_stays : t.status.client_id ≢ "" → t'.status.client_id ≡ t.status.client_id
    pub first_issuer :
        t.status.issuer ≡ ""
        → (t'.status.issuer ≡ "") ⊎ (t'.status.issuer ≡ public_url cfg (issuer_host cfg t))

  -- A tenant whose identity is done has an instance.
  abbrev Done : Tenant → Tenant × Bool × ℕ → Type 0
  Done t (t', done, delay) = Kept t t' × (done ≡ true → t'.status.instance_id ≢ "")

  Kept-refl : (t : Tenant) → Kept t t
  Kept-refl t = record {
    instance_stays = λ _. refl;
    issuer_stays = λ _. refl;
    client_stays = λ _. refl;
    first_issuer = λ e. inl e;
  }

  record_instance-Done :
      (t : Tenant) → t.status.instance_id ≡ "" → Gives (Done t) (record_instance iam cluster cfg t)
  unfolding record_instance
  record_instance-Done t new = Gives-step _ _ λ id. Gives-pure _ (
    record {
      instance_stays = λ old. absurd (old new);
      issuer_stays = λ _. refl;
      client_stays = λ _. refl;
      first_issuer = λ e. inl e;
    },
    λ no. absurd (cc),
  )

  tenant_issuer-stays : (t : Tenant) → t.status.issuer ≢ "" → tenant_issuer cfg t ≡ t.status.issuer
  unfolding tenant_issuer
  tenant_issuer-stays t set = ground (arith, eq_iff t.status.issuer "")

  tenant_issuer-first :
      (t : Tenant) → t.status.issuer ≡ "" → tenant_issuer cfg t ≡ public_url cfg (issuer_host cfg t)
  unfolding tenant_issuer
  tenant_issuer-first t unset = ground (arith, eq_iff t.status.issuer "")

  register_app-Done :
      (t : Tenant)
      → t.status.instance_id ≢ ""
      → t.status.client_id ≡ ""
      → Gives (Done t) (register_app iam cluster cfg t)
  unfolding register_app
  register_app-Done t known new = Gives-step _ _ λ _. Gives-step _ _ λ org. Gives-step _ _ λ client.
      Gives-pure _ (
        record {
          instance_stays = λ _. refl;
          issuer_stays = tenant_issuer-stays t;
          client_stays = λ old. absurd (old new);
          first_issuer = λ e. inr (tenant_issuer-first t e);
        },
        λ _. known,
      )

  when_alive-Done :
      (t : Tenant) (up : Bool)
      → t.status.instance_id ≢ ""
      → t.status.client_id ≡ ""
      → Gives (Done t) (when_alive iam cluster cfg t up)
  unfolding when_alive
  when_alive-Done t true known new = register_app-Done t known new
  when_alive-Done t false known new = Gives-pure _ (Kept-refl t, λ _. known)

  provision_iam-Done : (t : Tenant) → Gives (Done t) (provision_iam iam cluster cfg t)
  unfolding provision_iam
  provision_iam-Done t = Gives-step _ _ λ _.
      Gives-if (str_eq t.status.instance_id "") _ _
        (λ new. record_instance-Done t ((eq_iff t.status.instance_id "").0 new))
        λ known.
          Gives-if (not (str_eq t.status.client_id "")) _ _
            (λ old. Gives-pure _ (Kept-refl t, λ _. unequal t.status.instance_id known))
            λ new. Gives-step _ _ λ up.
              when_alive-Done t up (unequal t.status.instance_id known)
                (equal t.status.client_id new)

  -- A stored tenant, with the finalizer that a round adds.
  add_finalizer-same :
      (t : Tenant)
      → Gives
          (λ (t1 : Tenant). (t1 ≡ t) ⊎ (t1 ≡ record t { has_finalizer = true }))
          (add_finalizer iam cluster cfg t)
  unfolding add_finalizer
  add_finalizer-same t =
      Gives-if t.has_finalizer _ _ (λ _. Gives-pure t (inl refl))
        λ _. Gives-step _ _ λ _. Gives-pure _ (inr refl)

  Kept-same :
      (t t1 t' : Tenant)
      → (t1 ≡ t) ⊎ (t1 ≡ record t { has_finalizer = true })
      → Kept t1 t'
      → Kept t t'
  unfolding issuer_host
  Kept-same t t1 t' (inl e) k = subst (λ x. Kept x t') e k
  Kept-same t t1 t' (inr e) k = from_kept (subst (λ x. Kept x t') e k)
    where
      from_kept : Kept (record t { has_finalizer = true }) t' → Kept t t'
      from_kept k = record {
        instance_stays = k.instance_stays;
        issuer_stays = k.issuer_stays;
        client_stays = k.client_stays;
        first_issuer = k.first_issuer;
      }

  abbrev Written : Tenant → Tenant × ℕ → Type 0
  Written t (t', delay) = Kept t t' × (t'.status.phase ≡ ready → t'.status.instance_id ≢ "")

  set_status-Written :
      (t0 t : Tenant) (db done apps : Bool) (delay : ℕ)
      → Kept t0 t
      → (done ≡ true → t.status.instance_id ≢ "")
      → Written t0 (set_status iam cluster cfg t db done apps, delay)
  unfolding set_status
  set_status-Written t0 t db done apps delay k known = (
    record {
      instance_stays = k.instance_stays;
      issuer_stays = k.issuer_stays;
      client_stays = k.client_stays;
      first_issuer = k.first_issuer;
    },
    λ is_ready. known (ready-done db done apps is_ready),
  )

  converge-Written : (t : Tenant) → Gives (Written t) (converge iam cluster cfg t)
  unfolding converge
  converge-Written t = Gives-bind _ _ (add_finalizer-same t) λ t1 same. Gives-step _ _ λ _.
      Gives-step _ _ λ _. Gives-step _ _ λ db. Gives-bind _ _ (provision_iam-Done t1) λ p done.
        Gives-step _ _ λ apps. Gives-step _ _ λ _. Gives-pure _ (
          set_status-Written t p.0 db p.1 apps (delay_of iam cluster cfg (db && p.1 && apps) p.2)
            (Kept-same t t1 p.0 same done.0) done.1)

  -- What a round that does not fail writes into the status of a tenant: an instance, an issuer and a
  -- client that are recorded stay as they are, a first issuer is the URL of the tenant's own host under
  -- the platform's domain, whatever the tenant's custom domain, and a tenant is ready only with an
  -- instance.
  pub converge-Kept :
      (t : Tenant) (w : Reached iam cluster cfg) (t' : Tenant) (delay : ℕ)
      → (converge iam cluster cfg t w).0 ≡ ok (t', delay)
      → Kept t t' × (t'.status.phase ≡ ready → t'.status.instance_id ≢ "")
  converge-Kept t w t' delay e = (converge-Written t).at w (t', delay) e
