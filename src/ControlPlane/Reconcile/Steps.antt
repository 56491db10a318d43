-- ===== src/ControlPlane/Reconcile/Steps.antt =====
-- The calls in a round of the controller (control-plane/internal/controller/tenant_controller.go): each
-- succeeds, and keeps what is up for the tenant.
use peristera.Prelude.{
  ℕ, ◌≡◌, refl, true, Option, none, some, List, [], ◌∷◌, arith, Result, ok, err, All,
}
use peristera.Prelude.Returns.{Succeeds}
use peristera.ControlPlane.{Tenant, Config, tenant_issuer, issuer_host}
use peristera.ControlPlane.Catalog.{CatalogApp, is_off, tenant_enables}
use peristera.ControlPlane.Platform.{Iam, Cluster}
use peristera.ControlPlane.Reconcile.{Reached, on_iam, on_cluster, at_least_one, namespace_of}
use peristera.ControlPlane.Reconcile.Services.{
  Answers, Any, IsUp, Serves, KeepsServing, IsServing, SameSpec, Stores, IsSettled, KeepsUp,
  IsRunning,
}

answered : {A : Type 0} (P : A → Type 0) (r : Result A) → Answers P r → (a : A) × (r ≡ ok a) × P a
answered P (ok a) h = (a, refl, h)
answered P (err e) h = absurd h

pub later :
    {A : Type 0} (Now : Type 0) (F : A → Type 0) (r : Result A)
    → Answers Any r
    → (Now → Answers F r)
    → Answers (λ a. Now → F a) r
later Now F (ok a) h k = k
later Now F (err e) h k = absurd h

pub All-swap :
    {A S : Type 0} (R : S → Type 0) (Q : A → S → Type 0) (xs : List A)
    → ((s : S) → R s → All (λ x. Q x s) xs)
    → All (λ x. (s : S) → R s → Q x s) xs
All-swap R Q [] h = tt
All-swap R Q (x ∷ xs) h = ((λ s r. (h s r).0), All-swap R Q xs (λ s r. (h s r).1))

module _ (iam : Iam) (cluster : Cluster) (cfg : Config) (serving : IsServing iam)
    (running : IsRunning iam cluster cfg) (t0 : Tenant) where
  -- The states of a round: the tenant is settled if `Now`, its database is up if `Db`, and its issuer
  -- answers if `Live`.
  abbrev pub Meets : Type 0 → Type 0 → Type 0 → Reached iam cluster cfg → Type 0
  Meets Now Db Live w =
      (Now → IsSettled iam cluster cfg t0 w)
      × (Db → Stores iam cluster cfg t0 w.objects)
      × (Live → Serves iam (tenant_issuer cfg t0) w.identity)

  pub same_issuer :
      (t : Tenant)
      → SameSpec t0 t
      → t.status ≡ t0.status
      → tenant_issuer cfg t ≡ tenant_issuer cfg t0
  unfolding tenant_issuer issuer_host
  same_issuer t same st = rw (st, same.0) refl

  pub same_namespace :
      (t : Tenant)
      → SameSpec t0 t
      → namespace_of iam cluster cfg t0 ≡ namespace_of iam cluster cfg t
  unfolding namespace_of
  same_namespace t same = rw same.0 refl

  pub same_off : (t : Tenant) (app : CatalogApp) → SameSpec t0 t → is_off t0 app ≡ is_off t app
  unfolding is_off tenant_enables
  same_off t app same = rw same.1 refl

  pub IsUp-at_least_one : (o : Option ℕ) → IsUp o → at_least_one iam cluster cfg o ≡ true
  IsUp-at_least_one none h = absurd h
  IsUp-at_least_one (some n) h = ground arith

  pub at_least_one-IsUp : (o : Option ℕ) → at_least_one iam cluster cfg o ≡ true → IsUp o
  at_least_one-IsUp none h = absurd (cc)
  at_least_one-IsUp (some n) h = ground arith

  module _ (Now Db Live : Type 0) where
    -- A step that ends where it started.
    abbrev pub Steps :
        {A : Type 0}
        → (A → Type 0)
        → (Reached iam cluster cfg → Result A × Reached iam cluster cfg)
        → Type 0
    Steps F m = Succeeds (Meets Now Db Live) F (λ _. Meets Now Db Live) m

    -- What is up is up after a call to Zitadel.
    pub after_iam :
        {A : Type 0} (f : iam.State → A × iam.State) (w : Reached iam cluster cfg)
        → KeepsServing iam f
        → Meets Now Db Live w
        → Meets Now Db Live (record w { identity = (f w.identity).1 })
    after_iam f w keep p = (
      (λ now. record {
        serves = keep _ w.identity (p.0 now).serves;
        stores = (p.0 now).stores;
        runs = (p.0 now).runs;
      }),
      p.1,
      (λ live. keep _ w.identity (p.2 live)),
    )

    pub iam_step :
        {A : Type 0} (F : A → Type 0) (f : iam.State → Result A × iam.State)
        → ((w : Reached iam cluster cfg) → Meets Now Db Live w → Answers F (f w.identity).0)
        → KeepsServing iam f
        → Steps F (on_iam iam cluster cfg f)
    iam_step F f law keep = record {
      run = λ w p.
          let (a, e, h) = answered F (f w.identity).0 (law w p) in (a, e, h, after_iam f w keep p);
    }

    pub cluster_step :
        {A : Type 0} (F : A → Type 0) (t : Tenant) (f : cluster.State → Result A × cluster.State)
        → SameSpec t0 t
        → ((w : Reached iam cluster cfg) → Meets Now Db Live w → Answers F (f w.objects).0)
        → KeepsUp iam cluster cfg t f
        → Steps F (on_cluster iam cluster cfg f)
    cluster_step F t f same law keep = record {
      run = λ w p.
          let (a, e, h) = answered F (f w.objects).0 (law w p) in
          let kept = keep t0 w.objects same in
          (
            a,
            e,
            h,
            (
              (λ now. record {
                serves = (p.0 now).serves;
                stores = kept.0 (p.0 now).stores;
                runs = kept.1 (p.0 now).runs;
              }),
              (λ db. kept.0 (p.1 db)),
              p.2,
            ),
          );
    }
