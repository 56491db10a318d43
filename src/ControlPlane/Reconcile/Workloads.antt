-- ===== src/ControlPlane/Reconcile/Workloads.antt =====
-- The database and the apps in a round of the controller
-- (control-plane/internal/controller/tenant_controller.go): what is asked of them succeeds, and tells what
-- is up.
use peristera.Prelude.{
  ℕ, ◌≡◌, refl, sym, ◌∙◌, subst, Bool, true, false, ◌&&◌, Option, List, [], ◌∷◌, String,
  if◌then◌else◌, arith, Result, All,
}
use peristera.Prelude.Exec.{pure}
use peristera.Prelude.Returns.{Succeeds, Succeeds-pure, Succeeds-if, Succeeds-bind, Succeeds-post}
use peristera.ControlPlane.{Tenant, Config}
use peristera.ControlPlane.Catalog.{CatalogApp, catalog, is_off}
use peristera.ControlPlane.Platform.{Iam, Cluster}
use peristera.ControlPlane.Reconcile.{
  Reached, on_cluster, database_ready, apps_ready, ensure_workloads, at_least_one, namespace_of,
}
use peristera.ControlPlane.Reconcile.Services.{
  Answers, Any, IsUp, IsServing, SameSpec, KeepsUp, Takes, Stores, Runs, IsRunning,
}
use peristera.ControlPlane.Reconcile.Steps.{
  All-swap, later, Meets, IsUp-at_least_one, at_least_one-IsUp, same_namespace, same_off,
  cluster_step,
}

module _ (iam : Iam) (cluster : Cluster) (cfg : Config) (serving : IsServing iam)
    (running : IsRunning iam cluster cfg) where
  module _ (t0 : Tenant) (Now : Type 0) where
    -- The states before and after the database is known to be up.
    abbrev pub Before : Reached iam cluster cfg → Type 0
    Before = Meets iam cluster cfg serving running t0 Now ⊥ ⊥

    abbrev pub Given : Type 0 → Reached iam cluster cfg → Type 0
    Given Db = Meets iam cluster cfg serving running t0 Now Db ⊥

    step :
        (Db : Type 0) {A : Type 0} (F : A → Type 0) (t : Tenant)
        (f : cluster.State → Result A × cluster.State)
        → SameSpec t0 t
        → ((w : Reached iam cluster cfg) → Given Db w → Answers F (f w.objects).0)
        → KeepsUp iam cluster cfg t f
        → Succeeds (Given Db) F (λ _. Given Db) (on_cluster iam cluster cfg f)
    step Db F t f same law keep =
        cluster_step iam cluster cfg serving running t0 Now Db ⊥ F t f same law keep

    pub taken :
        (Db : Type 0) {A : Type 0} (t : Tenant) (f : cluster.State → Result A × cluster.State)
        → SameSpec t0 t
        → Takes iam cluster cfg t f
        → Succeeds (Given Db) Any (λ _. Given Db) (on_cluster iam cluster cfg f)
    taken Db t f same takes = step Db Any t f same (λ w _. takes.0 w.objects) takes.1

    abbrev pub IsTrue : Bool → Type 0
    IsTrue b = Now → b ≡ true

    pub database_ready-Succeeds :
        (ns : String)
        → namespace_of iam cluster cfg t0 ≡ ns
        → Succeeds Before IsTrue (λ db. Given (db ≡ true)) (database_ready iam cluster cfg ns)
    unfolding database_ready
    database_ready-Succeeds ns e =
        subst
          (λ n. Succeeds Before IsTrue (λ db. Given (db ≡ true)) (database_ready iam cluster cfg n))
          e
          (Succeeds-bind {M = λ o. Given (IsUp o)} _ _ looked λ o up. record {
            run = λ w p.
                (_, refl, (λ now. up_lem o (up now)), (p.0, (λ holds. p.1 (of_true o holds)), p.2));
          })
      where
        up_lem : (o : Option ℕ) → IsUp o → at_least_one iam cluster cfg o ≡ true
        up_lem = IsUp-at_least_one iam cluster cfg serving running t0

        of_true : (o : Option ℕ) → at_least_one iam cluster cfg o ≡ true → IsUp o
        of_true = at_least_one-IsUp iam cluster cfg serving running t0

        own : String
        own = namespace_of iam cluster cfg t0

        looked :
            Succeeds Before
              (λ (o : Option ℕ). Now → IsUp o)
              (λ o. Given (IsUp o))
              (on_cluster iam cluster cfg (cluster.ready_instances own))
        looked = record {
          run = λ w p.
              let asks = running.instances t0 own in
              let (o, e, up, after) =
                (step ⊥ (λ (o : Option ℕ). Now → IsUp o) t0 (cluster.ready_instances own)
                    (refl, refl)
                    (λ w p. later Now IsUp _ (asks.0 w.objects) (λ now. (p.0 now).stores))
                    asks.1).run
                  w p in
              (
                o,
                e,
                up,
                (
                  after.0,
                  (λ holds.
                      (asks.1 t0 w.objects (refl, refl)).0
                        (subst (λ r. Answers IsUp r) (sym e) holds)),
                  after.2,
                ),
              );
        }

    apps_ready-Succeeds :
        (Db : Type 0) (t : Tenant) (ns : String) (apps : List CatalogApp)
        → SameSpec t0 t
        → namespace_of iam cluster cfg t0 ≡ ns
        → All
            (λ (app : CatalogApp).
              (s : cluster.State)
              → Runs iam cluster cfg t0 s
              → is_off t0 app ≡ false
              → Answers IsUp
                  (cluster.available_replicas (namespace_of iam cluster cfg t0) app.name s).0)
            apps
        → Succeeds (Given Db) IsTrue (λ _. Given Db) (apps_ready iam cluster cfg t ns apps)
    unfolding apps_ready
    apps_ready-Succeeds Db t ns [] same e run = Succeeds-pure true (λ _. refl)
    apps_ready-Succeeds Db t ns (app ∷ apps) same e run =
        Succeeds-if (is_off t app) _ _ (λ _. apps_ready-Succeeds Db t ns apps same e run.1)
          λ on. Succeeds-bind _ _ (looked on) λ o up.
            Succeeds-if (at_least_one iam cluster cfg o) _ _
              (λ _. apps_ready-Succeeds Db t ns apps same e run.1)
              λ down.
                Succeeds-pure false (λ now.
                  sym down ∙ IsUp-at_least_one iam cluster cfg serving running t0 o (up now))
      where
        looked :
            is_off t app ≡ false
            → Succeeds
                (Given Db)
                (λ (o : Option ℕ). Now → IsUp o)
                (λ _. Given Db)
                (on_cluster iam cluster cfg (cluster.available_replicas ns app.name))
        looked on =
            let asks = running.replicas t0 ns app.name in
            step Db (λ (o : Option ℕ). Now → IsUp o) t0 _ (refl, refl)
              (λ w p. later Now IsUp _ (asks.0 w.objects) λ now.
                subst (λ n. Answers IsUp (cluster.available_replicas n app.name w.objects).0) e
                  (run.0 w.objects (p.0 now).runs
                    (same_off iam cluster cfg serving running t0 t app same ∙ on)))
              asks.1

    pub own_namespace :
        (t : Tenant)
        → SameSpec t0 t
        → namespace_of iam cluster cfg t0 ≡ namespace_of iam cluster cfg t
    own_namespace = same_namespace iam cluster cfg serving running t0

    ensure_workloads-Succeeds :
        (Db : Type 0) (t : Tenant)
        → Db
        → SameSpec t0 t
        → Succeeds
            (Given Db)
            IsTrue
            (λ _. Given Db)
            (ensure_workloads iam cluster cfg t (namespace_of iam cluster cfg t))
    unfolding ensure_workloads
    ensure_workloads-Succeeds Db t db same =
        Succeeds-bind _ _
          (step Db Any t _ same (λ w p. running.apps t w.objects (up w p)) (running.after_apps t _))
          λ _ _.
            Succeeds-bind _ _
              (step Db Any t _ same (λ w p. running.optional_apps t w.objects (up w p))
                (running.after_optional_apps t _))
              λ _ _. apps_ready-Succeeds Db t _ catalog same (own_namespace t same) (
                All-swap (Runs iam cluster cfg t0)
                  (λ (app : CatalogApp) s.
                    is_off t0 app ≡ false
                    → Answers IsUp
                        (cluster.available_replicas (namespace_of iam cluster cfg t0) app.name s).0)
                  catalog (λ s r. r))
      where
        up : (w : Reached iam cluster cfg) → Given Db w → Stores iam cluster cfg t w.objects
        up w p =
            subst (λ ns. Answers IsUp (cluster.ready_instances ns w.objects).0)
              (own_namespace t same) (p.1 db)

    pub workloads-Succeeds :
        (t : Tenant) (done db : Bool)
        → SameSpec t0 t
        → Succeeds
            (Given (db ≡ true))
            (λ (apps : Bool). Now → done ≡ true → db ≡ true → apps ≡ true)
            (λ _. Given (db ≡ true))
            (if done && db
              then ensure_workloads iam cluster cfg t (namespace_of iam cluster cfg t)
              else pure false)
    workloads-Succeeds t done db same =
        Succeeds-if (done && db) _ _
          (λ all.
            Succeeds-post _ (λ apps e now _ _. e now) (λ _ w p. p)
              (ensure_workloads-Succeeds (db ≡ true) t (ground arith) same))
          λ not_all. Succeeds-pure false (λ _ done db. absurd (ground arith))
