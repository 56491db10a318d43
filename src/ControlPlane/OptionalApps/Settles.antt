-- ===== src/ControlPlane/OptionalApps/Settles.antt =====
-- A toggle of an optional app settles (control-plane/internal/controller/optional_apps.go): what is written
-- is what is wanted, and then nothing is written.
use peristera.Prelude.{
  ◌≡◌, ◌≢◌, refl, sym, ap, ap₂, subst, ◌∙◌, String, true, inl, inr, Option, none, some, List, [],
  ◌∷◌, ◌++◌, map, All, All-append, str_eq, eq_iff, eq_refl, Bool-cases, arith,
}
use mathlib.Core.List.{append-nil}
use peristera.ControlPlane.{Tenant, Config}
use peristera.ControlPlane.Catalog.{
  CatalogApp, is_off, calls_to, tenant_enables, enabled_callers_of, equal_string_set,
}
use peristera.ControlPlane.Catalog.Sets.{equal_string_set_iff}
use peristera.ControlPlane.OptionalApps.{
  Peer, pods, caller_names, peers_of, callers_update, EnvVar, office_env, is_office_var,
  without_office_env, equal_env, env_update,
}

abbrev pub AreNamed : List CatalogApp → Type 0
AreNamed = All (λ (a : CatalogApp). a.name ≢ "")

calls_to-named :
    (target caller : String) (calls : List String)
    → caller ≢ ""
    → All (λ (name : String). name ≢ "") (calls_to target caller calls)
unfolding calls_to
calls_to-named target caller [] ne = tt
calls_to-named target caller (c ∷ calls) ne = elim (Bool-cases (str_eq c target)) [
  | inl hit ↦ rw hit (ne, calls_to-named target caller calls ne)
  | inr miss ↦ rw miss (calls_to-named target caller calls ne)
]

enabled_callers_of-named :
    (apps : List CatalogApp) (t : Tenant) (target : String)
    → AreNamed apps
    → All (λ (name : String). name ≢ "") (enabled_callers_of apps t target)
unfolding enabled_callers_of
enabled_callers_of-named [] t target named = tt
enabled_callers_of-named (a ∷ apps) t target named = elim (Bool-cases (is_off t a)) [
  | inl off ↦ rw off (enabled_callers_of-named apps t target named.1)
  | inr enabled ↦ rw enabled (
      All-append _ (calls_to target a.name a.calls) _ (calls_to-named target a.name a.calls named.0)
        (enabled_callers_of-named apps t target named.1))
]

caller_names-pods :
    (names : List String)
    → All (λ (name : String). name ≢ "") names
    → caller_names (map pods names) ≡ names
unfolding caller_names
caller_names-pods [] named = refl
caller_names-pods (x ∷ names) named =
    ground (arith, eq_iff x "", named.0, caller_names-pods names named.1)

equal_string_set_refl : (a : List String) → equal_string_set a a ≡ true
equal_string_set_refl a = (equal_string_set_iff a a).1 (λ x. refl)

some-inj : {A : Type 0} {x y : A} → some x ≡ some y → x ≡ y
some-inj e = cc

none-ne-some : {A : Type 0} {x : A} → ◌≡◌ {A = Option A} none (some x) → ⊥
none-ne-some e = cc

peers_of-settles :
    (apps : List CatalogApp) (t : Tenant)
    → AreNamed apps
    → (caller_names (peers_of (enabled_callers_of apps t "kamara")) ∷ []
        ≡ enabled_callers_of apps t "kamara" ∷ [])
      × (callers_update apps t (peers_of (enabled_callers_of apps t "kamara") ∷ []) ≡ none)
unfolding callers_update peers_of caller_names
peers_of-settles apps t named =
    let names = enabled_callers_of apps t "kamara" in
    let admitted = caller_names-pods names (enabled_callers_of-named apps t "kamara" named) in
    (ap (λ (n : List String). n ∷ []) admitted, rw (admitted, equal_string_set_refl names) refl)

-- A write to the policy admits the enabled callers, in the catalog's order, and after it the policy is
-- left alone.
pub callers_update-settles :
    (apps : List CatalogApp) (t : Tenant) (rules rules' : List (List Peer))
    → AreNamed apps
    → callers_update apps t rules ≡ some rules'
    → (map caller_names rules' ≡ enabled_callers_of apps t "kamara" ∷ [])
      × (callers_update apps t rules' ≡ none)
unfolding callers_update peers_of caller_names
callers_update-settles apps t [] rules' named e = cc
callers_update-settles apps t (from ∷ other ∷ rules) rules' named e = cc
callers_update-settles apps t (from ∷ []) rules' named e =
    elim (Bool-cases (equal_string_set (caller_names from) (enabled_callers_of apps t "kamara"))) [
      | inl same ↦ absurd (none-ne-some (rw same at e))
      | inr differ ↦
          subst
            (λ (r : List (List Peer)).
              (map caller_names r ≡ enabled_callers_of apps t "kamara" ∷ [])
              × (callers_update apps t r ≡ none))
            (some-inj (rw differ at e)) (peers_of-settles apps t named)
    ]

without_office_env-append :
    (xs ys : List EnvVar)
    → without_office_env (xs ++ ys) ≡ without_office_env xs ++ without_office_env ys
unfolding without_office_env
without_office_env-append [] ys = refl
without_office_env-append (x ∷ xs) ys = elim (Bool-cases (is_office_var x)) [
  | inl office ↦ rw office (without_office_env-append xs ys)
  | inr other ↦ rw other (ap (◌∷◌ x) (without_office_env-append xs ys))
]

without_office_env_twice :
    (xs : List EnvVar) → without_office_env (without_office_env xs) ≡ without_office_env xs
unfolding without_office_env
without_office_env_twice [] = refl
without_office_env_twice (x ∷ xs) = elim (Bool-cases (is_office_var x)) [
  | inl office ↦ rw office (without_office_env_twice xs)
  | inr other ↦ rw (other, other) (ap (◌∷◌ x) (without_office_env_twice xs))
]

without_office_env-office :
    (cfg : Config) (t : Tenant) (ns : String) → without_office_env (office_env cfg t ns) ≡ []
unfolding without_office_env office_env
without_office_env-office cfg t ns = elim (Bool-cases (tenant_enables t "office")) [
  | inl on ↦ rw on refl
  | inr off ↦ rw off refl
]

equal_env_refl : (env : List EnvVar) → equal_env env env ≡ true
unfolding equal_env
equal_env_refl [] = refl
equal_env_refl (e ∷ env) = rw (eq_refl e.name, eq_refl e.value) (equal_env_refl env)

office_last :
    (cfg : Config) (t : Tenant) (ns : String) (env : List EnvVar)
    → without_office_env (without_office_env env ++ office_env cfg t ns) ≡ without_office_env env
office_last cfg t ns env =
    without_office_env-append (without_office_env env) (office_env cfg t ns)
    ∙ ap₂ ◌++◌ (without_office_env_twice env) (without_office_env-office cfg t ns)
    ∙ append-nil (without_office_env env)

env_update-done :
    (cfg : Config) (t : Tenant) (ns : String) (env : List EnvVar) (others : List (List EnvVar))
    → env ≡ without_office_env env ++ office_env cfg t ns
    → env_update cfg t ns (env ∷ others) ≡ none
unfolding env_update
env_update-done cfg t ns env others e =
    let same : equal_env env (without_office_env env ++ office_env cfg t ns) ≡ true =
      subst (λ d. equal_env env d ≡ true) e (equal_env_refl env) in
    rw same refl

-- A write to Kamara's environment leaves its other variables as they were, in their order, has the
-- office's variables after them exactly when the office is enabled, and after it the environment is
-- left alone.
env_update-settles :
    (cfg : Config) (t : Tenant) (ns : String) (env env' : List EnvVar)
    (others others' : List (List EnvVar))
    → env_update cfg t ns (env ∷ others) ≡ some (env' ∷ others')
    → (env' ≡ without_office_env env ++ office_env cfg t ns)
      × (without_office_env env' ≡ without_office_env env)
      × (others' ≡ others)
      × (env_update cfg t ns (env' ∷ others') ≡ none)
unfolding env_update
env_update-settles cfg t ns env env' others others' e =
    elim (Bool-cases (equal_env env (without_office_env env ++ office_env cfg t ns))) [
      | inl same ↦ absurd (none-ne-some (rw same at e))
      | inr differ ↦
          let w = some-inj (rw differ at e) in
          let written : env' ≡ without_office_env env ++ office_env cfg t ns = cc in
          let rest : others' ≡ others = cc in
          let kept = ap without_office_env written ∙ office_last cfg t ns env in
          (
            written,
            kept,
            rest,
            env_update-done cfg t ns env' others'
                (written ∙ sym (ap (λ v. v ++ office_env cfg t ns) kept)),
          )
    ]
