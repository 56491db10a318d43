-- ===== src/ControlPlane/OptionalApps.antt =====
-- The optional apps of a tenant (control-plane/internal/controller/optional_apps.go, with officeEnv of
-- apps.go): what is torn down, and what is written to the two objects that a toggle changes. `none` is no
-- write.
pub mod Settles
use Prim.Native.String.{◌++◌ as join}
use peristera.Prelude.{
  ℕ, String, Bool, true, false, not, ◌&&◌, ◌||◌, Option, none, some, List, [], ◌∷◌, ◌++◌, map,
  str_eq, if◌then◌else◌,
}
use peristera.ControlPlane.{Tenant, Config, public_url, tenant_domain}
use peristera.ControlPlane.Catalog.{
  CatalogApp, tenant_enables, enabled_callers_of, equal_string_set,
}

-- The apps that reconcileOptionalApps tears down.
unfoldable pub torn_down : Tenant → List CatalogApp → List String
torn_down t [] = []
torn_down t (app ∷ apps) =
    let rest = torn_down t apps in
    if not app.optional || tenant_enables t app.name then rest else app.name ∷ rest

-- NetworkPolicyPeer: one with a namespace selector or with no pod selector, or pods by the label of their
-- name, which is empty where they have none.
pub data Peer : Type 0 where
  no_pod : Peer
  pods : String → Peer

-- callerNames
unfoldable pub caller_names : List Peer → List String
caller_names [] = []
caller_names (no_pod ∷ peers) = caller_names peers
caller_names (pods name ∷ peers) =
    let rest = caller_names peers in if str_eq name "" then rest else name ∷ rest

unfoldable pub peers_of : List String → List Peer
peers_of callers = no_pod ∷ map pods callers

-- reconcileKamaraCallers, on the ingress rules of the policy: only one rule is written to.
unfoldable pub callers_update :
    List CatalogApp → Tenant → List (List Peer) → Option (List (List Peer))
unfolding caller_names peers_of
callers_update apps t [] = none
callers_update apps t (from ∷ []) =
    let desired = enabled_callers_of apps t "kamara" in
    if equal_string_set (caller_names from) desired then none else some (peers_of desired ∷ [])
callers_update apps t (from ∷ other ∷ rules) = none

-- EnvVar: `source` is its ValueFrom.
pub record EnvVar : Type 0 where
  pub name : String
  pub value : String
  pub source : String

abbrev plain : String → String → EnvVar
plain name value = record { name = name; value = value; source = "" }

-- officeEnv
unfoldable pub office_env : Config → Tenant → String → List EnvVar
office_env cfg t ns =
    let vars =
      plain "OFFICE_URL" (public_url cfg (join "office." (tenant_domain cfg t)))
      ∷ plain "WOPI_SRC_BASE" (join "http://kamara." (join ns ".svc.cluster.local"))
      ∷ [] in
    if not (tenant_enables t "office") then [] else vars

unfoldable pub is_office_var : EnvVar → Bool
is_office_var e = str_eq e.name "OFFICE_URL" || str_eq e.name "WOPI_SRC_BASE"

-- withoutOfficeEnv
unfoldable pub without_office_env : List EnvVar → List EnvVar
unfolding is_office_var
without_office_env [] = []
without_office_env (e ∷ env) =
    let rest = without_office_env env in if is_office_var e then rest else e ∷ rest

-- equalEnv
unfoldable pub equal_env : List EnvVar → List EnvVar → Bool
equal_env [] [] = true
equal_env [] (b ∷ bs) = false
equal_env (a ∷ as_) [] = false
equal_env (a ∷ as_) (b ∷ bs) =
    let rest = equal_env as_ bs in
    if not (str_eq a.name b.name) || not (str_eq a.value b.value) then false else rest

-- reconcileKamaraEnv, on the environments of the Deployment's containers.
unfoldable pub env_update :
    Config → Tenant → String → List (List EnvVar) → Option (List (List EnvVar))
unfolding without_office_env equal_env
env_update cfg t ns [] = none
env_update cfg t ns (env ∷ others) =
    let desired = without_office_env env ++ office_env cfg t ns in
    if equal_env env desired then none else some (desired ∷ others)
