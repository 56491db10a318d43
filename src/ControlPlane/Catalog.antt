-- ===== src/ControlPlane/Catalog.antt =====
-- The catalog of apps (control-plane/internal/controller/apps.go): which app a tenant runs, and which may
-- call which.
pub mod Sets
use peristera.Prelude.{
  ℕ, String, Bool, true, false, not, ◌&&◌, ◌||◌, List, [], ◌∷◌, ◌++◌, length, str_eq, ◌==◌,
  if◌then◌else◌,
}
use peristera.ControlPlane.{Tenant}

-- CatalogApp; its image is left out.
pub record CatalogApp : Type 0 where
  pub name : String
  pub port : ℕ
  pub needs_database : Bool
  pub needs_open_fga : Bool
  pub needs_blob : Bool
  pub needs_dek : Bool
  pub calls : List String
  pub optional : Bool
  pub is_external : Bool

abbrev plain_app : String → ℕ → CatalogApp
plain_app name port = record {
  name = name;
  port = port;
  needs_database = false;
  needs_open_fga = false;
  needs_blob = false;
  needs_dek = false;
  calls = [];
  optional = false;
  is_external = false;
}

abbrev pub catalog : List CatalogApp
catalog =
    plain_app "stub" 5556
    ∷ record (plain_app "ergonomos" 5570) {
      needs_database = true;
      needs_open_fga = true;
      calls = "kamara" ∷ [];
    }
    ∷ record (plain_app "kamara" 5580) {
      needs_database = true;
      needs_open_fga = true;
      needs_blob = true;
      needs_dek = true;
    }
    ∷ record (plain_app "office" 9980) {
      calls = "kamara" ∷ [];
      optional = true;
      is_external = true;
    }
    ∷ []

unfoldable pub contains : String → List String → Bool
contains name [] = false
contains name (a ∷ apps) = str_eq a name || contains name apps

-- tenantEnables
unfoldable pub tenant_enables : Tenant → String → Bool
unfolding contains
tenant_enables t name = contains name t.apps

-- Whether the app is skipped for the tenant: an optional one that it has not named.
unfoldable pub is_off : Tenant → CatalogApp → Bool
is_off t app = app.optional && not (tenant_enables t app.name)

-- The loop over the calls of one app.
unfoldable pub calls_to : String → String → List String → List String
calls_to target caller [] = []
calls_to target caller (c ∷ calls) =
    let rest = calls_to target caller calls in if str_eq c target then caller ∷ rest else rest

-- callersOf, over a catalog.
unfoldable pub callers_of : List CatalogApp → String → List String
unfolding calls_to
callers_of [] target = []
callers_of (a ∷ apps) target = calls_to target a.name a.calls ++ callers_of apps target

-- enabledCallersOf, over a catalog.
unfoldable pub enabled_callers_of : List CatalogApp → Tenant → String → List String
unfolding calls_to
enabled_callers_of [] t target = []
enabled_callers_of (a ∷ apps) t target =
    let rest = enabled_callers_of apps t target in
    if is_off t a then rest else calls_to target a.name a.calls ++ rest

-- IsOptionalApp, over a catalog.
unfoldable pub is_optional_app : List CatalogApp → String → Bool
is_optional_app [] name = false
is_optional_app (a ∷ apps) name = (str_eq a.name name && a.optional) || is_optional_app apps name

-- The keys of the map that a list of names fills.
unfoldable pub keys : List String → List String
keys [] = []
keys (s ∷ names) = let rest = keys names in if contains s rest then rest else s ∷ rest

unfoldable pub all_in : List String → List String → Bool
all_in [] names = true
all_in (s ∷ rest) names = contains s names && all_in rest names

-- equalStringSet
unfoldable pub equal_string_set : List String → List String → Bool
equal_string_set a b =
    if length (keys a) == length (keys b) then all_in (keys a) (keys b) else false
