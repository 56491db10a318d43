-- ===== src/ControlPlane.antt =====
-- The control plane's tenants (control-plane/apis/v1alpha1/tenant_types.go), and the hosts and URLs that
-- control-plane/internal/controller/tenant_controller.go derives from one.
pub mod Catalog
pub mod Platform
pub mod Reconcile
pub mod OptionalApps
use Prim.Native.String.{◌++◌ as join}
use peristera.Prelude.{
  ℕ, String, Bool, true, false, not, ◌&&◌, ◌||◌, List, [], ◌∷◌, str_eq, if◌then◌else◌,
}

-- TenantPhase; the empty one is the phase of a tenant that no round has seen.
pub data Phase : Type 0 where
  unset pending ready deleting failed : Phase

-- metav1.Condition, less its timestamps and reasons.
pub record Condition : Type 0 where
  pub kind : String
  pub holds : Bool
  pub generation : ℕ

-- TenantStatus
pub record Status : Type 0 where
  pub phase : Phase
  pub instance_id : String
  pub issuer : String
  pub client_id : String
  pub conditions : List Condition

-- Tenant, with the fields of its metadata and its spec that the controller reads.
pub record Tenant : Type 0 where
  pub name : String
  pub generation : ℕ
  pub is_deleting : Bool
  pub has_finalizer : Bool
  pub slug : String
  pub display_name : String
  pub domain : String
  pub apps : List String
  pub status : Status

-- The settings of TenantReconciler that these functions read. `host_name` is url.Parse followed by
-- Hostname, with the empty text for an error.
pub record Config : Type 0 where
  pub base_domain : String
  pub external_port : String
  pub url_scheme : String
  pub login_domain : String
  pub host_name : String → String

module _ (cfg : Config) where
  -- hostOf
  unfoldable pub host_of : String → String
  host_of raw = if str_eq raw "" then "" else cfg.host_name raw

  -- issuerHost
  unfoldable pub issuer_host : Tenant → String
  issuer_host t = join t.slug (join "." cfg.base_domain)

  -- tenantDomain
  unfoldable pub tenant_domain : Tenant → String
  unfolding host_of issuer_host
  tenant_domain t =
      let host = host_of t.status.issuer in
      if not (str_eq host "") && not (str_eq host (issuer_host t))
      then host
      else if not (str_eq t.domain "")
      then t.domain
      else join t.slug (join "." cfg.base_domain)

  abbrev scheme_of : String → String
  scheme_of scheme = if str_eq scheme "" then "http" else scheme

  -- publicURL
  unfoldable pub public_url : String → String
  public_url host =
      let scheme = scheme_of cfg.url_scheme in
      let port = cfg.external_port in
      if str_eq port ""
        || (str_eq scheme "https" && str_eq port "443")
        || (str_eq scheme "http" && str_eq port "80")
      then join scheme (join "://" host)
      else join scheme (join "://" (join host (join ":" port)))

  -- tenantIssuer
  unfoldable pub tenant_issuer : Tenant → String
  unfolding public_url issuer_host
  tenant_issuer t =
      if not (str_eq t.status.issuer "") then t.status.issuer else public_url (issuer_host t)

  -- instanceDomain
  unfoldable pub instance_domain : Tenant → String
  unfolding host_of issuer_host
  instance_domain t =
      let host = host_of t.status.issuer in if not (str_eq host "") then host else issuer_host t

-- orgName
unfoldable pub org_name : Tenant → String
org_name t = if not (str_eq t.display_name "") then t.display_name else t.slug
