-- ===== src/ControlPlane/Platform.antt =====
-- What the controller reaches: the API server of Kubernetes, and the client of Zitadel
-- (control-plane/internal/zitadel/client.go). Each call answers by the state that it finds, in any way.
use peristera.Prelude.{ℕ, String, Bool, Option, List, Result}
use peristera.ControlPlane.{Tenant, Condition}

-- zitadel.Client; ErrNotFound is `not_found`.
pub record Iam : Type 1 where
  pub State : Type 0
  pub instance_by_domain : String → State → Result String × State
  -- The slug, the domain, the name of the organisation.
  pub create_instance : String → String → String → State → Result String × State
  pub delete_instance : String → State → Result (Unit {0}) × State
  pub discovery_alive : String → State → Bool × State
  -- The issuer, the instance, the domain.
  pub add_trusted_domain : String → String → String → State → Result (Unit {0}) × State
  pub first_org_id : String → State → Result String × State
  -- The issuer, the organisation, the redirects, the redirects after a logout.
  pub ensure_stub_app : String → String → List String → List String → State → Result String × State

-- client.Client, for the kinds of object that the controller reads. Absence is `not_found` where the code
-- tells it from other errors, and `none` or `false` elsewhere. Four of them are functions of other files of
-- the controller that build objects.
pub record Cluster : Type 1 where
  pub State : Type 0
  pub get_tenant : String → State → Result (Option Tenant) × State
  pub update : Tenant → State → Result (Unit {0}) × State
  pub update_status : Tenant → State → Result (Unit {0}) × State
  pub has_namespace : String → State → Result Bool × State
  pub create_namespace : String → Tenant → State → Result (Unit {0}) × State
  -- status.readyInstances of the cluster "db", if both are there.
  pub ready_instances : String → State → Result (Option ℕ) × State
  -- status.availableReplicas of an app's Deployment, if it is there.
  pub available_replicas : String → String → State → Result (Option ℕ) × State
  pub ensure_database : Tenant → String → State → Result (Unit {0}) × State
  pub ensure_apps : Tenant → String → State → Result (Unit {0}) × State
  pub reconcile_optional_apps : Tenant → String → State → Result (Unit {0}) × State
  pub ensure_issuer_ingress : Tenant → State → Result (Unit {0}) × State
  -- meta.SetStatusCondition
  pub set_condition : Condition → List Condition → List Condition
