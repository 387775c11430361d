-- ===== src/Kubeconfig.antt =====
-- internal/kubernetes/kubeconfig.go: the kubeconfigs that are handed out. A configuration has the
-- parts that the code sets; loading one from a file, and the API, are arguments.
pub mod Secrecy
use persephone.Base.{
  ℕ, String, Bool, true, false, ◌==◌, ◌||◌, Option, none, some, List, [], ◌∷◌, ◌++◌, Result, ok,
  err,
}
use persephone.Base.{◌>>=◌, wrap, if◌then◌else◌}
use persephone.Base.Dict.{Dict, lookup}
use persephone.Labels.{get_gardener_project_namespace_name}

pub record Scope : Type 0 where
  pub project_id : String
  pub project_name : String

pub record AuthOptions : Type 0 where
  pub identity_endpoint : String
  pub domain_name : String
  pub scope : Option Scope
  pub username : String
  pub password : String
  pub application_credential_id : String
  pub application_credential_name : String
  pub application_credential_secret : String

abbrev pub keystone_application_credential_auth : String
keystone_application_credential_auth = "application-credential-auth"

abbrev pub keystone_password_auth : String
keystone_password_auth = "password-auth"

pub record ExecConfig : Type 0 where
  pub api_version : String
  pub command : String
  pub args : List String
  pub env : List (String × String)
  pub install_hint : String
  pub provide_cluster_info : Bool
  pub interactive : Bool

pub record Context : Type 0 where
  pub auth_info : String
  pub cluster : String
  pub namespace : String

-- Clusters have their server.
pub record GardenConfig : Type 0 where
  pub api_version : String
  pub kind : String
  pub clusters : Dict String
  pub contexts : Dict Context
  pub current_context : String
  pub auth_infos : Dict ExecConfig

pub data KubeconfigError : Type 0 where
  missing : String → KubeconfigError
  incomplete_application_credential incomplete_password : KubeconfigError
  unsupported_method : String → KubeconfigError

abbrev pub required : String → String → Result KubeconfigError (Unit {0})
required what value = if value == "" then err (missing what) else ok tt

abbrev pub required_scope : Option Scope → Result KubeconfigError Scope
required_scope none = err (missing "Scope")
required_scope (some scope) = ok scope

-- The first switch on the method.
unfoldable pub check_method : String → AuthOptions → Result KubeconfigError (Unit {0})
check_method method o =
    if method == keystone_application_credential_auth
    then (if o.application_credential_id == ""
          || o.application_credential_name == ""
          || o.application_credential_secret == ""
        then err incomplete_application_credential
        else ok tt)
    else if method == keystone_password_auth
    then (if o.username == "" || o.password == "" then err incomplete_password else ok tt)
    else err (unsupported_method method)

-- The second: the password itself is not passed on.
unfoldable pub method_env : String → AuthOptions → List (String × String)
method_env method o =
    if method == keystone_application_credential_auth
    then ("OS_APPLICATION_CREDENTIAL_ID", o.application_credential_id)
      ∷ ("OS_APPLICATION_CREDENTIAL_NAME", o.application_credential_name)
      ∷ ("OS_APPLICATION_CREDENTIAL_SECRET", o.application_credential_secret)
      ∷ []
    else if method == keystone_password_auth
    then ("OS_USERNAME", o.username) ∷ []
    else []

abbrev pub exec_config : String → AuthOptions → Scope → ExecConfig
exec_config method o scope = record {
  api_version = "client.authentication.k8s.io/v1";
  command = "scikube";
  args = "auth" ∷ [];
  env =
      (("OS_AUTH_URL", o.identity_endpoint)
        ∷ ("OS_DOMAIN_NAME", o.domain_name)
        ∷ ("OS_PROJECT_DOMAIN_NAME", o.domain_name)
        ∷ ("OS_PROJECT_NAME", scope.project_name)
        ∷ [])
      ++ method_env method o;
  install_hint =
      "Download the auth plugin from https://github.com/sap-cloud-infrastructure/persephone/releases/latest and add it to PATH";
  provide_cluster_info = true;
  interactive = false;
}

abbrev pub garden_config : String → AuthOptions → Scope → String → String → GardenConfig
garden_config method o scope api_endpoint region = record {
  api_version = "v1";
  kind = "Config";
  clusters = ("garden", api_endpoint) ∷ [];
  contexts =
      (
        "garden",
        record {
          auth_info = "garden-user";
          cluster = "garden";
          namespace = get_gardener_project_namespace_name region scope.project_id;
        },
      )
      ∷ [];
  current_context = "garden";
  auth_infos = ("garden-user", exec_config method o scope) ∷ [];
}

unfoldable pub get_kubeconfig_for_garden :
    AuthOptions → String → String → String → Result KubeconfigError GardenConfig
get_kubeconfig_for_garden o method api_endpoint region = do
  _ ← required "API endpoint" api_endpoint
  _ ← required "RegionName" region
  _ ← required "IdentityEndpoint" o.identity_endpoint
  _ ← required "DomainName" o.domain_name
  scope ← required_scope o.scope
  _ ← required "Scope.ProjectID" scope.project_id
  _ ← required "Scope.ProjectName" scope.project_name
  _ ← check_method method o
  ok (garden_config method o scope api_endpoint region)

-- The errors of `GetKubeconfigForShoot`.
pub data ShootKubeconfigError : Type 0 where
  could_not_load no_rest_config no_client could_not_create : String → ShootKubeconfigError
  no_current_context no_namespace nil_dereference : ShootKubeconfigError

-- A loaded kubeconfig, and what the client answers on it: the errors of the REST configuration and
-- of the client, and the kubeconfig that the subresource "adminkubeconfig" of a Shoot is created
-- with, for a namespace, a name and a number of seconds.
pub record Garden : Type 0 where
  pub current_context : String
  pub contexts : Dict Context
  pub rest_config_error : Option String
  pub client_error : Option String
  pub create_admin_kubeconfig : String → String → ℕ → Result String String

abbrev or_else :
    {A : Type 0}
    → Option String
    → (String → ShootKubeconfigError)
    → Result ShootKubeconfigError A
    → Result ShootKubeconfigError A
or_else (some e) f next = err (f e)
or_else none f next = next

-- The context is looked up without a check that it is there.
unfoldable pub get_kubeconfig_for_shoot :
    Result String Garden → String → ℕ → Result ShootKubeconfigError String
get_kubeconfig_for_shoot loaded shoot_name expiration_seconds = elim loaded [
  | err e ↦ err (could_not_load e)
  | ok g ↦
      if g.current_context == ""
      then err no_current_context
      else elim (lookup g.current_context g.contexts) [
        | none ↦ err nil_dereference
        | some context ↦
            if context.namespace == ""
            then err no_namespace
            else or_else g.rest_config_error no_rest_config (
                or_else g.client_error no_client (
                  wrap could_not_create
                    (g.create_admin_kubeconfig context.namespace shoot_name expiration_seconds)))
      ]
]
