-- ===== src/Token.antt =====
-- internal/webhook/token/handler.go: a bearer token "<region>:<keystone token>" becomes a
-- Kubernetes user. Keystone, behind gophercloud, is not part of the repository: it is the argument
-- of type `Keystone`.
pub mod Bearer
pub mod Admission
use persephone.Base.{
  ℕ, String, ◌<>◌, Bool, true, false, ◌==◌, Option, none, some, List, [], ◌∷◌, ◌++◌,
}
use persephone.Base.{map, Result, ok, err, ◌>>=◌, wrap, if◌then◌else◌}
use persephone.Base.Dict.{Dict, lookup}
use persephone.Base.Texts.{split_colon, contains}
use persephone.Config.{RegionalConfig, PersephoneConfig}
use persephone.UserInfo.{
  ExtraValue, ExtractError, OpenStackUserInfo, to_extra, open_stack_user_info_from_extra,
}
use persephone.Garden.{Cluster}
use persephone.Project.{ProjectError, reconcile_gardener_project_resources}

pub data EndpointError : Type 0 where
  invalid_token_format : EndpointError
  region_not_found identity_endpoint_empty : String → EndpointError

pub record Endpoint : Type 0 where
  pub endpoint : String
  pub token : String
  pub region : String

-- `getRegionalIdentityEndpoint`, once the token is split.
abbrev pub endpoint_of : PersephoneConfig → String → String → Result EndpointError Endpoint
endpoint_of cfg region token = elim (lookup region cfg.regions) [
  | none ↦ err (region_not_found region)
  | some regional ↦
      if regional.identity_endpoint == ""
      then err (identity_endpoint_empty region)
      else ok (record { endpoint = regional.identity_endpoint; token = token; region = region })
]

abbrev pub endpoint_of_parts : PersephoneConfig → List String → Result EndpointError Endpoint
endpoint_of_parts cfg (region ∷ token ∷ []) = endpoint_of cfg region token
endpoint_of_parts cfg _ = err invalid_token_format

unfoldable pub get_regional_identity_endpoint :
    PersephoneConfig → String → Result EndpointError Endpoint
get_regional_identity_endpoint cfg token = endpoint_of_parts cfg (split_colon token)

-- What Keystone tells of a token.
pub record Domain : Type 0 where
  pub id : String
  pub name : String

pub record KeystoneUser : Type 0 where
  pub id : String
  pub name : String
  pub domain : Domain

pub record KeystoneProject : Type 0 where
  pub id : String
  pub name : String
  pub domain : Domain

-- The result of `tokens.Get`: each part is extracted from it apart, an error being its text, and
-- `none` the nil pointer for a part that the answer does not have (an unscoped token has no project).
pub record TokenResult : Type 0 where
  pub user : Result String (Option KeystoneUser)
  pub project : Result String (Option KeystoneProject)
  pub roles : Result String (List String)  -- their names

-- `new_client` is the error of making an identity client for an endpoint and a token, if any.
pub record Keystone : Type 0 where
  pub new_client : String → String → Option String
  pub get_token : String → String → TokenResult

-- The user info of a Kubernetes user.
pub record K8sUserInfo : Type 0 where
  pub username : String
  pub uid : String
  pub groups : List String
  pub extra : Dict ExtraValue

pub data UserInfoError : Type 0 where
  failed_endpoint : EndpointError → UserInfoError
  failed_client failed_user failed_project failed_roles : String → UserInfoError
  nil_dereference : UserInfoError

-- The class of an error, by its text.
unfoldable pub classify_error : String → String
classify_error err_str =
    if contains err_str "401"
    then "unauthorized"
    else if contains err_str "403"
    then "forbidden"
    else if contains err_str "404"
    then "not_found"
    else if contains err_str "timeout"
    then "timeout"
    else if contains err_str "connection"
    then "connection_error"
    else "other"

unfoldable pub user_info_of : String → KeystoneUser → KeystoneProject → List String → K8sUserInfo
user_info_of region user project roles = record {
  username = user.name;
  uid = user.id;
  groups = map (λ role. project.id <> (":" <> role)) roles;
  extra = to_extra (record {
    project_domain_id = project.domain.id;
    project_domain_name = project.domain.name;
    project_id = project.id;
    project_name = project.name;
    user_domain_id = user.domain.id;
    user_domain_name = user.domain.name;
    region = region;
  });
}

abbrev check_client : Keystone → Endpoint → Result UserInfoError (Unit {0})
check_client keystone e = elim (keystone.new_client e.endpoint e.token) [
  | none ↦ ok tt
  | some x ↦ err (failed_client x)
]

-- A user or a project that is nil ends in a panic, where its fields are read.
abbrev pub dereferenced :
    String
    → Option KeystoneUser
    → Option KeystoneProject
    → List String
    → Result UserInfoError K8sUserInfo
dereferenced region none project roles = err nil_dereference
dereferenced region (some user) none roles = err nil_dereference
dereferenced region (some user) (some project) roles = ok (user_info_of region user project roles)

-- `makeUserInfo`. Its metrics are those of `keystone_failure` below.
unfoldable pub make_user_info :
    Keystone → PersephoneConfig → String → Result UserInfoError K8sUserInfo
make_user_info keystone cfg token = do
  e ← wrap failed_endpoint (get_regional_identity_endpoint cfg token)
  _ ← check_client keystone e
  user ← wrap failed_user (keystone.get_token e.endpoint e.token).user
  project ← wrap failed_project (keystone.get_token e.endpoint e.token).project
  roles ← wrap failed_roles (keystone.get_token e.endpoint e.token).roles
  dereferenced e.region user project roles

pub data Metric : Type 0 where
  authentication_attempt authentication_failure keystone_auth_failure resource_reconciliation :
      String → String → Metric

-- The region that the metrics of a failure name: empty where the token does not give one.
abbrev pub region_of_token : PersephoneConfig → String → String
region_of_token cfg token = elim (get_regional_identity_endpoint cfg token) [
  | err _ ↦ ""
  | ok e ↦ e.region
]

abbrev pub keystone_failure : String → UserInfoError → List Metric
keystone_failure region (failed_user e) = keystone_auth_failure region (classify_error e) ∷ []
keystone_failure region (failed_project e) = keystone_auth_failure region (classify_error e) ∷ []
keystone_failure region (failed_roles e) = keystone_auth_failure region (classify_error e) ∷ []
keystone_failure region _ = []

pub data Response : Type 0 where
  authenticated : K8sUserInfo → Response
  failed_user_info : UserInfoError → Response
  failed_extras : ExtractError → Response
  failed_resources : ProjectError → Response
  panicked : Response

-- The end of `Handle` where no user info is made; a panic leaves it at once.
abbrev pub not_authenticated :
    {W : Type 0} → String → UserInfoError → W → Response × List Metric × W
not_authenticated region nil_dereference w = (panicked, [], w)
not_authenticated region e w = (
  failed_user_info e,
  keystone_failure region e
      ++ (authentication_attempt region "failure"
          ∷ authentication_failure region "make_user_info_failed"
          ∷ []),
  w,
)

-- The end of `Handle`, by the result of the reconciliation.
abbrev pub reconciled :
    {W : Type 0} → K8sUserInfo → String → Option ProjectError × W → Response × List Metric × W
reconciled info region (some e, w) = (
  failed_resources e,
  authentication_attempt region "failure" ∷ resource_reconciliation region "error" ∷ [],
  w,
)
reconciled info region (none, w) = (
  authenticated info,
  authentication_attempt region "success" ∷ resource_reconciliation region "success" ∷ [],
  w,
)

module _ {W : Type 0} (keystone : Keystone) (compute_sha256_hex : String → String) (c : Cluster W)
    (cfg : PersephoneConfig) (reconcile_resources : Bool) where
  -- `Handle`: the response, the metrics recorded on the way, and the state of the garden.
  unfoldable pub handle : String → W → Response × List Metric × W
  handle token w = elim (make_user_info keystone cfg token) [
    | err e ↦ not_authenticated (region_of_token cfg token) e w
    | ok info ↦ elim reconcile_resources [
      | false ↦ (authenticated info, [], w)
      | true ↦ elim (open_stack_user_info_from_extra info.extra) [
        | err e ↦ (failed_extras e, [], w)
        | ok o ↦
            reconciled info o.region
              (reconcile_gardener_project_resources compute_sha256_hex c cfg o w)
      ]
    ]
  ]
