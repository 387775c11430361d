-- ===== src/Scikube/Garden.antt =====
-- cmd/scikube/cmd/kubeconfig-for-garden.go: the command `scikube kubeconfig-for-garden`. The provider
-- client of gophercloud and the YAML encoder are parameters.
pub mod Environment
use persephone.Base.{String, Bool, ◌==◌, ◌&&◌, Option, none, some, List}
use persephone.Base.{Result, ok, err, ◌>>=◌, wrap, if◌then◌else◌}
use persephone.Auth.{CatalogEntry}
use persephone.Kubeconfig.{
  KubeconfigError, GardenConfig, keystone_application_credential_auth, keystone_password_auth,
  get_kubeconfig_for_garden,
}
use persephone.Kubeconfig as Kubeconfig
use persephone.OpenStack.Catalog.{EndpointError, EndpointOpts, get_persephone_endpoint}
use persephone.Scikube.{Settings, SettingsError, AuthOptions, get_auth_options}

-- What an authenticated client answers; `created` is whether its result is that of a token's
-- creation, and `project` the ID of its project: `none` for the nil pointer that a token without a
-- project gives.
pub record Provider : Type 0 where
  pub created : Bool
  pub project : Result String (Option String)
  pub locator : EndpointOpts → Result String String
  pub catalog : Result String (List CatalogEntry)

pub data GardenError : Type 0 where
  settings_refused : SettingsError → GardenError
  project_id_given project_id_missing no_auth_result nil_dereference : GardenError
  no_provider no_project could_not_marshal : String → GardenError
  no_endpoint : EndpointError → GardenError
  could_not_create : KubeconfigError → GardenError

-- Where the API is, with its region, and the project.
pub record Target : Type 0 where
  pub url : String
  pub region : String
  pub project_id : String

-- The options that are handed on to `GetKubeconfigForGarden`.
abbrev pub kubeconfig_options : AuthOptions → String → Kubeconfig.AuthOptions
kubeconfig_options o project_id = record {
  identity_endpoint = o.identity_endpoint;
  domain_name = o.domain_name;
  scope = some (record { project_id = project_id; project_name = o.scope.project_name });
  username = o.username;
  password = o.password;
  application_credential_id = o.application_credential_id;
  application_credential_name = o.application_credential_name;
  application_credential_secret = o.application_credential_secret;
}

abbrev pub auth_method : AuthOptions → String
auth_method o =
    if o.application_credential_id == ""
      && o.application_credential_name == ""
      && o.application_credential_secret == ""
    then keystone_password_auth
    else keystone_application_credential_auth

-- A nil project ends in a panic, where its ID is read.
abbrev id_of : Option String → Result GardenError String
id_of (some id) = ok id
id_of none = err nil_dereference

module _ (authenticated_client : AuthOptions → Result String Provider) (s : Settings) where
  -- The part for a provider whose authentication created a token.
  abbrev pub located : Provider → Result GardenError Target
  located p = do
    project ← wrap no_project p.project
    project_id ← id_of project
    endpoint ← wrap no_endpoint (
        get_persephone_endpoint p.locator p.catalog (s.text "SCIKUBE_LANDSCAPE")
          (s.text "OS_REGION_NAME"))
    ok (record { url = endpoint.url; region = endpoint.region; project_id = project_id })

  -- The address is asked of the catalog, or given with the project.
  unfoldable pub find_target : AuthOptions → Result GardenError Target
  find_target o =
      if s.text "SCIKUBE_URL" == ""
      then (if s.text "SCIKUBE_PROJECT_ID" == ""
          then (wrap no_provider (authenticated_client o) >>= λ p.
              (if p.created then located p else err no_auth_result))
          else err project_id_given)
      else if s.text "SCIKUBE_PROJECT_ID" == ""
      then err project_id_missing
      else ok (record {
        url = s.text "SCIKUBE_URL";
        region = s.text "OS_REGION_NAME";
        project_id = s.text "SCIKUBE_PROJECT_ID";
      })

  unfoldable pub garden_kubeconfig : Result GardenError GardenConfig
  garden_kubeconfig = do
    o ← wrap settings_refused (get_auth_options s)
    target ← find_target o
    wrap could_not_create (
        get_kubeconfig_for_garden (kubeconfig_options o target.project_id) (auth_method o)
          target.url target.region)

  -- `kubeconfigForGarden`: what it prints.
  unfoldable pub kubeconfig_for_garden :
      (GardenConfig → Result String String) → Result GardenError String
  kubeconfig_for_garden marshal =
      garden_kubeconfig >>= λ config. wrap could_not_marshal (marshal config)
