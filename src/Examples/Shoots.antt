-- ===== src/Examples/Shoots.antt =====
-- The Shoot "web" of a user of the region "qa", created with a worker and without a secret yet.
use persephone.ShootAdmission.Newest.{IsSortOf}
use mathlib.Core.Path.{subst}
use persephone.Base.{
  ◌≡◌, ◌↔◌, refl, String, true, false, none, some, List, [], ◌∷◌, Result, ok, err, arith, ◌<>◌,
  ◌==◌, if◌then◌else◌,
}
use persephone.UserInfo.{
  OpenStackUserInfo, to_extra, open_stack_user_info_from_extra, has_open_stack_user_info,
  get_first_value_for_key,
}
use persephone.OpenStack.{ApplicationCredential}
use persephone.Rotation.{InternalSecret, done, credentials_binding_for_secret}
use persephone.Rotation.Cleanup.{internal_secret_deletion_allowed}
use persephone.ShootAdmission.Credentials.{
  ensure_open_stack_credential_internal_secret_and_binding,
  ensure_application_credential_internal_secret_for_shoot,
  ensure_credentials_binding_for_internal_secret, application_credentials_internal_secret,
  new_application_credential_name,
}
use persephone.Labels.{get_application_credential_internal_secret_name}
use persephone.ShootAdmission.{
  Env, Request, create, update, ShootObject, InfrastructureConfig, RawExtension, raw, object,
  Network, ControlPlaneConfig,
}
use persephone.ShootAdmission.Infrastructure.{
  get_external_network_for_project, set_infrastructure, given_config, detect_floating_pool,
  complete_spec,
}
use persephone.ShootAdmission.Networks.{HasOnly, get_external_network_for_project_iff}
use persephone.ShootAdmission.Handler.{
  handle, mutate_for, mutate, new_cluster_user_client_set, issue_credentials, configure, finish,
  get_cloud_profile_name, get_provider_type,
}
use persephone.ShootAdmission.Injected.{IsInjected, handle-IsInjected}
use persephone.ShootAdmission.Issuance.{IsChosen, admitted_secret_stays}
use persephone.ShootAdmission.Update.{handle_idempotent, kept_shoot}
use persephone.Examples.Rotation.{env_at}
use persephone.Examples.Garden.{info}

abbrev networks : List Network
networks =
    record { name = "private"; external = false; shared = true }
    ∷ record { name = "float"; external = true; shared = true }
    ∷ []

abbrev empty_config : InfrastructureConfig
empty_config = record {
  api_version = "";
  kind = "";
  floating_pool_name = "";
  workers = "";
  settings = "";
}

abbrev encode : InfrastructureConfig → String
encode config = config.floating_pool_name <> (" " <> config.workers)

abbrev encode_control : ControlPlaneConfig → String
encode_control config = config.load_balancer_provider

-- A decoder that reads the configuration that `handle` sets below.
abbrev decode : RawExtension InfrastructureConfig → Result String InfrastructureConfig
decode (raw json) = ok (
    if json == "float 10.180.24.0/24"
    then record empty_config { floating_pool_name = "float"; workers = "10.180.24.0/24" }
    else empty_config)
decode (object config) = err "not JSON"

abbrev credential : ApplicationCredential
credential = record { id = "c1"; name = "shoot-17"; secret = "x"; expires_at = 900 }

abbrev env : Env
env = record {
  landscape_name = "canary";
  default_cloud_profile_name = "";
  default_provider_type = "";
  group_version = "openstack/v1alpha1";
  unix_time = "17";
  data_keys = record {
    domain_name = "domain";
    tenant_name = "tenant";
    application_credential_id = "id";
    application_credential_secret = "secret";
  };
  supports = λ region. true;
  connect_user = λ region user project. none;
  secrets = ok [];
  sort = λ secrets. secrets;
  create_credential = λ name roles. ok credential;
  format_time = λ c. "later";
  create_secret = λ s. none;
  create_binding = λ b. done;
  networks = ok networks;
  decode = decode;
}

abbrev given : ShootObject
given = record {
  shoot = record {
    name = "web";
    namespace = "garden-qa-p1";
    exists = false;
    last_operation = none;
    credentials_binding_name = none;
  };
  spec = record {
    workers = "pool" ∷ [];
    infrastructure_config = none;
    control_plane_config = none;
    networking = some (record { type = none; pods = none; services = none; nodes = none });
    cloud_profile = none;
    provider_type = "";
    region = "";
    seed_selector = none;
  };
}

abbrev creation : Request
creation = record { kind = some "Shoot"; operation = create; extra = to_extra info }

abbrev later : Request
later = record { kind = some "Shoot"; operation = update; extra = to_extra info }

abbrev filled_config : InfrastructureConfig
filled_config = record {
  api_version = "openstack/v1alpha1";
  kind = "InfrastructureConfig";
  floating_pool_name = "float";
  workers = "10.180.24.0/24";
  settings = "";
}

-- What `handle` makes of it.
abbrev admitted : ShootObject
admitted = record {
  shoot = record {
    name = "web";
    namespace = "garden-qa-p1";
    exists = false;
    last_operation = none;
    credentials_binding_name = some "p1--web--shoot-17";
  };
  spec = record {
    workers = "pool" ∷ [];
    infrastructure_config = some (object filled_config);
    control_plane_config = some (
        object (record {
          api_version = "openstack/v1alpha1";
          kind = "ControlPlaneConfig";
          load_balancer_provider = "f5";
        }));
    networking = some (record {
      type = some "calico";
      pods = some "10.44.0.0/16";
      services = some "10.45.0.0/16";
      nodes = some "10.180.24.0/24";
    });
    cloud_profile = some ("CloudProfile", "openstack");
    provider_type = "openstack";
    region = "qa";
    seed_selector = some (("seed.gardener.cloud/region", "qa") ∷ []);
  };
}

admission : (handle env (some given) (ok creation)).0 ≡ ok admitted
unfolding handle has_open_stack_user_info to_extra mutate_for open_stack_user_info_from_extra
    get_first_value_for_key mutate new_cluster_user_client_set issue_credentials
    ensure_open_stack_credential_internal_secret_and_binding
    ensure_application_credential_internal_secret_for_shoot
    ensure_credentials_binding_for_internal_secret configure set_infrastructure given_config
    detect_floating_pool get_external_network_for_project
    get_application_credential_internal_secret_name credentials_binding_for_secret
    application_credentials_internal_secret new_application_credential_name finish
    get_cloud_profile_name get_provider_type complete_spec
admission = refl

admission_example :
    (o : OpenStackUserInfo) × (open_stack_user_info_from_extra (to_extra info) ≡ ok o)
    × (env.supports o.region ≡ true)
    × IsInjected env create o given admitted
unfolding has_open_stack_user_info to_extra
admission_example = handle-IsInjected env given admitted creation refl refl admission

sorts :
    (secrets : List InternalSecret) → env.secrets ≡ ok secrets → IsSortOf (env.sort secrets) secrets
sorts [] e = (tt, tt, tt)
sorts (s ∷ rest) e = ground arith

secret_stays_example :
    (o : OpenStackUserInfo) × (secret : InternalSecret) × (open_stack_user_info_from_extra
        (to_extra info)
      ≡ ok o)
    × IsChosen env given.shoot o secret
    × (admitted.shoot.credentials_binding_name ≡ some secret.name)
    × (internal_secret_deletion_allowed (env_at 500) secret admitted.shoot 900 ≡ false)
unfolding has_open_stack_user_info to_extra
secret_stays_example =
    admitted_secret_stays env given admitted creation (env_at 500) 900 refl refl refl
      (λ e. ground arith) sorts admission refl (omega arith)

read_back :
    (config : InfrastructureConfig)
    → admitted.spec.infrastructure_config ≡ some (object config)
    → env.decode (raw (encode config)) ≡ ok (record config { api_version = ""; kind = "" })
read_back config e =
    let same : filled_config ≡ config = ground arith in
    subst (λ x. env.decode (raw (encode x)) ≡ ok (record x { api_version = ""; kind = "" })) same
      refl

update_again_example :
    (again : ShootObject) × ((handle env
        (some (kept_shoot encode encode_control admitted))
        (ok later)).0
      ≡ ok again)
    × (kept_shoot encode encode_control again ≡ kept_shoot encode encode_control admitted)
unfolding has_open_stack_user_info to_extra
update_again_example =
    handle_idempotent encode encode_control env given admitted creation later read_back refl refl
      admission refl refl

external_network_example :
    (get_external_network_for_project env ≡ ok "float")
    ↔ ((found : List Network) × (env.networks ≡ ok found) × HasOnly "float" found)
external_network_example = get_external_network_for_project_iff env "float"
