-- ===== src/ShootAdmission.antt =====
-- internal/webhook/shootadmission/handler.go: the defaults that a Shoot gets on its admission. Of a
-- Shoot and of its parts there are the fields that the code reads or writes; an infrastructure
-- configuration keeps its other fields as one text. The API server, OpenStack and Gardener's
-- decoder answer through `Env`; the calls that change something, and the metrics, are a log.
pub mod Credentials
pub mod Infrastructure
pub mod Handler
pub mod Networks
pub mod Completed
pub mod Injected
pub mod Newest
pub mod Issuance
pub mod Kept
pub mod Update
use persephone.Base.{String, Bool, Option, List}
use persephone.Base.{Result}
use persephone.Base.Dict.{Dict}
use persephone.UserInfo.{ExtraValue, ExtractError, OpenStackUserInfo}
use persephone.OpenStack.{ApplicationCredential}
use persephone.Rotation.{InternalSecret, Shoot, CredentialsBinding, Answer}

pub data Operation : Type 0 where
  create update delete connect : Operation

-- `kind` is none where the request has no kind.
pub record Request : Type 0 where
  pub kind : Option String
  pub operation : Operation
  pub extra : Dict ExtraValue

pub record InfrastructureConfig : Type 0 where
  pub api_version : String
  pub kind : String
  pub floating_pool_name : String
  pub workers : String
  pub settings : String

pub record ControlPlaneConfig : Type 0 where
  pub api_version : String
  pub kind : String
  pub load_balancer_provider : String

-- `runtime.RawExtension`: JSON of the user, or an object of this code.
pub data RawExtension (C : Type 0) : Type 0 where
  raw : String → RawExtension C
  object : C → RawExtension C

pub record Networking : Type 0 where
  pub type : Option String
  pub pods : Option String
  pub services : Option String
  pub nodes : Option String

-- A cloud profile is its kind and name, a seed selector its labels.
pub record ShootSpec : Type 0 where
  pub workers : List String
  pub infrastructure_config : Option (RawExtension InfrastructureConfig)
  pub control_plane_config : Option (RawExtension ControlPlaneConfig)
  pub networking : Option Networking
  pub cloud_profile : Option (String × String)
  pub provider_type : String
  pub region : String
  pub seed_selector : Option (Dict String)

-- The name of the credentials binding stands in `shoot`.
pub record ShootObject : Type 0 where
  pub shoot : Shoot
  pub spec : ShootSpec

pub record Network : Type 0 where
  pub name : String
  pub external : Bool
  pub shared : Bool

pub data NetworkError : Type 0 where
  listing_failed extracting_failed : String → NetworkError
  no_single_network : NetworkError

-- `connect` is `NewClusterUserClientSet` for a region, a user and a project. Metrics have a region
-- and an outcome. A secret is created with its data.
pub data Call : Type 0 where
  connect_user : String → String → String → Call
  create_credential : String → List String → Call
  create_secret : InternalSecret → Dict String → Call
  create_binding : CredentialsBinding → Call
  record_credential_issuance record_floating_pool_detection record_shoot_mutation :
      String → String → Call

-- The keys of a secret's data, which are constants of the OpenStack extension.
pub record DataKeys : Type 0 where
  pub domain_name : String
  pub tenant_name : String
  pub application_credential_id : String
  pub application_credential_secret : String

-- `secrets` and `networks` are listings, of the secrets with the Shoot's label and of the shared
-- networks. `sort` is `ByCreationTimestamp().Sort`, `unix_time` the time now in decimal,
-- `group_version` that of the OpenStack extension.
pub record Env : Type 0 where
  pub landscape_name : String
  pub default_cloud_profile_name : String
  pub default_provider_type : String
  pub group_version : String
  pub unix_time : String
  pub data_keys : DataKeys
  pub supports : String → Bool
  pub connect_user : String → String → String → Option String
  pub secrets : Result String (List InternalSecret)
  pub sort : List InternalSecret → List InternalSecret
  pub create_credential : String → List String → Result String ApplicationCredential
  pub format_time : ApplicationCredential → String
  pub create_secret : InternalSecret → Option String
  pub create_binding : CredentialsBinding → Answer
  pub networks : Result NetworkError (List Network)
  pub decode : RawExtension InfrastructureConfig → Result String InfrastructureConfig

pub data AdmissionError : Type 0 where
  unexpected_object nil_dereference : AdmissionError
  no_request connecting_failed listing_secrets_failed credential_failed secret_failed binding_failed
        decoding_failed region_not_supported :
      String → AdmissionError
  network_failed : NetworkError → AdmissionError
  extras_unreadable : ExtractError → AdmissionError
