-- ===== src/ShootAdmission/Infrastructure.antt =====
-- internal/webhook/shootadmission/handler.go: the infrastructure, control plane and network of a
-- Shoot that has workers.
use persephone.Base.{String, Bool, true, false, not, ◌||◌, ◌==◌, Option, none, some, List, [], ◌∷◌}
use persephone.Base.{Result, ok, err, delete_func}
use persephone.Base.Runs.{Run, ◌>>-◌, pure, fail, lift, or_record, noting}
use persephone.UserInfo.{OpenStackUserInfo}
use persephone.ShootAdmission.{
  Env, Network, NetworkError, no_single_network, InfrastructureConfig, ControlPlaneConfig,
  RawExtension, object, Networking, ShootSpec, Call, record_floating_pool_detection,
  record_shoot_mutation, AdmissionError, nil_dereference, decoding_failed, network_failed,
}

abbrev pub default_pod_cidr : String
default_pod_cidr = "10.44.0.0/16"

abbrev pub default_service_cidr : String
default_service_cidr = "10.45.0.0/16"

abbrev pub default_node_cidr : String
default_node_cidr = "10.180.24.0/24"

abbrev pub default_network_type : String
default_network_type = "calico"

abbrev pub default_load_balancer_type : String
default_load_balancer_type = "f5"

-- `ptr.Deref`
abbrev pub deref : Option String → String → String
deref none fallback = fallback
deref (some s) fallback = s

-- What `slices.DeleteFunc` takes out.
abbrev pub is_not_usable : Network → Bool
is_not_usable n = not n.external || not n.shared

abbrev pub single_name : List Network → Result NetworkError String
single_name [] = err no_single_network
single_name (n ∷ []) = ok n.name
single_name (m ∷ (n ∷ rest)) = err no_single_network

unfoldable pub get_external_network_for_project : Env → Result NetworkError String
get_external_network_for_project env = elim env.networks [
  | err e ↦ err e
  | ok networks ↦ single_name (delete_func is_not_usable networks)
]

abbrev empty_config : InfrastructureConfig
empty_config = record {
  api_version = "";
  kind = "";
  floating_pool_name = "";
  workers = "";
  settings = "";
}

-- The configuration that the user gave, or an empty one.
unfoldable pub given_config : Env → ShootSpec → Result String InfrastructureConfig
given_config env spec = elim spec.infrastructure_config [
  | none ↦ ok empty_config
  | some extension ↦ env.decode extension
]

unfoldable pub detect_floating_pool :
    Env → OpenStackUserInfo → InfrastructureConfig → Run AdmissionError Call String
detect_floating_pool env o config = elim (config.floating_pool_name == "") [
  | false ↦ pure config.floating_pool_name
  | true ↦
      or_record (record_shoot_mutation o.region "error") (
        or_record (record_floating_pool_detection o.region "error")
          (lift network_failed (get_external_network_for_project env)))
      >>- λ name. noting (record_floating_pool_detection o.region "success") >>- λ _. pure name
]

abbrev pub default_networking : Networking → Networking
default_networking n = record {
  type = some (deref n.type default_network_type);
  pods = some (deref n.pods default_pod_cidr);
  services = some (deref n.services default_service_cidr);
  nodes = some (deref n.nodes default_node_cidr);
}

abbrev pub complete_config : Env → InfrastructureConfig → String → Networking → InfrastructureConfig
complete_config env config floating_pool_name n = record {
  api_version = env.group_version;
  kind = "InfrastructureConfig";
  floating_pool_name = floating_pool_name;
  workers = elim (config.workers == "") [
    | false ↦ config.workers
    | true ↦ deref n.nodes default_node_cidr
  ];
  settings = config.settings;
}

abbrev pub default_control_plane : Env → RawExtension ControlPlaneConfig
default_control_plane env = object (record {
  api_version = env.group_version;
  kind = "ControlPlaneConfig";
  load_balancer_provider = default_load_balancer_type;
})

unfoldable pub complete_spec :
    Env → InfrastructureConfig → String → Networking → ShootSpec → ShootSpec
complete_spec env config floating_pool_name n spec = record spec {
  infrastructure_config = some (object (complete_config env config floating_pool_name n));
  control_plane_config = elim spec.control_plane_config [
    | none ↦ some (default_control_plane env)
    | some given ↦ some given
  ];
  networking = some (default_networking n);
}

-- The networking section is not checked for nil.
abbrev pub networked :
    Env
    → InfrastructureConfig
    → ShootSpec
    → Option Networking
    → String
    → Run AdmissionError Call ShootSpec
networked env config spec none floating_pool_name = fail nil_dereference
networked env config spec (some n) floating_pool_name =
    pure (complete_spec env config floating_pool_name n spec)

-- The block of `handle` for a Shoot with workers.
unfoldable pub set_infrastructure :
    Env → OpenStackUserInfo → ShootSpec → Run AdmissionError Call ShootSpec
set_infrastructure env o spec = lift decoding_failed (given_config env spec) >>- λ config.
    detect_floating_pool env o config >>- networked env config spec spec.networking
