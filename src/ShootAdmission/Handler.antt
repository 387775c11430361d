-- ===== src/ShootAdmission/Handler.antt =====
-- internal/webhook/shootadmission/handler.go: `handle`, whose errors `Default` passes on.
use persephone.Base.{String, Bool, true, false, not, ◌&&◌, ◌==◌, Option, none, some, List, [], ◌∷◌}
use persephone.Base.{Result, ok, err}
use persephone.Base.Dict.{Dict}
use persephone.Base.Runs.{Run, ◌>>-◌, pure, fail, lift, or_record, noting}
use persephone.Constants.{gardener_provider_type}
use persephone.UserInfo.{
  OpenStackUserInfo, has_open_stack_user_info, open_stack_user_info_from_extra,
}
use persephone.Labels.{get_cluster_user_name}
use persephone.Rotation.{Shoot, CredentialsBinding}
use persephone.ShootAdmission.{
  Env, Request, Operation, create, update, delete, connect, ShootSpec, ShootObject, Call,
  connect_user, record_credential_issuance, record_shoot_mutation, AdmissionError,
  unexpected_object, no_request, connecting_failed, region_not_supported, extras_unreadable,
}
use persephone.ShootAdmission.Credentials.{ensure_open_stack_credential_internal_secret_and_binding}
use persephone.ShootAdmission.Infrastructure.{set_infrastructure}

abbrev pub is_create : Operation → Bool
is_create create = true
is_create _ = false

-- Deletions and connections are not answered for.
abbrev pub is_write : Operation → Bool
is_write create = true
is_write update = true
is_write delete = false
is_write connect = false

abbrev pub is_shoot_kind : Option String → Bool
is_shoot_kind none = false
is_shoot_kind (some kind) = kind == "Shoot"

abbrev pub is_responsible : Request → Bool
is_responsible request = is_shoot_kind request.kind && is_write request.operation

abbrev pub is_nil : List String → Bool
is_nil [] = true
is_nil (_ ∷ _) = false

abbrev pub is_workerless : ShootSpec → Bool
is_workerless spec = is_nil spec.workers

abbrev or_default : String → String
or_default name = elim (name == "") [ true ↦ gardener_provider_type | false ↦ name ]

unfoldable pub get_cloud_profile_name : Env → String
get_cloud_profile_name env = or_default env.default_cloud_profile_name

unfoldable pub get_provider_type : Env → String
get_provider_type env = or_default env.default_provider_type

-- The binding of a created Shoot that has workers, with its metrics.
unfoldable pub issue_credentials :
    Env
    → Operation
    → OpenStackUserInfo
    → ShootObject
    → Run AdmissionError Call (Option CredentialsBinding)
issue_credentials env operation o s = elim (is_create operation && not (is_workerless s.spec)) [
  | false ↦ pure none
  | true ↦
      or_record (record_shoot_mutation o.region "error") (
        or_record (record_credential_issuance o.region "error")
          (ensure_open_stack_credential_internal_secret_and_binding env s.shoot o))
      >>- λ binding.
          noting (record_credential_issuance o.region "success") >>- λ _. pure (some binding)
]

unfoldable pub configure : Env → OpenStackUserInfo → ShootSpec → Run AdmissionError Call ShootSpec
configure env o spec = elim (is_workerless spec) [
  | true ↦ pure spec
  | false ↦ set_infrastructure env o spec
]

-- The labels that a seed must have, "seed.gardener.cloud/region".
abbrev pub seed_labels : String → Dict String
seed_labels region = ("seed.gardener.cloud/region", region) ∷ []

abbrev pub bind : Option CredentialsBinding → Shoot → Shoot
bind none shoot = shoot
bind (some binding) shoot = record shoot { credentials_binding_name = some binding.name }

-- The end of `handle`.
unfoldable pub finish :
    Env
    → Operation
    → OpenStackUserInfo
    → Option CredentialsBinding
    → Shoot
    → ShootSpec
    → ShootObject
finish env operation o binding shoot spec = record {
  shoot = bind (elim (is_workerless spec) [ true ↦ none | false ↦ binding ]) shoot;
  spec = record spec {
    cloud_profile = some ("CloudProfile", get_cloud_profile_name env);
    provider_type = get_provider_type env;
    region = o.region;
    seed_selector = elim (is_create operation) [
      | true ↦ some (seed_labels o.region)
      | false ↦ spec.seed_selector
    ];
  };
}

-- `NewClusterUserClientSet`
unfoldable pub new_cluster_user_client_set :
    Env → OpenStackUserInfo → Shoot → Run AdmissionError Call (Unit {0})
new_cluster_user_client_set env o shoot =
    let user : String = get_cluster_user_name env.landscape_name shoot.name o.project_id in
    (
      elim (env.connect_user o.region user o.project_id) [
        | some e ↦ err (connecting_failed e)
        | none ↦ ok tt
      ],
      connect_user o.region user o.project_id ∷ [],
    )

-- `handle`, for a user whose region is supported.
unfoldable pub mutate :
    Env → Operation → OpenStackUserInfo → ShootObject → Run AdmissionError Call ShootObject
mutate env operation o s = new_cluster_user_client_set env o s.shoot >>- λ _.
    issue_credentials env operation o s >>- λ binding. configure env o s.spec >>- λ spec.
    noting (record_shoot_mutation o.region "success") >>- λ _.
    pure (finish env operation o binding s.shoot spec)

unfoldable pub mutate_for : Env → Request → ShootObject → Run AdmissionError Call ShootObject
mutate_for env request s =
    lift extras_unreadable (open_stack_user_info_from_extra request.extra) >>- λ o.
    elim (env.supports o.region) [
      | false ↦ fail (region_not_supported o.region)
      | true ↦ mutate env request.operation o s
    ]

-- `handle`, on an object that is none where it is no Shoot; the result is the Shoot as it leaves it.
unfoldable pub handle :
    Env → Option ShootObject → Result String Request → Run AdmissionError Call ShootObject
handle env none request = fail unexpected_object
handle env (some s) (err e) = fail (no_request e)
handle env (some s) (ok request) =
    elim (is_responsible request && has_open_stack_user_info request.extra) [
      | false ↦ pure s
      | true ↦ mutate_for env request s
    ]
