-- ===== src/ShootAdmission/Completed.antt =====
-- internal/webhook/shootadmission/handler.go, setInfrastructure: what a completed specification is.
use mathlib.Core.Path.{subst}
use persephone.Base.{
  refl, none, false, true, Option, String, ◌≡◌, ◌≢◌, ◌⊎◌, inl, inr, ◌==◌, some, List, arith, eq_iff,
}
use persephone.Base.{ok, Bool-cases, Option-cases, Result-cases}
use persephone.UserInfo.{OpenStackUserInfo}
use persephone.ShootAdmission.{
  Env, Network, InfrastructureConfig, ControlPlaneConfig, RawExtension, object, ShootSpec,
  Networking,
}
use persephone.ShootAdmission.Infrastructure.{
  deref, default_networking, complete_config, default_control_plane,
  get_external_network_for_project, given_config, detect_floating_pool, complete_spec,
  set_infrastructure,
}
use persephone.ShootAdmission.Networks.{HasOnly, get_external_network_for_project_iff}

-- The floating pool is the one that the user gave, or else the only network that is external and
-- shared.
abbrev pub IsPool : Env → InfrastructureConfig → String → Type 0
IsPool env config name =
    ((config.floating_pool_name ≢ "") × (name ≡ config.floating_pool_name))
    ⊎ ((networks : List Network) × (env.networks ≡ ok networks) × HasOnly name networks)

-- What was given is kept, and only what was not is the default.
abbrev pub IsFilled : {A : Type 0} → Option A → A → Option A → Type 0
IsFilled given default result =
    ((given ≢ none) × (result ≡ given)) ⊎ ((given ≡ none) × (result ≡ some default))

-- The network: what the user gave of it, and else the defaults.
pub record IsNetwork (given : Networking) (result : Networking) : Type 0 where
  pub type : IsFilled given.type "calico" result.type
  pub pods : IsFilled given.pods "10.44.0.0/16" result.pods
  pub services : IsFilled given.services "10.45.0.0/16" result.services
  pub nodes : IsFilled given.nodes "10.180.24.0/24" result.nodes

-- The infrastructure: the floating pool, the workers' network that the user gave, or else that of
-- the nodes, and the rest as it was given.
pub record IsInfrastructure (env : Env) (given : InfrastructureConfig) (pool : String)
    (network : Networking) (result : InfrastructureConfig) : Type 0 where
  pub version : result.api_version ≡ env.group_version
  pub kind : result.kind ≡ "InfrastructureConfig"
  pub floating_pool : result.floating_pool_name ≡ pool
  pub workers :
      ((given.workers ≢ "") × (result.workers ≡ given.workers))
      ⊎ ((given.workers ≡ "") × (some result.workers ≡ network.nodes))
  pub settings : result.settings ≡ given.settings

-- The specification is complete: what the user gave of infrastructure and network is kept, and
-- nothing but these and the control plane is changed.
pub record IsCompleted (env : Env) (spec done : ShootSpec) : Type 0 where
  pub config : InfrastructureConfig
  pub pool : String
  pub networking : Networking
  pub given : given_config env spec ≡ ok config
  pub pooled : IsPool env config pool
  pub networked : spec.networking ≡ some networking
  pub completed : done ≡ complete_spec env config pool networking spec
  pub network : Networking
  pub done_network : done.networking ≡ some network
  pub filled : IsNetwork networking network
  pub infrastructure : InfrastructureConfig
  pub done_infrastructure : done.infrastructure_config ≡ some (object infrastructure)
  pub configured : IsInfrastructure env config pool network infrastructure
  pub control_plane : ControlPlaneConfig
  pub load_balancer : control_plane.load_balancer_provider ≡ "f5"
  pub done_control_plane :
      IsFilled spec.control_plane_config (object control_plane) done.control_plane_config
  pub rest :
      (done.workers ≡ spec.workers)
      × (done.cloud_profile ≡ spec.cloud_profile)
      × (done.provider_type ≡ spec.provider_type)
      × (done.region ≡ spec.region)
      × (done.seed_selector ≡ spec.seed_selector)

detect_floating_pool-IsPool :
    (env : Env) (o : OpenStackUserInfo) (config : InfrastructureConfig) (pool : String)
    → (detect_floating_pool env o config).0 ≡ ok pool
    → IsPool env config pool
unfolding detect_floating_pool
detect_floating_pool-IsPool env o config pool h =
    elim (Bool-cases (config.floating_pool_name == "")) [
      | inr e ↦ inl (ground (arith, eq_iff config.floating_pool_name ""), ground arith)
      | inl e ↦ elim (Result-cases (get_external_network_for_project env)) [
        | inl (name, f) ↦ inr ((get_external_network_for_project_iff env pool).0 (ground arith))
        | inr (x, f) ↦ ground arith
      ]
    ]

deref-IsFilled :
    (given : Option String) (default : String) → IsFilled given default (some (deref given default))
deref-IsFilled none default = inr (refl, refl)
deref-IsFilled (some x) default = inl (λ h. ground arith, refl)

completed_workers :
    (given : String) (nodes : Option String) (default : String)
    → let result : String = elim (given == "") [ false ↦ given | true ↦ deref nodes default ] in
      ((given ≢ "") × (result ≡ given))
      ⊎ ((given ≡ "") × (some result ≡ some (deref nodes default)))
completed_workers given nodes default = elim (Bool-cases (given == "")) [
  | inl e ↦ inr ((eq_iff given "").0 e, simp e refl)
  | inr e ↦ inl (ground (arith, eq_iff given ""), simp e refl)
]

control_plane-IsFilled :
    (env : Env) (given : Option (RawExtension ControlPlaneConfig))
    → IsFilled given
        (default_control_plane env)
        (elim given [ none ↦ some (default_control_plane env) | some x ↦ some x ])
control_plane-IsFilled env none = inr (refl, refl)
control_plane-IsFilled env (some x) = inl (λ h. ground arith, refl)

complete_spec-IsCompleted :
    (env : Env) (spec : ShootSpec) (config : InfrastructureConfig) (pool : String) (n : Networking)
    → given_config env spec ≡ ok config
    → IsPool env config pool
    → spec.networking ≡ some n
    → IsCompleted env spec (complete_spec env config pool n spec)
unfolding complete_spec
complete_spec-IsCompleted env spec config pool n given pooled networked = record {
  config = config;
  pool = pool;
  networking = n;
  given = given;
  pooled = pooled;
  networked = networked;
  completed = refl;
  network = default_networking n;
  done_network = refl;
  filled = record {
    type = deref-IsFilled n.type "calico";
    pods = deref-IsFilled n.pods "10.44.0.0/16";
    services = deref-IsFilled n.services "10.45.0.0/16";
    nodes = deref-IsFilled n.nodes "10.180.24.0/24";
  };
  infrastructure = complete_config env config pool n;
  done_infrastructure = refl;
  configured = record {
    version = refl;
    kind = refl;
    floating_pool = refl;
    workers = completed_workers config.workers n.nodes "10.180.24.0/24";
    settings = refl;
  };
  control_plane = record {
    api_version = env.group_version;
    kind = "ControlPlaneConfig";
    load_balancer_provider = "f5";
  };
  load_balancer = refl;
  done_control_plane = control_plane-IsFilled env spec.control_plane_config;
  rest = (refl, refl, refl, refl, refl);
}

pub set_infrastructure-IsCompleted :
    (env : Env) (o : OpenStackUserInfo) (spec done : ShootSpec)
    → (set_infrastructure env o spec).0 ≡ ok done
    → IsCompleted env spec done
unfolding set_infrastructure
set_infrastructure-IsCompleted env o spec done h = elim (Result-cases (given_config env spec)) [
  | inr (x, e) ↦ ground arith
  | inl (config, e) ↦ elim (Result-cases (detect_floating_pool env o config).0) [
    | inr (x, f) ↦ ground arith
    | inl (pool, f) ↦ elim (Option-cases spec.networking) [
      | inl g ↦ ground arith
      | inr (n, g) ↦
          let same : complete_spec env config pool n spec ≡ done = ground arith in
          subst (IsCompleted env spec) same (
            complete_spec-IsCompleted env spec config pool n e
              (detect_floating_pool-IsPool env o config pool f) g)
    ]
  ]
]
