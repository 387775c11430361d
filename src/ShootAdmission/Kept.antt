-- ===== src/ShootAdmission/Kept.antt =====
-- The extension configurations of a Shoot as they are kept and read again.
use persephone.ShootAdmission.Completed.{IsPool}
use persephone.Base.{
  String, ◌≡◌, refl, ap, inl, inr, true, false, ◌==◌, Option, none, some, arith, eq_iff,
}
use persephone.Base.{ok, Bool-cases}
use persephone.UserInfo.{OpenStackUserInfo}
use persephone.ShootAdmission.{
  Env, InfrastructureConfig, ControlPlaneConfig, RawExtension, raw, object, Networking,
}
use persephone.ShootAdmission.Infrastructure.{
  default_control_plane, deref, default_node_cidr, default_networking, complete_config,
  detect_floating_pool,
}
use persephone.ShootAdmission.Networks.{get_external_network_for_project_iff}

completed_workers :
    (given nodes : String)
    → let first : String = elim (given == "") [ false ↦ given | true ↦ nodes ] in
      elim (first == "") [ false ↦ first | true ↦ nodes ] ≡ first
completed_workers given nodes = ground (arith, eq_iff given "", eq_iff nodes "")

-- What the API server keeps of a Shoot, and gives with the next request: an object that was set is
-- its JSON then.
abbrev pub kept_extension :
    {C : Type 0} → (C → String) → Option (RawExtension C) → Option (RawExtension C)
kept_extension encode none = none
kept_extension encode (some (raw json)) = some (raw json)
kept_extension encode (some (object c)) = some (raw (encode c))

pub kept_twice :
    {C : Type 0} (encode : C → String) (x : Option (RawExtension C))
    → kept_extension encode (kept_extension encode x) ≡ kept_extension encode x
kept_twice encode none = refl
kept_twice encode (some (raw json)) = refl
kept_twice encode (some (object c)) = refl

-- A configuration as it is decoded: the conversion leaves out its type.
abbrev pub untyped : InfrastructureConfig → InfrastructureConfig
untyped config = record config { api_version = ""; kind = "" }

module _ (env : Env) (config : InfrastructureConfig) (pool : String) (n : Networking) where
  pub complete_config_twice :
      complete_config env (untyped (complete_config env config pool n)) pool (default_networking n)
      ≡ complete_config env config pool n
  complete_config_twice =
      ap (λ w. record (complete_config env config pool n) { workers = w })
        (completed_workers config.workers (deref n.nodes default_node_cidr))

  pub detect_again :
      (o : OpenStackUserInfo)
      → IsPool env config pool
      → (detect_floating_pool env o (untyped (complete_config env config pool n))).0 ≡ ok pool
  unfolding detect_floating_pool
  detect_again o (inl (filled, e)) =
      ground (arith, eq_iff pool "", eq_iff config.floating_pool_name "")
  detect_again o (inr found) =
      let again = (get_external_network_for_project_iff env pool).1 found in
      elim (Bool-cases (pool == "")) [ inl e ↦ ground arith | inr e ↦ ground arith ]

pub control_again :
    (encode : ControlPlaneConfig → String) (env : Env)
    (x : Option (RawExtension ControlPlaneConfig))
    → let filled : Option (RawExtension ControlPlaneConfig)
          → Option (RawExtension ControlPlaneConfig) =
        λ y. elim y [ none ↦ some (default_control_plane env) | some given ↦ some given ] in
      kept_extension encode (filled (kept_extension encode (filled x)))
      ≡ kept_extension encode (filled x)
control_again encode env none = refl
control_again encode env (some (raw json)) = refl
control_again encode env (some (object c)) = refl
