-- ===== src/Config.antt =====
-- internal/config: the configuration (types.go) and its validation (validation.go). `url.Parse` is
-- the argument `parse_url`: the scheme of a text that parses, or none.
pub mod Validity
use persephone.Base.{ℕ, String, Bool, ◌==◌, ◌||◌, ◌&&◌, not, Option, none, some}
use persephone.Base.{Result, ok, err, ◌>>=◌, wrap, eqb, if◌then◌else◌}
use persephone.Base.Dict.{Dict, lookup}

pub record RegionalConfig : Type 0 where
  pub enabled : Bool
  pub identity_endpoint : String
  pub application_credential_id : String
  pub application_credential_secret : String
  pub audit_transport_url : String

pub record PersephoneConfig : Type 0 where
  pub cluster_users_domain : String
  pub regions : Dict RegionalConfig
  pub default_region : String
  pub landscape_name : String
  pub default_cloud_profile_name : String
  pub default_provider_type : String
  pub default_shoot_quota : ℕ  -- uint64

-- What a read of a missing region gives: Go's zero value.
abbrev pub zero_regional_config : RegionalConfig
zero_regional_config = record {
  enabled = Bool.false;
  identity_endpoint = "";
  application_credential_id = "";
  application_credential_secret = "";
  audit_transport_url = "";
}

-- `cfg.Regions[region]`
abbrev pub region_config : PersephoneConfig → String → RegionalConfig
region_config cfg region = elim (lookup region cfg.regions) [
  | none ↦ zero_regional_config
  | some rc ↦ rc
]

pub data RegionalError : Type 0 where
  no_identity_endpoint no_application_credentials invalid_transport_url : RegionalError
  wrong_scheme : String → RegionalError

pub data ConfigError : Type 0 where
  no_default_region no_default_shoot_quota : ConfigError
  regional : String → RegionalError → ConfigError

module _ (parse_url : String → Option String) where
  unfoldable pub validate_transport_url : String → Result RegionalError (Unit {0})
  validate_transport_url url = if url == "" then ok tt else elim (parse_url url) [
    | none ↦ err invalid_transport_url
    | some scheme ↦
        if not (scheme == "amqp") && not (scheme == "amqps")
        then err (wrong_scheme scheme)
        else ok tt
  ]

  unfoldable pub validate_regional_config : RegionalConfig → Result RegionalError (Unit {0})
  validate_regional_config rc =
      if rc.identity_endpoint == ""
      then err no_identity_endpoint
      else if rc.application_credential_id == "" || rc.application_credential_secret == ""
      then err no_application_credentials
      else validate_transport_url rc.audit_transport_url

  unfoldable pub validate : PersephoneConfig → Result ConfigError (Unit {0})
  validate cfg =
      if cfg.default_region == ""
      then err no_default_region
      else elim (validate_regional_config (region_config cfg cfg.default_region)) [
        | err e ↦ err (regional cfg.default_region e)
        | ok _ ↦ if eqb cfg.default_shoot_quota 0 then err no_default_shoot_quota else ok tt
      ]
