-- ===== src/Config/Validity.antt =====
-- Exactly which configurations pass `Validate`.
use persephone.Base.{
  ◌<◌, String, ◌≡◌, ◌≢◌, ◌↔◌, ◌⊎◌, Option, some, arith, eq_iff, ok, inl, inr, Option-cases,
}
use persephone.Config.{
  RegionalConfig, PersephoneConfig, region_config, validate, validate_regional_config,
  validate_transport_url,
}

module _ (parse_url : String → Option String) where
  -- The audit transport is unset, or a URL of one of the two schemes.
  abbrev pub IsTransport : String → Type 0
  IsTransport url = (url ≡ "") ⊎ (parse_url url ≡ some "amqp") ⊎ (parse_url url ≡ some "amqps")

  pub record IsUsable (rc : RegionalConfig) : Type 0 where
    pub identity : rc.identity_endpoint ≢ ""
    pub id : rc.application_credential_id ≢ ""
    pub secret : rc.application_credential_secret ≢ ""
    pub transport : IsTransport rc.audit_transport_url

  pub record IsValid (cfg : PersephoneConfig) : Type 0 where
    pub default_set : cfg.default_region ≢ ""
    pub default_usable : IsUsable (region_config cfg cfg.default_region)
    pub quota : 0 < cfg.default_shoot_quota

  validate_transport_url_iff :
      (url : String) → (validate_transport_url parse_url url ≡ ok tt) ↔ IsTransport url
  unfolding validate_transport_url
  validate_transport_url_iff url = elim (Option-cases (parse_url url)) [
    | inl e ↦ (λ h. ground (arith, eq_iff url ""), λ t. ground (arith, eq_iff url ""))
    | inr (scheme, e) ↦ (
      λ h. ground (arith, eq_iff url "", eq_iff scheme "amqp", eq_iff scheme "amqps"),
      λ t. ground (arith, eq_iff url "", eq_iff scheme "amqp", eq_iff scheme "amqps"),
    )
  ]

  regional_sound :
      (rc : RegionalConfig) → validate_regional_config parse_url rc ≡ ok tt → IsUsable rc
  unfolding validate_regional_config
  regional_sound rc h = record {
    identity = ground (arith, eq_iff rc.identity_endpoint "");
    id = ground (arith, eq_iff rc.application_credential_id "");
    secret = ground (arith, eq_iff rc.application_credential_secret "");
    transport = (validate_transport_url_iff rc.audit_transport_url).0 (ground arith);
  }

  regional_complete :
      (rc : RegionalConfig) → IsUsable rc → validate_regional_config parse_url rc ≡ ok tt
  unfolding validate_regional_config
  regional_complete rc u = ground (
    arith,
    u.identity,
    u.id,
    u.secret,
    eq_iff rc.identity_endpoint "",
    eq_iff rc.application_credential_id "",
    eq_iff rc.application_credential_secret "",
    (validate_transport_url_iff rc.audit_transport_url).1 u.transport,
  )

  validate_sound : (cfg : PersephoneConfig) → validate parse_url cfg ≡ ok tt → IsValid cfg
  unfolding validate
  validate_sound cfg h =
      let rc = region_config cfg cfg.default_region in
      record {
        default_set = ground (arith, eq_iff cfg.default_region "");
        default_usable = regional_sound rc (ground arith);
        quota = ground arith;
      }

  validate_complete : (cfg : PersephoneConfig) → IsValid cfg → validate parse_url cfg ≡ ok tt
  unfolding validate
  validate_complete cfg v = ground (
    arith,
    v.default_set,
    v.quota,
    eq_iff cfg.default_region "",
    regional_complete (region_config cfg cfg.default_region) v.default_usable,
  )

  -- A configuration passes `Validate` exactly where a default region is named, that region has an
  -- identity endpoint, both parts of a credential and no audit transport but an AMQP one, and the
  -- default quota is positive. Nothing is asked of the other regions.
  pub validate_iff : (cfg : PersephoneConfig) → (validate parse_url cfg ≡ ok tt) ↔ IsValid cfg
  validate_iff cfg = (validate_sound cfg, validate_complete cfg)
