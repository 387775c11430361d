-- ===== src/Token/Bearer.antt =====
-- Which bearer tokens the webhook takes, and that those of `scikube auth` are among them.
use persephone.Base.{String, ◌<>◌, ◌≡◌, ◌≢◌, ◌↔◌, refl, ap, ◌∙◌, false}
use persephone.Base.{none, some, List, [], ◌∷◌, ok, err, arith, eq_iff, Option-cases, inl, inr}
use persephone.Base.{ℕ}
use persephone.Base.Dict.{lookup}
use persephone.Base.Texts.{
  NoColon, split_colon, split_colon_of_NoColon, split_colon-append, split_colon-pair,
}
use persephone.Config.{RegionalConfig, PersephoneConfig}
use persephone.Auth.{Login, CredentialStatus, CatalogEntry, get_region, bearer_token, do_login}
use persephone.Token.{
  invalid_token_format, Endpoint, endpoint_of, endpoint_of_parts, get_regional_identity_endpoint,
}

-- The region is configured with an identity endpoint; nothing is said of its being enabled.
pub record IsServed (cfg : PersephoneConfig) (region endpoint : String) : Type 0 where
  pub config : RegionalConfig
  pub configured : lookup region cfg.regions ≡ some config
  pub same : config.identity_endpoint ≡ endpoint
  pub set : endpoint ≢ ""

endpoint_of_sound :
    (cfg : PersephoneConfig) (region token : String) (e : Endpoint)
    → endpoint_of cfg region token ≡ ok e
    → (region ≡ e.region) × (token ≡ e.token) × IsServed cfg e.region e.endpoint
endpoint_of_sound cfg region token e h = elim (Option-cases (lookup region cfg.regions)) [
  | inl n ↦ ground arith
  | inr (rc, f) ↦ (
    ground (arith, eq_iff rc.identity_endpoint ""),
    ground (arith, eq_iff rc.identity_endpoint ""),
    record {
      config = rc;
      configured = ground (arith, eq_iff rc.identity_endpoint "");
      same = ground (arith, eq_iff rc.identity_endpoint "");
      set = ground (arith, eq_iff rc.identity_endpoint "");
    },
  )
]

endpoint_of_complete :
    (cfg : PersephoneConfig) (e : Endpoint)
    → IsServed cfg e.region e.endpoint
    → endpoint_of cfg e.region e.token ≡ ok e
endpoint_of_complete cfg e s =
    ground (arith, s.configured, s.same, s.set, eq_iff s.config.identity_endpoint "")

endpoint_sound :
    (cfg : PersephoneConfig) (token : String) (e : Endpoint) (parts : List String)
    → split_colon token ≡ parts
    → endpoint_of_parts cfg parts ≡ ok e
    → (split_colon token ≡ e.region ∷ e.token ∷ []) × IsServed cfg e.region e.endpoint
endpoint_sound cfg token e [] s h = ground arith
endpoint_sound cfg token e (region ∷ []) s h = ground arith
endpoint_sound cfg token e (region ∷ (id ∷ [])) s h =
    let (p, q, served) = endpoint_of_sound cfg region id e h in (cc, served)
endpoint_sound cfg token e (region ∷ (id ∷ (x ∷ rest))) s h = ground arith

-- The token is a region and a Keystone token with one colon between, and the region is served.
pub record Names (cfg : PersephoneConfig) (token : String) (e : Endpoint) : Type 0 where
  pub spelled : token ≡ e.region <> (":" <> e.token)
  pub region : NoColon e.region
  pub id : NoColon e.token
  pub served : IsServed cfg e.region e.endpoint

get_regional_identity_endpoint_sound :
    (cfg : PersephoneConfig) (token : String) (e : Endpoint)
    → get_regional_identity_endpoint cfg token ≡ ok e
    → Names cfg token e
unfolding get_regional_identity_endpoint
get_regional_identity_endpoint_sound cfg token e h =
    let (parts, served) = endpoint_sound cfg token e (split_colon token) refl h in
    let (spelled, region, id) = split_colon-pair token e.region e.token parts in
    record { spelled = spelled; region = region; id = id; served = served }

get_regional_identity_endpoint_complete :
    (cfg : PersephoneConfig) (token : String) (e : Endpoint)
    → Names cfg token e
    → get_regional_identity_endpoint cfg token ≡ ok e
unfolding get_regional_identity_endpoint
get_regional_identity_endpoint_complete cfg token e n =
    ap (λ t. endpoint_of_parts cfg (split_colon t)) n.spelled
    ∙ ap (endpoint_of_parts cfg) (
        split_colon-append e.region e.token n.region
        ∙ ap (λ l. e.region ∷ l) (split_colon_of_NoColon e.token n.id))
    ∙ endpoint_of_complete cfg e n.served

-- A bearer token is taken for a region and a Keystone token exactly where it is the two with one
-- colon between, none of them holding a colon, and the region is configured with an identity
-- endpoint, whether or not it is enabled.
pub get_regional_identity_endpoint_iff :
    (cfg : PersephoneConfig) (token : String) (e : Endpoint)
    → (get_regional_identity_endpoint cfg token ≡ ok e) ↔ Names cfg token e
get_regional_identity_endpoint_iff cfg token e = (
  get_regional_identity_endpoint_sound cfg token e,
  get_regional_identity_endpoint_complete cfg token e,
)

-- The credential of `scikube auth` with the region's prefix is taken by the webhook for the region
-- and the token that Keystone gave, if the region of the catalog is named and served, and neither
-- holds a colon.
pub endpoint-do_login :
    (cfg : PersephoneConfig) (login : Login) (id endpoint : String) (expires_at : ℕ)
    (catalog : List CatalogEntry)
    → login.provider_error ≡ none
    → login.identity_error ≡ none
    → login.token ≡ ok (record { id = id; expires_at = expires_at })
    → login.catalog ≡ ok catalog
    → get_region catalog ≢ ""
    → NoColon (get_region catalog)
    → NoColon id
    → IsServed cfg (get_region catalog) endpoint
    → (status : CredentialStatus) × (do_login login false ≡ ok (record { status = some status }))
      × (get_regional_identity_endpoint cfg status.token
          ≡ ok (record { endpoint = endpoint; token = id; region = get_region catalog }))
unfolding do_login bearer_token
endpoint-do_login cfg login id endpoint expires_at catalog p i t c r n k served =
    let region : String = get_region catalog in
    (
      record { expiration_timestamp = some expires_at; token = region <> (":" <> id) },
      ground (arith, eq_iff region ""),
      get_regional_identity_endpoint_complete cfg (region <> (":" <> id))
          (record { endpoint = endpoint; token = id; region = region })
          (record { spelled = refl; region = n; id = k; served = served }),
    )

-- A bearer token without a colon is refused as malformed, whatever the default region.
pub endpoint_of_unprefixed :
    (cfg : PersephoneConfig) (token : String)
    → NoColon token
    → get_regional_identity_endpoint cfg token ≡ err invalid_token_format
unfolding get_regional_identity_endpoint
endpoint_of_unprefixed cfg token h = ap (endpoint_of_parts cfg) (split_colon_of_NoColon token h)
