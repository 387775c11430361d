-- ===== src/Examples/Command.antt =====
-- `scikube auth` in the environment of a kubeconfig, twice.
use persephone.Base.{ℕ, String, ◌≡◌, ◌↔◌, refl, false, some, List, [], ◌∷◌, arith, ap}
use persephone.Base.{ok}
use persephone.Base.{Result, ok, err}
use persephone.Base.Dict.{lookup, get_text}
use persephone.Auth.{Disk, private_mode, read, do_login, get_region, bearer_token, write}
use persephone.Kubeconfig.{ExecConfig, GardenConfig, get_kubeconfig_for_garden, check_method}
use persephone.Auth.Cache.{IsFresh}
use persephone.Scikube.{
  Settings, AuthOptions, options_of, get_auth_options, check_settings, Machine, Moment, printed,
  authenticate,
}
use persephone.Scikube.Options.{IsAccepted, get_auth_options_iff}
use persephone.Scikube.HandedOn.{within}
use persephone.Scikube.Garden.{Provider, find_target, garden_kubeconfig, kubeconfig_for_garden}
use persephone.Scikube.Garden.Environment.{IsSameIdentity, kubeconfig_for_garden-IsHandedOn}
use persephone.Scikube.Twice.{authenticate_again}
use persephone.Examples.Login.{login, credential, marshal, decode, round_trip_status, io}

abbrev environment : List (String × String)
environment =
    ("OS_AUTH_URL", "https://identity.qa")
    ∷ ("OS_APPLICATION_CREDENTIAL_ID", "c1")
    ∷ ("OS_APPLICATION_CREDENTIAL_NAME", "laptop")
    ∷ ("OS_APPLICATION_CREDENTIAL_SECRET", "s1")
    ∷ []

abbrev settings : Settings
settings = record { text = λ key. get_text key environment; flag = λ key. false }

accepted_example :
    (get_auth_options settings ≡ ok (options_of settings))
    ↔ (IsAccepted settings × (options_of settings ≡ options_of settings))
accepted_example = get_auth_options_iff settings (options_of settings)

-- With an address and a project, so that nothing is asked of the catalog.
abbrev garden_settings : Settings
garden_settings = record {
  text = λ key. get_text key (
      ("OS_DOMAIN_NAME", "users")
      ∷ ("OS_PROJECT_NAME", "shop")
      ∷ ("OS_REGION_NAME", "qa")
      ∷ ("SCIKUBE_URL", "https://garden.qa")
      ∷ ("SCIKUBE_PROJECT_ID", "p1")
      ∷ environment);
  flag = λ key. false;
}

abbrev client : AuthOptions → Result String Provider
client o = err "not asked"

abbrev marshal_yaml : GardenConfig → Result String String
marshal_yaml config = ok config.current_context

environment_example :
    (config : GardenConfig) × (c : ExecConfig) × (got : AuthOptions) × (marshal_yaml config
      ≡ ok "garden")
    × (lookup "garden-user" config.auth_infos ≡ some c)
    × (get_auth_options (within c garden_settings) ≡ ok got)
    × IsSameIdentity garden_settings got
unfolding kubeconfig_for_garden garden_kubeconfig get_auth_options check_settings options_of
    find_target get_kubeconfig_for_garden check_method persephone.Scikube.user_domain
    persephone.Scikube.scope_of
environment_example =
    kubeconfig_for_garden-IsHandedOn client garden_settings marshal_yaml "garden" refl refl refl

abbrev machine : Machine
machine = record {
  settings = settings;
  marshal = marshal;
  decode = decode;
  marshal_indent = marshal;
  checksum = λ o. ok "77";
  cache_home = "/home/ada/.cache";
}

abbrev moment : ℕ → Moment
moment now = record { now = now; reading = io; writing = io; login = λ test o. login }

abbrev stored : Disk
stored = ("/home/ada/.cache/scikube/77", record { contents = "qa:t1"; mode = private_mode }) ∷ []

fresh_later : IsFresh 200 (credential (some 500) "qa:t1")
fresh_later = record {
  status = record { expiration_timestamp = some 500; token = "qa:t1" };
  expiry = 500;
  has_status = refl;
  token = λ h. cc;
  has_expiry = refl;
  later = omega arith;
}

again_example :
    (text : String) × (marshal (credential (some 500) "qa:t1") ≡ ok text)
    × (authenticate machine (moment 200) stored ≡ (ok stored, printed text ∷ []))
unfolding authenticate get_auth_options check_settings options_of read do_login get_region
    bearer_token write
again_example =
    authenticate_again machine (moment 100) (moment 200) (options_of settings)
      "/home/ada/.cache/scikube/77" [] stored (credential (some 500) "qa:t1")
      (record { accepted = refl; no_test = refl; keyed = refl })
      (λ e text h. ap ok (round_trip_status e.status text h)) refl refl refl refl fresh_later refl
