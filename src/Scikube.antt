-- ===== src/Scikube.antt =====
-- cmd/scikube/cmd: the command `scikube auth` (openstack.go, auth.go). The flags and the environment
-- are read through viper, which answers through `Machine`, as do the JSON codec and the checksum of
-- the options; what changes between two runs is in `Moment`. The calls to Keystone and what is
-- printed are a log.
pub mod Options
pub mod HandedOn
pub mod Twice
pub mod Garden
pub mod Shoot
use persephone.Base.{
  ℕ, String, ◌<>◌, Bool, true, false, not, ◌==◌, ◌&&◌, ◌||◌, Option, none, some, List, [], ◌∷◌,
  ◌++◌,
}
use persephone.Base.{Result, ok, err, ◌>>=◌, if◌then◌else◌}
use persephone.Base.Runs.{Run, ◌>>-◌, pure, fail, lift, noting}
use persephone.Auth.{
  Login, AuthError, ExecCredential, CacheError, cache_key_not_found, expired, Disk, Io, do_login,
  read, write,
}

-- Of gophercloud's types, the fields that are set here.
pub record Scope : Type 0 where
  pub project_name : String
  pub domain_name : String
  pub system : Bool

pub record AuthOptions : Type 0 where
  pub identity_endpoint : String
  pub username : String
  pub domain_name : String
  pub password : String
  pub token_id : String
  pub allow_reauth : Bool
  pub scope : Scope
  pub application_credential_id : String
  pub application_credential_name : String
  pub application_credential_secret : String

-- `viper.GetString` and `viper.GetBool`
pub record Settings : Type 0 where
  pub text : String → String
  pub flag : String → Bool

pub data SettingsError : Type 0 where
  auth_url_missing application_credentials_missing : SettingsError
  password_settings_missing : List String → SettingsError

-- `domain`: the user's domain, or else the general one.
unfoldable pub user_domain : Settings → String
user_domain s =
    if s.text "OS_USER_DOMAIN_NAME" == ""
    then s.text "OS_DOMAIN_NAME"
    else s.text "OS_USER_DOMAIN_NAME"

abbrev pub add_missing : String → String → List String → List String
add_missing value name missing = if value == "" then missing ++ name ∷ [] else missing

unfoldable pub missing_settings : Settings → List String
missing_settings s = add_missing (s.text "OS_PASSWORD") "--os-password/OS_PASSWORD" (
    add_missing (s.text "OS_PROJECT_NAME") "--os-project-name/OS_PROJECT_NAME" (
      add_missing (s.text "OS_USERNAME") "--os-username/OS_USERNAME" (
        add_missing (user_domain s)
          "--os-user-domain-name/OS_USER_DOMAIN_NAME or --os-domain-name/OS_DOMAIN_NAME" [])))

abbrev pub none_missing : List String → Result SettingsError (Unit {0})
none_missing [] = ok tt
none_missing (name ∷ names) = err (password_settings_missing (name ∷ names))

-- The checks; in an end-to-end test there are none.
unfoldable pub check_settings : Settings → Result SettingsError (Unit {0})
check_settings s =
    let e2e = s.flag "RUN_E2E_TEST" in
    if s.text "OS_AUTH_URL" == "" && not e2e
    then err auth_url_missing
    else if s.text "OS_APPLICATION_CREDENTIAL_SECRET" == "" && not e2e
    then none_missing (missing_settings s)
    else if (s.text "OS_APPLICATION_CREDENTIAL_ID" == ""
          || s.text "OS_APPLICATION_CREDENTIAL_NAME" == "")
        && not e2e
    then err application_credentials_missing
    else ok tt

-- The scope: a project's, or a domain's, or that of the system.
unfoldable pub scope_of : Settings → Scope
scope_of s =
    if s.text "OS_PROJECT_NAME" == ""
    then record {
      project_name = "";
      domain_name = s.text "OS_DOMAIN_NAME";
      system = s.text "OS_DOMAIN_NAME" == "" && not (s.text "OS_PROJECT_DOMAIN_NAME" == "");
    }
    else record {
      project_name = s.text "OS_PROJECT_NAME";
      domain_name = s.text "OS_PROJECT_DOMAIN_NAME";
      system = false;
    }

unfoldable pub options_of : Settings → AuthOptions
options_of s = record {
  identity_endpoint = s.text "OS_AUTH_URL";
  username = s.text "OS_USERNAME";
  domain_name = user_domain s;
  password = s.text "OS_PASSWORD";
  token_id = "";
  allow_reauth = true;
  scope = scope_of s;
  application_credential_id = s.text "OS_APPLICATION_CREDENTIAL_ID";
  application_credential_name = s.text "OS_APPLICATION_CREDENTIAL_NAME";
  application_credential_secret = s.text "OS_APPLICATION_CREDENTIAL_SECRET";
}

-- `getAuthOptions`
unfoldable pub get_auth_options : Settings → Result SettingsError AuthOptions
get_auth_options s = check_settings s >>= λ _. ok (options_of s)

pub data CacheStorageType : Type 0 where
  file_storage keyring_storage : CacheStorageType
  other_storage : String → CacheStorageType

-- `NewExecCredentialReadWriter`
abbrev pub new_exec_credential_read_writer : CacheStorageType → Result String (Unit {0})
new_exec_credential_read_writer file_storage = ok tt
new_exec_credential_read_writer keyring_storage = err "keyring storage not yet implemented"
new_exec_credential_read_writer (other_storage name) = err ("unknown storage type " <> name)

-- What does not change between two runs: the settings, the codec of the cache, the output's encoder,
-- the checksum of the options, and the directory of the user's caches.
pub record Machine : Type 0 where
  pub settings : Settings
  pub marshal : ExecCredential → Result String String
  pub decode : String → Result String ExecCredential
  pub marshal_indent : ExecCredential → Result String String
  pub checksum : AuthOptions → Result String String
  pub cache_home : String

-- What does: the time, the errors of the operating system, and what is answered to a login, by
-- Keystone or, where the first argument is true, by the client for end-to-end tests.
pub record Moment : Type 0 where
  pub now : ℕ
  pub reading : Io
  pub writing : Io
  pub login : Bool → AuthOptions → Login

pub data Call : Type 0 where
  asked : Bool → AuthOptions → Call
  printed : String → Call

-- `CacheKey`, with `cacheDir`: filepath.Join puts a slash between its parts.
abbrev pub cache_key : Machine → CacheStorageType → AuthOptions → Result String String
cache_key m file_storage o = m.checksum o >>= λ sum. ok (m.cache_home <> ("/scikube/" <> sum))
cache_key m keyring_storage o = err "keyring storage not yet implemented"
cache_key m (other_storage name) o = err ("unknown storage type " <> name)

pub data AuthenticateError : Type 0 where
  settings_refused : SettingsError → AuthenticateError
  keystone_auth : AuthError → AuthenticateError
  could_not_marshal : String → AuthenticateError
  could_not_cache : CacheError → AuthenticateError
  nil_dereference : AuthenticateError

-- Whether the cache is used further, and the credential that it gave.
pub record Cached : Type 0 where
  pub use_cache : Bool
  pub credential : Option ExecCredential

-- `errors.Is(err, ErrCacheKeyNotFound)` or `errors.As(err, &expiredCachedExecCredentialError)`
abbrev pub is_miss : CacheError → Bool
is_miss cache_key_not_found = true
is_miss (expired at) = true
is_miss e = false

-- The switch on what `Read` gives.
abbrev pub after_read : Bool → Result CacheError ExecCredential → Cached
after_read use_cache (ok ec) = record { use_cache = use_cache; credential = some ec }
after_read use_cache (err e) = record { use_cache = use_cache && is_miss e; credential = none }

-- The text where the end-to-end test has none.
abbrev or_default : String → String → String
or_default default text = if text == "" then default else text

unfoldable pub with_dummies : AuthOptions → AuthOptions
with_dummies o = record o {
  domain_name = or_default "Default" o.domain_name;
  username = or_default "dummy" o.username;
  password = or_default "dummy" o.password;
  token_id = or_default "dummy" o.token_id;
}

module _ (m : Machine) (at : Moment) where
  -- With the key, empty where there is none.
  abbrev pub read_cache : Result String String → Disk → Cached
  read_cache (ok key) disk = after_read true (read m.marshal m.decode key at.now at.reading disk)
  read_cache (err e) disk = after_read false (read m.marshal m.decode "" at.now at.reading disk)

  -- The part under `mustReauth`.
  abbrev pub obtain :
      AuthOptions → Option ExecCredential → Run AuthenticateError Call ExecCredential
  obtain o (some ec) = pure ec
  obtain o none =
      let e2e = m.settings.flag "RUN_E2E_TEST" in
      noting (asked e2e o) >>- λ _.
      lift keystone_auth (do_login (at.login e2e o) (m.settings.flag "NO_REGION_PREFIX"))

  -- The last part, under `useCache && mustReauth`.
  abbrev pub store :
      Result String String → Cached → ExecCredential → Disk → Run AuthenticateError Call Disk
  store (err e) cached ec disk = pure disk
  store (ok key) cached ec disk = elim cached.credential [
    | some _ ↦ pure disk
    | none ↦
        if cached.use_cache
        then lift could_not_cache (write m.marshal m.decode key ec at.writing disk)
        else pure disk
  ]

  abbrev pub print : ExecCredential → Run AuthenticateError Call (Unit {0})
  print ec = lift could_not_marshal (m.marshal_indent ec) >>- λ text. noting (printed text)

  abbrev pub log_in :
      Result String String → AuthOptions → Disk → Cached → Run AuthenticateError Call Disk
  log_in key o disk cached =
      obtain o cached.credential >>- λ ec. print ec >>- λ _. store key cached ec disk

  -- Without the cache, which an end-to-end test does not use, and with it.
  abbrev pub authenticate_with : AuthOptions → Disk → Run AuthenticateError Call Disk
  authenticate_with o disk =
      if m.settings.flag "RUN_E2E_TEST"
      then log_in (err "") (with_dummies o) disk (record { use_cache = false; credential = none })
      else elim (new_exec_credential_read_writer file_storage) [
        | err e ↦ fail nil_dereference
        | ok _ ↦ let key = cache_key m file_storage o in log_in key o disk (read_cache key disk)
      ]

  -- `authenticate`: the disk that it leaves.
  unfoldable pub authenticate : Disk → Run AuthenticateError Call Disk
  authenticate disk =
      lift settings_refused (get_auth_options m.settings) >>- λ o. authenticate_with o disk
