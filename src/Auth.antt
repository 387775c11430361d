-- ===== src/Auth.antt =====
-- internal/auth/auth.go: the credential that `scikube auth` hands to kubectl, and its cache on
-- disk. Keystone's answers are the argument of type `Login`; the JSON codec of an ExecCredential
-- is the argument `marshal` and `decode`. Times are in seconds.
pub mod Cache
use persephone.Base.{
  ℕ, String, ◌<>◌, Bool, true, false, ◌==◌, ◌||◌, Option, none, some, List, [], ◌∷◌,
}
use persephone.Base.{Result, ok, err, ◌>>=◌, wrap, ltb, leb, eqb, not, if◌then◌else◌}
use persephone.Base.Dict.{Dict, lookup, insert}

-- The service catalog.
pub record CatalogEndpoint : Type 0 where
  pub interface : String
  pub region : String
  pub url : String

pub record CatalogEntry : Type 0 where
  pub service_type : String
  pub service_name : String
  pub endpoints : List CatalogEndpoint

-- The inner loop of `getRegion`: the region of the first public endpoint.
unfoldable pub public_region : List CatalogEndpoint → Option String
public_region [] = none
public_region (e ∷ rest) = if e.interface == "public" then some e.region else public_region rest

abbrev pub region_or : Option String → String → String
region_or none other = other
region_or (some region) other = region

unfoldable pub get_region : List CatalogEntry → String
unfolding public_region
get_region [] = ""
get_region (service ∷ rest) =
    if service.service_type == "identity"
    then region_or (public_region service.endpoints) (get_region rest)
    else get_region rest

pub record Token : Type 0 where
  pub id : String
  pub expires_at : ℕ

-- What the calls of `Do` answer, in their order.
pub record Login : Type 0 where
  pub provider_error : Option String
  pub identity_error : Option String
  pub token : Result String Token
  pub catalog : Result String (List CatalogEntry)

pub data AuthError : Type 0 where
  could_not_create_provider could_not_create_identity could_not_extract_token
        could_not_extract_catalog :
      String → AuthError

-- The status of an ExecCredential; its kind, version and spec are constants.
pub record CredentialStatus : Type 0 where
  pub expiration_timestamp : Option ℕ
  pub token : String

pub record ExecCredential : Type 0 where
  pub status : Option CredentialStatus

abbrev check : (String → AuthError) → Option String → Result AuthError (Unit {0})
check wrapped none = ok tt
check wrapped (some e) = err (wrapped e)

unfoldable pub bearer_token : String → Bool → String → String
bearer_token region no_region_prefix id =
    if region == "" || no_region_prefix then id else region <> (":" <> id)

-- `Do`
unfoldable pub do_login : Login → Bool → Result AuthError ExecCredential
do_login login no_region_prefix = do
  _ ← check could_not_create_provider login.provider_error
  _ ← check could_not_create_identity login.identity_error
  token ← wrap could_not_extract_token login.token
  catalog ← wrap could_not_extract_catalog login.catalog
  ok (record {
    status = some (record {
      expiration_timestamp = some token.expires_at;
      token = bearer_token (get_region catalog) no_region_prefix token.id;
    });
  })

-- A file, with its permission bits; the disk is the files that can be read.
pub record File : Type 0 where
  pub contents : String
  pub mode : ℕ

abbrev pub Disk : Type 0
Disk = Dict File

-- 0600
abbrev pub private_mode : ℕ
private_mode = 0o600

pub data CacheError : Type 0 where
  cache_key_not_found missing_token_id missing_token_expiration : CacheError
  unsafe_mode : ℕ → CacheError
  unreadable stat_failed invalid could_not_create_directory could_not_encode could_not_write :
      String → CacheError
  expired : ℕ → CacheError

-- The errors of the operating system in one call of `Read` or `Write`, where there are any; the
-- cache's directory is made only where it is missing.
pub record Io : Type 0 where
  pub read_error : Option String
  pub stat_error : Option String
  pub mkdir_error : Option String
  pub write_error : Option String

abbrev pub check_io : (String → CacheError) → Option String → Result CacheError (Unit {0})
check_io wrapped none = ok tt
check_io wrapped (some e) = err (wrapped e)

-- The checks of `Read` on a credential that was decoded. The zero time is 0.
unfoldable pub check_credential : ℕ → ExecCredential → Result CacheError ExecCredential
check_credential now ec = elim ec.status [
  | none ↦ err missing_token_id
  | some status ↦
      if status.token == "" then err missing_token_id else elim status.expiration_timestamp [
        | none ↦ err missing_token_expiration
        | some expiry ↦
            if eqb expiry 0
            then err missing_token_expiration
            else if not (ltb now expiry)
            then err (expired expiry)
            else ok ec
      ]
]

module _ (marshal : ExecCredential → Result String String)
    (decode : String → Result String ExecCredential) where
  unfoldable pub decode_checked : ℕ → File → Result CacheError ExecCredential
  decode_checked now file =
      if not (eqb file.mode private_mode)
      then err (unsafe_mode file.mode)
      else elim (decode file.contents) [ err e ↦ err (invalid e) | ok ec ↦ check_credential now ec ]

  -- `Read` at the time `now`
  unfoldable pub read : String → ℕ → Io → Disk → Result CacheError ExecCredential
  unfolding decode_checked
  read key now io disk = elim (lookup key disk) [
    | none ↦ err cache_key_not_found
    | some file ↦ check_io unreadable io.read_error >>= λ _.
        check_io stat_failed io.stat_error >>= λ _. decode_checked now file
  ]

  -- `os.WriteFile(key, contents, 0600)` sets the mode of a new file only.
  unfoldable pub write_file : String → String → Disk → Disk
  write_file key contents disk = elim (lookup key disk) [
    | none ↦ insert key (record { contents = contents; mode = private_mode }) disk
    | some file ↦ insert key (record file { contents = contents }) disk
  ]

  -- `Write`
  unfoldable pub write : String → ExecCredential → Io → Disk → Result CacheError Disk
  unfolding write_file
  write key ec io disk = check_io could_not_create_directory io.mkdir_error >>= λ _.
      wrap could_not_encode (marshal ec) >>= λ contents.
      check_io could_not_write io.write_error >>= λ _. ok (write_file key contents disk)
