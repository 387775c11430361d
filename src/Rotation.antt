-- ===== src/Rotation.antt =====
-- internal/controller/internalsecret/reconciler.go, with what it calls of internal/kubernetes: the
-- life of an InternalSecret that holds an application credential of a Shoot. The API server and
-- Keystone answer through `Env`; the calls that change something, and the metrics, are a log.
-- Times and durations are in nanoseconds.
pub mod Renewal
pub mod Cleanup
pub mod Timing
pub mod Renewed
pub mod Calls
pub mod Gone
pub mod Release
use persephone.Base.{
  ℕ, ◌+◌, ◌-◌, ◌*◌, ◌/◌, String, Bool, true, false, ◌==◌, Option, none, some, List, [], ◌∷◌, ◌++◌,
}
use persephone.Base.{Result, ok, err, leb, if◌then◌else◌}
use persephone.Base.Runs.{Run}
use persephone.Base.Dict.{Dict, lookup}
use persephone.Constants.{annotation_key_expires_at, gardener_provider_type}
use persephone.UserInfo.{OpenStackUserInfo, ExtractError}

pub record InternalSecret : Type 0 where
  pub name : String
  pub namespace : String
  pub uid : String
  pub creation : ℕ
  pub deleting : Bool
  pub labels : Dict String
  pub annotations : Dict String
  pub credential_id : String

-- `exists` says that the Shoot has a UID. The last operation is its type and state.
pub record Shoot : Type 0 where
  pub name : String
  pub namespace : String
  pub exists : Bool
  pub last_operation : Option (String × String)
  pub credentials_binding_name : Option String

pub record CredentialsBinding : Type 0 where
  pub name : String
  pub namespace : String
  pub provider_type : String
  pub secret_name : String
  pub secret_namespace : String

-- `CredentialsBindingForSecret`
unfoldable pub credentials_binding_for_secret : Shoot → InternalSecret → CredentialsBinding
credentials_binding_for_secret shoot secret = record {
  name = secret.name;
  namespace = shoot.namespace;
  provider_type = gardener_provider_type;
  secret_name = secret.name;
  secret_namespace = shoot.namespace;
}

-- The calls that change something, in Kubernetes and in Keystone, where the region comes first.
-- `connect` is `NewClusterUserClientSet` for a user and a project, `delete_user` is
-- `DeleteClusterServiceUser`; `ensure_secret` creates an application credential and its secret.
pub data Call : Type 0 where
  add_finalizer remove_finalizer delete_secret : String → Call
  create_binding delete_binding : CredentialsBinding → Call
  connect : String → String → String → Call
  ensure_secret : String → Shoot → OpenStackUserInfo → Call
  delete_credential : String → String → Call
  delete_user : String → String → Call
  record_rotation record_cleanup : String → String → Call

pub data Answer : Type 0 where
  done not_found already_exists : Answer
  refused : String → Answer

-- `newest` is `kubernetesutils.NewestObject` among the secrets of the Shoot, `secrets` their list.
pub record Env : Type 0 where
  pub now : ℕ
  pub landscape_name : String
  pub parse_time : String → Option ℕ
  pub answer : Call → Answer
  pub newest : (InternalSecret → Bool) → Result String (Option InternalSecret)
  pub secrets : Result String (List InternalSecret)
  pub supports : String → Bool
  pub user_exists : String → String → Result String Bool
  pub namespace_labels : Result String (Dict String)

pub data RotationError : Type 0 where
  call_failed : Call → RotationError
  expiry_unreadable retrieval_failed list_failed namespace_failed user_check_failed
        region_not_supported :
      String → RotationError
  labels_unreadable : ExtractError → RotationError
  nil_dereference : RotationError

-- A result with the log of the calls that were made.
abbrev pub Logged {ℓ} : Type ℓ → Type ℓ
Logged A = Run RotationError Call A

-- One call. The first tolerates no error, the others the one that they name.
abbrev pub strict : Call → Answer → Result RotationError (Unit {0})
strict c done = ok tt
strict c _ = err (call_failed c)

abbrev tolerant : Call → Answer → Result RotationError (Unit {0})
tolerant c not_found = ok tt
tolerant c a = strict c a

abbrev lenient : Call → Answer → Result RotationError (Unit {0})
lenient c already_exists = ok tt
lenient c a = strict c a

unfoldable pub send : Env → Call → Logged (Unit {0})
send env c = (strict c (env.answer c), c ∷ [])

unfoldable pub send_ignoring_not_found : Env → Call → Logged (Unit {0})
send_ignoring_not_found env c = (tolerant c (env.answer c), c ∷ [])

unfoldable pub send_ignoring_already_exists : Env → Call → Logged (Unit {0})
send_ignoring_already_exists env c = (lenient c (env.answer c), c ∷ [])

-- `expiresAt` in `Reconcile`: the annotation, or the creation where there is none.
unfoldable pub expires_at : Env → InternalSecret → Result RotationError ℕ
expires_at env secret = elim (lookup annotation_key_expires_at secret.annotations) [
  | none ↦ ok secret.creation
  | some raw ↦ elim (env.parse_time raw) [ none ↦ err (expiry_unreadable raw) | some t ↦ ok t ]
]

-- `renewTime`: the creation and half of the validity, which is cut toward zero and may be negative.
unfoldable pub renew_at : ℕ → ℕ → ℕ
renew_at creation expires =
    if leb creation expires
    then creation + (expires - creation) / 2
    else creation - (creation - expires) / 2

-- An hour.
abbrev pub grace_period_secret_age : ℕ
grace_period_secret_age = 3600 * 1000000000
