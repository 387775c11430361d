-- ===== src/ShootController.antt =====
-- internal/controller/shoot: a Shoot is moved to the binding of its newest secret, in its maintenance
-- window or sooner where it asks for that, and its secrets are deleted with it. reconciler.go is
-- below, the children are add.go and what holds. What the API server and Gardener's utilities answer
-- is in `Env`; the calls that change something are a log.
pub mod Events
pub mod Takeover
pub mod Release
use persephone.Base.{
  ℕ, String, Bool, true, false, ◌==◌, ◌&&◌, Option, none, some, List, [], ◌∷◌, ◌++◌,
}
use persephone.Base.{Result, ok, err, if◌then◌else◌}
use persephone.Base.Runs.{Run, ◌>>-◌, pure, fail, lift}
use persephone.Base.Dict.{Dict, get_text, erase}
use persephone.Kube.{Got, found, not_found, failed}
use persephone.Constants.{annotation_key_force_credentials_binding_update}
use persephone.Rotation.{InternalSecret, Shoot}
use persephone.Rotation.Cleanup.{is_deleted, text_or_empty}

-- `confine_spec_update_rollout` is in the maintenance section.
pub record Maintenance : Type 0 where
  pub confine_spec_update_rollout : Option Bool

-- A Shoot with what this controller reads of it. `settings` is the rest of the specification.
pub record ManagedShoot : Type 0 where
  pub shoot : Shoot
  pub deleting : Bool
  pub generation : ℕ
  pub annotations : Dict String
  pub labels : Dict String
  pub finalizers : List String
  pub maintenance : Option Maintenance
  pub settings : String

-- `newest` is `NewestObject` among the secrets with the Shoot's label. `in_window` is
-- `IsNowInEffectiveShootMaintenanceTimeWindow`, `until_window` the random duration until the next.
-- The others are the errors of the calls, if any.
pub record Env : Type 0 where
  pub newest : Result String (Option InternalSecret)
  pub in_window : ManagedShoot → Bool
  pub until_window : ManagedShoot → ℕ
  pub add_finalizer : Option String
  pub patch : ManagedShoot → Option String
  pub delete_all_of : String → String → Option String
  pub remove_finalizer : Option String

-- `delete_secrets namespace name` is `DeleteAllOf` the secrets of the Shoot's label.
pub data Call : Type 0 where
  add_finalizer remove_finalizer : String → Call
  patch_shoot : ManagedShoot → Call
  delete_secrets : String → String → Call

pub data ShootError : Type 0 where
  call_failed : Call → String → ShootError
  retrieval_failed list_failed : String → ShootError
  nil_dereference : ShootError

abbrev pub finalizer_name : String
finalizer_name = "persephone.sci.cloud.sap/shoot-controller"

abbrev pub send : Call → Option String → Run ShootError Call (Unit {0})
send call none = (ok tt, call ∷ [])
send call (some e) = (err (call_failed call e), call ∷ [])

abbrev pub contains : String → List String → Bool
contains s [] = false
contains s (t ∷ rest) = let later = contains s rest in if t == s then true else later

-- `AddFinalizers`, where the Shoot has none of this controller; the Shoot then has it.
unfoldable pub finalized : Env → ManagedShoot → Run ShootError Call ManagedShoot
finalized env s = elim (contains finalizer_name s.finalizers) [
  | true ↦ pure s
  | false ↦ send (add_finalizer s.shoot.name) env.add_finalizer >>- λ _.
      pure (record s { finalizers = s.finalizers ++ finalizer_name ∷ [] })
]

-- The Shoot that `patchCredentialsBindingName` sends.
unfoldable pub taken_over : ManagedShoot → String → ManagedShoot
taken_over s name = record s {
  shoot = record s.shoot { credentials_binding_name = some name };
  annotations = erase annotation_key_force_credentials_binding_update s.annotations;
}

unfoldable pub patch_credentials_binding_name :
    Env → ManagedShoot → String → Run ShootError Call (Unit {0})
patch_credentials_binding_name env s name =
    send (patch_shoot (taken_over s name)) (env.patch (taken_over s name))

abbrev pub patched : Env → ManagedShoot → String → Run ShootError Call ℕ
patched env s name = patch_credentials_binding_name env s name >>- λ _. pure 0

abbrev pub is_forced : ManagedShoot → Bool
is_forced s = get_text annotation_key_force_credentials_binding_update s.annotations == "true"

-- `ptr.Deref(…, false)`
abbrev pub is_confined : Maintenance → Bool
is_confined m = elim m.confine_spec_update_rollout [ none ↦ false | some b ↦ b ]

-- The third case of the switch and those after it; the maintenance section is not checked for nil.
abbrev pub roll_out : Env → ManagedShoot → String → Option Maintenance → Run ShootError Call ℕ
roll_out env s name none = fail nil_dereference
roll_out env s name (some m) = elim (is_confined m) [
  | true ↦ patched env s name
  | false ↦ elim (env.in_window s) [ true ↦ patched env s name | false ↦ pure (env.until_window s) ]
]

-- The switch, for the name of the newest secret, which is that of its binding.
unfoldable pub take_over : Env → ManagedShoot → String → Run ShootError Call ℕ
take_over env s name = elim (text_or_empty s.shoot.credentials_binding_name == name) [
  | true ↦ pure 0
  | false ↦ elim (is_forced s) [
    | true ↦ patched env s name
    | false ↦ roll_out env s name s.maintenance
  ]
]

-- `reconcile`, once the finalizer is there.
abbrev pub follow_newest : Env → ManagedShoot → Run ShootError Call ℕ
follow_newest env s = lift list_failed env.newest >>- λ newest. elim newest [
  | none ↦ pure 0
  | some secret ↦ take_over env s secret.name
]

-- `reconcile`: the duration after which it is called again, 0 for none.
unfoldable pub reconcile : Env → ManagedShoot → Run ShootError Call ℕ
reconcile env s = finalized env s >>- follow_newest env

unfoldable pub delete : Env → ManagedShoot → Run ShootError Call ℕ
delete env s = elim (is_deleted s.shoot.last_operation) [
  | false ↦ pure 0
  | true ↦
      send (delete_secrets s.shoot.namespace s.shoot.name)
        (env.delete_all_of s.shoot.namespace s.shoot.name)
      >>- λ _. send (remove_finalizer s.shoot.name) env.remove_finalizer >>- λ _. pure 0
]

-- `Reconcile`
unfoldable pub reconcile_request : Env → Got ManagedShoot → Run ShootError Call ℕ
reconcile_request env not_found = pure 0
reconcile_request env (failed e) = fail (retrieval_failed e)
reconcile_request env (found s) = elim s.deleting [ true ↦ delete env s | false ↦ reconcile env s ]
