-- ===== src/ShootController/Release.antt =====
-- internal/controller/shoot/reconciler.go, with internal/controller/internalsecret: which secrets of
-- a Shoot may be deleted once it was moved, or is deleted.
use persephone.Base.{
  ℕ, ◌<◌, String, ◌≡◌, ◌≢◌, ap, ◌∙◌, inl, inr, Bool, true, false, ◌==◌, Option, none, some, [], ◌∷◌,
  ◌++◌, arith, eq_iff, eq_refl, ltb,
}
use persephone.Base.{ok, Bool-cases, Option-cases}
use persephone.Base.Dict.{lookup, erase, lookup-erase}
use persephone.Base.Runs.{bind-value, bind-log, made}
use persephone.Constants.{annotation_key_force_credentials_binding_update}
use persephone.Rotation.{InternalSecret, Shoot, credentials_binding_for_secret}
use persephone.Rotation as Rotation
use persephone.Rotation.Cleanup.{internal_secret_deletion_allowed, is_deleted, text_or_empty}
use persephone.ShootController.{
  ManagedShoot, Env, Call, patch_shoot, remove_finalizer, finalized, taken_over, patched,
  patch_credentials_binding_name, is_forced, is_confined, roll_out, take_over, follow_newest,
  reconcile, delete,
}
use persephone.ShootController.Takeover.{IsDue}

module _ (env : Env) (s : ManagedShoot) (name : String)
    (accepted : env.patch (taken_over s name) ≡ none) where
  patched_now : patched env s name ≡ (ok 0, patch_shoot (taken_over s name) ∷ [])
  unfolding patch_credentials_binding_name
  patched_now = simp (accepted, patched, patch_credentials_binding_name)

  take_over_due :
      IsDue env s
      → (text_or_empty s.shoot.credentials_binding_name == name) ≡ false
      → take_over env s name ≡ (ok 0, patch_shoot (taken_over s name) ∷ [])
  unfolding take_over
  take_over_due (inl f) d = simp (d, f, patched_now, take_over)
  take_over_due (inr (m, e, w)) d = elim (Bool-cases (is_forced s)) [
    | inl f ↦ simp (d, f, patched_now, take_over)
    | inr f ↦ elim (Bool-cases (is_confined m)) [
      | inl c ↦ simp (d, f, e, c, patched_now, roll_out, take_over)
      | inr c ↦ elim w [
        | inl c' ↦ ground arith
        | inr w' ↦ simp (d, f, e, c, w', patched_now, roll_out, take_over)
      ]
    ]
  ]

unforced : (s : ManagedShoot) (name : String) → is_forced (taken_over s name) ≡ false
unfolding taken_over
unforced s name =
    let key = annotation_key_force_credentials_binding_update in
    let gone : lookup key (erase key s.annotations) ≡ none = lookup-erase key key s.annotations in
    ap (λ (o : Option String). text_or_empty o == "true") gone

same_pair : {A B : Type 0} (p : A × B) (a : A) (b : B) → p.0 ≡ a → p.1 ≡ b → p ≡ (a, b)
same_pair (x, y) a b e f = cc

-- A Shoot that does not name the binding of its newest secret, and may be changed now, is moved to it
-- in one run if the API server accepts it, and does not ask to be forced any more. From then on the
-- InternalSecret controller allows the deletion of each secret of another name, and, as long as the
-- Shoot is not deleted and the newest secret has not expired, not of that.
pub reconcile_moves :
    (env : Env) (s prepared : ManagedShoot) (newest older : InternalSecret)
    (rotation : Rotation.Env) (expires : ℕ)
    → (finalized env s).0 ≡ ok prepared
    → env.newest ≡ ok (some newest)
    → text_or_empty prepared.shoot.credentials_binding_name ≢ newest.name
    → IsDue env prepared
    → env.patch (taken_over prepared newest.name) ≡ none
    → older.name ≢ newest.name
    → is_deleted prepared.shoot.last_operation ≡ false
    → rotation.now < expires
    → let moved = taken_over prepared newest.name in
      (reconcile env s ≡ (ok 0, (finalized env s).1 ++ patch_shoot moved ∷ []))
      × (is_forced moved ≡ false)
      × (internal_secret_deletion_allowed rotation older moved.shoot expires ≡ true)
      × (internal_secret_deletion_allowed rotation newest moved.shoot expires ≡ false)
unfolding reconcile taken_over internal_secret_deletion_allowed credentials_binding_for_secret
reconcile_moves env s prepared newest older rotation expires f n other due accepted differs alive
      early =
    let d : (text_or_empty prepared.shoot.credentials_binding_name == newest.name) ≡ false =
      ground (arith, eq_iff (text_or_empty prepared.shoot.credentials_binding_name) newest.name) in
    let run = take_over_due env prepared newest.name accepted due d in
    let moved = taken_over prepared newest.name in
    let rest : follow_newest env prepared ≡ (ok 0, patch_shoot moved ∷ []) = simp (n, run) in
    let unexpired : ltb rotation.now expires ≡ true = ground arith in
    let not_older : (newest.name == older.name) ≡ false =
      ground (arith, eq_iff newest.name older.name) in
    (
      same_pair (reconcile env s) (ok 0) ((finalized env s).1 ++ patch_shoot moved ∷ [])
          (bind-value (finalized env s) (follow_newest env) prepared f ∙ ap (λ x. x.0) rest)
          (bind-log (finalized env s) (follow_newest env) prepared f
            ∙ ap (λ x. (finalized env s).1 ++ x.1) rest),
      unforced prepared newest.name,
      simp (alive, unexpired, not_older, internal_secret_deletion_allowed),
      simp (alive, unexpired, eq_refl newest.name, internal_secret_deletion_allowed),
    )

abbrev pub is_finalizer_removal : Call → Bool
is_finalizer_removal (remove_finalizer name) = true
is_finalizer_removal _ = false

-- The finalizer of a Shoot is removed only after its last operation has succeeded to delete it and
-- all secrets with its label were deleted without error; the InternalSecret controller then allows
-- each of them to go.
pub delete-IsReleased :
    (env : Env) (s : ManagedShoot) (secret : InternalSecret) (rotation : Rotation.Env) (expires : ℕ)
    → made is_finalizer_removal (delete env s).1 ≡ true
    → (is_deleted s.shoot.last_operation ≡ true)
      × (env.delete_all_of s.shoot.namespace s.shoot.name ≡ none)
      × (internal_secret_deletion_allowed rotation secret s.shoot expires ≡ true)
unfolding delete internal_secret_deletion_allowed
delete-IsReleased env s secret rotation expires h =
    elim (Bool-cases (is_deleted s.shoot.last_operation)) [
      | inr e ↦ ground arith
      | inl e ↦ elim (Option-cases (env.delete_all_of s.shoot.namespace s.shoot.name)) [
        | inr (x, f) ↦ ground arith
        | inl f ↦ (e, f, simp (e, internal_secret_deletion_allowed))
      ]
    ]
