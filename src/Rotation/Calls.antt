-- ===== src/Rotation/Calls.antt =====
-- Which calls the log of a run has.
use persephone.Base.{
  ℕ, ◌≤◌, ◌≡◌, ◌≢◌, ◌↔◌, refl, ap, ◌∙◌, ◌⊎◌, inl, inr, String, Bool, true, false, Option, none,
  some, arith, eq_iff, eq_refl,
}
use persephone.Base.{
  List, [], ◌∷◌, ok, ltb, Bool-cases, Result-cases, Option-cases, All, delete_func,
}
use persephone.Rotation.{
  InternalSecret, Shoot, Call, Env, Answer, done, not_found, already_exists, refused,
  remove_finalizer, delete_user, credentials_binding_for_secret, send_ignoring_not_found, tolerant,
}
use persephone.Rotation.Cleanup.{
  is_deleted, is_same, is_nil, internal_secret_deletion_allowed, secret_owns_cluster_service_user,
  is_only_remaining_internal_secret_for_shoot,
}

abbrev pub is_user_deletion : Call → Bool
is_user_deletion (delete_user region name) = true
is_user_deletion _ = false

abbrev pub is_release : Call → Bool
is_release (remove_finalizer name) = true
is_release _ = false

abbrev pub IsGone : Env → Call → Type 0
IsGone env c = (env.answer c ≡ done) ⊎ (env.answer c ≡ not_found)

gone_of_tolerant : (c : Call) (a : Answer) → tolerant c a ≡ ok tt → (a ≡ done) ⊎ (a ≡ not_found)
gone_of_tolerant c done h = inl refl
gone_of_tolerant c not_found h = inr refl
gone_of_tolerant c already_exists h = ground arith
gone_of_tolerant c (refused e) h = ground arith

pub send_ignoring_not_found-IsGone :
    (env : Env) (c : Call) → (send_ignoring_not_found env c).0 ≡ ok tt → IsGone env c
unfolding send_ignoring_not_found
send_ignoring_not_found-IsGone env c h = gone_of_tolerant c (env.answer c) h

same_iff :
    (secret s : InternalSecret)
    → (is_same secret s ≡ true) ↔ ((s.name ≡ secret.name) × (s.uid ≡ secret.uid))
same_iff secret s = ground (arith, eq_iff s.name secret.name, eq_iff s.uid secret.uid)

abbrev IsSame : InternalSecret → InternalSecret → Type 0
IsSame secret s = (s.name ≡ secret.name) × (s.uid ≡ secret.uid)

is_nil-delete_func :
    (secret : InternalSecret) (xs : List InternalSecret)
    → is_nil (delete_func (is_same secret) xs) ≡ true
    → All (IsSame secret) xs
is_nil-delete_func secret [] h = tt
is_nil-delete_func secret (s ∷ rest) h = elim (Bool-cases (is_same secret s)) [
  | inl e ↦ ((same_iff secret s).0 e, is_nil-delete_func secret rest (ground arith))
  | inr e ↦ ground arith
]

-- The Shoot has no secret of another name or UID.
abbrev pub IsLast : Env → InternalSecret → Type 0
IsLast env secret =
    (secrets : List InternalSecret) × (env.secrets ≡ ok secrets) × All (IsSame secret) secrets

-- The newest secret of the Shoot is this one, or another.
abbrev pub IsNewest : Env → InternalSecret → Type 0
IsNewest env secret =
    (newest : InternalSecret) × (env.newest (λ _. true) ≡ ok (some newest)) × IsSame secret newest

abbrev pub IsNotNewest : Env → InternalSecret → Type 0
IsNotNewest env secret =
    (newest : InternalSecret) × (env.newest (λ _. true) ≡ ok (some newest))
    × (IsSame secret newest → ⊥)

abbrev pub IsOwner : Env → InternalSecret → Bool → Type 0
IsOwner env secret true = IsNewest env secret
IsOwner env secret false = IsNotNewest env secret

pub secret_owns_cluster_service_user-IsOwner :
    (env : Env) (secret : InternalSecret) (owner : Bool)
    → secret_owns_cluster_service_user env secret ≡ ok owner
    → IsOwner env secret owner
unfolding secret_owns_cluster_service_user
secret_owns_cluster_service_user-IsOwner env secret owner h =
    elim (Result-cases (env.newest (λ _. true))) [
      | inr (x, e) ↦ ground arith
      | inl (found, e) ↦ elim (Option-cases found) [
        | inl n ↦ ground arith
        | inr (newest, n) ↦ owner_cases newest owner (e ∙ ap ok n) (ground arith)
      ]
    ]
  where
    owner_cases :
        (newest : InternalSecret) (o : Bool)
        → env.newest (λ _. true) ≡ ok (some newest)
        → is_same secret newest ≡ o
        → IsOwner env secret o
    owner_cases newest true e k = (newest, e, (same_iff secret newest).0 k)
    owner_cases newest false e k =
        (newest, e, λ q. let z = (same_iff secret newest).1 q in ground arith)

-- The secret may be deleted: its Shoot is, or it has expired, or the Shoot names another binding.
abbrev pub IsAllowed : Env → InternalSecret → Shoot → ℕ → Type 0
IsAllowed env secret shoot expires =
    (shoot.last_operation ≡ some ("Delete", "Succeeded"))
    ⊎ (expires ≤ env.now)
    ⊎ (shoot.credentials_binding_name ≢ some secret.name)

deleted_operation :
    (o : Option (String × String)) → is_deleted o ≡ true → o ≡ some ("Delete", "Succeeded")
deleted_operation none h = ground arith
deleted_operation (some (kind, state)) h =
    let k : kind ≡ "Delete" = ground (arith, eq_iff kind "Delete") in
    let l : state ≡ "Succeeded" = ground (arith, eq_iff state "Succeeded") in rw (k, l) refl

pub internal_secret_deletion_allowed-IsAllowed :
    (env : Env) (secret : InternalSecret) (shoot : Shoot) (expires : ℕ)
    → internal_secret_deletion_allowed env secret shoot expires ≡ true
    → IsAllowed env secret shoot expires
unfolding internal_secret_deletion_allowed credentials_binding_for_secret
internal_secret_deletion_allowed-IsAllowed env secret shoot expires h =
    elim (Bool-cases (is_deleted shoot.last_operation)) [
      | inl e ↦ inl (deleted_operation shoot.last_operation e)
      | inr e ↦ elim (Bool-cases (ltb env.now expires)) [
        | inr f ↦ inr (inl (ground arith))
        | inl f ↦ inr (inr λ n. ground (arith, eq_refl secret.name))
      ]
    ]

pub is_only_remaining_internal_secret_for_shoot-IsLast :
    (env : Env) (secret : InternalSecret)
    → is_only_remaining_internal_secret_for_shoot env secret ≡ ok true
    → IsLast env secret
unfolding is_only_remaining_internal_secret_for_shoot
is_only_remaining_internal_secret_for_shoot-IsLast env secret h = elim (Result-cases env.secrets) [
  | inl (secrets, e) ↦ (secrets, e, is_nil-delete_func secret secrets (ground arith))
  | inr (x, e) ↦ ground arith
]
