-- ===== src/Rotation/Timing.antt =====
-- When a secret is looked at again, and when it is renewed and deleted.
use persephone.Base.{ℕ, ◌+◌, ◌-◌, ◌≤◌, ◌<◌, ◌≡◌, ◌⊎◌, inl, inr, true, arith}
use persephone.Base.{[], ◌∷◌, ok, Bool-cases, ltb, leb}
use persephone.Rotation.{
  InternalSecret, Shoot, Env, done, already_exists, add_finalizer, create_binding,
  credentials_binding_for_secret, send, send_ignoring_already_exists, renew_at,
}
use persephone.Rotation.Renewal.{reconcile, handle_now_before_renew_time}

-- A renew time after the creation lies in the middle of the validity.
renew_at_later :
    (creation expires now : ℕ)
    → creation ≤ now
    → now < renew_at creation expires
    → renew_at creation expires + renew_at creation expires ≤ creation + expires
unfolding renew_at
renew_at_later creation expires now h k = elim (Bool-cases (leb creation expires)) [
  | inl e ↦ ground arith
  | inr e ↦ ground arith
]

-- Before the renew time, a reconciliation of a secret whose Shoot is there and whose calls are
-- answered gives the secret its finalizer and its binding and nothing else, and asks to be called
-- again after a duration: that call comes at the renew time or later, but not after the expiry.
pub reconcile_before_renew_time :
    (env : Env) (secret : InternalSecret) (shoot : Shoot) (expires : ℕ)
    → secret.creation ≤ env.now
    → env.now < renew_at secret.creation expires
    → shoot.exists ≡ true
    → env.answer (add_finalizer secret.name) ≡ done
    → ((env.answer (create_binding (credentials_binding_for_secret shoot secret)) ≡ done)
        ⊎ (env.answer (create_binding (credentials_binding_for_secret shoot secret))
            ≡ already_exists))
    → (after : ℕ) × reconcile env secret shoot expires ≡ (
      ok after,
      add_finalizer secret.name ∷ create_binding (credentials_binding_for_secret shoot secret) ∷ [],
    )
      × renew_at secret.creation expires ≤ env.now + after
      × env.now + after < expires
unfolding reconcile send handle_now_before_renew_time send_ignoring_already_exists
reconcile_before_renew_time env secret shoot expires young early there finalized bound =
    let middle = renew_at_later secret.creation expires env.now young early in
    let later : ltb env.now (renew_at secret.creation expires) ≡ true = ground arith in
    (
      renew_at secret.creation expires - secret.creation,
      elim bound [
        | inl b ↦ simp (finalized, there, later, b, reconcile)
        | inr b ↦ simp (finalized, there, later, b, reconcile)
      ],
      omega arith,
      omega arith,
    )
