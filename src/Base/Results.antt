-- ===== src/Base/Results.antt =====
-- A fallible result: a value, or an error of the component's own type.
use mathlib.Core.Path.{◌≡◌, refl}
use mathlib.Core.Logic.{◌⊎◌, inl, inr}

pub data Result {ℓ κ} (E : Type ℓ) (A : Type κ) : Type (ℓ ⊔ κ) where
  ok : A → Result E A
  err : E → Result E A

-- The rest of a chain runs on a value only.
infixl 6 ◌>>=◌
abbrev pub ◌>>=◌ {κ μ ℓ} :
    {E : Type ℓ} {V : Type κ} {X : Type μ} → Result E V → (V → Result E X) → Result E X
ok value >>= next = next value
err failure >>= next = err failure

-- `fmt.Errorf("...: %w", err)` and its like: an error is put in the caller's terms.
abbrev pub wrap {ℓ κ μ} : {D : Type ℓ} {E : Type κ} {A : Type μ} → (D → E) → Result D A → Result E A
wrap f (ok a) = ok a
wrap f (err e) = err (f e)

pub >>=-eq-ok {κ μ ℓ} :
    {E : Type ℓ} {V : Type κ} {X : Type μ} (r : Result E V) (next : V → Result E X) {x : X}
    → (r >>= next) ≡ ok x
    → (v : V) × (r ≡ ok v) × (next v ≡ ok x)
>>=-eq-ok (ok value) next e = (value, refl, e)
>>=-eq-ok (err failure) next e = cc

pub Result-cases {ℓ κ} :
    {E : Type ℓ} {A : Type κ} (r : Result E A) → ((a : A) × (r ≡ ok a)) ⊎ ((e : E) × (r ≡ err e))
Result-cases (ok a) = inl (a, refl)
Result-cases (err e) = inr (e, refl)

pub wrap-ok {ℓ κ μ} :
    {D : Type ℓ} {E : Type κ} {A : Type μ} (f : D → E) (r : Result D A) (a : A)
    → wrap f r ≡ ok a
    → r ≡ ok a
wrap-ok f (ok b) a h = cc
wrap-ok f (err e) a h = cc
