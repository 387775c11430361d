-- ===== src/Base/Runs.antt =====
-- A run of the code: its result, a value or an error, with the log of the calls that it made.
use mathlib.Core.Path.{◌≡◌, refl, sym, ap, subst}
use mathlib.Core.Logic.{◌⊎◌, inl, inr}
use mathlib.Core.Bool.{Bool, true, false, ◌||◌}
use mathlib.Core.List.{Memᴰ, List, [], ◌∷◌, ◌++◌}
use native.Mathlib.Omega.{arith}
use persephone.Base.Tests.{Bool-cases}
use persephone.Base.Results.{Result, ok, err}

abbrev pub Run {ℓ κ μ} : Type ℓ → Type κ → Type μ → Type (ℓ ⊔ κ ⊔ μ)
Run E C A = Result E A × List C

module _ {ℓ κ} {E : Type ℓ} {C : Type κ} where
  infixl 6 ◌>>-◌
  abbrev pub ◌>>-◌ {μ ν} :
      {A : Type μ} {B : Type ν}
      → Result E A × List C
      → (A → Result E B × List C)
      → Result E B × List C
  (err e, calls) >>- next = (err e, calls)
  (ok a, calls) >>- next = let (r, later) = next a in (r, calls ++ later)

  abbrev pub pure {μ} : {A : Type μ} → A → Result E A × List C
  pure a = (ok a, [])

  abbrev pub fail {μ} : {A : Type μ} → E → Result E A × List C
  fail e = (err e, [])

  -- An answer of another part, with its error in the terms of this one.
  abbrev pub lift {μ ν} : {D : Type μ} {A : Type ν} → (D → E) → Result D A → Result E A × List C
  lift f (err e) = fail (f e)
  lift f (ok a) = pure a

  -- A call that is logged where a run fails, and one that is always made.
  abbrev pub or_record {μ} : {A : Type μ} → C → Result E A × List C → Result E A × List C
  or_record metric (err e, calls) = (err e, calls ++ metric ∷ [])
  or_record metric (ok a, calls) = (ok a, calls)

  abbrev pub noting : C → Result E (Unit {0}) × List C
  noting metric = (ok tt, metric ∷ [])

-- The log has a call that passes the test.
abbrev pub made : {C : Type 0} → (C → Bool) → List C → Bool
made p [] = false
made p (c ∷ calls) = p c || made p calls

ok-value : {E A : Type 0} {a b : A} → ◌≡◌ {A = Result E A} (ok a) (ok b) → a ≡ b
ok-value h = cc

module _ {C : Type 0} (p : C → Bool) where
  pub made-append :
      (xs ys : List C) → made p (xs ++ ys) ≡ true → (made p xs ≡ true) ⊎ (made p ys ≡ true)
  made-append [] ys h = inr h
  made-append (c ∷ xs) ys h = elim (Bool-cases (p c)) [
    | inl e ↦ inl (ground arith)
    | inr e ↦ elim (made-append xs ys (ground arith)) [ inl l ↦ inl (ground arith) | inr r ↦ inr r ]
  ]

  pub made-append_right : (xs ys : List C) → made p ys ≡ true → made p (xs ++ ys) ≡ true
  made-append_right [] ys h = h
  made-append_right (c ∷ xs) ys h = let k = made-append_right xs ys h in ground arith

  made-append_left : (xs ys : List C) → made p xs ≡ true → made p (xs ++ ys) ≡ true
  made-append_left [] ys h = ground arith
  made-append_left (c ∷ xs) ys h = elim (Bool-cases (p c)) [
    | inl e ↦ ground arith
    | inr e ↦ let k = made-append_left xs ys (ground arith) in ground arith
  ]

module _ {E C : Type 0} where
  -- A chain that succeeds has a first part that does, and a rest.
  pub bind-ok :
      {A B : Type 0} (m : Run E C A) (next : A → Run E C B) (x : B)
      → (m >>- next).0 ≡ ok x
      → (a : A) × (m.0 ≡ ok a) × ((next a).0 ≡ ok x)
  bind-ok (err e, calls) next x h = ground arith
  bind-ok (ok a, calls) next x h = (a, refl, h)

  -- The result of a chain whose first part succeeds is that of its rest.
  pub bind-value :
      {A B : Type 0} (m : Run E C A) (next : A → Run E C B) (a : A)
      → m.0 ≡ ok a
      → (m >>- next).0 ≡ (next a).0
  bind-value (err e, calls) next a h = ground arith
  bind-value (ok b, calls) next a h = ap (λ x. (next x).0) (ok-value h)

  -- And the log is that of both.
  pub bind-log :
      {A B : Type 0} (m : Run E C A) (next : A → Run E C B) (a : A)
      → m.0 ≡ ok a
      → (m >>- next).1 ≡ m.1 ++ (next a).1
  bind-log (err e, calls) next a h = ground arith
  bind-log (ok b, calls) next a h = ap (λ x. calls ++ (next x).1) (ok-value h)

  pub or_record-ok :
      {A : Type 0} (metric : C) (m : Run E C A) (a : A) → (or_record metric m).0 ≡ ok a → m.0 ≡ ok a
  or_record-ok metric (ok b, calls) a h = h
  or_record-ok metric (err e, calls) a h = h

  module _ (p : C → Bool) where
    -- A call of a chain is one of its first part, or of the rest, which then runs.
    pub made-bind :
        {A B : Type 0} (m : Run E C A) (next : A → Run E C B)
        → made p (m >>- next).1 ≡ true
        → (made p m.1 ≡ true) ⊎ ((a : A) × (m.0 ≡ ok a) × (made p (next a).1 ≡ true))
    made-bind (err e, calls) next h = inl h
    made-bind (ok a, calls) next h = elim (made-append p calls (next a).1 h) [
      | inl l ↦ inl l
      | inr r ↦ inr (a, refl, r)
    ]

    pub made-bind_left :
        {A B : Type 0} (m : Run E C A) (next : A → Run E C B)
        → made p m.1 ≡ true
        → made p (m >>- next).1 ≡ true
    made-bind_left (err e, calls) next h = h
    made-bind_left (ok b, calls) next h = made-append_left p calls (next b).1 h

    pub made-bind_right :
        {A B : Type 0} (m : Run E C A) (next : A → Run E C B) (a : A)
        → m.0 ≡ ok a
        → made p (next a).1 ≡ true
        → made p (m >>- next).1 ≡ true
    made-bind_right (err e, calls) next a g h = ground arith
    made-bind_right (ok b, calls) next a g h =
        made-append_right p calls (next b).1
          (subst (λ x. made p (next x).1 ≡ true) (sym (ok-value g)) h)

    pub made-or_record_left :
        {A : Type 0} (metric : C) (m : Run E C A)
        → made p m.1 ≡ true
        → made p (or_record metric m).1 ≡ true
    made-or_record_left metric (err e, calls) h = made-append_left p calls (metric ∷ []) h
    made-or_record_left metric (ok a, calls) h = h

    pub made-or_record :
        {A : Type 0} (metric : C) (m : Run E C A)
        → p metric ≡ false
        → made p (or_record metric m).1 ≡ true
        → made p m.1 ≡ true
    made-or_record metric (ok a, calls) n h = h
    made-or_record metric (err e, calls) n h = elim (made-append p calls (metric ∷ []) h) [
      | inl l ↦ l
      | inr r ↦ ground arith
    ]

module _ {C : Type 0} (c : C) where
  pub member-append_left : (xs ys : List C) → Memᴰ c xs → Memᴰ c (xs ++ ys)
  member-append_left [] ys m = elim m [ ]
  member-append_left (x ∷ xs) ys (Memᴰ.head q) = Memᴰ.head q
  member-append_left (x ∷ xs) ys (Memᴰ.tail m) = Memᴰ.tail (member-append_left xs ys m)

  pub member-append_right : (xs ys : List C) → Memᴰ c ys → Memᴰ c (xs ++ ys)
  member-append_right [] ys m = m
  member-append_right (x ∷ xs) ys m = Memᴰ.tail (member-append_right xs ys m)

  module _ {E A : Type 0} where
    pub member-bind_left :
        {B : Type 0} (m : Run E C A) (next : A → Run E C B) → Memᴰ c m.1 → Memᴰ c (m >>- next).1
    member-bind_left (err e, calls) next h = h
    member-bind_left (ok a, calls) next h = member-append_left calls (next a).1 h

    pub member-bind_right :
        {B : Type 0} (m : Run E C A) (next : A → Run E C B) (a : A)
        → m.0 ≡ ok a
        → Memᴰ c (next a).1
        → Memᴰ c (m >>- next).1
    member-bind_right (err e, calls) next a g h = ground arith
    member-bind_right (ok b, calls) next a g h =
        member-append_right calls (next b).1 (subst (λ x. Memᴰ c (next x).1) (sym (ok-value g)) h)

    pub member-or_record : (metric : C) (m : Run E C A) → Memᴰ c m.1 → Memᴰ c (or_record metric m).1
    member-or_record metric (err e, calls) h = member-append_left calls (metric ∷ []) h
    member-or_record metric (ok a, calls) h = h
