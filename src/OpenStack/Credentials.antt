-- ===== src/OpenStack/Credentials.antt =====
-- Which application credential is taken for use again.
use mathlib.Core.List.{Memᴰ}
use persephone.Base.{
  ℕ, ◌+◌, ◌≤◌, ◌<◌, String, ◌≡◌, refl, true, false, Option, none, some, List, [], ◌∷◌,
}
use persephone.Base.{ok, arith, Bool-cases, inl, inr, leb, ltb, ◌⊎◌, All}
use persephone.Base.Texts.{has_prefix}
use persephone.OpenStack.{
  ApplicationCredential, renew_time, insert_by_expiry, sort_by_expiry, with_prefix, first_valid,
  get_valid_application_credential,
}

-- Valid for longer than the renew time.
abbrev pub IsValid : ℕ → ApplicationCredential → Type 0
IsValid now c = now + renew_time < c.expires_at

-- The credential expires no later than any valid one of the list.
abbrev pub IsSoonest : ℕ → ApplicationCredential → List ApplicationCredential → Type 0
IsSoonest now c cs = All (λ d. (¬ IsValid now d) ⊎ (c.expires_at ≤ d.expires_at)) cs

abbrev IsSorted : List ApplicationCredential → Type 0
IsSorted [] = Unit
IsSorted (c ∷ rest) = All (λ d. c.expires_at ≤ d.expires_at) rest × IsSorted rest

le_of_leb : {m n : ℕ} → leb m n ≡ true → m ≤ n
le_of_leb {m} {n} e = ground arith

ge_of_leb : {m n : ℕ} → leb m n ≡ false → n ≤ m
ge_of_leb {m} {n} e = ground arith

le_trans : {a b c : ℕ} → a ≤ b → b ≤ c → a ≤ c
le_trans h k = omega arith

All-map :
    (P Q : ApplicationCredential → Type 0) (cs : List ApplicationCredential)
    → ((d : ApplicationCredential) → P d → Q d)
    → All P cs
    → All Q cs
All-map P Q [] f h = tt
All-map P Q (c ∷ rest) f h = (f c h.0, All-map P Q rest f h.1)

module _ (P : ApplicationCredential → Type 0) where
  All-insert_by_expiry :
      (c : ApplicationCredential) (cs : List ApplicationCredential)
      → P c
      → All P cs
      → All P (insert_by_expiry c cs)
  unfolding insert_by_expiry
  All-insert_by_expiry c [] p h = (p, tt)
  All-insert_by_expiry c (d ∷ rest) p h = elim (Bool-cases (leb c.expires_at d.expires_at)) [
    | inl e ↦ rw e (p, h)
    | inr e ↦ rw e (h.0, All-insert_by_expiry c rest p h.1)
  ]

  members_of_insert :
      (c : ApplicationCredential) (cs : List ApplicationCredential)
      → All P (insert_by_expiry c cs)
      → P c × All P cs
  unfolding insert_by_expiry
  members_of_insert c [] = λ h. h
  members_of_insert c (d ∷ rest) = elim (Bool-cases (leb c.expires_at d.expires_at)) [
    | inl e ↦ rw e λ h. h
    | inr e ↦ rw e λ h. ((members_of_insert c rest h.1).0, (h.0, (members_of_insert c rest h.1).1))
  ]

  All-sort_by_expiry : (cs : List ApplicationCredential) → All P cs → All P (sort_by_expiry cs)
  unfolding sort_by_expiry
  All-sort_by_expiry [] h = tt
  All-sort_by_expiry (c ∷ rest) h =
      All-insert_by_expiry c (sort_by_expiry rest) h.0 (All-sort_by_expiry rest h.1)

  members_of_sort : (cs : List ApplicationCredential) → All P (sort_by_expiry cs) → All P cs
  unfolding sort_by_expiry
  members_of_sort [] h = tt
  members_of_sort (c ∷ rest) h =
      let (p, q) = members_of_insert c (sort_by_expiry rest) h in (p, members_of_sort rest q)

insert_by_expiry-IsSorted :
    (c : ApplicationCredential) (cs : List ApplicationCredential)
    → IsSorted cs
    → IsSorted (insert_by_expiry c cs)
unfolding insert_by_expiry
insert_by_expiry-IsSorted c [] h = (tt, tt)
insert_by_expiry-IsSorted c (d ∷ rest) h = elim (Bool-cases (leb c.expires_at d.expires_at)) [
  | inl e ↦ rw e ((le_of_leb e, All-map _ _ rest (λ x le. le_trans (le_of_leb e) le) h.0), h)
  | inr e ↦ rw e (
    All-insert_by_expiry (λ x. d.expires_at ≤ x.expires_at) c rest (ge_of_leb e) h.0,
    insert_by_expiry-IsSorted c rest h.1,
  )
]

sort_by_expiry-IsSorted : (cs : List ApplicationCredential) → IsSorted (sort_by_expiry cs)
unfolding sort_by_expiry
sort_by_expiry-IsSorted [] = tt
sort_by_expiry-IsSorted (c ∷ rest) =
    insert_by_expiry-IsSorted c (sort_by_expiry rest) (sort_by_expiry-IsSorted rest)

-- What the listed credentials say of the one that is found, or of finding none.
abbrev pub IsChoice :
    ℕ → String → List ApplicationCredential → Option ApplicationCredential → Type 0
IsChoice now prefix cs (some c) =
    Memᴰ c cs
    × has_prefix c.name prefix ≡ true
    × IsValid now c
    × All
        (λ d.
          (has_prefix d.name prefix ≡ false) ⊎ (¬ IsValid now d) ⊎ (c.expires_at ≤ d.expires_at))
        cs
IsChoice now prefix cs none = All (λ d. (has_prefix d.name prefix ≡ false) ⊎ (¬ IsValid now d)) cs

module _ (P : ApplicationCredential → Type 0) (prefix : String) where
  All-with_prefix :
      (cs : List ApplicationCredential)
      → All P cs
      → All (λ d. P d × has_prefix d.name prefix ≡ true) (with_prefix prefix cs)
  unfolding with_prefix
  All-with_prefix [] h = tt
  All-with_prefix (c ∷ rest) h = elim (Bool-cases (has_prefix c.name prefix)) [
    | inl e ↦ rw e ((h.0, e), All-with_prefix rest h.1)
    | inr e ↦ rw e (All-with_prefix rest h.1)
  ]

  members_of_prefix :
      (cs : List ApplicationCredential)
      → All P (with_prefix prefix cs)
      → All (λ d. (has_prefix d.name prefix ≡ false) ⊎ P d) cs
  unfolding with_prefix
  members_of_prefix [] = λ _. tt
  members_of_prefix (c ∷ rest) = elim (Bool-cases (has_prefix c.name prefix)) [
    | inl e ↦ rw e λ h. (inr h.0, members_of_prefix rest h.1)
    | inr e ↦ rw e λ h. (inl refl, members_of_prefix rest h)
  ]

own_members : (cs : List ApplicationCredential) → All (λ d. Memᴰ d cs) cs
own_members [] = tt
own_members (c ∷ rest) = (Memᴰ.head refl, All-map _ _ rest (λ d. Memᴰ.tail) (own_members rest))

-- The loop on a sorted list.
abbrev IsFirst :
    ℕ
    → (ApplicationCredential → Type 0)
    → List ApplicationCredential
    → Option ApplicationCredential
    → Type 0
IsFirst now P cs (some c) = P c × IsValid now c × IsSoonest now c cs
IsFirst now P cs none = All (λ d. ¬ IsValid now d) cs

first_valid-IsFirst :
    (now : ℕ) (P : ApplicationCredential → Type 0) (cs : List ApplicationCredential)
    → IsSorted cs
    → All P cs
    → IsFirst now P cs (first_valid now cs)
unfolding first_valid
first_valid-IsFirst now P [] s h = tt
first_valid-IsFirst now P (c ∷ rest) s h = elim (Bool-cases (ltb (now + renew_time) c.expires_at)) [
  | inl e ↦
      rw e (h.0, ground (arith, e), (inr (omega arith), All-map _ _ rest (λ d le. inr le) s.0))
  | inr e ↦
      rw e
        (later (first_valid now rest) (ground (arith, e)) (first_valid-IsFirst now P rest s.1 h.1))
]
  where
    later :
        (found : Option ApplicationCredential)
        → ¬ IsValid now c
        → IsFirst now P rest found
        → IsFirst now P (c ∷ rest) found
    later none invalid k = (invalid, k)
    later (some d) invalid k = (k.0, k.1, (inl invalid, k.2))

-- With an answer from Keystone the search succeeds. What it finds is one of the listed credentials,
-- has the prefix, is valid for longer than the renew time and expires no later than any other one
-- with the prefix that is. Where it finds none, no listed credential has the prefix and is valid
-- for that long.
pub get_valid_application_credential-IsChoice :
    (now : ℕ) (prefix : String) (cs : List ApplicationCredential)
    → (found : Option ApplicationCredential) × get_valid_application_credential now prefix (ok cs)
        ≡ ok found
      × IsChoice now prefix cs found
unfolding get_valid_application_credential
get_valid_application_credential-IsChoice now prefix cs =
    (first_valid now sorted, refl, choice (first_valid now sorted) first)
  where
    kept : List ApplicationCredential
    kept = with_prefix prefix cs

    sorted : List ApplicationCredential
    sorted = sort_by_expiry kept

    Q : ApplicationCredential → Type 0
    Q d = Memᴰ d cs × has_prefix d.name prefix ≡ true

    first : IsFirst now Q sorted (first_valid now sorted)
    first =
        first_valid-IsFirst now Q sorted (sort_by_expiry-IsSorted kept)
          (All-sort_by_expiry Q kept (All-with_prefix (λ d. Memᴰ d cs) prefix cs (own_members cs)))

    back :
        (P : ApplicationCredential → Type 0)
        → All P sorted
        → All (λ d. (has_prefix d.name prefix ≡ false) ⊎ P d) cs
    back P h = members_of_prefix P prefix cs (members_of_sort P kept h)

    choice :
        (found : Option ApplicationCredential)
        → IsFirst now Q sorted found
        → IsChoice now prefix cs found
    choice none h = back _ h
    choice (some c) h = (h.0.0, h.0.1, h.1, back _ h.2)
