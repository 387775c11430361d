-- ===== src/Base/Dict.antt =====
-- A Go map with text keys, as an association list: the first entry of a key counts.
use Prim.Native.String.{String}
use mathlib.Core.Path.{◌≡◌, refl}
use mathlib.Core.Bool.{Bool, true, false}
use mathlib.Core.Option.{Option, none, some}
use mathlib.Core.List.{List, [], ◌∷◌}
use native.Mathlib.Omega.{arith}
use text.Mathlib.Text.{◌==◌}
use text.Mathlib.TextEquality.{eq_iff}
use persephone.Base.Tests.{if◌then◌else◌}

abbrev pub Dict {ℓ} : Type ℓ → Type ℓ
Dict V = List (String × V)

module _ {ℓ} {V : Type ℓ} where
  abbrev pub lookup : String → List (String × V) → Option V
  lookup key [] = none
  lookup key ((other, v) ∷ rest) = if other == key then some v else lookup key rest

  -- `m[k] = v`
  abbrev pub insert : String → V → List (String × V) → List (String × V)
  insert key v [] = (key, v) ∷ []
  insert key v ((other, w) ∷ rest) =
      if other == key then (key, v) ∷ rest else (other, w) ∷ insert key v rest

  -- `delete(m, k)`
  abbrev pub erase : String → List (String × V) → List (String × V)
  erase k [] = []
  erase k ((j, w) ∷ m) = let rest = erase k m in if j == k then rest else (j, w) ∷ rest

  -- `_, ok := m[k]`
  abbrev pub has_key : String → List (String × V) → Bool
  has_key k m = elim (lookup k m) [ none ↦ false | some _ ↦ true ]

  pub lookup-insert :
      (key place : String) (new : V) (dict : List (String × V))
      → lookup key (insert place new dict) ≡ (if place == key then some new else lookup key dict)
  lookup-insert key place new [] = refl
  lookup-insert key place new ((other, old) ∷ rest) = ground (
    arith,
    eq_iff place key,
    eq_iff other place,
    eq_iff other key,
    lookup-insert key place new rest,
  )

  pub lookup-erase :
      (j k : String) (m : List (String × V))
      → lookup j (erase k m) ≡ (if k == j then none else lookup j m)
  lookup-erase j k [] = ground arith
  lookup-erase j k ((i, w) ∷ m) =
      ground (arith, eq_iff k j, eq_iff i k, eq_iff i j, lookup-erase j k m)

-- `m[k]` of a map of texts: the empty text where the key is missing.
abbrev pub get_text : String → List (String × String) → String
get_text k m = elim (lookup k m) [ none ↦ "" | some v ↦ v ]
