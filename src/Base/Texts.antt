-- ===== src/Base/Texts.antt =====
-- What the program takes of Go's `strings`: `Split` at a colon and `Contains`, over characters.
use Prim.Native.Char.{Char, code}
use Prim.Native.String
use Prim.Native.String.{String, [], ◌∷◌}
use mathlib.Core.Path.{◌≡◌, refl, sym, ap, subst, ◌∙◌}
use mathlib.Core.Logic.{◌≢◌, inl, inr}
use mathlib.Core.Bool.{Bool, true, false, ◌&&◌}
use mathlib.Core.List.{List, [], ◌∷◌}
use native.Mathlib.Omega.{arith}
use text.Mathlib.TextLemmas.{nil-append, cons-append}
use text.Mathlib.TextEquality.{Char-path}
use persephone.Base.Lists.{All}
use persephone.Base.Tests.{Bool-cases, eqb, if◌then◌else◌}

-- The text up to the first colon is put before the parts that follow.
abbrev push_front : Char → List String → List String
push_front c [] = (c ∷ []) ∷ []
push_front c (part ∷ parts) = (c ∷ part) ∷ parts

-- `strings.Split(s, ":")`
unfoldable pub split_colon : String → List String
split_colon [] = "" ∷ []
split_colon (c ∷ s) =
    let rest = split_colon s in if eqb (code c) b':' then "" ∷ rest else push_front c rest

-- The text holds no colon.
abbrev pub NoColon : String → Type 0
NoColon [] = Unit
NoColon (c ∷ s) = (code c ≢ b':') × NoColon s

pub split_colon_of_NoColon : (s : String) → NoColon s → split_colon s ≡ s ∷ []
unfolding split_colon
split_colon_of_NoColon [] _ = refl
split_colon_of_NoColon (c ∷ s) (h, k) = ground (arith, split_colon_of_NoColon s k)

-- A text without a colon, a colon, and any other text: the first is a part of its own.
pub split_colon-append :
    (s t : String) → NoColon s → split_colon (String.◌++◌ s (String.◌++◌ ":" t)) ≡ s ∷ split_colon t
unfolding split_colon
split_colon-append [] t _ = rw (nil-append, cons-append, nil-append)
split_colon-append (c ∷ s) t (h, k) = rw cons-append (ground (arith, split_colon-append s t k))

-- `strings.HasPrefix` and `strings.Contains`
unfoldable pub has_prefix : String → String → Bool
has_prefix s [] = true
has_prefix [] (d ∷ t) = false
has_prefix (c ∷ s) (d ∷ t) = eqb (code c) (code d) && has_prefix s t

unfoldable pub contains : String → String → Bool
unfolding has_prefix
contains [] t = has_prefix [] t
contains (c ∷ s) t = let rest = contains s t in if has_prefix (c ∷ s) t then true else rest

-- `strings.Join(parts, ":")`
abbrev join_colon : List String → String
join_colon [] = ""
join_colon (part ∷ []) = part
join_colon (part ∷ (next ∷ parts)) = String.◌++◌ part (String.◌++◌ ":" (join_colon (next ∷ parts)))

join_colon-cons_empty :
    (parts : List String)
    → parts ≢ []
    → join_colon ("" ∷ parts) ≡ String.◌++◌ ":" (join_colon parts)
join_colon-cons_empty [] h = absurd (h refl)
join_colon-cons_empty (part ∷ parts) h = nil-append _

join_colon-push_front :
    (c : Char) (parts : List String)
    → parts ≢ []
    → join_colon (push_front c parts) ≡ c ∷ join_colon parts
join_colon-push_front c [] h = absurd (h refl)
join_colon-push_front c (part ∷ []) h = refl
join_colon-push_front c (part ∷ (next ∷ parts)) h = cons-append c part _

push_front-NoColon :
    (c : Char) (parts : List String)
    → code c ≢ b':'
    → All NoColon parts
    → All NoColon (push_front c parts)
push_front-NoColon c [] h k = ((h, tt), tt)
push_front-NoColon c (part ∷ parts) h k = ((h, k.0), k.1)

split_colon-ne-nil : (s : String) → split_colon s ≢ []
unfolding split_colon
split_colon-ne-nil [] h = cc
split_colon-ne-nil (c ∷ s) h = elim (Bool-cases (eqb (code c) b':')) [
  | inl e ↦ ground arith
  | inr e ↦ ground arith
]

colon-cons : (c : Char) (s : String) → code c ≡ b':' → String.◌++◌ ":" s ≡ c ∷ s
colon-cons c s h = rw (cons-append, nil-append) (ap (λ d. d ∷ s) (Char-path _ c (sym h)))

join_colon-split_colon : (s : String) → join_colon (split_colon s) ≡ s
unfolding split_colon
join_colon-split_colon [] = refl
join_colon-split_colon (c ∷ s) = elim (Bool-cases (eqb (code c) b':')) [
  | inl e ↦ rw e (
      join_colon-cons_empty (split_colon s) (split_colon-ne-nil s)
      ∙ colon-cons c _ (ground arith)
      ∙ ap (λ t. c ∷ t) (join_colon-split_colon s))
  | inr e ↦ rw e (
      join_colon-push_front c (split_colon s) (split_colon-ne-nil s)
      ∙ ap (λ t. c ∷ t) (join_colon-split_colon s))
]

split_colon-NoColon : (s : String) → All NoColon (split_colon s)
unfolding split_colon
split_colon-NoColon [] = (tt, tt)
split_colon-NoColon (c ∷ s) = elim (Bool-cases (eqb (code c) b':')) [
  | inl e ↦ rw e (tt, split_colon-NoColon s)
  | inr e ↦ rw e (push_front-NoColon c (split_colon s) (ground arith) (split_colon-NoColon s))
]

-- The texts that split into two parts are those with one colon.
pub split_colon-pair :
    (s a b : String)
    → split_colon s ≡ a ∷ b ∷ []
    → (s ≡ String.◌++◌ a (String.◌++◌ ":" b)) × NoColon a × NoColon b
split_colon-pair s a b h =
    let parts = subst (All NoColon) h (split_colon-NoColon s) in
    (sym (join_colon-split_colon s) ∙ ap join_colon h, parts.0, parts.1.0)
