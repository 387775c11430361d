-- ===== src/Labels/Sanitize.antt =====
-- `sanitizeLabelValue` returns a valid label value, and leaves a valid one as it is.
use Prim.Native.Char.{Char, code}
use Prim.Native.String.{String, [], ◌∷◌}
use persephone.Base.{ℕ, zero, suc, ◌≤◌, ◌≡◌, refl, true, false, arith, inl, inr}
use persephone.Base.{◌&&◌, not, Bool-cases, leb}
use persephone.Labels.{
  is_alphanumeric, is_label_rune, label_value_max_length, length, take, clean, map_runes, trim_left,
  trim_right, is_empty, cut, sanitize_label_value,
}

-- Every rune is alphanumeric, a dash, an underscore or a dot.
abbrev pub AllRunes : String → Type 0
AllRunes [] = Unit
AllRunes (c ∷ s) = (is_label_rune (code c) ≡ true) × AllRunes s

-- The text is empty, or its first rune is alphanumeric.
abbrev pub StartsWell : String → Type 0
StartsWell [] = Unit
StartsWell (c ∷ s) = is_alphanumeric (code c) ≡ true

-- The text is empty, or its last rune is alphanumeric.
abbrev pub EndsWell : String → Type 0
EndsWell [] = Unit
EndsWell (c ∷ []) = is_alphanumeric (code c) ≡ true
EndsWell (c ∷ (d ∷ s)) = EndsWell (d ∷ s)

-- What Kubernetes demands of the value of a label.
pub record IsLabelValue (s : String) : Type 0 where
  pub runes : AllRunes s
  pub starts : StartsWell s
  pub ends : EndsWell s
  pub bounded : length s ≤ label_value_max_length

-- An underscore is allowed, and any other rune is kept only if it is.
clean-is_label_rune : (c : Char) → is_label_rune (code (clean c)) ≡ true
unfolding clean
clean-is_label_rune c = elim (Bool-cases (is_label_rune (code c))) [
  | inl e ↦ rw e e
  | inr e ↦ rw e (unfold is_label_rune is_alphanumeric in refl)
]

clean_of_label_rune : (c : Char) → is_label_rune (code c) ≡ true → clean c ≡ c
unfolding clean
clean_of_label_rune c e = rw e

map_runes-AllRunes : (s : String) → AllRunes (map_runes s)
unfolding map_runes
map_runes-AllRunes [] = tt
map_runes-AllRunes (c ∷ s) = (clean-is_label_rune c, map_runes-AllRunes s)

trim_left-AllRunes : (s : String) → AllRunes s → AllRunes (trim_left s)
unfolding trim_left
trim_left-AllRunes [] h = tt
trim_left-AllRunes (c ∷ s) h = ground (arith, trim_left-AllRunes s h.1)

trim_left-StartsWell : (s : String) → StartsWell (trim_left s)
unfolding trim_left
trim_left-StartsWell [] = tt
trim_left-StartsWell (c ∷ s) = ground (arith, trim_left-StartsWell s)

trim_right-AllRunes : (s : String) → AllRunes s → AllRunes (trim_right s)
unfolding trim_right
trim_right-AllRunes [] h = tt
trim_right-AllRunes (c ∷ s) h = ground (arith, trim_right-AllRunes s h.1)

trim_right-StartsWell : (s : String) → StartsWell s → StartsWell (trim_right s)
unfolding trim_right
trim_right-StartsWell [] h = tt
trim_right-StartsWell (c ∷ s) h = ground arith

EndsWell-cons :
    (c : Char) (s : String)
    → (is_empty s && not (is_alphanumeric (code c))) ≡ false
    → EndsWell s
    → EndsWell (c ∷ s)
EndsWell-cons c [] e h = ground arith
EndsWell-cons c (d ∷ s) e h = h

trim_right-EndsWell : (s : String) → EndsWell (trim_right s)
unfolding trim_right
trim_right-EndsWell [] = tt
trim_right-EndsWell (c ∷ s) =
    elim (Bool-cases (is_empty (trim_right s) && not (is_alphanumeric (code c)))) [
      | inl e ↦ rw e tt
      | inr e ↦ rw e (EndsWell-cons c (trim_right s) e (trim_right-EndsWell s))
    ]

trim_right-length : (s : String) → length (trim_right s) ≤ length s
unfolding trim_right
trim_right-length [] = omega arith
trim_right-length (c ∷ s) = ground (arith, trim_right-length s)

take-AllRunes : (n : ℕ) (s : String) → AllRunes s → AllRunes (take n s)
take-AllRunes zero s h = tt
take-AllRunes (suc n) [] h = tt
take-AllRunes (suc n) (c ∷ s) h = (h.0, take-AllRunes n s h.1)

take-StartsWell : (n : ℕ) (s : String) → StartsWell s → StartsWell (take n s)
take-StartsWell zero s h = tt
take-StartsWell (suc n) [] h = tt
take-StartsWell (suc n) (c ∷ s) h = h

length-take : (n : ℕ) (s : String) → length (take n s) ≤ n
length-take zero s = omega arith
length-take (suc n) [] = omega arith
length-take (suc n) (c ∷ s) = omega (arith, length-take n s)

cut-IsLabelValue : (s : String) → AllRunes s → StartsWell s → EndsWell s → IsLabelValue (cut s)
unfolding cut
cut-IsLabelValue s r h e = elim (Bool-cases (leb (length s) label_value_max_length)) [
  | inl short ↦ rw short (record { runes = r; starts = h; ends = e; bounded = ground arith })
  | inr long ↦
      let t = take label_value_max_length s in
      rw long (record {
        runes = trim_right-AllRunes t (take-AllRunes label_value_max_length s r);
        starts = trim_right-StartsWell t (take-StartsWell label_value_max_length s h);
        ends = trim_right-EndsWell t;
        bounded = omega (arith, trim_right-length t, length-take label_value_max_length s);
      })
]

-- Whatever the text, the sanitized text is a valid label value: at most 63 runes, all of them
-- allowed, the first and the last alphanumeric where there are any.
pub sanitize_label_value-IsLabelValue : (s : String) → IsLabelValue (sanitize_label_value s)
unfolding sanitize_label_value
sanitize_label_value-IsLabelValue s =
    let m = map_runes s in
    let l = trim_left m in
    cut-IsLabelValue (trim_right l)
      (trim_right-AllRunes l (trim_left-AllRunes m (map_runes-AllRunes s)))
      (trim_right-StartsWell l (trim_left-StartsWell m)) (trim_right-EndsWell l)

map_runes_of_AllRunes : (s : String) → AllRunes s → map_runes s ≡ s
unfolding map_runes
map_runes_of_AllRunes [] h = refl
map_runes_of_AllRunes (c ∷ s) h = cc (clean_of_label_rune c h.0, map_runes_of_AllRunes s h.1)

trim_left_of_StartsWell : (s : String) → StartsWell s → trim_left s ≡ s
unfolding trim_left
trim_left_of_StartsWell [] h = refl
trim_left_of_StartsWell (c ∷ s) h = rw h

trim_right_of_EndsWell : (s : String) → EndsWell s → trim_right s ≡ s
unfolding trim_right
trim_right_of_EndsWell [] h = refl
trim_right_of_EndsWell (c ∷ []) h = rw h
trim_right_of_EndsWell (c ∷ (d ∷ s)) h = rw (trim_right_of_EndsWell (d ∷ s) h)

-- A valid label value is its own sanitized text.
pub sanitize_label_value_of_IsLabelValue :
    (s : String) → IsLabelValue s → sanitize_label_value s ≡ s
unfolding sanitize_label_value cut
sanitize_label_value_of_IsLabelValue s v = rw (map_runes_of_AllRunes s v.runes) (
    rw (trim_left_of_StartsWell s v.starts)
      (rw (trim_right_of_EndsWell s v.ends) (ground (arith, v.bounded))))

-- Sanitizing a second time changes nothing.
pub sanitize_label_value_idempotent :
    (s : String) → sanitize_label_value (sanitize_label_value s) ≡ sanitize_label_value s
sanitize_label_value_idempotent s =
    sanitize_label_value_of_IsLabelValue (sanitize_label_value s)
      (sanitize_label_value-IsLabelValue s)
