-- ===== src/Labels.antt =====
-- internal/kubernetes/gardener.go: label values and the names of what is created for a project.
-- A text is walked character by character; all that `sanitizeLabelValue` measures or cuts by bytes
-- is ASCII by then, so bytes and characters agree.
pub mod Sanitize
use Prim.Native.Char.{Char, code}
use Prim.Native.String.{[], ◌∷◌}
use persephone.Base.{ℕ, zero, suc, ◌≤◌, String, Bool, ◌&&◌, ◌||◌, not, ◌==◌, ◌<>◌}
use persephone.Base.{leb, eqb, if◌then◌else◌}

abbrev delimiter : String
delimiter = "--"

unfoldable pub get_gardener_project_namespace_name : String → String → String
get_gardener_project_namespace_name region project_id = "garden-" <> (region <> ("-" <> project_id))

unfoldable pub get_cluster_user_name : String → String → String → String
get_cluster_user_name landscape_name shoot_name project_id =
    "gardener"
    <> (delimiter <> (landscape_name <> (delimiter <> (shoot_name <> (delimiter <> project_id)))))

unfoldable pub get_application_credential_internal_secret_name : String → String → String → String
get_application_credential_internal_secret_name project_id shoot_name credential_name =
    project_id <> (delimiter <> (shoot_name <> (delimiter <> credential_name)))

unfoldable pub is_alphanumeric : ℕ → Bool
is_alphanumeric r =
    (leb b'A' r && leb r b'Z') || (leb b'a' r && leb r b'z') || (leb b'0' r && leb r b'9')

unfoldable pub is_label_rune : ℕ → Bool
is_label_rune r = is_alphanumeric r || eqb r b'-' || eqb r b'_' || eqb r b'.'

-- `validation.LabelValueMaxLength`
abbrev pub label_value_max_length : ℕ
label_value_max_length = 63

abbrev pub length : String → ℕ
length [] = 0
length (c ∷ s) = suc (length s)

abbrev pub take : ℕ → String → String
take zero s = []
take (suc n) [] = []
take (suc n) (c ∷ s) = c ∷ take n s

-- The function that `strings.Map` is given.
unfoldable pub clean : Char → Char
clean c = if is_label_rune (code c) then c else "_"

-- `strings.Map(…, s)`
unfoldable pub map_runes : String → String
map_runes [] = []
map_runes (c ∷ s) = clean c ∷ map_runes s

-- `strings.TrimLeftFunc` and `strings.TrimRightFunc` by the runes that are not alphanumeric.
unfoldable pub trim_left : String → String
trim_left [] = []
trim_left (c ∷ s) = let rest = trim_left s in if is_alphanumeric (code c) then c ∷ s else rest

abbrev pub is_empty : String → Bool
is_empty [] = Bool.true
is_empty (c ∷ s) = Bool.false

unfoldable pub trim_right : String → String
trim_right [] = []
trim_right (c ∷ s) =
    let rest = trim_right s in
    if is_empty rest && not (is_alphanumeric (code c)) then [] else c ∷ rest

-- The cut at the end, which trims on the right again.
unfoldable pub cut : String → String
cut result =
    if leb (length result) label_value_max_length
    then result
    else trim_right (take label_value_max_length result)

unfoldable pub sanitize_label_value : String → String
sanitize_label_value s = cut (trim_right (trim_left (map_runes s)))
