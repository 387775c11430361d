-- ===== src/UserInfo.antt =====
-- internal/kubernetes/userinfo.go: the OpenStack part of a user's identity, as it travels in the
-- extras of a Kubernetes user and in the labels of a namespace or secret. An extra is a list of
-- texts; a Go map is a `Dict`, and a nil map the empty one.
pub mod Extra
use persephone.Base.{String, Bool, true, false, ◌==◌, Option, none, some, List, [], ◌∷◌, all}
use persephone.Base.{Result, ok, err, ◌>>=◌, wrap, if◌then◌else◌}
use persephone.Base.Dict.{Dict, lookup, has_key}
use persephone.Constants.{
  label_key_open_stack_domain_id, label_key_open_stack_domain_name, label_key_open_stack_project_id,
  label_key_open_stack_project_name, label_key_open_stack_region,
}

pub record OpenStackUserInfo : Type 0 where
  pub project_domain_id : String
  pub project_domain_name : String
  pub project_id : String
  pub project_name : String
  pub user_domain_id : String
  pub user_domain_name : String
  pub region : String

-- The keys of the extras.
abbrev pub open_stack_project_domain_id : String
open_stack_project_domain_id = "project_domain_id"

abbrev pub open_stack_project_domain_name : String
open_stack_project_domain_name = "project_domain_name"

abbrev pub open_stack_project_id : String
open_stack_project_id = "project_id"

abbrev pub open_stack_project_name : String
open_stack_project_name = "project_name"

abbrev pub open_stack_user_domain_id : String
open_stack_user_domain_id = "user_domain_id"

abbrev pub open_stack_user_domain_name : String
open_stack_user_domain_name = "user_domain_name"

abbrev pub open_stack_region : String
open_stack_region = "region"

-- `ExtraValue`
abbrev pub ExtraValue : Type 0
ExtraValue = List String

unfoldable pub to_extra : OpenStackUserInfo → Dict ExtraValue
to_extra o =
    (open_stack_project_domain_id, o.project_domain_id ∷ [])
    ∷ (open_stack_project_domain_name, o.project_domain_name ∷ [])
    ∷ (open_stack_project_id, o.project_id ∷ [])
    ∷ (open_stack_project_name, o.project_name ∷ [])
    ∷ (open_stack_user_domain_id, o.user_domain_id ∷ [])
    ∷ (open_stack_user_domain_name, o.user_domain_name ∷ [])
    ∷ (open_stack_region, o.region ∷ [])
    ∷ []

-- The fields that the loop of `HasOpenStackUserInfo` goes through.
abbrev pub required_fields : List String
required_fields =
    open_stack_project_domain_id ∷ open_stack_project_domain_name ∷ open_stack_project_id
    ∷ open_stack_project_name ∷ open_stack_user_domain_id ∷ open_stack_user_domain_name
    ∷ open_stack_region ∷ []

unfoldable pub has_open_stack_user_info : Dict ExtraValue → Bool
has_open_stack_user_info extra = all (λ field. has_key field extra) required_fields

-- `failed extracting <field>: key <key> not found`
pub data ExtractError : Type 0 where
  extracting : String → String → ExtractError

-- `getFirstValueForKey`
unfoldable pub get_first_value_for_key : Dict ExtraValue → String → Result String String
get_first_value_for_key extra key = elim (lookup key extra) [
  | none ↦ err key
  | some [] ↦ err key
  | some (value ∷ _) ↦ ok value
]

unfoldable pub open_stack_user_info_from_extra :
    Dict ExtraValue → Result ExtractError OpenStackUserInfo
open_stack_user_info_from_extra extra = do
  domain_id ← get open_stack_project_domain_id
  domain_name ← get open_stack_project_domain_name
  id ← get open_stack_project_id
  name ← get open_stack_project_name
  user_domain_id ← get open_stack_user_domain_id
  user_domain_name ← get open_stack_user_domain_name
  region ← get open_stack_region
  ok (record {
    project_domain_id = domain_id;
    project_domain_name = domain_name;
    project_id = id;
    project_name = name;
    user_domain_id = user_domain_id;
    user_domain_name = user_domain_name;
    region = region;
  })
  where
    get : String → Result ExtractError String
    get key = wrap (extracting key) (get_first_value_for_key extra key)

-- `getLabelValueForKey`
unfoldable pub get_label_value_for_key : Dict String → String → Result String String
get_label_value_for_key labels key = elim (lookup key labels) [
  | none ↦ err key
  | some value ↦ if value == "" then err key else ok value
]

-- The user's domain has no label, and stays empty.
unfoldable pub open_stack_user_info_from_labels :
    Dict String → Result ExtractError OpenStackUserInfo
open_stack_user_info_from_labels labels = do
  domain_id ← get open_stack_project_domain_id label_key_open_stack_domain_id
  domain_name ← get open_stack_project_domain_name label_key_open_stack_domain_name
  id ← get open_stack_project_id label_key_open_stack_project_id
  name ← get open_stack_project_name label_key_open_stack_project_name
  region ← get open_stack_region label_key_open_stack_region
  ok (record {
    project_domain_id = domain_id;
    project_domain_name = domain_name;
    project_id = id;
    project_name = name;
    user_domain_id = "";
    user_domain_name = "";
    region = region;
  })
  where
    get : String → String → Result ExtractError String
    get field key = wrap (extracting field) (get_label_value_for_key labels key)
