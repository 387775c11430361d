-- ===== src/UserInfo/Extra.antt =====
-- The user info in the extras of a Kubernetes user: round trip and exact conditions.
use persephone.Base.{String, ◌≡◌, refl, inl, inr, Option-cases, ◌↔◌, true, some, List, [], ◌∷◌}
use persephone.Base.{ok, arith}
use persephone.Base.Dict.{Dict, lookup, has_key}
use persephone.UserInfo.{
  OpenStackUserInfo, ExtraValue, to_extra, has_open_stack_user_info,
  open_stack_user_info_from_extra, get_first_value_for_key, open_stack_project_domain_id,
  open_stack_project_domain_name, open_stack_project_id, open_stack_project_name,
  open_stack_user_domain_id, open_stack_user_domain_name, open_stack_region,
}

-- The first value under a key is the given text.
abbrev pub First : Dict ExtraValue → String → String → Type 0
First extra key value = (rest : List String) × (lookup key extra ≡ some (value ∷ rest))

-- The extras carry each of the seven fields.
pub record Carries (extra : Dict ExtraValue) (o : OpenStackUserInfo) : Type 0 where
  pub domain_id : First extra open_stack_project_domain_id o.project_domain_id
  pub domain_name : First extra open_stack_project_domain_name o.project_domain_name
  pub id : First extra open_stack_project_id o.project_id
  pub name : First extra open_stack_project_name o.project_name
  pub user_domain_id : First extra open_stack_user_domain_id o.user_domain_id
  pub user_domain_name : First extra open_stack_user_domain_name o.user_domain_name
  pub region : First extra open_stack_region o.region

-- What `ToExtra` writes, `OpenStackUserInfoFromExtra` reads back, all seven fields; and the extras
-- pass the check of `HasOpenStackUserInfo`.
pub from_extra-to_extra :
    (o : OpenStackUserInfo)
    → (open_stack_user_info_from_extra (to_extra o) ≡ ok o)
      × (has_open_stack_user_info (to_extra o) ≡ true)
unfolding open_stack_user_info_from_extra get_first_value_for_key to_extra has_open_stack_user_info
from_extra-to_extra o = (refl, refl)

get_first_value_for_key-First :
    (extra : Dict ExtraValue) (key value : String)
    → get_first_value_for_key extra key ≡ ok value
    → First extra key value
unfolding get_first_value_for_key
get_first_value_for_key-First extra key value h = elim (Option-cases (lookup key extra)) [
  | inl e ↦ ground arith
  | inr e ↦ first_of_some e.0 e.1 (ground arith)
]
  where
    first_of_some :
        (values : List String)
        → lookup key extra ≡ some values
        → get_first_value_for_key extra key ≡ ok value
        → First extra key value
    first_of_some [] e h' = ground arith
    first_of_some (v ∷ rest) e h' = (rest, ground arith)

get_first_value_for_key_of_First :
    (extra : Dict ExtraValue) (key value : String)
    → First extra key value
    → get_first_value_for_key extra key ≡ ok value
unfolding get_first_value_for_key
get_first_value_for_key_of_First extra key value h = rw (h.1, get_first_value_for_key)

from_extra_sound :
    (extra : Dict ExtraValue) (o : OpenStackUserInfo)
    → open_stack_user_info_from_extra extra ≡ ok o
    → Carries extra o
unfolding open_stack_user_info_from_extra
from_extra_sound extra o h = record {
  domain_id = get_first_value_for_key-First extra _ _ (ground arith);
  domain_name = get_first_value_for_key-First extra _ _ (ground arith);
  id = get_first_value_for_key-First extra _ _ (ground arith);
  name = get_first_value_for_key-First extra _ _ (ground arith);
  user_domain_id = get_first_value_for_key-First extra _ _ (ground arith);
  user_domain_name = get_first_value_for_key-First extra _ _ (ground arith);
  region = get_first_value_for_key-First extra _ _ (ground arith);
}

-- Reading the extras succeeds with exactly the user info whose seven fields they carry.
pub from_extra_iff :
    (extra : Dict ExtraValue) (o : OpenStackUserInfo)
    → (open_stack_user_info_from_extra extra ≡ ok o) ↔ Carries extra o
unfolding open_stack_user_info_from_extra
from_extra_iff extra o = (
  from_extra_sound extra o,
  λ c. ground (
    arith,
    get_first_value_for_key_of_First extra _ _ c.domain_id,
    get_first_value_for_key_of_First extra _ _ c.domain_name,
    get_first_value_for_key_of_First extra _ _ c.id,
    get_first_value_for_key_of_First extra _ _ c.name,
    get_first_value_for_key_of_First extra _ _ c.user_domain_id,
    get_first_value_for_key_of_First extra _ _ c.user_domain_name,
    get_first_value_for_key_of_First extra _ _ c.region,
  ),
)

First-has_key :
    (extra : Dict ExtraValue) (key value : String)
    → First extra key value
    → has_key key extra ≡ true
First-has_key extra key value h = rw (h.1, has_key)

-- Extras that can be read pass the check of `HasOpenStackUserInfo`.
pub has_of_from_extra :
    (extra : Dict ExtraValue) (o : OpenStackUserInfo)
    → open_stack_user_info_from_extra extra ≡ ok o
    → has_open_stack_user_info extra ≡ true
unfolding has_open_stack_user_info
has_of_from_extra extra o h =
    let c = from_extra_sound extra o h in
    ground (
      arith,
      First-has_key extra _ _ c.domain_id,
      First-has_key extra _ _ c.domain_name,
      First-has_key extra _ _ c.id,
      First-has_key extra _ _ c.name,
      First-has_key extra _ _ c.user_domain_id,
      First-has_key extra _ _ c.user_domain_name,
      First-has_key extra _ _ c.region,
    )
