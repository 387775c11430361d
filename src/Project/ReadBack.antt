-- ===== src/Project/ReadBack.antt =====
-- internal/kubernetes/userinfo.go, OpenStackUserInfoFromLabels, on the labels that gardener.go
-- writes.
use persephone.Base.{String, ◌≡◌, ◌≢◌, ◌↔◌, refl, sym, ap, ◌∙◌, some, arith, eq_iff}
use persephone.Base.{Result, ok, wrap, >>=-eq-ok}
use persephone.Base.Dict.{Dict, lookup}
use persephone.Labels.{sanitize_label_value}
use persephone.Constants.{
  label_key_open_stack_domain_id, label_key_open_stack_domain_name, label_key_open_stack_project_id,
  label_key_open_stack_project_name, label_key_open_stack_region,
}
use persephone.UserInfo.{
  OpenStackUserInfo, ExtractError, get_label_value_for_key, extracting,
  open_stack_user_info_from_labels,
}
use persephone.Garden.{Namespace}
use persephone.Project.{set_project_labels}
use persephone.Project.Provisioned.{IsLabelled, set_project_labels-IsLabelled}

-- What is left of the identity in the labels: the names as label values, and no user domain.
abbrev pub labelled_info : OpenStackUserInfo → OpenStackUserInfo
labelled_info o = record {
  project_domain_id = o.project_domain_id;
  project_domain_name = sanitize_label_value o.project_domain_name;
  project_id = o.project_id;
  project_name = sanitize_label_value o.project_name;
  user_domain_id = "";
  user_domain_name = "";
  region = o.region;
}

-- No labelled value is empty.
abbrev pub IsReadable : OpenStackUserInfo → Type 0
IsReadable o =
    o.project_domain_id ≢ ""
    × sanitize_label_value o.project_domain_name ≢ ""
    × o.project_id ≢ ""
    × sanitize_label_value o.project_name ≢ ""
    × o.region ≢ ""

get_label_value_for_key_found :
    (labels : Dict String) (key value : String)
    → lookup key labels ≡ some value
    → value ≢ ""
    → get_label_value_for_key labels key ≡ ok value
unfolding get_label_value_for_key
get_label_value_for_key_found labels key value h n = ground (arith, eq_iff value "")

nonempty_of_found :
    (field : String) (labels : Dict String) (key value got : String)
    → wrap (extracting field) (get_label_value_for_key labels key) ≡ ok got
    → lookup key labels ≡ some value
    → value ≢ ""
unfolding get_label_value_for_key
nonempty_of_found field labels key value got h l = ground (arith, eq_iff value "")

pub read_labelled :
    (labels : Dict String) (o : OpenStackUserInfo)
    → IsLabelled labels o
    → IsReadable o
    → open_stack_user_info_from_labels labels ≡ ok (labelled_info o)
unfolding open_stack_user_info_from_labels
read_labelled labels o h (a, b, c, d, e) =
    rw
      (
        get_label_value_for_key_found labels label_key_open_stack_domain_id _ h.domain_id a,
        get_label_value_for_key_found labels label_key_open_stack_domain_name _ h.domain_name b,
        get_label_value_for_key_found labels label_key_open_stack_project_id _ h.id c,
        get_label_value_for_key_found labels label_key_open_stack_project_name _ h.name d,
        get_label_value_for_key_found labels label_key_open_stack_region _ h.region e,
      )
      refl

labels_nonempty :
    (labels : Dict String) (o found : OpenStackUserInfo)
    → IsLabelled labels o
    → open_stack_user_info_from_labels labels ≡ ok found
    → IsReadable o
unfolding open_stack_user_info_from_labels
labels_nonempty labels o found l h =
    let (a, ea, ka) = >>=-eq-ok _ _ h in
    let (b, eb, kb) = >>=-eq-ok _ _ ka in
    let (c, ec, kc) = >>=-eq-ok _ _ kb in
    let (d, ed, kd) = >>=-eq-ok _ _ kc in
    let (e, ee, ke) = >>=-eq-ok _ _ kd in
    (
      nonempty_of_found _ labels label_key_open_stack_domain_id _ a ea l.domain_id,
      nonempty_of_found _ labels label_key_open_stack_domain_name _ b eb l.domain_name,
      nonempty_of_found _ labels label_key_open_stack_project_id _ c ec l.id,
      nonempty_of_found _ labels label_key_open_stack_project_name _ d ed l.name,
      nonempty_of_found _ labels label_key_open_stack_region _ e ee l.region,
    )

same_info :
    {a b : OpenStackUserInfo}
    → ◌≡◌ {A = Result ExtractError OpenStackUserInfo} (ok a) (ok b)
    → a ≡ b
same_info h = cc

-- From the labels that are written on a project's namespace, an identity is read exactly if
-- neither the project's nor the domain's id, nor the region, nor one of the two names as a label
-- value is empty, and it is then the one with the names as label values and no user domain.
pub from_labels-set_project_labels :
    (project_name : String) (o : OpenStackUserInfo) (n : Namespace) (found : OpenStackUserInfo)
    → (open_stack_user_info_from_labels (set_project_labels project_name o n).labels ≡ ok found)
      ↔ (IsReadable o × found ≡ labelled_info o)
from_labels-set_project_labels project_name o n found =
    let l = set_project_labels-IsLabelled project_name o n in
    (
      λ h. (
        labels_nonempty _ o found l h,
        same_info (sym h ∙ read_labelled _ o l (labels_nonempty _ o found l h)),
      ),
      λ (r, e). read_labelled _ o l r ∙ ap ok (sym e),
    )
