-- ===== src/Audit/Acting.antt =====
-- internal/webhook/audithandler: for which user an event counts, and with which object.
use persephone.Base.{
  String, ◌≡◌, ◌≢◌, ◌↔◌, ◌⊎◌, refl, ap, sym, ◌∙◌, inl, inr, true, ◌==◌, none, some, List, [], ◌∷◌,
  arith, eq_iff, all,
}
use persephone.Base.{All, Option-cases, Bool-cases}
use persephone.Base.Dict.{Dict, lookup, has_key}
use persephone.UserInfo.{ExtraValue, required_fields, has_open_stack_user_info}
use persephone.Audit.{EventUser, Event, verb_delete}
use persephone.Audit.Filter.{get_effective_user_extra, has_info, event_has_open_stack_user_info}
use persephone.Audit.Transform.{raw_object}

-- The impersonated user where there is one, and else the user of the request.
abbrev pub IsActing : Event → EventUser → Type 0
IsActing event user =
    (event.impersonated_user ≡ some user) ⊎ ((event.impersonated_user ≡ none) × (event.user ≡ user))

-- Each of the seven OpenStack keys is there.
abbrev pub HasKeys : Dict ExtraValue → Type 0
HasKeys extra =
    All (λ key. lookup key extra ≢ none)
      ("project_domain_id" ∷ "project_domain_name" ∷ "project_id" ∷ "project_name"
        ∷ "user_domain_id" ∷ "user_domain_name" ∷ "region" ∷ [])

abbrev pub IsByOpenStackUser : Event → Type 0
IsByOpenStackUser event =
    (user : EventUser) × (extra : Dict ExtraValue) × IsActing event user
    × (user.extra ≡ some extra)
    × HasKeys extra

-- The object of an event: of a deletion the response's where there is one.
abbrev pub IsObject : Event → String → Type 0
IsObject event raw =
    ((event.verb ≢ "delete") × (event.request_object ≡ some raw))
    ⊎ ((event.verb ≡ "delete") × (event.response_object ≡ some raw))
    ⊎ ((event.verb ≡ "delete") × (event.response_object ≡ none) × (event.request_object ≡ some raw))

all_iff :
    (extra : Dict ExtraValue) (keys : List String)
    → (all (λ key. has_key key extra) keys ≡ true) ↔ All (λ key. lookup key extra ≢ none) keys
all_iff extra [] = (λ h. tt, λ h. refl)
all_iff extra (key ∷ keys) = elim (Option-cases (lookup key extra)) [
  | inl e ↦ (λ h. ground arith, λ h. absurd (h.0 e))
  | inr (v, e) ↦ (
    λ h. (λ n. ground arith, (all_iff extra keys).0 (ground arith)),
    λ h. let k = (all_iff extra keys).1 h.1 in ground arith,
  )
]

HasKeys-iff : (extra : Dict ExtraValue) → (has_open_stack_user_info extra ≡ true) ↔ HasKeys extra
unfolding has_open_stack_user_info
HasKeys-iff extra = all_iff extra required_fields

IsActing-user : (event : Event) → (user : EventUser) × IsActing event user
IsActing-user event = elim (Option-cases event.impersonated_user) [
  | inl e ↦ (event.user, inr (e, refl))
  | inr (u, e) ↦ (u, inl e)
]

-- What is computed of an event is that of its acting user.
effective_extra :
    (event : Event) (user : EventUser)
    → IsActing event user
    → (get_effective_user_extra event ≡ user.extra)
      × (event_has_open_stack_user_info event ≡ has_info user.extra)
unfolding get_effective_user_extra event_has_open_stack_user_info
effective_extra event user (inl e) =
    (simp (e, get_effective_user_extra) refl, simp (e, event_has_open_stack_user_info) refl)
effective_extra event user (inr (e, same)) = (
  simp (e, get_effective_user_extra) (ap (λ u. u.extra) same),
  simp (e, event_has_open_stack_user_info) (ap (λ u. has_info u.extra) same),
)

pub get_effective_user_extra_iff :
    (event : Event) (extra : Dict ExtraValue)
    → (get_effective_user_extra event ≡ some extra)
      ↔ ((user : EventUser) × IsActing event user × (user.extra ≡ some extra))
get_effective_user_extra_iff event extra = (
  λ h.
      let (user, acting) = IsActing-user event in
      (user, acting, sym (effective_extra event user acting).0 ∙ h),
  λ (user, acting, h). (effective_extra event user acting).0 ∙ h,
)

pub event_has_open_stack_user_info_iff :
    (event : Event) → (event_has_open_stack_user_info event ≡ true) ↔ IsByOpenStackUser event
event_has_open_stack_user_info_iff event = (
  λ h.
      let (user, acting) = IsActing-user event in
      let k : has_info user.extra ≡ true = sym (effective_extra event user acting).1 ∙ h in
      elim (Option-cases user.extra) [
        | inl e ↦ ground arith
        | inr (extra, e) ↦ (user, extra, acting, e, (HasKeys-iff extra).0 (ground arith))
      ],
  λ (user, extra, acting, e, keys).
      (effective_extra event user acting).1 ∙ ap has_info e ∙ (HasKeys-iff extra).1 keys,
)

pub raw_object_iff :
    (event : Event) (raw : String) → (raw_object event ≡ some raw) ↔ IsObject event raw
unfolding raw_object
raw_object_iff event raw = elim (Bool-cases (event.verb == verb_delete)) [
  | inl e ↦
      let v : event.verb ≡ "delete" = (eq_iff event.verb verb_delete).0 e in
      elim (Option-cases event.response_object) [
        | inl f ↦ (λ h. inr (inr (v, f, ground arith)), λ h. ground arith)
        | inr (x, f) ↦ (λ h. inr (inl (v, ground arith)), λ h. ground arith)
      ]
  | inr e ↦ (
    λ h. inl (ground (arith, eq_iff event.verb verb_delete), ground arith),
    λ h. ground (arith, eq_iff event.verb verb_delete),
  )
]
