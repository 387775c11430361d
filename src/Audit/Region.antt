-- ===== src/Audit/Region.antt =====
-- The region that an event is recorded for.
use persephone.Base.{String, ◌≡◌, ◌≢◌, ◌↔◌, ◌⊎◌, Option, none, some, inl, inr}
use persephone.Base.{arith, eq_iff, Option-cases, Result-cases, ok}
use persephone.Base.Dict.{Dict}
use persephone.UserInfo.{ExtraValue, OpenStackUserInfo, open_stack_user_info_from_extra}
use persephone.Audit.{EventUser, Event}
use persephone.Audit.Acting.{IsActing, IsObject, get_effective_user_extra_iff, raw_object_iff}
use persephone.Audit.Filter.{get_effective_user_extra}
use persephone.Audit.Transform.{user_region, not_empty, raw_object, extract_shoot_region}

not_empty-some : (o : Option String) (s : String) → not_empty o ≡ some s → (o ≡ some s) × (s ≢ "")
not_empty-some none s h = cc
not_empty-some (some t) s h = (ground (arith, eq_iff t ""), ground (arith, eq_iff t ""))

module _ (decode_shoot_region : String → Option String) (event : Event) where
  -- The object of the event is a Shoot with a region.
  abbrev pub ObjectNames : String → Type 0
  ObjectNames region =
      (raw : String) × IsObject event raw
      × (raw ≢ "")
      × (decode_shoot_region raw ≡ some region)
      × (region ≢ "")

  -- The extras of the effective user can be read, with a region in them.
  abbrev pub UserNames : String → Type 0
  UserNames region =
      (user : EventUser) × (extra : Dict ExtraValue) × (info : OpenStackUserInfo) × IsActing event
        user
      × (user.extra ≡ some extra)
      × (open_stack_user_info_from_extra extra ≡ ok info)
      × (info.region ≡ region)
      × (region ≢ "")

  -- The first source, as an option.
  abbrev object_region : Option String
  object_region = elim (not_empty (raw_object event)) [
    | none ↦ none
    | some raw ↦ not_empty (decode_shoot_region raw)
  ]

  object_region-ObjectNames : (region : String) → object_region ≡ some region → ObjectNames region
  object_region-ObjectNames region h = elim (Option-cases (not_empty (raw_object event))) [
    | inl e ↦ ground arith
    | inr (raw, e) ↦
        let (same, full) = not_empty-some (raw_object event) raw e in
        let (named, set) = not_empty-some (decode_shoot_region raw) region (ground arith) in
        (raw, (raw_object_iff event raw).0 same, full, named, set)
  ]

  object_region_of_ObjectNames :
      (region : String) → ObjectNames region → object_region ≡ some region
  object_region_of_ObjectNames region (raw, object, full, named, set) =
      let same : raw_object event ≡ some raw = (raw_object_iff event raw).1 object in
      ground (arith, eq_iff raw "", eq_iff region "")

  user_region-UserNames :
      (region : String)
      → not_empty (user_region (get_effective_user_extra event)) ≡ some region
      → UserNames region
  unfolding user_region
  user_region-UserNames region h = elim (Option-cases (get_effective_user_extra event)) [
    | inl e ↦ ground arith
    | inr (extra, e) ↦ elim (Result-cases (open_stack_user_info_from_extra extra)) [
      | inl (info, f) ↦
          let (user, acting, own) = (get_effective_user_extra_iff event extra).0 e in
          (
            user,
            extra,
            info,
            acting,
            own,
            f,
            ground (arith, eq_iff info.region ""),
            ground (arith, eq_iff info.region ""),
          )
      | inr (x, f) ↦ ground arith
    ]
  ]

  user_region_of_UserNames :
      (region : String)
      → UserNames region
      → not_empty (user_region (get_effective_user_extra event)) ≡ some region
  unfolding user_region
  user_region_of_UserNames region (user, extra, info, acting, own, f, same, set) =
      let e : get_effective_user_extra event ≡ some extra =
        (get_effective_user_extra_iff event extra).1 (user, acting, own) in
      ground (arith, eq_iff info.region "")

  extract_lem : extract_shoot_region decode_shoot_region event ≡ elim object_region [
    | none ↦ not_empty (user_region (get_effective_user_extra event))
    | some region ↦ some region
  ]
  unfolding extract_shoot_region
  extract_lem = ground arith

  extract_sound :
      (region : String)
      → extract_shoot_region decode_shoot_region event ≡ some region
      → ObjectNames region ⊎ (((r : String) → ¬ ObjectNames r) × UserNames region)
  extract_sound region h = elim (Option-cases object_region) [
    | inl e ↦ inr (
      λ r n. ground (arith, object_region_of_ObjectNames r n),
      user_region-UserNames region (ground (arith, extract_lem)),
    )
    | inr (r, e) ↦ inl (object_region-ObjectNames region (ground (arith, extract_lem)))
  ]

  extract_complete :
      (region : String)
      → ObjectNames region ⊎ (((r : String) → ¬ ObjectNames r) × UserNames region)
      → extract_shoot_region decode_shoot_region event ≡ some region
  extract_complete region (inl n) =
      ground (arith, extract_lem, object_region_of_ObjectNames region n)
  extract_complete region (inr (no_object, u)) = elim (Option-cases object_region) [
    | inl e ↦ ground (arith, extract_lem, user_region_of_UserNames region u)
    | inr (r, e) ↦ absurd (no_object r (object_region-ObjectNames r e))
  ]

  -- A change of a Shoot is recorded for the region of the Shoot in the event's object, which for a
  -- deletion is the response's where there is one; only where that names no region, for the region
  -- in the extras of the effective user; and for none only where neither names one.
  pub extract_shoot_region_iff :
      (region : String)
      → (extract_shoot_region decode_shoot_region event ≡ some region)
        ↔ (ObjectNames region ⊎ (((r : String) → ¬ ObjectNames r) × UserNames region))
  extract_shoot_region_iff region = (extract_sound region, extract_complete region)
