-- ===== src/Audit/Selection.antt =====
-- Which events are audited, and how those that are not are counted.
use persephone.Base.{String, ◌≡◌, ◌↔◌, ◌⊎◌, inl, inr, true, false, some}
use persephone.Base.{arith, eq_iff, Bool-cases, Option-cases, ◌==◌}
use persephone.Audit.{
  ObjectReference, Event, verb_create, verb_update, verb_delete, verb_patch, gardener_api_group,
  shoot_resource, subresource_admin_kubeconfig, subresource_viewer_kubeconfig,
  stage_response_complete,
}
use persephone.Audit.Acting.{IsByOpenStackUser, event_has_open_stack_user_info_iff}
use persephone.Audit.Filter.{
  no_openstack_credentials, event_has_open_stack_user_info, is_crud_verb,
  should_process_shoot_event, should_process_kubeconfig_event, should_process_event,
  get_filter_reason,
}

-- A change of a Shoot, or a request for a kubeconfig of one.
abbrev pub IsShootChange : String → Type 0
IsShootChange verb =
    (verb ≡ verb_create) ⊎ (verb ≡ verb_update) ⊎ (verb ≡ verb_delete) ⊎ (verb ≡ verb_patch)

abbrev pub IsKubeconfigRequest : String → String → Type 0
IsKubeconfigRequest verb subresource =
    (verb ≡ verb_create)
    × ((subresource ≡ subresource_admin_kubeconfig) ⊎ (subresource ≡ subresource_viewer_kubeconfig))

-- A completed request by an OpenStack user that changes a Shoot or asks for a kubeconfig of one.
pub record IsAuditable (event : Event) : Type 0 where
  pub ref : ObjectReference
  pub completed : event.stage ≡ stage_response_complete
  pub has_ref : event.object_ref ≡ some ref
  pub group : ref.api_group ≡ gardener_api_group
  pub shoot : ref.resource ≡ shoot_resource
  pub kind :
      ((ref.subresource ≡ "") × IsShootChange event.verb)
      ⊎ IsKubeconfigRequest event.verb ref.subresource
  pub by_user : IsByOpenStackUser event

is_crud_verb_iff : (verb : String) → (is_crud_verb verb ≡ true) ↔ IsShootChange verb
is_crud_verb_iff verb = (
  λ h. ground (
    arith,
    eq_iff verb verb_create,
    eq_iff verb verb_update,
    eq_iff verb verb_delete,
    eq_iff verb verb_patch,
  ),
  λ h. ground (
    arith,
    eq_iff verb verb_create,
    eq_iff verb verb_update,
    eq_iff verb verb_delete,
    eq_iff verb verb_patch,
  ),
)

should_process_sound : (event : Event) → should_process_event event ≡ true → IsAuditable event
unfolding should_process_event should_process_shoot_event should_process_kubeconfig_event
should_process_sound event h = elim (Option-cases event.object_ref) [
  | inl e ↦ ground arith
  | inr (ref, e) ↦ record {
    ref = ref;
    completed = ground (arith, eq_iff event.stage stage_response_complete);
    has_ref = e;
    group = ground (arith, eq_iff ref.api_group gardener_api_group);
    shoot = ground (arith, eq_iff ref.resource shoot_resource);
    kind = elim (Bool-cases (ref.subresource == "")) [
      | inl plain ↦
          inl ((eq_iff ref.subresource "").0 plain, (is_crud_verb_iff event.verb).0 (ground arith))
      | inr sub ↦ inr (
        ground (arith, eq_iff event.verb verb_create),
        ground (
          arith,
          eq_iff ref.subresource subresource_admin_kubeconfig,
          eq_iff ref.subresource subresource_viewer_kubeconfig,
        ),
      )
    ];
    by_user = (event_has_open_stack_user_info_iff event).0 (ground arith);
  }
]

should_process_complete : (event : Event) → IsAuditable event → should_process_event event ≡ true
unfolding should_process_event should_process_shoot_event should_process_kubeconfig_event
should_process_complete event a =
    let ref : ObjectReference = a.ref in
    let by_user = (event_has_open_stack_user_info_iff event).1 a.by_user in
    elim a.kind [
      | inl (plain, change) ↦ ground (
        arith,
        by_user,
        a.has_ref,
        (eq_iff event.stage stage_response_complete).1 a.completed,
        (eq_iff ref.api_group gardener_api_group).1 a.group,
        (eq_iff ref.resource shoot_resource).1 a.shoot,
        (eq_iff ref.subresource "").1 plain,
        (is_crud_verb_iff event.verb).1 change,
      )
      | inr (create, kubeconfig) ↦ ground (
        arith,
        by_user,
        a.has_ref,
        (eq_iff event.stage stage_response_complete).1 a.completed,
        (eq_iff ref.api_group gardener_api_group).1 a.group,
        (eq_iff ref.resource shoot_resource).1 a.shoot,
        (eq_iff event.verb verb_create).1 create,
        eq_iff ref.subresource "",
        eq_iff ref.subresource subresource_admin_kubeconfig,
        eq_iff ref.subresource subresource_viewer_kubeconfig,
      )
    ]

-- The webhook processes exactly the events of a completed request that changes a Shoot of
-- Gardener's API group, or creates an admin or viewer kubeconfig of one, by a user (the
-- impersonated one where there is one) whose extras hold each of the seven OpenStack keys.
pub should_process_event_iff :
    (event : Event) → (should_process_event event ≡ true) ↔ IsAuditable event
should_process_event_iff event = (should_process_sound event, should_process_complete event)

-- An event on a Gardener object that is counted as filtered for want of OpenStack credentials
-- indeed comes of a user whose extras lack them.
pub no_credentials_reason :
    (event : Event) (ref : ObjectReference)
    → event.object_ref ≡ some ref
    → ref.api_group ≡ gardener_api_group
    → should_process_event event ≡ false
    → get_filter_reason event ≡ no_openstack_credentials
    → event_has_open_stack_user_info event ≡ false
unfolding should_process_event should_process_shoot_event should_process_kubeconfig_event
    get_filter_reason
no_credentials_reason event ref e g h r =
    ground (arith, (eq_iff ref.api_group gardener_api_group).1 g)
