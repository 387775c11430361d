-- ===== src/Audit/Filter.antt =====
-- internal/webhook/audithandler/filter.go, and getFilterReason of handler.go.
use persephone.Base.{String, Bool, true, false, ◌==◌, ◌||◌, not, Option, none, some, if◌then◌else◌}
use persephone.Base.Dict.{Dict}
use persephone.UserInfo.{ExtraValue, has_open_stack_user_info}
use persephone.Audit.{
  ObjectReference, Event, verb_create, verb_update, verb_delete, verb_patch, gardener_api_group,
  shoot_resource, subresource_admin_kubeconfig, subresource_viewer_kubeconfig,
  stage_response_complete,
}

-- `getEffectiveUserExtra`
unfoldable pub get_effective_user_extra : Event → Option (Dict ExtraValue)
get_effective_user_extra event = elim event.impersonated_user [
  | some user ↦ user.extra
  | none ↦ event.user.extra
]

-- A nil map has no key.
abbrev pub has_info : Option (Dict ExtraValue) → Bool
has_info none = false
has_info (some extra) = has_open_stack_user_info extra

unfoldable pub event_has_open_stack_user_info : Event → Bool
event_has_open_stack_user_info event = elim event.impersonated_user [
  | some user ↦ has_info user.extra
  | none ↦ has_info event.user.extra
]

-- The cases of the switch on the verb.
abbrev pub is_crud_verb : String → Bool
is_crud_verb verb =
    verb == verb_create || verb == verb_update || verb == verb_delete || verb == verb_patch

abbrev pub is_kubeconfig : String → Bool
is_kubeconfig subresource =
    subresource == subresource_admin_kubeconfig || subresource == subresource_viewer_kubeconfig

unfoldable pub should_process_shoot_event : Event → Bool
should_process_shoot_event event =
    if not (is_crud_verb event.verb)
    then false
    else if not (event_has_open_stack_user_info event)
    then false
    else true

unfoldable pub should_process_kubeconfig_event : Event → ObjectReference → Bool
should_process_kubeconfig_event event ref =
    if not (is_kubeconfig ref.subresource)
    then false
    else if not (event.verb == verb_create)
    then false
    else if not (event_has_open_stack_user_info event)
    then false
    else true

unfoldable pub should_process_event : Event → Bool
should_process_event event =
    if not (event.stage == stage_response_complete) then false else elim event.object_ref [
      | none ↦ false
      | some ref ↦
          if not (ref.api_group == gardener_api_group) || not (ref.resource == shoot_resource)
          then false
          else if ref.subresource == ""
          then should_process_shoot_event event
          else should_process_kubeconfig_event event ref
    ]

-- The texts that count the events that are filtered out.
pub data FilterReason : Type 0 where
  wrong_stage not_shoot_resource unsupported_subresource not_crud_verb no_openstack_credentials :
      FilterReason

-- `getFilterReason`, for an object reference that is there.
abbrev pub reason_of_ref : Event → ObjectReference → FilterReason
reason_of_ref event ref =
    if not (ref.resource == shoot_resource)
    then not_shoot_resource
    else if not (ref.subresource == "")
    then (if is_kubeconfig ref.subresource
        then (if not (event.verb == verb_create) then not_crud_verb else no_openstack_credentials)
        else unsupported_subresource)
    else if is_crud_verb event.verb
    then no_openstack_credentials
    else not_crud_verb

unfoldable pub get_filter_reason : Event → FilterReason
get_filter_reason event =
    if not (event.stage == stage_response_complete)
    then wrong_stage
    else elim event.object_ref [ none ↦ not_shoot_resource | some ref ↦ reason_of_ref event ref ]
