-- ===== src/Audit/Transform.antt =====
-- internal/webhook/audithandler/transform.go. The decoding of a Shoot and of a URL and the making
-- of a JSON attachment are not part of the repository: they are the arguments `decode_shoot_region`
-- (the region of the Shoot in a raw object, none where it does not decode), `is_url` and
-- `new_json_attachment` (the content of the attachment of a raw JSON text, none on an error).
use persephone.Base.{ℕ, String, ◌<>◌, Bool, ◌==◌, ◌||◌, Option, none, some}
use persephone.Base.{List, [], ◌∷◌, ok, err, if◌then◌else◌}
use persephone.Base.Dict.{Dict}
use persephone.UserInfo.{ExtraValue, OpenStackUserInfo, open_stack_user_info_from_extra}
use persephone.Audit.{
  ObjectReference, EventUser, Event, verb_create, verb_update, verb_delete, verb_patch,
  subresource_viewer_kubeconfig,
}
use persephone.Audit.Filter.{get_effective_user_extra}

-- The region in the user's extras, where they can be read; it may be empty.
unfoldable pub user_region : Option (Dict ExtraValue) → Option String
user_region none = none
user_region (some extra) = elim (open_stack_user_info_from_extra extra) [
  | err e ↦ none
  | ok info ↦ some info.region
]

abbrev pub not_empty : Option String → Option String
not_empty none = none
not_empty (some s) = if s == "" then none else some s

-- The object that the region is looked for in.
unfoldable pub raw_object : Event → Option String
raw_object event =
    if event.verb == verb_delete
    then elim event.response_object [ none ↦ event.request_object | some raw ↦ some raw ]
    else event.request_object

-- `extractShootRegion`; none is its error.
unfoldable pub extract_shoot_region : (String → Option String) → Event → Option String
extract_shoot_region decode_shoot_region event = elim (not_empty (raw_object event)) [
  | none ↦ not_empty (user_region (get_effective_user_extra event))
  | some raw ↦ elim (not_empty (decode_shoot_region raw)) [
    | none ↦ not_empty (user_region (get_effective_user_extra event))
    | some region ↦ some region
  ]
]

-- The URL of the request: what parses, or else the text as a path.
pub data RequestUrl : Type 0 where
  parsed path : String → RequestUrl

pub record HttpRequest : Type 0 where
  pub method : String
  pub url : RequestUrl
  pub remote_addr : String
  pub user_agent : Option String  -- the header, where it is set

unfoldable pub verb_to_http_method : String → String
verb_to_http_method verb =
    if verb == verb_create
    then "POST"
    else if verb == verb_update || verb == verb_patch
    then "PUT"
    else if verb == verb_delete
    then "DELETE"
    else "POST"

unfoldable pub map_verb_to_action : String → String
map_verb_to_action verb =
    if verb == verb_create
    then "create"
    else if verb == verb_update || verb == verb_patch
    then "update"
    else if verb == verb_delete
    then "delete"
    else "update"

abbrev first_or_empty : List String → String
first_or_empty [] = ""
first_or_empty (ip ∷ _) = ip

unfoldable pub reconstruct_http_request : (String → Bool) → Event → HttpRequest
unfolding verb_to_http_method
reconstruct_http_request is_url event = record {
  method = verb_to_http_method event.verb;
  url = if is_url event.request_uri then parsed event.request_uri else path event.request_uri;
  remote_addr = first_or_empty event.source_ips;
  user_agent = if event.user_agent == "" then none else some event.user_agent;
}

-- `auditUserInfo`
unfoldable pub convert_user_info : Event → EventUser
convert_user_info event = elim event.impersonated_user [ some user ↦ user | none ↦ event.user ]

-- A CADF resource, with the fields that the webhook sets.
pub record Resource : Type 0 where
  pub type_uri : String
  pub id : String
  pub name : String
  pub host : Option String
  pub project_id : String
  pub project_name : String
  pub domain_id : String
  pub domain_name : String
  pub project_domain_name : String
  pub attachments : List (String × String)

abbrev plain_resource : String → String → Resource
plain_resource type_uri id = record {
  type_uri = type_uri;
  id = id;
  name = "";
  host = none;
  project_id = "";
  project_name = "";
  domain_id = "";
  domain_name = "";
  project_domain_name = "";
  attachments = [];
}

abbrev with_project : OpenStackUserInfo → Resource → Resource
with_project info r = record r {
  project_id = info.project_id;
  project_name = info.project_name;
  domain_id = info.project_domain_id;
  domain_name = info.project_domain_name;
  project_domain_name = info.project_domain_name;
}

-- `auditUserInfo.AsInitiator`
unfoldable pub as_initiator : EventUser → String → Resource
as_initiator u host =
    let resource : Resource = record (plain_resource "service/security/account/user" u.username) {
      host = some host;
    } in
    elim u.extra [
      | none ↦ resource
      | some extra ↦ elim (open_stack_user_info_from_extra extra) [
        | err e ↦ resource
        | ok info ↦ with_project info resource
      ]
    ]

-- The body is empty where there is none.
pub record ShootTarget : Type 0 where
  pub namespace : String
  pub name : String
  pub request_body : String

abbrev body_of : Option String → String
body_of none = ""
body_of (some raw) = raw

unfoldable pub build_shoot_target : Event → ObjectReference → ShootTarget
build_shoot_target event ref = record {
  namespace = ref.namespace;
  name = ref.name;
  request_body = if event.verb == verb_delete then "" else body_of event.request_object;
}

abbrev request_body_attachment : Option String → List (String × String)
request_body_attachment none = []
request_body_attachment (some content) = ("requestBody", content) ∷ []

-- `shootTarget.Render`
unfoldable pub render : (String → Option String) → ShootTarget → Resource
render new_json_attachment s =
    let cluster_ref : String = s.namespace <> ("/" <> s.name) in
    record (plain_resource "kubernetes/cluster" cluster_ref) {
      name = cluster_ref;
      attachments =
          if s.request_body == ""
          then []
          else request_body_attachment (new_json_attachment s.request_body);
    }

pub record AuditEvent : Type 0 where
  pub time : ℕ
  pub request : HttpRequest
  pub user : EventUser
  pub reason_code : ℕ
  pub action : String
  pub target : ShootTarget

abbrev reason_code_of : Option ℕ → ℕ
reason_code_of none = 500
reason_code_of (some code) = code

unfoldable pub transform_to_audit_event : (String → Bool) → Event → ObjectReference → AuditEvent
transform_to_audit_event is_url event ref = record {
  time = event.stage_timestamp;
  request = reconstruct_http_request is_url event;
  user = convert_user_info event;
  reason_code = reason_code_of event.response_status;
  action = map_verb_to_action event.verb;
  target = build_shoot_target event ref;
}

unfoldable pub transform_to_kubeconfig_audit_event :
    (String → Bool) → Event → ObjectReference → AuditEvent
transform_to_kubeconfig_audit_event is_url event ref = record {
  time = event.stage_timestamp;
  request = reconstruct_http_request is_url event;
  user = convert_user_info event;
  reason_code = reason_code_of event.response_status;
  action =
      if ref.subresource == subresource_viewer_kubeconfig
      then "authenticate/viewer"
      else "authenticate/admin";
  target = record {
    namespace = ref.namespace;
    name = ref.name;
    request_body = body_of event.request_object;
  };
}
