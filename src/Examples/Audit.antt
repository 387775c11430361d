-- ===== src/Examples/Audit.antt =====
-- The audit webhook on the creation of a Shoot.
use persephone.Base.{
  ℕ, ◌≡◌, ◌↔◌, ◌⊎◌, String, refl, Bool, true, Option, none, some, List, [], ◌∷◌, ◌++◌,
}
use persephone.Base.{All, arith}
use persephone.Base.Dict.{Dict}
use persephone.UserInfo.{to_extra, has_open_stack_user_info}
use persephone.Audit.{ObjectReference, EventUser, Event}
use persephone.Audit.Filter.{
  should_process_event, should_process_shoot_event, event_has_open_stack_user_info,
}
use persephone.Audit.Transform.{extract_shoot_region, raw_object}
use persephone.Audit.Auditors.{
  Auditor, null_auditor, transport, new_region_auditor_set, add_regions, make_auditor, get_auditor,
}
use persephone.Audit.Handler.{
  State, serve_http, process_events, process_event, process_shoot_event, record_and_publish,
}
use persephone.Audit.Selection.{IsAuditable, should_process_event_iff}
use persephone.Audit.Region.{ObjectNames, UserNames, extract_shoot_region_iff}
use persephone.Audit.Delivery.{entries, IsAnswered, StopsAt, serve_http_ok, serve_http_error}
use persephone.Audit.Regions.{IsMade, get_auditor-IsMade}
use persephone.Examples.Garden.{qa_region, info}

abbrev ref : ObjectReference
ref = record {
  api_group = "core.gardener.cloud";
  resource = "shoots";
  subresource = "";
  namespace = "garden-qa-p1";
  name = "web";
}

abbrev user : EventUser
user = record { username = "ada"; uid = "u1"; extra = some (to_extra info) }

abbrev event : Event
event = record {
  stage = "ResponseComplete";
  verb = "create";
  request_uri = "/apis";
  user_agent = "kubectl";
  source_ips = "10.0.0.1" ∷ [];
  object_ref = some ref;
  user = user;
  impersonated_user = none;
  request_object = some "shoot in qa";
  response_object = none;
  response_status = some 201;
  stage_timestamp = 7;
}

-- The same change by a user without extras.
abbrev anonymous : Event
anonymous = record event { user = record user { extra = none } }

abbrev decode : String → Option String
decode raw = some "qa"

abbrev is_url : String → Bool
is_url s = true

abbrev start : State
start = record { recorded = []; metrics = [] }

abbrev auditors : Dict Auditor
auditors = ("qa", null_auditor) ∷ []

abbrev after : State
after = (serve_http decode is_url auditors (some (event ∷ anonymous ∷ [])) start).1

delivered_example :
    (after.recorded ≡ [] ++ entries decode is_url auditors (event ∷ anonymous ∷ []))
    × All (IsAnswered decode is_url auditors) (event ∷ anonymous ∷ [])
unfolding serve_http process_events process_event should_process_event should_process_shoot_event
    event_has_open_stack_user_info has_open_stack_user_info to_extra process_shoot_event
    extract_shoot_region raw_object record_and_publish get_auditor
delivered_example = serve_http_ok decode is_url auditors (event ∷ anonymous ∷ []) start after refl

abbrev server_error : ℕ
server_error = 500

-- No auditor for the region: the answer is 500.
abbrev after_error : State
after_error = (serve_http decode is_url [] (some (event ∷ [])) start).1

given_up_example :
    ((some (event ∷ []) ≡ none) × (server_error ≡ 400) × (after_error ≡ start))
    ⊎ ((events : List Event) × (some (event ∷ []) ≡ some events)
        × (server_error ≡ 500)
        × StopsAt decode is_url [] events start after_error)
unfolding serve_http process_events process_event should_process_event should_process_shoot_event
    event_has_open_stack_user_info has_open_stack_user_info to_extra process_shoot_event
    extract_shoot_region raw_object record_and_publish get_auditor
given_up_example =
    serve_http_error decode is_url [] (some (event ∷ [])) server_error start after_error
      (λ h. omega arith) refl

selected_example : (should_process_event event ≡ true) ↔ IsAuditable event
selected_example = should_process_event_iff event

shoot_region_example : (extract_shoot_region decode event ≡ some "qa") ↔ (
    ObjectNames decode event "qa"
    ⊎ (((r : String) → ¬ ObjectNames decode event r) × UserNames decode event "qa"))
shoot_region_example = extract_shoot_region_iff decode event "qa"

abbrev no_error : String → Option String
no_error url = none

auditor_example : IsMade no_error (("qa", qa_region) ∷ []) "qa" (transport "amqps://audit.qa")
unfolding new_region_auditor_set add_regions make_auditor get_auditor
auditor_example =
    get_auditor-IsMade no_error (("qa", qa_region) ∷ []) (("qa", transport "amqps://audit.qa") ∷ [])
      "qa" (transport "amqps://audit.qa") refl refl
