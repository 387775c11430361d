-- ===== src/Audit/Handler.antt =====
-- internal/webhook/audithandler/handler.go. The auditors and the metrics are logs of the calls made
-- to them; a read through the object reference of an event that has none is a panic. The request's
-- body comes decoded, or as none where it does not decode.
use persephone.Base.{ℕ, String, Bool, ◌==◌, not, Option, none, some, List, [], ◌∷◌, ◌++◌}
use persephone.Base.{◌≡◌, ◌⊎◌, inl, inr, refl, Result, ok, err, leb, if◌then◌else◌}
use persephone.Base.Dict.{Dict}
use persephone.UserInfo.{ExtractError, open_stack_user_info_from_extra}
use persephone.Audit.{ObjectReference, Event}
use persephone.Audit.Filter.{
  FilterReason, get_effective_user_extra, should_process_event, get_filter_reason,
}
use persephone.Audit.Transform.{
  AuditEvent, extract_shoot_region, transform_to_audit_event, transform_to_kubeconfig_audit_event,
}
use persephone.Audit.Auditors.{Auditor, get_auditor}

pub data Metric : Type 0 where
  events_filtered : FilterReason → Metric
  publish_failures : String → String → Metric
  events_total : String → String → String → Metric
  processing_duration : String → Metric

-- What has been recorded, with the region whose auditor it went to, and the metrics.
pub record State : Type 0 where
  pub recorded : List (String × AuditEvent)
  pub metrics : List Metric

pub data ProcessError : Type 0 where
  region_extraction no_user_extra region_empty : ProcessError
  user_info : ExtractError → ProcessError
  no_auditor : String → ProcessError

pub data Outcome : Type 0 where
  done panicked : Outcome
  failed : ProcessError → Outcome

pub Outcome-cases :
    (o : Outcome) → (o ≡ done) ⊎ (o ≡ panicked) ⊎ ((e : ProcessError) × (o ≡ failed e))
Outcome-cases done = inl refl
Outcome-cases panicked = inr (inl refl)
Outcome-cases (failed e) = inr (inr (e, refl))

abbrev pub measure : Metric → State → State
measure m s = record s { metrics = s.metrics ++ m ∷ [] }

abbrev pub outcome_of : Option ℕ → String
outcome_of none = "success"
outcome_of (some code) = if leb 400 code then "failure" else "success"

-- The region of a kubeconfig request, which comes from the user alone.
unfoldable pub kubeconfig_region : Event → Result ProcessError String
kubeconfig_region event = elim (get_effective_user_extra event) [
  | none ↦ err no_user_extra
  | some extra ↦ elim (open_stack_user_info_from_extra extra) [
    | err e ↦ err (user_info e)
    | ok info ↦ if info.region == "" then err region_empty else ok info.region
  ]
]

-- What is taken of other packages: the decoders of transform.go.
module _ (decode_shoot_region : String → Option String) (is_url : String → Bool)
    (auditors : Dict Auditor) where
  -- The duration is observed at the end, whatever the result.
  unfoldable pub record_and_publish : Event → AuditEvent → String → State → Outcome × State
  record_and_publish event audit_event region s = elim (get_auditor auditors region) [
    | none ↦ (
      failed (no_auditor region),
      measure (processing_duration region) (measure (publish_failures region "no_auditor") s),
    )
    | some auditor ↦ (
      done,
      measure (processing_duration region) (
          measure (events_total event.verb region (outcome_of event.response_status))
            (record s { recorded = s.recorded ++ (region, audit_event) ∷ [] })),
    )
  ]

  unfoldable pub process_shoot_event : Event → ObjectReference → State → Outcome × State
  process_shoot_event event ref s = elim (extract_shoot_region decode_shoot_region event) [
    | none ↦
        (failed region_extraction, measure (publish_failures "unknown" "region_extraction_error") s)
    | some region ↦ record_and_publish event (transform_to_audit_event is_url event ref) region s
  ]

  unfoldable pub process_kubeconfig_event : Event → ObjectReference → State → Outcome × State
  process_kubeconfig_event event ref s = elim (kubeconfig_region event) [
    | err e ↦ (failed e, measure (publish_failures "unknown" "region_extraction_error") s)
    | ok region ↦
        record_and_publish event (transform_to_kubeconfig_audit_event is_url event ref) region s
  ]

  unfoldable pub process_event : Event → State → Outcome × State
  process_event event s =
      if not (should_process_event event)
      then (done, measure (events_filtered (get_filter_reason event)) s)
      else elim event.object_ref [
        | none ↦ (panicked, s)
        | some ref ↦
            if not (ref.subresource == "")
            then process_kubeconfig_event event ref s
            else process_shoot_event event ref s
      ]

  -- The answer to the API server: a status, or none where the handler panics.
  unfoldable pub process_events : List Event → State → Option ℕ × State
  process_events [] s = (some 200, s)
  process_events (event ∷ rest) s =
      let (outcome, s') = process_event event s in
      elim outcome [
        | done ↦ process_events rest s'
        | panicked ↦ (none, s')
        | failed e ↦ elim event.object_ref [ none ↦ (none, s') | some ref ↦ (some 500, s') ]
      ]

  unfoldable pub serve_http : Option (List Event) → State → Option ℕ × State
  serve_http none s = (some 400, s)
  serve_http (some events) s = process_events events s
