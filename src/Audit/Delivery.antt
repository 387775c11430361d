-- ===== src/Audit/Delivery.antt =====
-- What the webhook has recorded when it answers.
use mathlib.Core.List.{append-nil, append_assoc}
use persephone.Base.{ℕ, String, ◌≡◌, ◌≢◌, ◌⊎◌, refl, ap, ◌∙◌, Bool, true, false, Option, none, some}
use persephone.Base.{List, [], ◌∷◌, ◌++◌, arith, Bool-cases, inl, inr}
use persephone.Base.{ok, err, All, ◌==◌, if◌then◌else◌}
use persephone.Base.Dict.{Dict}
use persephone.Audit.{ObjectReference, Event}
use persephone.Audit.Filter.{should_process_event}
use persephone.Audit.Transform.{
  AuditEvent, extract_shoot_region, transform_to_audit_event, transform_to_kubeconfig_audit_event,
}
use persephone.Audit.Auditors.{Auditor}
use persephone.Audit.Handler.{
  State, Outcome, Outcome-cases, done, panicked, failed, ProcessError, kubeconfig_region,
  process_event, process_events, process_shoot_event, process_kubeconfig_event, record_and_publish,
  serve_http,
}

module _ (decode_shoot_region : String → Option String) (is_url : String → Bool)
    (auditors : Dict Auditor) where
  -- The record that an event which is processed calls for, with its region.
  abbrev pub entry_of : Event → ObjectReference → List (String × AuditEvent)
  entry_of event ref =
      if ref.subresource == ""
      then elim (extract_shoot_region decode_shoot_region event) [
        | none ↦ []
        | some region ↦ (region, transform_to_audit_event is_url event ref) ∷ []
      ]
      else elim (kubeconfig_region event) [
        | err e ↦ []
        | ok region ↦ (region, transform_to_kubeconfig_audit_event is_url event ref) ∷ []
      ]

  -- The record that an event calls for: none for one that the filter does not pass.
  abbrev pub entry : Event → List (String × AuditEvent)
  entry event = elim event.object_ref [
    | none ↦ []
    | some ref ↦ if should_process_event event then entry_of event ref else []
  ]

  -- The records that events call for, in their order.
  abbrev pub entries : List Event → List (String × AuditEvent)
  entries [] = []
  entries (event ∷ rest) = entry event ++ entries rest

  -- The event is filtered out, or it has a record.
  abbrev pub IsAnswered : Event → Type 0
  IsAnswered event = (should_process_event event ≡ false) ⊎ (entry event ≢ [])

  should_process-ref : (event : Event) → should_process_event event ≡ true → event.object_ref ≢ none
  unfolding should_process_event
  should_process-ref event h e = ground arith

  -- The answer to one event: done with its record made, or failed with nothing recorded.
  process_event-done :
      (event : Event) (s s' : State)
      → process_event decode_shoot_region is_url auditors event s ≡ (done, s')
      → (s'.recorded ≡ s.recorded ++ entry event) × IsAnswered event
  unfolding process_event process_shoot_event process_kubeconfig_event record_and_publish
  process_event-done event s s' h = (
    ground (arith, should_process-ref event, append-nil s.recorded),
    elim (Bool-cases (should_process_event event)) [
      | inl p ↦ inr λ q. ground (arith, should_process-ref event)
      | inr p ↦ inl p
    ],
  )

  process_event-failed :
      (event : Event) (e : ProcessError) (s s' : State)
      → process_event decode_shoot_region is_url auditors event s ≡ (failed e, s')
      → (s'.recorded ≡ s.recorded) × (should_process_event event ≡ true)
  unfolding process_event process_shoot_event process_kubeconfig_event record_and_publish
  process_event-failed event e s s' h = (ground arith, ground arith)

  process_event-ne-panicked :
      (event : Event) (s s' : State)
      → process_event decode_shoot_region is_url auditors event s ≢ (panicked, s')
  unfolding process_event process_shoot_event process_kubeconfig_event record_and_publish
  process_event-ne-panicked event s s' h = ground (arith, should_process-ref event)

  abbrev step : Event → State → Outcome × State
  step event s = process_event decode_shoot_region is_url auditors event s

  -- Where a list of events was given up: all before one that the filter passes are recorded, and
  -- nothing from there on.
  pub record StopsAt (events : List Event) (s s' : State) : Type 0 where
    pub before : List Event
    pub culprit : Event
    pub after : List Event
    pub split : events ≡ before ++ culprit ∷ after
    pub selected : should_process_event culprit ≡ true
    pub recorded : s'.recorded ≡ s.recorded ++ entries before

  process_events-done :
      (events : List Event) (s s' : State)
      → process_events decode_shoot_region is_url auditors events s ≡ (some 200, s')
      → (s'.recorded ≡ s.recorded ++ entries events) × All IsAnswered events
  unfolding process_events
  process_events-done [] s s' h = (ground (arith, append-nil s.recorded), tt)
  process_events-done (event ∷ rest) s s' h = elim (Outcome-cases (step event s).0) [
    | inl e ↦
        let (here, answered) =
          process_event-done event s (step event s).1 (ap (λ o. (o, (step event s).1)) e) in
        let (later, all) = process_events-done rest (step event s).1 s' (ground arith) in
        (later ∙ rw here (append_assoc s.recorded (entry event) (entries rest)), (answered, all))
    | inr (inl e) ↦ ground arith
    | inr (inr (x, e)) ↦ ground arith
  ]

  process_events-failed :
      (events : List Event) (k : ℕ) (s s' : State)
      → k ≢ 200
      → process_events decode_shoot_region is_url auditors events s ≡ (some k, s')
      → (k ≡ 500) × StopsAt events s s'
  unfolding process_events
  process_events-failed [] k s s' other h = absurd (other (ground arith))
  process_events-failed (event ∷ rest) k s s' other h = elim (Outcome-cases (step event s).0) [
    | inl e ↦
        let (here, answered) =
          process_event-done event s (step event s).1 (ap (λ o. (o, (step event s).1)) e) in
        let (code, at) = process_events-failed rest k (step event s).1 s' other (ground arith) in
        (
          code,
          record {
            before = event ∷ at.before;
            culprit = at.culprit;
            after = at.after;
            split = ap (λ (l : List Event). event ∷ l) at.split;
            selected = at.selected;
            recorded =
                at.recorded ∙ rw here (append_assoc s.recorded (entry event) (entries at.before));
          },
        )
    | inr (inl e) ↦
        absurd
          (process_event-ne-panicked event s (step event s).1 (ap (λ o. (o, (step event s).1)) e))
    | inr (inr (x, e)) ↦
        let (kept, selected) =
          process_event-failed event x s (step event s).1 (ap (λ o. (o, (step event s).1)) e) in
        (
          ground (arith, should_process-ref event selected),
          record {
            before = [];
            culprit = event;
            after = rest;
            split = refl;
            selected = selected;
            recorded =
                ground (arith, kept, append-nil s.recorded, should_process-ref event selected);
          },
        )
  ]

  process_events-ne-none :
      (events : List Event) (s s' : State)
      → process_events decode_shoot_region is_url auditors events s ≢ (none, s')
  unfolding process_events
  process_events-ne-none [] s s' h = cc
  process_events-ne-none (event ∷ rest) s s' h = elim (Outcome-cases (step event s).0) [
    | inl e ↦ process_events-ne-none rest (step event s).1 s' (ground arith)
    | inr (inl e) ↦
        process_event-ne-panicked event s (step event s).1 (ap (λ o. (o, (step event s).1)) e)
    | inr (inr (x, e)) ↦
        let (kept, selected) =
          process_event-failed event x s (step event s).1 (ap (λ o. (o, (step event s).1)) e) in
        ground (arith, should_process-ref event selected)
  ]

  -- A list of events that is answered by 200 has been recorded whole: the record of each event
  -- that the filter passes, in their order, after what was recorded before, and nothing else; and
  -- each event that the filter passes has a record.
  pub serve_http_ok :
      (events : List Event) (s s' : State)
      → serve_http decode_shoot_region is_url auditors (some events) s ≡ (some 200, s')
      → (s'.recorded ≡ s.recorded ++ entries events) × All IsAnswered events
  unfolding serve_http
  serve_http_ok events s s' h = process_events-done events s s' h

  -- Any other answer is 400 to a body that does not decode, with nothing recorded, or 500 to a
  -- list of events of which a first part is recorded whole, up to an event that the filter passes.
  pub serve_http_error :
      (body : Option (List Event)) (k : ℕ) (s s' : State)
      → k ≢ 200
      → serve_http decode_shoot_region is_url auditors body s ≡ (some k, s')
      → ((body ≡ none) × (k ≡ 400) × (s' ≡ s))
        ⊎ ((events : List Event) × (body ≡ some events) × (k ≡ 500) × StopsAt events s s')
  unfolding serve_http
  serve_http_error none k s s' other h = inl (refl, cc, cc)
  serve_http_error (some events) k s s' other h =
      let (code, at) = process_events-failed events k s s' other h in inr (events, refl, code, at)

  -- The handler does not panic, whatever the body: it reads no object reference that is missing.
  pub serve_http-ne-panic :
      (body : Option (List Event)) (s s' : State)
      → serve_http decode_shoot_region is_url auditors body s ≢ (none, s')
  unfolding serve_http
  serve_http-ne-panic none s s' h = cc
  serve_http-ne-panic (some events) s s' h = process_events-ne-none events s s' h
