-- ===== src/Rotation/Renewed.antt =====
-- What a reconciliation from the renew time on has done when it succeeds.
use mathlib.Core.List.{Memᴰ}
use mathlib.Core.Path.{subst}
use persephone.Base.Runs.{
  ◌>>-◌, or_record, noting, pure, bind-ok, or_record-ok, member-bind_left, member-bind_right,
  member-or_record,
}
use persephone.Base.{ℕ, sym, ◌≤◌, ◌≡◌, refl, true, false, Option, none, some, arith, List}
use persephone.Base.{ok, inl, inr, ltb, not, if◌then◌else◌, Result-cases}
use persephone.Base.Dict.{get_text}
use persephone.Constants.{label_key_open_stack_region}
use persephone.UserInfo.{OpenStackUserInfo, open_stack_user_info_from_labels}
use persephone.Rotation.{
  InternalSecret, Shoot, Call, Answer, done, not_found, already_exists, refused, Env, strict,
  add_finalizer, ensure_secret, delete_secret, record_rotation, Logged, send, renew_at,
}
use persephone.Rotation.Renewal.{
  deleted, ensured, new_open_stack_cluster_user_client_set, handle_now_after_renew_time, renewed,
  reconcile,
}

renew_at_le : (creation expires : ℕ) → creation ≤ expires → renew_at creation expires ≤ expires
unfolding renew_at
renew_at_le creation expires h = ground arith

done_of_strict : (c : Call) (a : Answer) → strict c a ≡ ok tt → a ≡ done
done_of_strict c done h = refl
done_of_strict c not_found h = ground arith
done_of_strict c already_exists h = ground arith
done_of_strict c (refused e) h = ground arith

send-done : (env : Env) (c : Call) (u : Unit {0}) → (send env c).0 ≡ ok u → env.answer c ≡ done
unfolding send
send-done env c u h = done_of_strict c (env.answer c) h

sent_member : (env : Env) (c : Call) → Memᴰ c (send env c).1
unfolding send
sent_member env c = Memᴰ.head refl

-- A new secret of the Shoot, with a new credential for the identity in the labels of the secret, was
-- called for, and the answer is that this is done.
abbrev pub IsRenewed : Env → InternalSecret → Shoot → List Call → Type 0
IsRenewed env secret shoot calls =
    (o : OpenStackUserInfo) × (open_stack_user_info_from_labels secret.labels ≡ ok o)
    × Memᴰ (ensure_secret o.region shoot o) calls
    × (env.answer (ensure_secret o.region shoot o) ≡ done)

module _ (env : Env) (secret : InternalSecret) (shoot : Shoot) (expires after : ℕ)
    (there : shoot.exists ≡ true) where
  abbrev renew : ℕ
  renew = renew_at secret.creation expires

  abbrev tail : Logged ℕ
  tail = if not (ltb env.now expires) then deleted env secret else pure 0

  abbrev clients : Logged (Option OpenStackUserInfo)
  clients = new_open_stack_cluster_user_client_set env secret shoot false

  tail_deletes :
      expires ≤ env.now
      → tail.0 ≡ ok after
      → Memᴰ (delete_secret secret.name) tail.1 × (env.answer (delete_secret secret.name) ≡ done)
  tail_deletes late =
      let same : ltb env.now expires ≡ false = ground arith in
      rw same λ h.
        let (a, sent, rest) =
          bind-ok (send env (delete_secret secret.name)) (λ _. pure 0) after h in
        (
          member-bind_left (delete_secret secret.name) (send env (delete_secret secret.name))
              (λ _. pure 0) (sent_member env (delete_secret secret.name)),
          send-done env (delete_secret secret.name) a sent,
        )

  reconcile_late :
      renew ≤ env.now
      → reconcile env secret shoot expires
        ≡ (send env (add_finalizer secret.name) >>- λ _. renewed env secret shoot expires)
  unfolding reconcile
  reconcile_late late =
      let same : ltb env.now renew ≡ false = ground arith in simp (there, same, reconcile)

  -- The part of the flow from the renew time on: it succeeds, and its calls are in the log.
  late_part :
      renew ≤ env.now
      → (reconcile env secret shoot expires).0 ≡ ok after
      → ((renewed env secret shoot expires).0 ≡ ok after)
        × ((c : Call)
            → Memᴰ c (renewed env secret shoot expires).1
            → Memᴰ c (reconcile env secret shoot expires).1)
  late_part late h =
      let first = send env (add_finalizer secret.name) in
      let next : Unit {0} → Logged ℕ = λ _. renewed env secret shoot expires in
      let (a, sent, rest) =
        bind-ok first next after (subst (λ r. r.0 ≡ ok after) (reconcile_late late) h) in
      (
        rest,
        λ c m.
            subst (λ r. Memᴰ c r.1) (sym (reconcile_late late))
              (member-bind_right c first next a sent m),
      )

  -- The clients are those of the identity in the labels of the secret.
  clients_some :
      (o : Option OpenStackUserInfo)
      → clients.0 ≡ ok o
      → (i : OpenStackUserInfo) × (o ≡ some i)
        × (open_stack_user_info_from_labels secret.labels ≡ ok i)
  unfolding new_open_stack_cluster_user_client_set send
  clients_some o h = elim (Result-cases (open_stack_user_info_from_labels secret.labels)) [
    | inr (x, e) ↦ ground arith
    | inl (i, e) ↦ (i, ground arith, e)
  ]

  ensured_of_clients :
      (clients >>- ensured env shoot).0 ≡ ok tt
      → IsRenewed env secret shoot (clients >>- ensured env shoot).1
  ensured_of_clients h =
      let (o, found, put) = bind-ok clients (ensured env shoot) tt h in
      let (i, n, labelled) = clients_some o found in
      let call = ensure_secret i.region shoot i in
      (
        i,
        labelled,
        member-bind_right call clients (ensured env shoot) o found
            (subst (λ x. Memᴰ call (ensured env shoot x).1) (sym n) (sent_member env call)),
        send-done env call tt (subst (λ x. (ensured env shoot x).0 ≡ ok tt) n put),
      )

  created :
      env.newest (λ s. ltb renew s.creation) ≡ ok none
      → (handle_now_after_renew_time env secret shoot renew).0 ≡ ok tt
      → IsRenewed env secret shoot (handle_now_after_renew_time env secret shoot renew).1
  unfolding handle_now_after_renew_time
  created alone =
      let region = get_text label_key_open_stack_region secret.labels in
      let metric = record_rotation region "error" in
      let step = clients >>- ensured env shoot in
      let note : Unit {0} → Logged (Unit {0}) = λ _. noting (record_rotation region "success") in
      rw (alone, handle_now_after_renew_time)
        λ h.
          let (a, fine, rest) = bind-ok (or_record metric step) note tt h in
          let (o, labelled, m, answered) = ensured_of_clients (or_record-ok metric step a fine) in
          let call = ensure_secret o.region shoot o in
          (
            o,
            labelled,
            member-bind_left call (or_record metric step) note
                (member-or_record call metric step m),
            answered,
          )

  -- From the renew time on, a reconciliation of a secret whose Shoot is there and has no newer secret
  -- has, when it succeeds, called for a new secret of this Shoot, with a new credential for the
  -- identity in the labels of the secret, and the answer was that this is done.
  pub reconcile_renews :
      renew ≤ env.now
      → env.newest (λ s. ltb renew s.creation) ≡ ok none
      → (reconcile env secret shoot expires).0 ≡ ok after
      → IsRenewed env secret shoot (reconcile env secret shoot expires).1
  unfolding renewed
  reconcile_renews late alone h =
      let (r, kept) = late_part late h in
      let first = handle_now_after_renew_time env secret shoot renew in
      let (a, fine, rest) = bind-ok first (λ _. tail) after r in
      let (o, labelled, m, answered) = created alone fine in
      let call = ensure_secret o.region shoot o in
      (o, labelled, kept call (member-bind_left call first (λ _. tail) m), answered)

  -- From the expiry on, a reconciliation of a secret whose Shoot is there has, when it succeeds,
  -- called for the deletion of this secret, and the answer was that this is done.
  pub reconcile_deletes_expired :
      secret.creation ≤ expires
      → expires ≤ env.now
      → (reconcile env secret shoot expires).0 ≡ ok after
      → Memᴰ (delete_secret secret.name) (reconcile env secret shoot expires).1
        × (env.answer (delete_secret secret.name) ≡ done)
  unfolding renewed
  reconcile_deletes_expired valid expired h =
      let middle = renew_at_le secret.creation expires valid in
      let (r, kept) = late_part (omega arith) h in
      let first = handle_now_after_renew_time env secret shoot renew in
      let (a, fine, rest) = bind-ok first (λ _. tail) after r in
      let (m, answered) = tail_deletes expired rest in
      (
        kept (delete_secret secret.name)
            (member-bind_right (delete_secret secret.name) first (λ _. tail) a fine m),
        answered,
      )
