-- ===== src/Rotation/Release.antt =====
-- What has happened when a secret is released, and when the service user is deleted.
use persephone.Base.Runs.{made, made-bind, made-or_record, or_record-ok}
use persephone.Base.Runs.{◌>>-◌, or_record}
use persephone.Base.{
  ℕ, String, ◌≡◌, refl, ap, ◌∙◌, ◌⊎◌, inl, inr, Bool, true, false, none, some, arith,
}
use persephone.Base.{ok, Bool-cases, Result-cases}
use persephone.Base.Dict.{get_text}
use persephone.Constants.{label_key_open_stack_region}
use persephone.UserInfo.{open_stack_user_info_from_labels}
use persephone.Labels.{get_cluster_user_name}
use persephone.Rotation.{
  InternalSecret, Shoot, CredentialsBinding, Call, Env, delete_binding, connect, delete_credential,
  record_cleanup, send, send_ignoring_not_found, credentials_binding_for_secret,
}
use persephone.Rotation.Calls.{
  IsAllowed, internal_secret_deletion_allowed-IsAllowed, IsNewest, IsNotNewest, IsOwner,
  secret_owns_cluster_service_user-IsOwner, is_user_deletion, is_release, IsGone,
  send_ignoring_not_found-IsGone, IsLast, is_only_remaining_internal_secret_for_shoot-IsLast,
}
use persephone.Rotation.Gone.{
  IsCredentialGone, delete_application_credential-IsCredentialGone, IsUserGone,
  delete_cluster_service_user-IsUserGone,
}
use persephone.Rotation.Renewal.{new_open_stack_cluster_user_client_set}
use persephone.Rotation.Cleanup.{
  internal_secret_deletion_allowed, secret_owns_cluster_service_user,
  is_only_remaining_internal_secret_for_shoot, delete_application_credential,
  delete_cluster_service_user, settle, released, clean_up_user, clean_up_credential, deleted_with,
  release_user, clean_up, delete,
}

-- What holds when the clean-up has come to the question who owns the service user.
pub record IsCleared (env : Env) (secret : InternalSecret) (shoot : Shoot) (expires : ℕ)
    : Type 0 where
  pub allowed : IsAllowed env secret shoot expires
  pub binding : IsGone env (delete_binding (credentials_binding_for_secret shoot secret))
  pub credential : IsCredentialGone env secret shoot

module _ (p : Call → Bool) (b : (x : CredentialsBinding) → p (delete_binding x) ≡ false)
    (k : (r u i : String) → p (connect r u i) ≡ false)
    (d : (r i : String) → p (delete_credential r i) ≡ false)
    (m : (r s : String) → p (record_cleanup r s) ≡ false) (env : Env) (secret : InternalSecret)
    (shoot : Shoot) where
  connect-quiet : made p (new_open_stack_cluster_user_client_set env secret shoot true).1 ≡ true → ⊥
  unfolding new_open_stack_cluster_user_client_set send
  connect-quiet h = elim (Result-cases (open_stack_user_info_from_labels secret.labels)) [
    | inr (x, e) ↦ ground arith
    | inl (o, e) ↦
        let user = get_cluster_user_name env.landscape_name shoot.name o.project_id in
        elim (Result-cases (env.user_exists o.region user)) [
          | inr (x, f) ↦ ground arith
          | inl (there, f) ↦ ground (arith, k o.region user o.project_id)
        ]
  ]

  credential-quiet : made p (delete_application_credential env secret shoot).1 ≡ true → ⊥
  unfolding delete_application_credential send_ignoring_not_found
  credential-quiet h =
      elim (made-bind p (new_open_stack_cluster_user_client_set env secret shoot true)
        (deleted_with env secret) h) [
          | inl l ↦ connect-quiet l
          | inr (none, e, x) ↦ ground arith
          | inr (some o, e, x) ↦ ground (arith, d o.region secret.credential_id)
        ]

  abbrev region : String
  region = get_text label_key_open_stack_region secret.labels

  no_send : (c : Call) → p c ≡ false → made p (send_ignoring_not_found env c).1 ≡ true → ⊥
  unfolding send_ignoring_not_found
  no_send c q h = ground arith

  -- Where a clean-up makes such a call, what came before it has succeeded.
  past_binding :
      made p (clean_up env secret shoot region).1 ≡ true
      → IsGone env (delete_binding (credentials_binding_for_secret shoot secret))
        × (made p (clean_up_credential env secret shoot region).1 ≡ true)
  unfolding clean_up
  past_binding h =
      let binding = delete_binding (credentials_binding_for_secret shoot secret) in
      let first = send_ignoring_not_found env binding in
      let metric = record_cleanup region "error" in
      elim (made-bind p (or_record metric first) (λ _. clean_up_credential env secret shoot region)
        h) [
          | inl l ↦ absurd (
              no_send binding (b (credentials_binding_for_secret shoot secret))
                (made-or_record p metric first (m region "error") l))
          | inr (a, e, rest) ↦
              (send_ignoring_not_found-IsGone env binding (or_record-ok metric first a e), rest)
        ]

  past_credential :
      made p (clean_up_credential env secret shoot region).1 ≡ true
      → ((delete_application_credential env secret shoot).0 ≡ ok tt)
        × (made p (clean_up_user env secret shoot region).1 ≡ true)
  past_credential h =
      let first = delete_application_credential env secret shoot in
      let metric = record_cleanup region "error" in
      elim (made-bind p (or_record metric first) (λ _. clean_up_user env secret shoot region) h) [
        | inl l ↦ absurd (credential-quiet (made-or_record p metric first (m region "error") l))
        | inr (a, e, rest) ↦ (or_record-ok metric first a e, rest)
      ]

  past_owner :
      made p (clean_up_user env secret shoot region).1 ≡ true
      → (owner : Bool) × (secret_owns_cluster_service_user env secret ≡ ok owner)
        × (made p (settle env secret shoot region owner).1 ≡ true)
  past_owner h = elim (Result-cases (secret_owns_cluster_service_user env secret)) [
    | inl (owner, e) ↦ (owner, e, ground arith)
    | inr (x, e) ↦ ground (arith, m region "error")
  ]

  cleared :
      (expires : ℕ)
      → made p (delete env secret shoot expires).1 ≡ true
      → IsCleared env secret shoot expires
        × ((owner : Bool) × (secret_owns_cluster_service_user env secret ≡ ok owner)
            × (made p (settle env secret shoot region owner).1 ≡ true))
  unfolding delete
  cleared expires h =
      elim (Bool-cases (internal_secret_deletion_allowed env secret shoot expires)) [
        | inr n ↦ ground arith
        | inl y ↦
            let (gone, h1) = past_binding (ground arith) in
            let (credential, h2) = past_credential h1 in
            (
              record {
                allowed = internal_secret_deletion_allowed-IsAllowed env secret shoot expires y;
                binding = gone;
                credential =
                    delete_application_credential-IsCredentialGone env secret shoot credential;
              },
              past_owner h2,
            )
      ]

module _ (env : Env) (secret : InternalSecret) (shoot : Shoot) where
  only_of_user_deletion :
      (region : String) (owner : Bool)
      → made is_user_deletion (settle env secret shoot region owner).1 ≡ true
      → (owner ≡ true) × (is_only_remaining_internal_secret_for_shoot env secret ≡ ok true)
  unfolding release_user send
  only_of_user_deletion region false h = ground arith
  only_of_user_deletion region true h =
      elim (Result-cases (is_only_remaining_internal_secret_for_shoot env secret)) [
        | inl (true, e) ↦ (refl, e)
        | inl (false, e) ↦ ground arith
        | inr (x, e) ↦ ground arith
      ]

  -- In whatever run on a secret with a deletion timestamp, also one that ends with an error, the
  -- service user is deleted only if the Shoot is deleted, does not name the secret's binding or the
  -- secret has expired; the API server has answered that the binding is deleted or not there; the
  -- application credential is gone, as Keystone has answered that it is deleted or not there, or has
  -- no service user for the identity in the secret's labels; and the secret is the newest of the
  -- Shoot, which has none of another name or UID.
  pub delete-IsLast :
      (expires : ℕ)
      → made is_user_deletion (delete env secret shoot expires).1 ≡ true
      → IsCleared env secret shoot expires × IsNewest env secret × IsLast env secret
  delete-IsLast expires h =
      let (clear, (owner, owned, rest)) =
        cleared is_user_deletion (λ x. refl) (λ r u i. refl) (λ r i. refl) (λ r s. refl) env secret
          shoot expires h in
      let (same, only) = only_of_user_deletion _ owner rest in
      (
        clear,
        secret_owns_cluster_service_user-IsOwner env secret true (owned ∙ ap ok same),
        is_only_remaining_internal_secret_for_shoot-IsLast env secret only,
      )

  -- What is known of the service user when the secret is released.
  abbrev pub IsSettled : Type 0
  IsSettled =
      IsNotNewest env secret
      ⊎ (IsNewest env secret × IsLast env secret × IsUserGone env secret shoot)

  user-quiet : made is_release (delete_cluster_service_user env secret shoot).1 ≡ true → ⊥
  unfolding delete_cluster_service_user send_ignoring_not_found
  user-quiet h = elim (Result-cases (open_stack_user_info_from_labels secret.labels)) [
    | inr (x, e) ↦ ground arith
    | inl (o, e) ↦ elim (Result-cases env.namespace_labels) [
      | inr (x, f) ↦ ground arith
      | inl (labels, f) ↦ ground arith
    ]
  ]

  user_step :
      (region : String)
      → made is_release
          (or_record (record_cleanup region "error") (delete_cluster_service_user env secret shoot)
            >>- λ _. released env secret region).1
        ≡ true
      → (delete_cluster_service_user env secret shoot).0 ≡ ok tt
  user_step region h =
      let metric = record_cleanup region "error" in
      let step = delete_cluster_service_user env secret shoot in
      elim (made-bind is_release (or_record metric step) (λ _. released env secret region) h) [
        | inl l ↦ absurd (user-quiet (made-or_record is_release metric step refl l))
        | inr (a, e, rest) ↦ or_record-ok metric step a e
      ]

  settle-IsSettled :
      (region : String) (owner : Bool)
      → made is_release (settle env secret shoot region owner).1 ≡ true
      → IsOwner env secret owner
      → IsSettled
  unfolding release_user
  settle-IsSettled region false h other = inl other
  settle-IsSettled region true h newest =
      elim (Result-cases (is_only_remaining_internal_secret_for_shoot env secret)) [
        | inl (true, e) ↦ inr (
          newest,
          is_only_remaining_internal_secret_for_shoot-IsLast env secret e,
          delete_cluster_service_user-IsUserGone env secret shoot (user_step region (ground arith)),
        )
        | inl (false, e) ↦ ground arith
        | inr (x, e) ↦ ground arith
      ]

  -- In whatever run, the finalizer is removed only if the Shoot is deleted, does not name the
  -- secret's binding or the secret has expired; the API server has answered that the binding is
  -- deleted or not there; the application credential is gone, as Keystone has answered that it is
  -- deleted or not there, or has no service user for the identity in the secret's labels; and the
  -- secret is not the newest of the Shoot, or it is the newest and the Shoot has none of another name
  -- or UID, and Keystone has answered that the service user is deleted or not there.
  pub delete-IsSettled :
      (expires : ℕ)
      → made is_release (delete env secret shoot expires).1 ≡ true
      → IsCleared env secret shoot expires × IsSettled
  delete-IsSettled expires h =
      let (clear, (owner, owned, rest)) =
        cleared is_release (λ x. refl) (λ r u i. refl) (λ r i. refl) (λ r s. refl) env secret shoot
          expires h in
      (
        clear,
        settle-IsSettled _ owner rest
            (secret_owns_cluster_service_user-IsOwner env secret owner owned),
      )
