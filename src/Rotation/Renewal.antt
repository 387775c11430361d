-- ===== src/Rotation/Renewal.antt =====
-- internal/controller/internalsecret/reconciler.go: the regular flow, in which a secret gets its
-- binding, is renewed at half of its validity, and is deleted when it is expired.
use persephone.Base.Runs.{◌>>-◌, pure, fail, lift, or_record, noting}
use persephone.Base.{ℕ, ◌+◌, ◌-◌, String, Bool, true, false, ◌&&◌, not, Option, none, some}
use persephone.Base.{ltb, if◌then◌else◌}
use persephone.Base.Dict.{get_text}
use persephone.Constants.{label_key_open_stack_region}
use persephone.UserInfo.{OpenStackUserInfo, open_stack_user_info_from_labels}
use persephone.Labels.{get_cluster_user_name}
use persephone.Rotation.{
  InternalSecret, Shoot, credentials_binding_for_secret, add_finalizer, delete_secret,
  create_binding, connect, ensure_secret, record_rotation, Env, list_failed, user_check_failed,
  region_not_supported, labels_unreadable, Logged, send, send_ignoring_already_exists, renew_at,
  grace_period_secret_age,
}

-- `newOpenStackClusterUserClientSet`, once the user is known not to be missing.
abbrev connected : Env → Shoot → OpenStackUserInfo → Logged (Option OpenStackUserInfo)
connected env shoot o =
    send env (
      connect o.region (get_cluster_user_name env.landscape_name shoot.name o.project_id)
        o.project_id)
    >>- λ _. pure (some o)

-- `newOpenStackClusterUserClientSet`: the identity of the secret's labels, or none where the user is
-- asked for and missing.
unfoldable pub new_open_stack_cluster_user_client_set :
    Env → InternalSecret → Shoot → Bool → Logged (Option OpenStackUserInfo)
new_open_stack_cluster_user_client_set env secret shoot check_for_existence =
    lift labels_unreadable (open_stack_user_info_from_labels secret.labels) >>- λ o.
    if not (env.supports o.region)
    then fail (region_not_supported o.region)
    else elim check_for_existence [
      | false ↦ connected env shoot o
      | true ↦
          lift user_check_failed (
            env.user_exists o.region
              (get_cluster_user_name env.landscape_name shoot.name o.project_id))
          >>- λ found. if found then connected env shoot o else pure none
    ]

-- `EnsureApplicationCredentialInternalSecretForShoot`, where there are clients.
abbrev pub ensured : Env → Shoot → Option OpenStackUserInfo → Logged (Unit {0})
ensured env shoot none = pure tt
ensured env shoot (some o) = send env (ensure_secret o.region shoot o)

unfoldable pub handle_now_after_renew_time : Env → InternalSecret → Shoot → ℕ → Logged (Unit {0})
handle_now_after_renew_time env secret shoot renew =
    let region : String = get_text label_key_open_stack_region secret.labels in
    lift list_failed (env.newest (λ s. ltb renew s.creation)) >>- λ newest. elim newest [
      | some _ ↦ pure tt
      | none ↦
          or_record (record_rotation region "error")
            (new_open_stack_cluster_user_client_set env secret shoot false >>- ensured env shoot)
          >>- λ _. noting (record_rotation region "success")
    ]

-- The result is the duration after which the secret is looked at again, 0 for none. The source's
-- duration is negative where the annotation lies before the creation, which asks for none either.
unfoldable pub handle_now_before_renew_time : Env → InternalSecret → Shoot → ℕ → Logged ℕ
handle_now_before_renew_time env secret shoot renew =
    send_ignoring_already_exists env (create_binding (credentials_binding_for_secret shoot secret))
    >>- λ _.
        if not shoot.exists then pure grace_period_secret_age else pure (renew - secret.creation)

-- `Delete` at the end of a flow.
abbrev pub deleted : Env → InternalSecret → Logged ℕ
deleted env secret = send env (delete_secret secret.name) >>- λ _. pure 0

-- `reconcile`, from the renew time on.
unfoldable pub renewed : Env → InternalSecret → Shoot → ℕ → Logged ℕ
renewed env secret shoot expires =
    handle_now_after_renew_time env secret shoot (renew_at secret.creation expires) >>- λ _.
    if not (ltb env.now expires) then deleted env secret else pure 0

unfoldable pub reconcile : Env → InternalSecret → Shoot → ℕ → Logged ℕ
reconcile env secret shoot expires = send env (add_finalizer secret.name) >>- λ _.
    if not shoot.exists && ltb (secret.creation + grace_period_secret_age) env.now
    then deleted env secret
    else if ltb env.now (renew_at secret.creation expires)
    then handle_now_before_renew_time env secret shoot (renew_at secret.creation expires)
    else renewed env secret shoot expires
