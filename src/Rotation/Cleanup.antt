-- ===== src/Rotation/Cleanup.antt =====
-- internal/controller/internalsecret/reconciler.go: the flow of a secret with a deletion timestamp,
-- and `Reconcile`, which chooses between the flows.
use persephone.Base.Runs.{◌>>-◌, pure, fail, lift, or_record, noting}
use persephone.Base.{
  ℕ, ◌*◌, String, Bool, true, false, ◌==◌, ◌&&◌, not, Option, none, some, List, [], ◌∷◌,
}
use persephone.Base.{Result, ok, err, ltb, delete_func, if◌then◌else◌}
use persephone.Base.Dict.{get_text}
use persephone.Constants.{
  label_key_open_stack_region, label_key_open_stack_project_id, label_key_shoot_name,
}
use persephone.Kube.{Got, found, not_found, failed}
use persephone.UserInfo.{OpenStackUserInfo, open_stack_user_info_from_labels}
use persephone.Labels.{get_cluster_user_name}
use persephone.Rotation.{
  InternalSecret, Shoot, credentials_binding_for_secret, remove_finalizer, delete_binding,
  delete_credential, delete_user, record_cleanup, Env, RotationError, list_failed, namespace_failed,
  retrieval_failed, region_not_supported, labels_unreadable, nil_dereference, Logged, send,
  send_ignoring_not_found, expires_at,
}
use persephone.Rotation.Renewal.{new_open_stack_cluster_user_client_set, reconcile}

-- 5 minutes
abbrev pub requeue_after_when_secret_still_in_use : ℕ
requeue_after_when_secret_still_in_use = 300 * 1000000000

-- 10 seconds
abbrev pub requeue_after_when_secret_owns_cluster_service_user : ℕ
requeue_after_when_secret_owns_cluster_service_user = 10 * 1000000000

abbrev pub is_deleted : Option (String × String) → Bool
is_deleted none = false
is_deleted (some (kind, state)) = (kind == "Delete") && (state == "Succeeded")

abbrev pub text_or_empty : Option String → String
text_or_empty none = ""
text_or_empty (some s) = s

-- `internalSecretDeletionAllowed`; an expiry that is now counts.
unfoldable pub internal_secret_deletion_allowed : Env → InternalSecret → Shoot → ℕ → Bool
internal_secret_deletion_allowed env secret shoot expires =
    if is_deleted shoot.last_operation
    then true
    else if not (ltb env.now expires)
    then true
    else not (
        text_or_empty shoot.credentials_binding_name
        == (credentials_binding_for_secret shoot secret).name)

abbrev pub is_same : InternalSecret → InternalSecret → Bool
is_same secret s = (s.name == secret.name) && (s.uid == secret.uid)

-- `secretOwnsClusterServiceUser`; there is no check that a secret was found.
unfoldable pub secret_owns_cluster_service_user : Env → InternalSecret → Result RotationError Bool
secret_owns_cluster_service_user env secret = elim (env.newest (λ _. true)) [
  | err e ↦ err (list_failed e)
  | ok none ↦ err nil_dereference
  | ok (some newest) ↦ ok (is_same secret newest)
]

abbrev pub is_nil : List InternalSecret → Bool
is_nil [] = true
is_nil (_ ∷ _) = false

unfoldable pub is_only_remaining_internal_secret_for_shoot :
    Env → InternalSecret → Result RotationError Bool
is_only_remaining_internal_secret_for_shoot env secret = elim env.secrets [
  | err e ↦ err (list_failed e)
  | ok secrets ↦ ok (is_nil (delete_func (is_same secret) secrets))
]

abbrev pub deleted_with : Env → InternalSecret → Option OpenStackUserInfo → Logged (Unit {0})
deleted_with env secret none = pure tt
deleted_with env secret (some o) =
    send_ignoring_not_found env (delete_credential o.region secret.credential_id)

unfoldable pub delete_application_credential : Env → InternalSecret → Shoot → Logged (Unit {0})
delete_application_credential env secret shoot =
    new_open_stack_cluster_user_client_set env secret shoot true >>- deleted_with env secret

-- The user is named by the project of the namespace's labels.
unfoldable pub delete_cluster_service_user : Env → InternalSecret → Shoot → Logged (Unit {0})
delete_cluster_service_user env secret shoot =
    lift labels_unreadable (open_stack_user_info_from_labels secret.labels) >>- λ o.
    if not (env.supports o.region)
    then fail (region_not_supported o.region)
    else lift namespace_failed env.namespace_labels >>- λ labels. send_ignoring_not_found env (
        delete_user o.region (
          get_cluster_user_name env.landscape_name shoot.name
            (get_text label_key_open_stack_project_id labels)))

-- The end of `delete`.
abbrev pub released : Env → InternalSecret → String → Logged ℕ
released env secret region = noting (record_cleanup region "success") >>- λ _.
    send env (remove_finalizer secret.name) >>- λ _. pure 0

-- The service user is deleted with the last secret of the Shoot only.
unfoldable pub release_user : Env → InternalSecret → Shoot → String → Logged ℕ
release_user env secret shoot region =
    or_record (record_cleanup region "error")
      (lift (λ e. e) (is_only_remaining_internal_secret_for_shoot env secret))
    >>- λ only.
        if not only
        then pure requeue_after_when_secret_owns_cluster_service_user
        else or_record (record_cleanup region "error")
            (delete_cluster_service_user env secret shoot)
          >>- λ _. released env secret region

abbrev pub settle : Env → InternalSecret → Shoot → String → Bool → Logged ℕ
settle env secret shoot region owner =
    if owner then release_user env secret shoot region else released env secret region

-- The last three steps of a clean-up, one after the other.
abbrev pub clean_up_user : Env → InternalSecret → Shoot → String → Logged ℕ
clean_up_user env secret shoot region =
    or_record (record_cleanup region "error")
      (lift (λ e. e) (secret_owns_cluster_service_user env secret))
    >>- settle env secret shoot region

abbrev pub clean_up_credential : Env → InternalSecret → Shoot → String → Logged ℕ
clean_up_credential env secret shoot region =
    or_record (record_cleanup region "error") (delete_application_credential env secret shoot)
    >>- λ _. clean_up_user env secret shoot region

unfoldable pub clean_up : Env → InternalSecret → Shoot → String → Logged ℕ
clean_up env secret shoot region =
    or_record (record_cleanup region "error")
      (send_ignoring_not_found env (delete_binding (credentials_binding_for_secret shoot secret)))
    >>- λ _. clean_up_credential env secret shoot region

-- `delete`
unfoldable pub delete : Env → InternalSecret → Shoot → ℕ → Logged ℕ
delete env secret shoot expires =
    if not (internal_secret_deletion_allowed env secret shoot expires)
    then pure requeue_after_when_secret_still_in_use
    else clean_up env secret shoot (get_text label_key_open_stack_region secret.labels)

-- A Shoot that is not found has the name and the namespace only.
abbrev pub missing_shoot : InternalSecret → Shoot
missing_shoot secret = record {
  name = get_text label_key_shoot_name secret.labels;
  namespace = secret.namespace;
  exists = false;
  last_operation = none;
  credentials_binding_name = none;
}

abbrev pub reconcile_found : Env → InternalSecret → Shoot → Logged ℕ
reconcile_found env secret shoot = lift (λ e. e) (expires_at env secret) >>- λ expires.
    if secret.deleting then delete env secret shoot expires else reconcile env secret shoot expires

-- `Reconcile`, on what the API server has of the secret and of its Shoot.
unfoldable pub reconcile_request : Env → Got InternalSecret → Got Shoot → Logged ℕ
reconcile_request env not_found shoot = pure 0
reconcile_request env (failed e) shoot = fail (retrieval_failed e)
reconcile_request env (found secret) (failed e) = fail (retrieval_failed e)
reconcile_request env (found secret) not_found = reconcile_found env secret (missing_shoot secret)
reconcile_request env (found secret) (found shoot) = reconcile_found env secret shoot
