-- ===== src/Examples/Rotation.antt =====
-- A secret of the Shoot "web" before its renewal, and at its release.
use mathlib.Core.List.{Memᴰ}
use persephone.Base.{ℕ, ◌+◌, ◌≤◌, ◌<◌, ◌≡◌, refl, inl, true, none, some, [], ◌∷◌, ok, arith}
use persephone.UserInfo.{open_stack_user_info_from_labels, get_label_value_for_key}
use persephone.Rotation.{
  InternalSecret, Shoot, Env, done, add_finalizer, create_binding, credentials_binding_for_secret,
  delete_secret, renew_at, send, send_ignoring_not_found,
}
use persephone.Rotation.Renewal.{
  renewed, handle_now_after_renew_time, reconcile, new_open_stack_cluster_user_client_set,
}
use persephone.Rotation.Cleanup.{
  delete, clean_up, release_user, delete_application_credential, delete_cluster_service_user,
  secret_owns_cluster_service_user, is_only_remaining_internal_secret_for_shoot,
  internal_secret_deletion_allowed,
}
use persephone.Rotation.Timing.{reconcile_before_renew_time}
use persephone.Rotation.Renewed.{IsRenewed, reconcile_renews, reconcile_deletes_expired}
use persephone.Rotation.Calls.{IsNewest, IsLast}
use persephone.Rotation.Release.{IsCleared, IsSettled, delete-IsLast, delete-IsSettled}

abbrev pub secret : InternalSecret
secret = record {
  name = "p1--web--shoot-1";
  namespace = "garden-qa-p1";
  uid = "s1";
  creation = 1000;
  deleting = true;
  labels =
      ("sci.cloud.sap/domain-name", "users")
      ∷ ("sci.cloud.sap/domain-id", "d1")
      ∷ ("sci.cloud.sap/project-name", "shop")
      ∷ ("sci.cloud.sap/project-id", "p1")
      ∷ ("sci.cloud.sap/region", "qa")
      ∷ [];
  annotations = [];
  credential_id = "c1";
}

abbrev pub shoot : Shoot
shoot = record {
  name = "web";
  namespace = "garden-qa-p1";
  exists = true;
  last_operation = none;
  credentials_binding_name = some "p1--web--shoot-1";
}

-- Every call is answered, and the secret is the only one.
abbrev pub env_at : ℕ → Env
env_at now = record {
  now = now;
  landscape_name = "canary";
  parse_time = λ raw. none;
  answer = λ call. done;
  newest = λ p. ok (some secret);
  secrets = ok (secret ∷ []);
  supports = λ region. true;
  user_exists = λ region name. ok true;
  namespace_labels = ok (("sci.cloud.sap/project-id", "p1") ∷ []);
}

before_renew_example :
    (after : ℕ) × reconcile (env_at 1500) secret shoot 3000 ≡ (
      ok after,
      add_finalizer secret.name ∷ create_binding (credentials_binding_for_secret shoot secret) ∷ [],
    )
    × renew_at 1000 3000 ≤ 1500 + after
    × 1500 + after < 3000
unfolding renew_at
before_renew_example =
    reconcile_before_renew_time (env_at 1500) secret shoot 3000 (omega arith) (omega arith) refl
      refl (inl refl)

lone_secret_example :
    IsCleared (env_at 3000) secret shoot 3000
    × IsNewest (env_at 3000) secret
    × IsLast (env_at 3000) secret
unfolding delete internal_secret_deletion_allowed clean_up send_ignoring_not_found
    delete_application_credential new_open_stack_cluster_user_client_set
    open_stack_user_info_from_labels get_label_value_for_key send secret_owns_cluster_service_user
    release_user is_only_remaining_internal_secret_for_shoot delete_cluster_service_user
lone_secret_example = delete-IsLast (env_at 3000) secret shoot 3000 refl

release_example : IsCleared (env_at 3000) secret shoot 3000 × IsSettled (env_at 3000) secret shoot
unfolding delete internal_secret_deletion_allowed clean_up send_ignoring_not_found
    delete_application_credential new_open_stack_cluster_user_client_set
    open_stack_user_info_from_labels get_label_value_for_key send secret_owns_cluster_service_user
    release_user is_only_remaining_internal_secret_for_shoot delete_cluster_service_user
release_example = delete-IsSettled (env_at 3000) secret shoot 3000 refl

-- No secret is newer than the renew time.
abbrev env_alone : ℕ → Env
env_alone now = record (env_at now) { newest = λ p. ok none }

renews_example :
    IsRenewed (env_alone 2500) secret shoot (reconcile (env_alone 2500) secret shoot 3000).1
unfolding reconcile renew_at send renewed handle_now_after_renew_time
    new_open_stack_cluster_user_client_set open_stack_user_info_from_labels get_label_value_for_key
renews_example = reconcile_renews (env_alone 2500) secret shoot 3000 0 refl (omega arith) refl refl

deletes_expired_example :
    Memᴰ (delete_secret secret.name) (reconcile (env_at 3000) secret shoot 3000).1
    × ((env_at 3000).answer (delete_secret secret.name) ≡ done)
unfolding reconcile send renew_at renewed handle_now_after_renew_time
deletes_expired_example =
    reconcile_deletes_expired (env_at 3000) secret shoot 3000 0 refl (omega arith) (omega arith)
      refl
