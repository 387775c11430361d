-- ===== src/Rotation/Gone.antt =====
-- When an application credential and a service user are gone.
use mathlib.Core.Path.{subst}
use persephone.Base.{◌≡◌, ◌⊎◌, inl, inr, String, true, false, Option, some, arith}
use persephone.Base.{ok, Result-cases}
use persephone.Base.Runs.{bind-ok}
use persephone.Base.Dict.{Dict, get_text}
use persephone.Constants.{label_key_open_stack_project_id}
use persephone.UserInfo.{OpenStackUserInfo, open_stack_user_info_from_labels}
use persephone.Labels.{get_cluster_user_name}
use persephone.Rotation.{InternalSecret, Shoot, Env, delete_user, delete_credential, send}
use persephone.Rotation.Renewal.{new_open_stack_cluster_user_client_set}
use persephone.Rotation.Cleanup.{
  deleted_with, delete_application_credential, delete_cluster_service_user,
}
use persephone.Rotation.Calls.{IsGone, send_ignoring_not_found-IsGone}

-- The application credential is gone, of the identity in the secret's labels: Keystone has no such
-- service user, or it answers that the credential is deleted or not there.
abbrev pub IsCredentialGone : Env → InternalSecret → Shoot → Type 0
IsCredentialGone env secret shoot =
    (o : OpenStackUserInfo) × (open_stack_user_info_from_labels secret.labels ≡ ok o)
    × ((env.user_exists o.region (get_cluster_user_name env.landscape_name shoot.name o.project_id)
          ≡ ok false)
        ⊎ IsGone env (delete_credential o.region secret.credential_id))

found_clients :
    (env : Env) (secret : InternalSecret) (shoot : Shoot) (o : OpenStackUserInfo)
    (clients : Option OpenStackUserInfo)
    → open_stack_user_info_from_labels secret.labels ≡ ok o
    → env.user_exists o.region (get_cluster_user_name env.landscape_name shoot.name o.project_id)
      ≡ ok true
    → (new_open_stack_cluster_user_client_set env secret shoot true).0 ≡ ok clients
    → clients ≡ some o
unfolding new_open_stack_cluster_user_client_set send
found_clients env secret shoot o clients e f h = ground arith

pub delete_application_credential-IsCredentialGone :
    (env : Env) (secret : InternalSecret) (shoot : Shoot)
    → (delete_application_credential env secret shoot).0 ≡ ok tt
    → IsCredentialGone env secret shoot
unfolding delete_application_credential new_open_stack_cluster_user_client_set
delete_application_credential-IsCredentialGone env secret shoot h =
    let (clients, c, rest) =
      bind-ok (new_open_stack_cluster_user_client_set env secret shoot true)
        (deleted_with env secret) tt h in
    elim (Result-cases (open_stack_user_info_from_labels secret.labels)) [
      | inr (x, e) ↦ ground arith
      | inl (o, e) ↦
          let user = get_cluster_user_name env.landscape_name shoot.name o.project_id in
          elim (Result-cases (env.user_exists o.region user)) [
            | inr (x, f) ↦ ground arith
            | inl (false, f) ↦ (o, e, inl f)
            | inl (true, f) ↦
                let n : clients ≡ some o = found_clients env secret shoot o clients e f c in
                (
                  o,
                  e,
                  inr (
                      send_ignoring_not_found-IsGone env
                        (delete_credential o.region secret.credential_id)
                        (subst (λ x. (deleted_with env secret x).0 ≡ ok tt) n rest)),
                )
          ]
    ]

-- Keystone answers that the service user of the secret's Shoot is deleted or not there: in the region
-- of the secret's labels, by the name for the project of the namespace's labels.
abbrev pub IsUserGone : Env → InternalSecret → Shoot → Type 0
IsUserGone env secret shoot =
    (o : OpenStackUserInfo) × (labels : Dict String) × (open_stack_user_info_from_labels
        secret.labels
      ≡ ok o)
    × (env.namespace_labels ≡ ok labels)
    × IsGone env (
        delete_user o.region (
          get_cluster_user_name env.landscape_name shoot.name
            (get_text label_key_open_stack_project_id labels)))

pub delete_cluster_service_user-IsUserGone :
    (env : Env) (secret : InternalSecret) (shoot : Shoot)
    → (delete_cluster_service_user env secret shoot).0 ≡ ok tt
    → IsUserGone env secret shoot
unfolding delete_cluster_service_user
delete_cluster_service_user-IsUserGone env secret shoot h =
    elim (Result-cases (open_stack_user_info_from_labels secret.labels)) [
      | inr (x, e) ↦ ground arith
      | inl (o, e) ↦ elim (Result-cases env.namespace_labels) [
        | inr (x, f) ↦ ground arith
        | inl (labels, f) ↦
            let name =
              get_cluster_user_name env.landscape_name shoot.name
                (get_text label_key_open_stack_project_id labels) in
            (
              o,
              labels,
              e,
              f,
              send_ignoring_not_found-IsGone env (delete_user o.region name) (ground arith),
            )
      ]
    ]
