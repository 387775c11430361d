-- ===== src/ShootAdmission/Credentials.antt =====
-- The credential of a new Shoot: internal/kubernetes/credentials.go and the names and contents of
-- internal/kubernetes/gardener.go that it uses, and the choice between a secret that is there and a
-- new one in internal/webhook/shootadmission/handler.go.
use persephone.Base.{String, Bool, ◌<>◌, Option, none, some, List, [], ◌∷◌}
use persephone.Base.{Result, ok, err}
use persephone.Base.Runs.{Run, ◌>>-◌, lift}
use persephone.Base.Dict.{Dict}
use persephone.Constants.{
  annotation_key_expires_at, label_key_open_stack_domain_id, label_key_open_stack_domain_name,
  label_key_open_stack_project_id, label_key_open_stack_project_name, label_key_open_stack_region,
  label_key_shoot_name,
}
use persephone.UserInfo.{OpenStackUserInfo}
use persephone.Labels.{get_application_credential_internal_secret_name, sanitize_label_value}
use persephone.OpenStack.{ApplicationCredential, get_default_service_user_roles}
use persephone.Rotation.{
  InternalSecret, Shoot, CredentialsBinding, Answer, done, already_exists, not_found, refused,
  credentials_binding_for_secret,
}
use persephone.ShootAdmission.{
  Env, Call, create_credential, create_secret, create_binding, AdmissionError, credential_failed,
  secret_failed, binding_failed, listing_secrets_failed,
}

-- `NewApplicationCredentialName`
unfoldable pub new_application_credential_name : Env → String
new_application_credential_name env = "shoot-" <> env.unix_time

-- `ApplicationCredentialsInternalSecret`, whose UID and creation the server sets.
unfoldable pub application_credentials_internal_secret :
    Env → Shoot → OpenStackUserInfo → ApplicationCredential → InternalSecret
application_credentials_internal_secret env shoot o credential = record {
  name = get_application_credential_internal_secret_name o.project_id shoot.name credential.name;
  namespace = shoot.namespace;
  uid = "";
  creation = 0;
  deleting = Bool.false;
  labels =
      (label_key_open_stack_domain_id, o.project_domain_id)
      ∷ (label_key_open_stack_domain_name, sanitize_label_value o.project_domain_name)
      ∷ (label_key_open_stack_project_id, o.project_id)
      ∷ (label_key_open_stack_project_name, sanitize_label_value o.project_name)
      ∷ (label_key_open_stack_region, o.region)
      ∷ (label_key_shoot_name, shoot.name)
      ∷ [];
  annotations = (annotation_key_expires_at, env.format_time credential) ∷ [];
  credential_id = credential.id;
}

-- The `StringData` of that secret.
unfoldable pub string_data : Env → OpenStackUserInfo → ApplicationCredential → Dict String
string_data env o credential =
    (env.data_keys.domain_name, o.project_domain_name)
    ∷ (env.data_keys.tenant_name, o.project_name)
    ∷ (env.data_keys.application_credential_id, credential.id)
    ∷ (env.data_keys.application_credential_secret, credential.secret)
    ∷ []

unfoldable pub ensure_application_credential_internal_secret_for_shoot :
    Env → Shoot → OpenStackUserInfo → Run AdmissionError Call InternalSecret
ensure_application_credential_internal_secret_for_shoot env shoot o =
    let name : String = new_application_credential_name env in
    (
      elim (env.create_credential name get_default_service_user_roles) [
        | err e ↦ err (credential_failed e)
        | ok credential ↦ ok credential
      ],
      create_credential name get_default_service_user_roles ∷ [],
    )
    >>- λ credential.
        let secret : InternalSecret =
          application_credentials_internal_secret env shoot o credential in
        (
          elim (env.create_secret secret) [ some e ↦ err (secret_failed e) | none ↦ ok secret ],
          create_secret secret (string_data env o credential) ∷ [],
        )

abbrev pub answered : CredentialsBinding → Answer → Result AdmissionError CredentialsBinding
answered binding done = ok binding
answered binding already_exists = ok binding
answered binding not_found = err (binding_failed "not found")
answered binding (refused e) = err (binding_failed e)

unfoldable pub ensure_credentials_binding_for_internal_secret :
    Env → Shoot → InternalSecret → Run AdmissionError Call CredentialsBinding
ensure_credentials_binding_for_internal_secret env shoot secret =
    let binding : CredentialsBinding = credentials_binding_for_secret shoot secret in
    (answered binding (env.create_binding binding), create_binding binding ∷ [])

-- `items[len(items)-1]`, the first argument where there are no others.
abbrev pub last_item : InternalSecret → List InternalSecret → InternalSecret
last_item s [] = s
last_item s (t ∷ rest) = last_item t rest

-- The newest secret of a list that is not empty, by the sort.
abbrev pub existing_secret : Env → List InternalSecret → Option InternalSecret
existing_secret env [] = none
existing_secret env (s ∷ rest) = some (last_item s (env.sort (s ∷ rest)))

unfoldable pub ensure_open_stack_credential_internal_secret_and_binding :
    Env → Shoot → OpenStackUserInfo → Run AdmissionError Call CredentialsBinding
ensure_open_stack_credential_internal_secret_and_binding env shoot o =
    lift listing_secrets_failed env.secrets >>- λ secrets. elim (existing_secret env secrets) [
      | some newest ↦ ensure_credentials_binding_for_internal_secret env shoot newest
      | none ↦ ensure_application_credential_internal_secret_for_shoot env shoot o >>- λ secret.
          ensure_credentials_binding_for_internal_secret env shoot secret
    ]
