-- ===== src/ShootAdmission/Issuance.antt =====
-- internal/webhook/shootadmission/handler.go, ensureOpenStackCredentialInternalSecretAndBinding:
-- the secret that a created Shoot is bound to, and what becomes of it in
-- internal/controller/internalsecret.
use persephone.ShootAdmission.Newest.{IsSortOf, IsNewest, existing_secret-IsNewest}
use persephone.Base.{
  ℕ, ◌<◌, String, ◌≡◌, ◌≢◌, refl, sym, ap, ◌∙◌, ◌⊎◌, inl, inr, true, false, none, some, List, [],
  ◌∷◌, arith, eq_refl,
}
use persephone.Base.{ok, ltb, Option-cases, Result-cases}
use persephone.UserInfo.{
  OpenStackUserInfo, has_open_stack_user_info, open_stack_user_info_from_extra,
}
use persephone.OpenStack.{ApplicationCredential, get_default_service_user_roles}
use persephone.Rotation.{
  InternalSecret, Shoot, CredentialsBinding, Answer, done, already_exists, not_found, refused,
  credentials_binding_for_secret,
}
use persephone.Rotation as Rotation
use persephone.Rotation.Cleanup.{is_deleted, internal_secret_deletion_allowed}
use persephone.ShootAdmission.{
  Env, Request, Operation, create, update, delete, connect, ShootObject,
}
use persephone.ShootAdmission.Credentials.{
  answered, existing_secret, new_application_credential_name,
  application_credentials_internal_secret, ensure_application_credential_internal_secret_for_shoot,
  ensure_credentials_binding_for_internal_secret,
  ensure_open_stack_credential_internal_secret_and_binding,
}
use persephone.ShootAdmission.Handler.{is_responsible, is_create, is_nil, handle, bind}
use persephone.ShootAdmission.Injected.{handle-IsInjected}

-- The secret is the newest that the Shoot has, or, where it has none, one that was created for a new
-- application credential.
abbrev pub IsChosen : Env → Shoot → OpenStackUserInfo → InternalSecret → Type 0
IsChosen env shoot o secret =
    ((secrets : List InternalSecret) × (env.secrets ≡ ok secrets) × IsNewest secrets secret)
    ⊎ ((credential : ApplicationCredential) × (env.secrets ≡ ok [])
        × (env.create_credential (new_application_credential_name env)
              get_default_service_user_roles
            ≡ ok credential)
        × (secret ≡ application_credentials_internal_secret env shoot o credential)
        × (env.create_secret secret ≡ none))

created_secret :
    (env : Env) (shoot : Shoot) (o : OpenStackUserInfo) (secret : InternalSecret)
    → env.secrets ≡ ok []
    → (ensure_application_credential_internal_secret_for_shoot env shoot o).0 ≡ ok secret
    → IsChosen env shoot o secret
unfolding ensure_application_credential_internal_secret_for_shoot
created_secret env shoot o secret n h =
    elim (Result-cases (
      env.create_credential (new_application_credential_name env) get_default_service_user_roles)) [
        | inr (x, e) ↦ ground arith
        | inl (credential, e) ↦
            elim (Option-cases (
              env.create_secret (application_credentials_internal_secret env shoot o credential))) [
                | inr (x, f) ↦ ground arith
                | inl f ↦
                    let k : application_credentials_internal_secret env shoot o credential
                        ≡ secret =
                      ground arith in
                    inr (credential, n, e, sym k, sym (ap env.create_secret k) ∙ f)
              ]
      ]

answered-ok :
    (binding : CredentialsBinding) (a : Answer) (b : CredentialsBinding)
    → answered binding a ≡ ok b
    → b ≡ binding
answered-ok binding done b h = cc
answered-ok binding already_exists b h = cc
answered-ok binding not_found b h = ground arith
answered-ok binding (refused e) b h = ground arith

no_existing_secret :
    (env : Env) (secrets : List InternalSecret) → existing_secret env secrets ≡ none → secrets ≡ []
no_existing_secret env [] h = refl
no_existing_secret env (s ∷ rest) h = ground arith

bound_to :
    (env : Env) (shoot : Shoot) (secret : InternalSecret) (b : CredentialsBinding)
    → (ensure_credentials_binding_for_internal_secret env shoot secret).0 ≡ ok b
    → b ≡ credentials_binding_for_secret shoot secret
unfolding ensure_credentials_binding_for_internal_secret
bound_to env shoot secret b h = answered-ok (credentials_binding_for_secret shoot secret) _ b h

ensured-IsChosen :
    (env : Env) (shoot : Shoot) (o : OpenStackUserInfo) (b : CredentialsBinding)
    → ((secrets : List InternalSecret)
        → env.secrets ≡ ok secrets
        → IsSortOf (env.sort secrets) secrets)
    → (ensure_open_stack_credential_internal_secret_and_binding env shoot o).0 ≡ ok b
    → (secret : InternalSecret) × IsChosen env shoot o secret
      × (b ≡ credentials_binding_for_secret shoot secret)
unfolding ensure_open_stack_credential_internal_secret_and_binding
ensured-IsChosen env shoot o b sorts h = elim (Result-cases env.secrets) [
  | inr (x, e) ↦ ground arith
  | inl (secrets, e) ↦ elim (Option-cases (existing_secret env secrets)) [
    | inr (newest, f) ↦ (
      newest,
      inl (secrets, e, existing_secret-IsNewest env secrets newest (sorts secrets e) f),
      bound_to env shoot newest b (ground arith),
    )
    | inl f ↦
        elim (Result-cases
          (ensure_application_credential_internal_secret_for_shoot env shoot o).0) [
            | inr (x, g) ↦ ground arith
            | inl (secret, g) ↦ (
              secret,
              created_secret env shoot o secret (e ∙ ap ok (no_existing_secret env secrets f)) g,
              bound_to env shoot secret b (ground arith),
            )
          ]
  ]
]

pub has_workers : (xs : List String) → xs ≢ [] → is_nil xs ≡ false
has_workers [] h = absurd (h refl)
has_workers (x ∷ xs) h = refl

same_operation : (p : Operation) → p ≡ create → is_create p ≡ true
same_operation create h = refl
same_operation update h = ground arith
same_operation delete h = ground arith
same_operation connect h = ground arith

-- Where `handle` admits a Shoot with workers that is being created, for a user with an OpenStack
-- identity, the Shoot names the binding of the newest secret that it already had, or of one created
-- just now for a new application credential if it had none; and the InternalSecret controller does
-- not allow the deletion of that secret as long as it has not expired, the Shoot is not deleted and
-- it names the binding still.
pub admitted_secret_stays :
    (env : Env) (s admitted : ShootObject) (request : Request) (rotation : Rotation.Env)
    (expires : ℕ)
    → is_responsible request ≡ true
    → has_open_stack_user_info request.extra ≡ true
    → request.operation ≡ create
    → s.spec.workers ≢ []
    → ((secrets : List InternalSecret)
        → env.secrets ≡ ok secrets
        → IsSortOf (env.sort secrets) secrets)
    → (handle env (some s) (ok request)).0 ≡ ok admitted
    → is_deleted s.shoot.last_operation ≡ false
    → rotation.now < expires
    → (o : OpenStackUserInfo) × (secret : InternalSecret) × (open_stack_user_info_from_extra
          request.extra
        ≡ ok o)
      × IsChosen env s.shoot o secret
      × (admitted.shoot.credentials_binding_name ≡ some secret.name)
      × (internal_secret_deletion_allowed rotation secret admitted.shoot expires ≡ false)
unfolding internal_secret_deletion_allowed credentials_binding_for_secret
admitted_secret_stays env s admitted request rotation expires r i c w sorts h kept early =
    let (o, e, supported, injected) = handle-IsInjected env s admitted request r i h in
    elim injected.issued [
      | inl (skipped, f) ↦
          let a = same_operation request.operation c in
          let b = has_workers s.spec.workers w in ground arith
      | inr (taken, (b, f, g)) ↦
          let (secret, chosen, named) = ensured-IsChosen env s.shoot o b sorts g in
          let bound : admitted.shoot ≡ bind (some b) s.shoot =
            injected.bound ∙ ap (λ x. bind x s.shoot) f in
          let name : admitted.shoot.credentials_binding_name ≡ some secret.name =
            ap (λ x. x.credentials_binding_name) bound ∙ ap (λ x. some x.name) named in
          let alive : is_deleted admitted.shoot.last_operation ≡ false =
            ap (λ x. is_deleted x.last_operation) bound ∙ kept in
          let unexpired : ltb rotation.now expires ≡ true = ground arith in
          (
            o,
            secret,
            e,
            chosen,
            name,
            simp (alive, unexpired, name, eq_refl secret.name, internal_secret_deletion_allowed),
          )
    ]
