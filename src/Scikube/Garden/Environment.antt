-- ===== src/Scikube/Garden/Environment.antt =====
-- cmd/scikube/cmd: the environment of a kubeconfig for the garden is accepted by `scikube auth`.
use mathlib.Core.Path.{subst}
use persephone.Base.{
  String, Option, ◌&&◌, refl, sym, ◌≡◌, ◌≢◌, ◌⊎◌, ◌==◌, Bool-cases, ap, ◌∙◌, inl, inr, false, some,
  arith, eq_iff,
}
use persephone.Base.{Result, ok, wrap-ok, >>=-eq-ok, Result-cases}
use persephone.Base.Dict.{lookup}
use persephone.Kubeconfig as Kubeconfig
use persephone.Kubeconfig.{
  ExecConfig, GardenConfig, check_method, keystone_application_credential_auth,
  keystone_password_auth, get_kubeconfig_for_garden,
}
use persephone.Scikube.{Settings, AuthOptions, user_domain, scope_of, options_of, get_auth_options}
use persephone.Scikube.Options.{IsAccepted, get_auth_options_iff}
use persephone.Scikube.HandedOn.{
  within, IsHandedOn, IsComplement, fallback_domain, get_kubeconfig_for_garden-IsChecked,
  get_kubeconfig_for_garden-IsHandedOn,
}
use persephone.Scikube.Garden.{
  Provider, Target, could_not_create, could_not_marshal, kubeconfig_options, auth_method,
  find_target, garden_kubeconfig, kubeconfig_for_garden,
}

own-IsComplement :
    (s : Settings)
    → s.flag "RUN_E2E_TEST" ≡ false
    → s.text "OS_USER_DOMAIN_NAME" ≡ ""
    → IsAccepted s
    → IsComplement (auth_method (options_of s)) s
unfolding options_of
own-IsComplement s e2e no_domain (inl test) = ground arith
own-IsComplement s e2e no_domain
      (inr (plain, url, inl (no_secret, domain, user, project, password))) =
    (e2e, no_domain, inr (no_secret, password))
own-IsComplement s e2e no_domain (inr (plain, url, inr (secret, id, name))) =
    (e2e, no_domain, inl (ground (arith, eq_iff (s.text "OS_APPLICATION_CREDENTIAL_SECRET") "")))

-- The steps of a run that prints.
garden_kubeconfig_ok :
    (client : AuthOptions → Result String Provider) (s : Settings) (config : GardenConfig)
    → garden_kubeconfig client s ≡ ok config
    → (target : Target) × (get_auth_options s ≡ ok (options_of s))
      × (get_kubeconfig_for_garden
            (kubeconfig_options (options_of s) target.project_id)
            (auth_method (options_of s))
            target.url
            target.region
          ≡ ok config)
unfolding garden_kubeconfig
garden_kubeconfig_ok client s config h = elim (Result-cases (get_auth_options s)) [
  | inr (x, e) ↦ ground arith
  | inl (o, e) ↦ elim (Result-cases (find_target client s o)) [
    | inr (x, f) ↦ ground arith
    | inl (target, f) ↦
        let same : o ≡ options_of s = ((get_auth_options_iff s o).0 e).1 in
        let made : get_kubeconfig_for_garden (kubeconfig_options o target.project_id)
              (auth_method o) target.url target.region
            ≡ ok config =
          wrap-ok could_not_create _ config (ground arith) in
        (
          target,
          e ∙ ap ok same,
          subst
              (λ x.
                get_kubeconfig_for_garden (kubeconfig_options x target.project_id) (auth_method x)
                  target.url target.region
                ≡ ok config)
              same made,
        )
  ]
]

-- The options log in as the settings say: to the same endpoint, domain and project, with the
-- application credential where its secret is set, and else with the user and the password.
pub record IsSameIdentity (s : Settings) (got : AuthOptions) : Type 0 where
  pub endpoint : got.identity_endpoint ≡ s.text "OS_AUTH_URL"
  pub domain : got.domain_name ≡ s.text "OS_DOMAIN_NAME"
  pub project : got.scope.project_name ≡ s.text "OS_PROJECT_NAME"
  pub project_domain : got.scope.domain_name ≡ s.text "OS_DOMAIN_NAME"
  pub credentials :
      ((s.text "OS_APPLICATION_CREDENTIAL_SECRET" ≢ "")
        × (got.application_credential_id ≡ s.text "OS_APPLICATION_CREDENTIAL_ID")
        × (got.application_credential_name ≡ s.text "OS_APPLICATION_CREDENTIAL_NAME")
        × (got.application_credential_secret ≡ s.text "OS_APPLICATION_CREDENTIAL_SECRET"))
      ⊎ ((s.text "OS_APPLICATION_CREDENTIAL_SECRET" ≡ "")
          × (got.username ≡ s.text "OS_USERNAME")
          × (got.password ≡ s.text "OS_PASSWORD"))

-- The method is that of the application credential only where its secret is set.
secret_checked :
    (s : Settings) (project_id : String)
    → check_method (auth_method (options_of s)) (kubeconfig_options (options_of s) project_id)
      ≡ ok tt
    → auth_method (options_of s) ≡ keystone_application_credential_auth
    → s.text "OS_APPLICATION_CREDENTIAL_SECRET" ≢ ""
unfolding check_method options_of
secret_checked s project_id h e n =
    let h' : check_method keystone_application_credential_auth
          (kubeconfig_options (options_of s) project_id)
        ≡ ok tt =
      subst (λ m. check_method m (kubeconfig_options (options_of s) project_id) ≡ ok tt) e h in
    ground (arith, h', eq_iff (s.text "OS_APPLICATION_CREDENTIAL_SECRET") "")

secret_missing :
    (s : Settings)
    → auth_method (options_of s) ≡ keystone_password_auth
    → s.text "OS_APPLICATION_CREDENTIAL_SECRET" ≡ ""
unfolding options_of
secret_missing s e =
    elim (Bool-cases (
      s.text "OS_APPLICATION_CREDENTIAL_ID" == ""
      && s.text "OS_APPLICATION_CREDENTIAL_NAME" == ""
      && s.text "OS_APPLICATION_CREDENTIAL_SECRET" == "")) [
        | inl f ↦ ground (arith, eq_iff (s.text "OS_APPLICATION_CREDENTIAL_SECRET") "")
        | inr f ↦
            let other : auth_method (options_of s) ≡ keystone_application_credential_auth =
              simp f refl in
            let impossible : keystone_application_credential_auth ≢ keystone_password_auth =
              λ h. cc in
            absurd (impossible (sym other ∙ e))
      ]

some_same : {a b : Kubeconfig.Scope} → ◌≡◌ {A = Option Kubeconfig.Scope} (some a) (some b) → a ≡ b
some_same h = cc

project_of : (s : Settings) → (scope_of s).project_name ≡ s.text "OS_PROJECT_NAME"
unfolding scope_of
project_of s = elim (Bool-cases (s.text "OS_PROJECT_NAME" == "")) [
  | inl e ↦ simp e (sym ((eq_iff (s.text "OS_PROJECT_NAME") "").0 e))
  | inr e ↦ simp e refl
]

same_identity :
    (s : Settings) (project_id : String) (got : AuthOptions)
    → s.text "OS_USER_DOMAIN_NAME" ≡ ""
    → check_method (auth_method (options_of s)) (kubeconfig_options (options_of s) project_id)
      ≡ ok tt
    → IsHandedOn (kubeconfig_options (options_of s) project_id) (auth_method (options_of s)) s got
    → IsSameIdentity s got
unfolding options_of scope_of
same_identity s project_id got no_domain checked handed =
    let domain : user_domain s ≡ s.text "OS_DOMAIN_NAME" = fallback_domain s no_domain in
    record {
      endpoint = handed.endpoint;
      domain = handed.domain ∙ domain;
      project =
          handed.project ∙ ap (λ x. x.project_name) (sym (some_same handed.scoped)) ∙ project_of s;
      project_domain = handed.project_domain ∙ domain;
      credentials = elim handed.credentials [
        | inl (method, id, name, secret) ↦
            inl (secret_checked s project_id checked method, id, name, secret)
        | inr (method, user, password) ↦ inr (secret_missing s method, user, password)
      ];
    }

-- Where `scikube kubeconfig-for-garden` prints a kubeconfig, `scikube auth`, run by kubectl with the
-- same settings and the environment of that kubeconfig over them, accepts them, and logs in at the
-- identity endpoint of the settings to the project that they name, in their domain, with their
-- application credential where they have the secret of one, and else with their user and password;
-- if it is no end-to-end test and the settings have no domain of the user's own.
pub kubeconfig_for_garden-IsHandedOn :
    (client : AuthOptions → Result String Provider) (s : Settings)
    (marshal : GardenConfig → Result String String) (text : String)
    → s.flag "RUN_E2E_TEST" ≡ false
    → s.text "OS_USER_DOMAIN_NAME" ≡ ""
    → kubeconfig_for_garden client s marshal ≡ ok text
    → (config : GardenConfig) × (c : ExecConfig) × (got : AuthOptions) × (marshal config ≡ ok text)
      × (lookup "garden-user" config.auth_infos ≡ some c)
      × (get_auth_options (within c s) ≡ ok got)
      × IsSameIdentity s got
unfolding kubeconfig_for_garden
kubeconfig_for_garden-IsHandedOn client s marshal text e2e no_domain h =
    let (config, made, printed) = >>=-eq-ok (garden_kubeconfig client s) _ h in
    let (target, accepted, kubeconfig) = garden_kubeconfig_ok client s config made in
    let k =
      get_kubeconfig_for_garden-IsChecked (kubeconfig_options (options_of s) target.project_id)
        (auth_method (options_of s)) target.url target.region config kubeconfig in
    let a : IsAccepted s = ((get_auth_options_iff s (options_of s)).0 accepted).0 in
    let (c, got, user, known, handed) =
      get_kubeconfig_for_garden-IsHandedOn (kubeconfig_options (options_of s) target.project_id)
        (auth_method (options_of s)) target.url target.region s config kubeconfig
        (own-IsComplement s e2e no_domain a) in
    (
      config,
      c,
      got,
      wrap-ok could_not_marshal (marshal config) text printed,
      user,
      known,
      same_identity s target.project_id got no_domain k.method_checked handed,
    )
