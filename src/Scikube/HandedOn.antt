-- ===== src/Scikube/HandedOn.antt =====
-- internal/kubernetes/kubeconfig.go with cmd/scikube/cmd/openstack.go: kubectl runs `scikube auth`
-- with the environment of a kubeconfig for the garden.
use mathlib.Core.Path.{subst}
use persephone.Base.{
  String, ◌≡◌, ◌≢◌, refl, ap, ◌⊎◌, inl, inr, false, ◌==◌, none, some, arith, eq_iff,
}
use persephone.Base.{ok, Result-cases, Option-cases, Bool-cases}
use persephone.Base.Dict.{lookup}
use persephone.Kubeconfig.{
  KubeconfigError, ExecConfig, GardenConfig, keystone_application_credential_auth,
  keystone_password_auth, check_method, method_env, exec_config, garden_config,
  get_kubeconfig_for_garden,
}
use persephone.Kubeconfig as Kubeconfig
use persephone.Scikube.{Settings, AuthOptions, user_domain, scope_of, options_of, get_auth_options}
use persephone.Scikube.Options.{get_auth_options_iff}

-- The environment that kubectl runs the command in: its own, and that of the kubeconfig over it.
abbrev pub within : ExecConfig → Settings → Settings
within c outside = record {
  text = λ key. elim (lookup key c.env) [ none ↦ outside.text key | some value ↦ value ];
  flag = outside.flag;
}

-- What a kubeconfig was checked for.
pub record IsChecked (o : Kubeconfig.AuthOptions) (method api_endpoint region : String)
    (config : GardenConfig) : Type 0 where
  pub scope : Kubeconfig.Scope
  pub scoped : o.scope ≡ some scope
  pub endpoint : o.identity_endpoint ≢ ""
  pub domain : o.domain_name ≢ ""
  pub project : scope.project_name ≢ ""
  pub method_checked : check_method method o ≡ ok tt
  pub made : config ≡ garden_config method o scope api_endpoint region

pub get_kubeconfig_for_garden-IsChecked :
    (o : Kubeconfig.AuthOptions) (method api_endpoint region : String) (config : GardenConfig)
    → get_kubeconfig_for_garden o method api_endpoint region ≡ ok config
    → IsChecked o method api_endpoint region config
unfolding get_kubeconfig_for_garden
get_kubeconfig_for_garden-IsChecked o method api_endpoint region config h =
    elim (Option-cases o.scope) [
      | inl e ↦ ground arith
      | inr (scope, e) ↦ elim (Result-cases (check_method method o)) [
        | inr (x, f) ↦ ground arith
        | inl (u, f) ↦ record {
          scope = scope;
          scoped = e;
          endpoint = ground (arith, eq_iff o.identity_endpoint "");
          domain = ground (arith, eq_iff o.domain_name "");
          project = ground (arith, eq_iff scope.project_name "");
          method_checked = f;
          made = ground arith;
        }
      ]
    ]

-- The identity that the options name is that of the kubeconfig.
pub record IsHandedOn (o : Kubeconfig.AuthOptions) (method : String) (outside : Settings)
    (got : AuthOptions) : Type 0 where
  pub endpoint : got.identity_endpoint ≡ o.identity_endpoint
  pub domain : got.domain_name ≡ o.domain_name
  pub scope : Kubeconfig.Scope
  pub scoped : o.scope ≡ some scope
  pub project : got.scope.project_name ≡ scope.project_name
  pub project_domain : got.scope.domain_name ≡ o.domain_name
  pub credentials :
      ((method ≡ keystone_application_credential_auth)
        × (got.application_credential_id ≡ o.application_credential_id)
        × (got.application_credential_name ≡ o.application_credential_name)
        × (got.application_credential_secret ≡ o.application_credential_secret))
      ⊎ ((method ≡ keystone_password_auth)
          × (got.username ≡ o.username)
          × (got.password ≡ outside.text "OS_PASSWORD"))

-- What kubectl's own environment has to have.
abbrev pub IsComplement : String → Settings → Type 0
IsComplement method outside =
    (outside.flag "RUN_E2E_TEST" ≡ false)
    × (outside.text "OS_USER_DOMAIN_NAME" ≡ "")
    × ((method ≡ keystone_application_credential_auth)
        ⊎ ((outside.text "OS_APPLICATION_CREDENTIAL_SECRET" ≡ "")
            × (outside.text "OS_PASSWORD" ≢ "")))

abbrev Outcome : Kubeconfig.AuthOptions → String → Kubeconfig.Scope → Settings → Type 0
Outcome o method scope outside =
    (got : AuthOptions) × (get_auth_options (within (exec_config method o scope) outside) ≡ ok got)
    × IsHandedOn o method outside got

pub fallback_domain :
    (s : Settings) → s.text "OS_USER_DOMAIN_NAME" ≡ "" → user_domain s ≡ s.text "OS_DOMAIN_NAME"
unfolding user_domain
fallback_domain s e = ground (arith, eq_iff (s.text "OS_USER_DOMAIN_NAME") "")

project_scope :
    (s : Settings)
    → s.text "OS_PROJECT_NAME" ≢ ""
    → ((scope_of s).project_name ≡ s.text "OS_PROJECT_NAME")
      × ((scope_of s).domain_name ≡ s.text "OS_PROJECT_DOMAIN_NAME")
unfolding scope_of
project_scope s n =
    let e : (s.text "OS_PROJECT_NAME" == "") ≡ false =
      ground (arith, eq_iff (s.text "OS_PROJECT_NAME") "") in
    (simp e refl, simp e refl)

module _ (o : Kubeconfig.AuthOptions) (outside : Settings) (api_endpoint region : String)
    (config : GardenConfig) where
  with_application_credential :
      (k : IsChecked o keystone_application_credential_auth api_endpoint region config)
      → IsComplement keystone_application_credential_auth outside
      → Outcome o keystone_application_credential_auth k.scope outside
  unfolding options_of check_method method_env
  with_application_credential k (e2e, no_domain, c) =
      let s : Settings =
        within (exec_config keystone_application_credential_auth o k.scope) outside in
      let id : o.application_credential_id ≢ "" =
        ground (arith, k.method_checked, eq_iff o.application_credential_id "") in
      let name : o.application_credential_name ≢ "" =
        ground (arith, k.method_checked, eq_iff o.application_credential_name "") in
      let secret : o.application_credential_secret ≢ "" =
        ground (arith, k.method_checked, eq_iff o.application_credential_secret "") in
      let (project, project_domain) = project_scope s k.project in
      (
        options_of s,
        (get_auth_options_iff s (options_of s)).1
            (inr (e2e, k.endpoint, inr (secret, id, name)), refl),
        record {
          endpoint = refl;
          domain = fallback_domain s no_domain;
          scope = k.scope;
          scoped = k.scoped;
          project = project;
          project_domain = project_domain;
          credentials = inl (refl, refl, refl, refl);
        },
      )

  with_password :
      (k : IsChecked o keystone_password_auth api_endpoint region config)
      → IsComplement keystone_password_auth outside
      → Outcome o keystone_password_auth k.scope outside
  unfolding options_of check_method method_env
  with_password k (e2e, no_domain, inl c) =
      let impossible : keystone_password_auth ≢ keystone_application_credential_auth = λ h. cc in
      absurd (impossible c)
  with_password k (e2e, no_domain, inr (no_secret, given)) =
      let s : Settings = within (exec_config keystone_password_auth o k.scope) outside in
      let user : o.username ≢ "" = ground (arith, k.method_checked, eq_iff o.username "") in
      let domain : user_domain s ≡ o.domain_name = fallback_domain s no_domain in
      let known : user_domain s ≢ "" = rw domain k.domain in
      let (project, project_domain) = project_scope s k.project in
      (
        options_of s,
        (get_auth_options_iff s (options_of s)).1
            (inr (e2e, k.endpoint, inl (no_secret, known, user, k.project, given)), refl),
        record {
          endpoint = refl;
          domain = domain;
          scope = k.scope;
          scoped = k.scoped;
          project = project;
          project_domain = project_domain;
          credentials = inr (refl, refl, refl);
        },
      )

  by_method :
      (method : String) (k : IsChecked o method api_endpoint region config)
      → IsComplement method outside
      → Outcome o method k.scope outside
  unfolding check_method
  by_method method k c = elim (Bool-cases (method == keystone_application_credential_auth)) [
    | inl e ↦
        let same : keystone_application_credential_auth ≡ method =
          ground (arith, eq_iff method keystone_application_credential_auth) in
        subst
          (λ m.
            (k : IsChecked o m api_endpoint region config)
            → IsComplement m outside
            → Outcome o m k.scope outside)
          same with_application_credential k c
    | inr e ↦
        let same : keystone_password_auth ≡ method =
          ground (arith, k.method_checked, eq_iff method keystone_password_auth) in
        subst
          (λ m.
            (k : IsChecked o m api_endpoint region config)
            → IsComplement m outside
            → Outcome o m k.scope outside)
          same with_password k c
  ]

-- Where `GetKubeconfigForGarden` gives a kubeconfig, `scikube auth` accepts the environment that it
-- hands on, and logs in at its identity endpoint to its project and domain, with the application
-- credential of it, or with its user and the password of kubectl's own environment, according to the
-- method; if that environment names no other domain of the user, is not that of an end-to-end test,
-- and, for a password, has one and no secret of an application credential.
pub get_kubeconfig_for_garden-IsHandedOn :
    (o : Kubeconfig.AuthOptions) (method api_endpoint region : String) (outside : Settings)
    (config : GardenConfig)
    → get_kubeconfig_for_garden o method api_endpoint region ≡ ok config
    → IsComplement method outside
    → (c : ExecConfig) × (got : AuthOptions) × (lookup "garden-user" config.auth_infos ≡ some c)
      × (get_auth_options (within c outside) ≡ ok got)
      × IsHandedOn o method outside got
get_kubeconfig_for_garden-IsHandedOn o method api_endpoint region outside config h e =
    let k = get_kubeconfig_for_garden-IsChecked o method api_endpoint region config h in
    let (got, accepted, handed) = by_method o outside api_endpoint region config method k e in
    (
      exec_config method o k.scope,
      got,
      ap (λ x. lookup "garden-user" x.auth_infos) k.made,
      accepted,
      handed,
    )
