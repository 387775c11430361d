-- ===== src/Token/Admission.antt =====
-- Whom the webhook lets in, and what stands in the garden when it does.
use persephone.Base.{String, ◌≡◌, ◌≢◌, refl, ap, sym, ◌∙◌, Bool, true, Option, none, some, List}
use persephone.Base.{ok, err, arith, inl, inr, Result-cases}
use persephone.Config.{PersephoneConfig}
use persephone.UserInfo.{OpenStackUserInfo}
use persephone.UserInfo.Extra.{from_extra-to_extra}
use persephone.Garden.{Cluster, ClusterLaws}
use persephone.Project.{ProjectError, reconcile_gardener_project_resources}
use persephone.Project.Provisioned.{
  IsProvisioned, reconcile_gardener_project_resources-IsProvisioned,
}
use persephone.Token.{
  EndpointError, Endpoint, get_regional_identity_endpoint, KeystoneUser, KeystoneProject, Keystone,
  K8sUserInfo, user_info_of, dereferenced, make_user_info, Metric, authenticated, reconciled,
  handle,
}
use persephone.Token.Bearer.{Names, get_regional_identity_endpoint_iff}

-- The OpenStack part of the user info that is made of Keystone's answers.
abbrev pub open_stack_part : String → KeystoneUser → KeystoneProject → OpenStackUserInfo
open_stack_part region user project = record {
  project_domain_id = project.domain.id;
  project_domain_name = project.domain.name;
  project_id = project.id;
  project_name = project.name;
  user_domain_id = user.domain.id;
  user_domain_name = user.domain.name;
  region = region;
}

-- Keystone, at the identity endpoint of the token's region, knows the token for this user.
pub record IsVouched (keystone : Keystone) (cfg : PersephoneConfig) (token : String)
    (info : K8sUserInfo) : Type 0 where
  pub endpoint : Endpoint
  pub user : KeystoneUser
  pub project : KeystoneProject
  pub roles : List String
  pub named : Names cfg token endpoint
  pub user_known : (keystone.get_token endpoint.endpoint endpoint.token).user ≡ ok (some user)
  pub project_known :
      (keystone.get_token endpoint.endpoint endpoint.token).project ≡ ok (some project)
  pub roles_known : (keystone.get_token endpoint.endpoint endpoint.token).roles ≡ ok roles
  pub made : info ≡ user_info_of endpoint.region user project roles

dereferenced_ok :
    (region : String) (user : Option KeystoneUser) (project : Option KeystoneProject)
    (roles : List String) (info : K8sUserInfo)
    → dereferenced region user project roles ≡ ok info
    → (u : KeystoneUser) × (p : KeystoneProject) × (user ≡ some u)
      × (project ≡ some p)
      × (info ≡ user_info_of region u p roles)
dereferenced_ok region none project roles info h = ground arith
dereferenced_ok region (some u) none roles info h = ground arith
dereferenced_ok region (some u) (some p) roles info h = (u, p, refl, refl, ground arith)

made_of :
    (keystone : Keystone) (cfg : PersephoneConfig) (token : String) (info : K8sUserInfo)
    (e : Endpoint)
    → get_regional_identity_endpoint cfg token ≡ ok e
    → make_user_info keystone cfg token ≡ ok info
    → IsVouched keystone cfg token info
unfolding make_user_info
made_of keystone cfg token info e named h =
    let result = keystone.get_token e.endpoint e.token in
    elim (Result-cases result.user) [
      | inr (x, f) ↦ ground arith
      | inl (user, f) ↦ elim (Result-cases result.project) [
        | inr (x, g) ↦ ground arith
        | inl (project, g) ↦ elim (Result-cases result.roles) [
          | inr (x, k) ↦ ground arith
          | inl (roles, k) ↦
              let end : dereferenced e.region user project roles ≡ ok info = ground arith in
              let (u, p, same_user, same_project, made) =
                dereferenced_ok e.region user project roles info end in
              record {
                endpoint = e;
                user = u;
                project = p;
                roles = roles;
                named = (get_regional_identity_endpoint_iff cfg token e).0 named;
                user_known = f ∙ ap ok same_user;
                project_known = g ∙ ap ok same_project;
                roles_known = k;
                made = made;
              }
        ]
      ]
    ]

not_made :
    (keystone : Keystone) (cfg : PersephoneConfig) (token : String) (info : K8sUserInfo)
    (x : EndpointError)
    → get_regional_identity_endpoint cfg token ≡ err x
    → make_user_info keystone cfg token ≢ ok info
unfolding make_user_info
not_made keystone cfg token info x f h = ground arith

make_user_info-IsVouched :
    (keystone : Keystone) (cfg : PersephoneConfig) (token : String) (info : K8sUserInfo)
    → make_user_info keystone cfg token ≡ ok info
    → IsVouched keystone cfg token info
make_user_info-IsVouched keystone cfg token info h =
    elim (Result-cases (get_regional_identity_endpoint cfg token)) [
      | inl (e, named) ↦ made_of keystone cfg token info e named h
      | inr (x, f) ↦ absurd (not_made keystone cfg token info x f h)
    ]

module _ {W : Type 0} (keystone : Keystone) (compute_sha256_hex : String → String) (c : Cluster W)
    (cfg : PersephoneConfig) where
  handle_made :
      (reconcile_resources : Bool) (token : String) (w w' : W) (info : K8sUserInfo)
      (ms : List Metric)
      → handle keystone compute_sha256_hex c cfg reconcile_resources token w
        ≡ (authenticated info, ms, w')
      → make_user_info keystone cfg token ≡ ok info
  unfolding handle
  handle_made reconcile_resources token w w' info ms h = ground arith

  -- A user is authenticated only if the token names a served region and Keystone, at that region's
  -- identity endpoint, gives the user, the project and the roles of the token; and then the
  -- Kubernetes user is made of those.
  pub handle-IsVouched :
      (reconcile_resources : Bool) (token : String) (w w' : W) (info : K8sUserInfo)
      (ms : List Metric)
      → handle keystone compute_sha256_hex c cfg reconcile_resources token w
        ≡ (authenticated info, ms, w')
      → IsVouched keystone cfg token info
  handle-IsVouched reconcile_resources token w w' info ms h =
      make_user_info-IsVouched keystone cfg token info
        (handle_made reconcile_resources token w w' info ms h)

  -- The extras that the webhook made itself can always be read: the reconciliation runs on the
  -- project that Keystone named.
  handle-reconciled :
      (token region : String) (user : KeystoneUser) (project : KeystoneProject)
      (roles : List String) (w : W)
      → make_user_info keystone cfg token ≡ ok (user_info_of region user project roles)
      → handle keystone compute_sha256_hex c cfg true token w
        ≡ reconciled (user_info_of region user project roles) region (
            reconcile_gardener_project_resources compute_sha256_hex c cfg
              (open_stack_part region user project)
              w)
  unfolding handle user_info_of
  handle-reconciled token region user project roles w h =
      ground (arith, h, (from_extra-to_extra (open_stack_part region user project)).0)

  reconciled-authenticated :
      (info info' : K8sUserInfo) (region : String) (r : Option ProjectError × W) (ms : List Metric)
      (w' : W)
      → reconciled info region r ≡ (authenticated info', ms, w')
      → r ≡ (none, w')
  reconciled-authenticated info info' region (some e, w) ms w' h = cc
  reconciled-authenticated info info' region (none, w) ms w' h = ground arith

  -- Where the webhook is told to reconcile, an authenticated user finds the namespace, project,
  -- role, binding and quota of the OpenStack project that Keystone named for the token.
  pub handle-IsProvisioned :
      (laws : ClusterLaws c) (token : String) (w w' : W) (info : K8sUserInfo) (ms : List Metric)
      → handle keystone compute_sha256_hex c cfg true token w ≡ (authenticated info, ms, w')
      → (v : IsVouched keystone cfg token info) × IsProvisioned compute_sha256_hex c laws cfg
          (open_stack_part v.endpoint.region v.user v.project)
          w
          w'
  handle-IsProvisioned laws token w w' info ms h =
      let v = handle-IsVouched true token w w' info ms h in
      let made = handle_made true token w w' info ms h ∙ ap ok v.made in
      let o : OpenStackUserInfo = open_stack_part v.endpoint.region v.user v.project in
      (
        v,
        reconcile_gardener_project_resources-IsProvisioned compute_sha256_hex c laws cfg o w w' (
            reconciled-authenticated (user_info_of v.endpoint.region v.user v.project v.roles) info
              v.endpoint.region (reconcile_gardener_project_resources compute_sha256_hex c cfg o w)
              ms w'
              (sym (handle-reconciled token v.endpoint.region v.user v.project v.roles w made)
                ∙ h)),
      )
