-- ===== src/Project/Provisioned.antt =====
-- What a successful run of `ReconcileGardenerProjectResources` has provisioned.
use persephone.Base.{ℕ, String, ◌≡◌, refl, ◌∙◌, ap, true, none, some, arith, [], ◌∷◌}
use persephone.Base.{if◌then◌else◌}
use persephone.Base.Dict.{Dict, insert, lookup, lookup-insert}
use persephone.Base.Int.{to_int64}
use persephone.Kube.{found, not_found, failed, Got, basis}
use persephone.Config.{PersephoneConfig}
use persephone.Labels.{get_gardener_project_namespace_name, sanitize_label_value}
use persephone.UserInfo.{OpenStackUserInfo}
use persephone.Constants.{
  label_key_open_stack_domain_id, label_key_open_stack_domain_name, label_key_open_stack_project_id,
  label_key_open_stack_project_name, label_key_open_stack_region, resource_quota_name,
  shoot_resource_quota_key,
}
use persephone.Project.{
  namespace_failed, project_failed, role_failed, role_binding_failed, quota_failed,
  get_gardener_project_name, set_project_labels, admin_role_name, admin_rules, admin_binding,
  set_default_quota, fresh_quota, fresh_binding, reconcile_gardener_project_resources,
}
use persephone.Project.Writes.{and_then-none, and_then-none_last}
use persephone.Garden.{Namespace, ResourceQuota, Cluster, ClusterLaws}

-- The labels that tell the OpenStack project of a namespace.
pub record IsLabelled (labels : Dict String) (o : OpenStackUserInfo) : Type 0 where
  pub id : lookup label_key_open_stack_project_id labels ≡ some o.project_id
  pub name :
      lookup label_key_open_stack_project_name labels ≡ some (sanitize_label_value o.project_name)
  pub domain_id : lookup label_key_open_stack_domain_id labels ≡ some o.project_domain_id
  pub domain_name :
      lookup label_key_open_stack_domain_name labels
      ≡ some (sanitize_label_value o.project_domain_name)
  pub region : lookup label_key_open_stack_region labels ≡ some o.region

pub set_project_labels-IsLabelled :
    (project_name : String) (o : OpenStackUserInfo) (n : Namespace)
    → IsLabelled (set_project_labels project_name o n).labels o
unfolding set_project_labels
set_project_labels-IsLabelled project_name o n = record {
  id = simp lookup-insert;
  name = simp lookup-insert;
  domain_id = simp lookup-insert;
  domain_name = simp lookup-insert;
  region = simp lookup-insert;
}

-- The quota that a run leaves behind, by what stood there before: a stored quota as it was, with
-- its creation timestamp, and otherwise the default.
abbrev pub expected_quota : ℕ → Got ResourceQuota → ResourceQuota
expected_quota quota (found q) =
    if q.created
    then q
    else record q { created = true; hard = insert shoot_resource_quota_key (to_int64 quota) q.hard }
expected_quota quota _ = record {
  created = true;
  hard = (shoot_resource_quota_key, to_int64 quota) ∷ [];
  used = [];
}

expected_quota_lem :
    (quota : ℕ) (got : Got ResourceQuota)
    → record (set_default_quota quota (basis got fresh_quota)) { created = true }
      ≡ expected_quota quota got
unfolding set_default_quota
expected_quota_lem quota (found q) = ground arith
expected_quota_lem quota not_found = refl
expected_quota_lem quota (failed e) = refl

IsLabelled-stored :
    {W : Type 0} (c : Cluster W) (laws : ClusterLaws c) (n : Namespace) (o : OpenStackUserInfo)
    → IsLabelled n.labels o
    → IsLabelled (c.namespaces.stored n).labels o
IsLabelled-stored c laws n o l = record {
  id = laws.stored_label n _ _ l.id;
  name = laws.stored_label n _ _ l.name;
  domain_id = laws.stored_label n _ _ l.domain_id;
  domain_name = laws.stored_label n _ _ l.domain_name;
  region = laws.stored_label n _ _ l.region;
}

module _ {W : Type 0} (compute_sha256_hex : String → String) (c : Cluster W) (laws : ClusterLaws c)
    (cfg : PersephoneConfig) (o : OpenStackUserInfo) (w w' : W) where
  abbrev project_name : String
  project_name =
      get_gardener_project_name compute_sha256_hex o.region o.project_id cfg.landscape_name

  abbrev namespace : String
  namespace = get_gardener_project_namespace_name o.region o.project_id

  -- The five objects of an OpenStack project, in the state of the cluster after the run.
  pub record IsProvisioned : Type 0 where
    pub ns : Namespace
    pub has_namespace : c.namespaces.get w' "" namespace ≡ found ns
    pub labelled : IsLabelled ns.labels o
    pub project : c.projects.get w' "" project_name ≡ found (record { namespace = some namespace })
    pub role : c.roles.get w' namespace admin_role_name ≡ found (record { rules = admin_rules })
    pub role_binding : c.role_bindings.get w' namespace admin_role_name ≡ found (admin_binding o)
    pub quota :
        c.quotas.get w' namespace resource_quota_name
        ≡ found
            (expected_quota cfg.default_shoot_quota (c.quotas.get w namespace resource_quota_name))

  -- The states between the five writes of a successful run.
  record Run : Type 0 where
    w1 : W
    w2 : W
    w3 : W
    w4 : W
    e1 :
        c.namespaces.create_or_patch "" namespace
          (record { labels = [] })
          (set_project_labels project_name o)
          w
        ≡ (none, w1)
    e2 :
        c.projects.create_or_patch "" project_name
          (record { namespace = none })
          (λ p. record { namespace = some namespace })
          w1
        ≡ (none, w2)
    e3 :
        c.roles.create_or_patch namespace admin_role_name
          (record { rules = [] })
          (λ r. record { rules = admin_rules })
          w2
        ≡ (none, w3)
    e4 :
        c.role_bindings.create_or_patch namespace admin_role_name fresh_binding
          (λ b. admin_binding o)
          w3
        ≡ (none, w4)
    e5 :
        c.quotas.create_or_patch namespace resource_quota_name fresh_quota
          (set_default_quota cfg.default_shoot_quota)
          w4
        ≡ (none, w')

  run_of_success :
      reconcile_gardener_project_resources compute_sha256_hex c cfg o w ≡ (none, w') → Run
  unfolding reconcile_gardener_project_resources
  run_of_success h =
      let (w1, e1, h1) = and_then-none namespace_failed _ _ w' h in
      let (w2, e2, h2) = and_then-none project_failed _ _ w' h1 in
      let (w3, e3, h3) = and_then-none role_failed _ _ w' h2 in
      let (w4, e4, h4) = and_then-none role_binding_failed _ _ w' h3 in
      record {
        w1 = w1;
        w2 = w2;
        w3 = w3;
        w4 = w4;
        e1 = e1;
        e2 = e2;
        e3 = e3;
        e4 = e4;
        e5 = and_then-none_last quota_failed _ w' h4;
      }

  module _ (r : Run) where
    namespace_kept : c.namespaces.get w' "" namespace ≡ c.namespaces.get r.w1 "" namespace
    namespace_kept =
        laws.quotas_namespaces.left _ _ _ _ _ _ _ r.e5 "" namespace
        ∙ laws.role_bindings_namespaces.left _ _ _ _ _ _ _ r.e4 "" namespace
        ∙ laws.roles_namespaces.left _ _ _ _ _ _ _ r.e3 "" namespace
        ∙ laws.projects_namespaces.left _ _ _ _ _ _ _ r.e2 "" namespace

    project_kept : c.projects.get w' "" project_name ≡ c.projects.get r.w2 "" project_name
    project_kept =
        laws.quotas_projects.left _ _ _ _ _ _ _ r.e5 "" project_name
        ∙ laws.role_bindings_projects.left _ _ _ _ _ _ _ r.e4 "" project_name
        ∙ laws.roles_projects.left _ _ _ _ _ _ _ r.e3 "" project_name

    role_kept :
        c.roles.get w' namespace admin_role_name ≡ c.roles.get r.w3 namespace admin_role_name
    role_kept =
        laws.quotas_roles.left _ _ _ _ _ _ _ r.e5 namespace admin_role_name
        ∙ laws.role_bindings_roles.left _ _ _ _ _ _ _ r.e4 namespace admin_role_name

    quota_untouched :
        c.quotas.get r.w4 namespace resource_quota_name
        ≡ c.quotas.get w namespace resource_quota_name
    quota_untouched =
        laws.role_bindings_quotas.left _ _ _ _ _ _ _ r.e4 namespace resource_quota_name
        ∙ laws.roles_quotas.left _ _ _ _ _ _ _ r.e3 namespace resource_quota_name
        ∙ laws.projects_quotas.left _ _ _ _ _ _ _ r.e2 namespace resource_quota_name
        ∙ laws.namespaces_quotas.left _ _ _ _ _ _ _ r.e1 namespace resource_quota_name

    run-IsProvisioned : IsProvisioned
    run-IsProvisioned =
        let before : Namespace = basis (c.namespaces.get w "" namespace) (record { labels = [] }) in
        record {
          ns = c.namespaces.stored (set_project_labels project_name o before);
          has_namespace = namespace_kept ∙ laws.namespaces.written _ _ _ _ _ _ r.e1;
          labelled =
              IsLabelled-stored c laws (set_project_labels project_name o before) o
                (set_project_labels-IsLabelled project_name o before);
          project =
              project_kept
              ∙ laws.projects.written _ _ _ _ _ _ r.e2
              ∙ ap found (laws.stored_project _);
          role = role_kept ∙ laws.roles.written _ _ _ _ _ _ r.e3 ∙ ap found (laws.stored_role _);
          role_binding =
              laws.quotas_role_bindings.left _ _ _ _ _ _ _ r.e5 namespace admin_role_name
              ∙ laws.role_bindings.written _ _ _ _ _ _ r.e4
              ∙ ap found (laws.stored_role_binding _);
          quota =
              laws.quotas.written _ _ _ _ _ _ r.e5
              ∙ ap found (laws.stored_quota _)
              ∙ rw quota_untouched (ap found (expected_quota_lem cfg.default_shoot_quota _));
        }

  -- After a run without error the namespace of the project stands with its OpenStack labels, the
  -- project, the role, its binding to the project's administrators and the quota stand in it; and
  -- the quota is the one that stood there before, or the default where none did.
  pub reconcile_gardener_project_resources-IsProvisioned :
      reconcile_gardener_project_resources compute_sha256_hex c cfg o w ≡ (none, w') → IsProvisioned
  reconcile_gardener_project_resources-IsProvisioned h = run-IsProvisioned (run_of_success h)
