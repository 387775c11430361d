-- ===== src/Liquid/Contract.antt =====
-- Provisioning (internal/kubernetes/gardener.go) and quota reporting (internal/liquidserver) share
-- the namespace and the quota object of a project: what one side leaves, the other reads.
use persephone.Base.{ℕ, String, ◌≡◌, ◌≢◌, refl, ◌∙◌, Option, none, some, false, []}
use persephone.Base.{arith, ok, err}
use persephone.Base.Dict.{Dict, lookup}
use persephone.Base.Int.{pos, to_int64}
use persephone.Kube.{found, not_found}
use persephone.Constants.{resource_quota_name}
use persephone.Config.{PersephoneConfig}
use persephone.Labels.{get_gardener_project_namespace_name}
use persephone.UserInfo.{OpenStackUserInfo}
use persephone.Garden.{ResourceQuota, Cluster, ClusterLaws}
use persephone.Project.{
  and_then, namespace_failed, project_failed, role_failed, role_binding_failed, quota_failed,
  admin_role_name, admin_rules, admin_binding, fresh_binding, fresh_quota, set_default_quota,
  get_gardener_project_name, set_project_labels, reconcile_gardener_project_resources,
}
use persephone.Project.Writes.{and_then-other, and_then-project_failed}
use persephone.Project.Provisioned.{
  expected_quota, reconcile_gardener_project_resources-IsProvisioned,
}
use persephone.Liquid.{
  clusters_report, quota_not_found, reported_quota, reported_usage, scan_usage, set_quota,
}
use persephone.Liquid.Quota.{
  min_int64, report_of, scan_usage_found, scan_usage_no_quota, quota_after, set_quota-Success,
  reported_quota-after_put, reported_usage-after_put,
}

-- The last three writes of a provisioning return no error of the project's.
no_later_project_failed :
    {W : Type 0} (role binding quota : W → Option String × W) (e : String) (w2 w' : W)
    → and_then role_failed (role w2) (λ w3.
      and_then role_binding_failed
        (binding w3)
        (λ w4. and_then quota_failed (quota w4) (λ w5. (none, w5))))
      ≢ (some (project_failed e), w')
no_later_project_failed role binding quota e w2 w' h = ground arith

module _ {W : Type 0} (compute_sha256_hex : String → String) (c : Cluster W) (laws : ClusterLaws c)
    (cfg : PersephoneConfig) (o : OpenStackUserInfo) where
  abbrev namespace : String
  namespace = get_gardener_project_namespace_name o.region o.project_id

  abbrev project_name : String
  project_name =
      get_gardener_project_name compute_sha256_hex o.region o.project_id cfg.landscape_name

  scan_usage_provisioned :
      (version : ℕ) (w w' : W)
      → reconcile_gardener_project_resources compute_sha256_hex c cfg o w ≡ (none, w')
      → scan_usage c o.region o.project_id version w'
        ≡ ok (
            report_of c laws o.region o.project_id version (
              expected_quota cfg.default_shoot_quota
                (c.quotas.get w namespace resource_quota_name)))
  scan_usage_provisioned version w w' h =
      let p =
        reconcile_gardener_project_resources-IsProvisioned compute_sha256_hex c laws cfg o w w' h in
      scan_usage_found c laws o.region o.project_id version w' p.ns _ p.has_namespace p.quota

  -- After the first provisioning of a project without error its usage can be scanned: the project
  -- is not forbidden, its quota is the configured default as an int64, and its usage is 0.
  pub scan_usage_first_provisioned :
      (version : ℕ) (w w' : W)
      → c.quotas.get w namespace resource_quota_name ≡ not_found
      → reconcile_gardener_project_resources compute_sha256_hex c cfg o w ≡ (none, w')
      → scan_usage c o.region o.project_id version w'
        ≡ ok (
            clusters_report version (record {
              forbidden = false;
              quota = some (to_int64 cfg.default_shoot_quota);
              usage = 0;
            }))
  unfolding reported_quota reported_usage
  scan_usage_first_provisioned version w w' new h =
      scan_usage_provisioned version w w' h ∙ rw new refl

  -- A quota that `SetQuota` has set survives a later provisioning of the same project: the quota
  -- reported is the one that was set, cut at 2 ^ 63 - 1, and not the default.
  pub quota_survives_provisioning :
      (version quota : ℕ) (req : Dict ℕ) (rq : ResourceQuota) (w w1 w2 : W)
      → lookup "clusters" req ≡ some quota
      → c.quotas.get w namespace resource_quota_name ≡ found rq
      → set_quota c o.region o.project_id req w ≡ (none, w1)
      → reconcile_gardener_project_resources compute_sha256_hex c cfg o w1 ≡ (none, w2)
      → scan_usage c o.region o.project_id version w2
        ≡ ok (
            clusters_report version (record {
              forbidden = false;
              quota = some (pos (min_int64 quota));
              usage = reported_usage rq;
            }))
  quota_survives_provisioning version quota req rq w w1 w2 asked stood set h =
      let s = set_quota-Success c laws o.region o.project_id req w w1 set in
      let q : s.quota ≡ quota = cc in
      let write = rw q at s.write in
      scan_usage_provisioned version w1 w2 h
      ∙ rw (quota_after c laws o.region o.project_id quota rq w w1 stood write)
          (rw (reported_quota-after_put quota rq, reported_usage-after_put quota rq) refl)

  -- The states of a provisioning that stops at the write of the project.
  record StopsAtProject (e : String) (w w' : W) : Type 0 where
    w1 : W
    e1 :
        c.namespaces.create_or_patch "" namespace
          (record { labels = [] })
          (set_project_labels project_name o)
          w
        ≡ (none, w1)
    e2 :
        c.projects.create_or_patch "" project_name
          (record { namespace = none })
          (λ p. record { namespace = some namespace })
          w1
        ≡ (some e, w')

  stops_at_project :
      (e : String) (w w' : W)
      → reconcile_gardener_project_resources compute_sha256_hex c cfg o w
        ≡ (some (project_failed e), w')
      → StopsAtProject e w w'
  unfolding reconcile_gardener_project_resources
  stops_at_project e w w' h =
      let (w1, e1, h1) = and_then-other namespace_failed _ _ _ w' h (λ x p. cc) in
      let e2 = and_then-project_failed _ _ e w' h1 (λ w2.
        no_later_project_failed
          (c.roles.create_or_patch namespace admin_role_name (record { rules = [] })
            (λ r. record { rules = admin_rules }))
          (c.role_bindings.create_or_patch namespace admin_role_name fresh_binding
            (λ b. admin_binding o))
          (c.quotas.create_or_patch namespace resource_quota_name fresh_quota
            (set_default_quota cfg.default_shoot_quota))
          e w2 w') in
      record { w1 = w1; e1 = e1; e2 = e2 }

  -- A provisioning that stops at the write of the project leaves the namespace without a quota
  -- where there was none: the usage of the project can then not be scanned.
  pub scan_usage_partly_provisioned :
      (version : ℕ) (e : String) (w w' : W)
      → c.quotas.get w namespace resource_quota_name ≡ not_found
      → reconcile_gardener_project_resources compute_sha256_hex c cfg o w
        ≡ (some (project_failed e), w')
      → scan_usage c o.region o.project_id version w' ≡ err (quota_not_found none)
  scan_usage_partly_provisioned version e w w' new h =
      let s = stops_at_project e w w' h in
      scan_usage_no_quota c laws o.region o.project_id version w' _
        (laws.projects_namespaces.left _ _ _ _ _ _ _ s.e2 "" namespace
          ∙ laws.namespaces.written _ _ _ _ _ _ s.e1)
        (laws.projects_quotas.left _ _ _ _ _ _ _ s.e2 namespace resource_quota_name
          ∙ laws.namespaces_quotas.left _ _ _ _ _ _ _ s.e1 namespace resource_quota_name
          ∙ new)
