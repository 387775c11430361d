-- ===== src/ProjectController/Restored.antt =====
-- internal/controller/project, after internal/webhook/token: what was provisioned is restored.
use persephone.Base.{
  ℕ, inl, inr, Bool-cases, String, ◌≡◌, refl, sym, ap, ◌∙◌, false, Option, none, some, List, [],
  ◌∷◌, arith,
}
use persephone.Base.Dict.{Dict}
use persephone.Kube.{Got, found, not_found, failed}
use persephone.Config.{PersephoneConfig}
use persephone.Constants.{resource_quota_name}
use persephone.Labels.{get_gardener_project_namespace_name}
use persephone.Labels.Sanitize.{sanitize_label_value_idempotent}
use persephone.UserInfo.{OpenStackUserInfo}
use persephone.Garden.{Namespace, ResourceQuota, Cluster, ClusterLaws}
use persephone.Project.{ProjectError, reconcile_gardener_project_resources}
use persephone.Project.Provisioned.{
  IsLabelled, IsProvisioned, expected_quota, reconcile_gardener_project_resources-IsProvisioned,
}
use persephone.Project.ReadBack.{labelled_info, IsReadable, read_labelled}
use persephone.ProjectController.{
  ObservedProject, Metric, resource_creation, recorded, reconcile_project,
}

-- Labels that carry the identity read from labels carry the identity that those were written for.
IsLabelled-labelled_info :
    (labels : Dict String) (o : OpenStackUserInfo)
    → IsLabelled labels (labelled_info o)
    → IsLabelled labels o
IsLabelled-labelled_info labels o l = record {
  id = l.id;
  name = l.name ∙ ap some (sanitize_label_value_idempotent o.project_name);
  domain_id = l.domain_id;
  domain_name = l.domain_name ∙ ap some (sanitize_label_value_idempotent o.project_domain_name);
  region = l.region;
}

-- A quota that stands is left as it is.
quota_stays :
    (quota : ℕ) (got : Got ResourceQuota)
    → expected_quota quota (found (expected_quota quota got)) ≡ expected_quota quota got
quota_stays quota (found q) = elim (Bool-cases q.created) [
  | inl e ↦ simp (e, expected_quota)
  | inr e ↦ simp (e, expected_quota)
]
quota_stays quota not_found = refl
quota_stays quota (failed e) = refl

module _ {W : Type 0} where
  recorded-none :
      (region : String) (x : Option ProjectError × W) (metrics : List Metric) (w : W)
      → recorded region x ≡ (none, metrics, w)
      → (x ≡ (none, w)) × (metrics ≡ resource_creation region "success" ∷ [])
  recorded-none region (none, v) metrics w h = (cc, cc)
  recorded-none region (some e, v) metrics w h = absurd (ground arith)

module _ {W : Type 0} (compute_sha256_hex : String → String) (c : Cluster W) (laws : ClusterLaws c)
    (cfg : PersephoneConfig) (o : OpenStackUserInfo) where
  abbrev namespace : String
  namespace = get_gardener_project_namespace_name o.region o.project_id

  -- The labels of a namespace that has an identity's lead to a run for that identity.
  run_on_labels :
      (project : ObservedProject) (ns : Namespace) (w : W)
      → project.deleting ≡ false
      → project.namespace ≡ some namespace
      → c.namespaces.get w "" namespace ≡ found ns
      → IsLabelled ns.labels o
      → IsReadable o
      → reconcile_project compute_sha256_hex c cfg (found project) w
        ≡ recorded o.region
            (reconcile_gardener_project_resources compute_sha256_hex c cfg (labelled_info o) w)
  unfolding reconcile_project
  run_on_labels project ns w d p n l r =
      simp (d, p, n, read_labelled ns.labels o l r, reconcile_project)

  -- After a project was provisioned for an OpenStack identity that can be read from labels, a run of
  -- the Project controller on it, if it gives no error, is counted as a success in its region and
  -- leaves the project provisioned for that same identity, and with the quota it had.
  pub reconcile_project-IsProvisioned :
      (project : ObservedProject) (metrics : List Metric) (w w' w'' : W)
      → reconcile_gardener_project_resources compute_sha256_hex c cfg o w ≡ (none, w')
      → IsReadable o
      → project.deleting ≡ false
      → project.namespace ≡ some namespace
      → reconcile_project compute_sha256_hex c cfg (found project) w' ≡ (none, metrics, w'')
      → IsProvisioned compute_sha256_hex c laws cfg o w' w''
        × (metrics ≡ resource_creation o.region "success" ∷ [])
        × (c.quotas.get w'' namespace resource_quota_name
            ≡ c.quotas.get w' namespace resource_quota_name)
  reconcile_project-IsProvisioned project metrics w w' w'' provisioned readable d p h =
      let before =
        reconcile_gardener_project_resources-IsProvisioned compute_sha256_hex c laws cfg o w w'
          provisioned in
      let run =
        run_on_labels project before.ns w' d p before.has_namespace before.labelled readable in
      let (again, m) = recorded-none o.region _ metrics w'' (sym run ∙ h) in
      let after =
        reconcile_gardener_project_resources-IsProvisioned compute_sha256_hex c laws cfg
          (labelled_info o) w' w'' again in
      (
        record {
          ns = after.ns;
          has_namespace = after.has_namespace;
          labelled = IsLabelled-labelled_info after.ns.labels o after.labelled;
          project = after.project;
          role = after.role;
          role_binding = after.role_binding;
          quota = after.quota;
        },
        m,
        after.quota
            ∙ ap (λ g. found (expected_quota cfg.default_shoot_quota g)) before.quota
            ∙ ap found
                (quota_stays cfg.default_shoot_quota (c.quotas.get w namespace resource_quota_name))
            ∙ sym before.quota,
      )
