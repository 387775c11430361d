-- ===== src/Examples/Garden.antt =====
-- A project of the landscape "qa" is provisioned, gets a quota, and is provisioned again.
use persephone.Base.{String, ◌≡◌, ◌↔◌, refl, true, false, none, some, [], ◌∷◌, ok, err}
use persephone.Base.Int.{pos, to_int64}
use persephone.Config.{RegionalConfig, PersephoneConfig}
use persephone.UserInfo.{OpenStackUserInfo, open_stack_user_info_from_labels}
use persephone.Garden.{ResourceQuota}
use persephone.Labels.{get_gardener_project_namespace_name}
use persephone.Project.{set_project_labels, reconcile_gardener_project_resources, set_default_quota}
use persephone.Project.Provisioned.{
  IsProvisioned, reconcile_gardener_project_resources-IsProvisioned,
}
use persephone.Project.ReadBack.{labelled_info, IsReadable, from_labels-set_project_labels}
use persephone.Liquid.{
  clusters_report, quota_not_found, namespace_missing, scan_usage, set_quota, reported_usage,
}
use persephone.Liquid.Quota.{Cause, Untouched, set_quota_error}
use persephone.Liquid.Contract.{quota_survives_provisioning, scan_usage_partly_provisioned}
use persephone.Examples.World.{World, cluster, cluster-ClusterLaws, empty_world, refusing_world}

abbrev pub sha : String → String
sha s = "0123456789abcdef"

abbrev pub qa_region : RegionalConfig
qa_region = record {
  enabled = true;
  identity_endpoint = "https://identity.qa";
  application_credential_id = "id";
  application_credential_secret = "secret";
  audit_transport_url = "amqps://audit.qa";
}

abbrev pub config : PersephoneConfig
config = record {
  cluster_users_domain = "kubernetes";
  regions = ("qa", qa_region) ∷ [];
  default_region = "qa";
  landscape_name = "canary";
  default_cloud_profile_name = "converged-cloud";
  default_provider_type = "openstack";
  default_shoot_quota = 3;
}

abbrev pub info : OpenStackUserInfo
info = record {
  project_domain_id = "d1";
  project_domain_name = "my domain";
  project_id = "p1";
  project_name = "shop";
  user_domain_id = "d2";
  user_domain_name = "users";
  region = "qa";
}

abbrev pub provisioned : World
provisioned = (reconcile_gardener_project_resources sha cluster config info empty_world).1

abbrev limited : World
limited = (set_quota cluster "qa" "p1" (("clusters", 7) ∷ []) provisioned).1

abbrev pub default_quota : ResourceQuota
default_quota = record {
  created = true;
  hard = ("count/shoots.core.gardener.cloud", pos 3) ∷ [];
  used = [];
}

is_provisioned_example :
    IsProvisioned sha cluster cluster-ClusterLaws config info empty_world provisioned
unfolding reconcile_gardener_project_resources
is_provisioned_example =
    reconcile_gardener_project_resources-IsProvisioned sha cluster cluster-ClusterLaws config info
      empty_world provisioned refl

set_quota_error_example :
    Cause cluster cluster-ClusterLaws "qa" "p1" (("clusters", 7) ∷ []) empty_world namespace_missing
    × Untouched cluster cluster-ClusterLaws "qa" "p1" namespace_missing empty_world empty_world
unfolding set_quota
set_quota_error_example =
    set_quota_error cluster cluster-ClusterLaws "qa" "p1" (("clusters", 7) ∷ []) namespace_missing
      empty_world empty_world refl

quota_survives_example :
    scan_usage cluster "qa" "p1" 1
      (reconcile_gardener_project_resources sha cluster config info limited).1
    ≡ ok (clusters_report 1 (record { forbidden = false; quota = some (pos 7); usage = 0 }))
unfolding reconcile_gardener_project_resources set_quota get_gardener_project_namespace_name
    set_default_quota to_int64 reported_usage
quota_survives_example =
    quota_survives_provisioning sha cluster cluster-ClusterLaws config info 1 7
      (("clusters", 7) ∷ []) default_quota provisioned limited
      (reconcile_gardener_project_resources sha cluster config info limited).1 refl refl refl refl

partly_provisioned_example :
    scan_usage cluster "qa" "p1" 1
      (reconcile_gardener_project_resources sha cluster config info refusing_world).1
    ≡ err (quota_not_found none)
unfolding reconcile_gardener_project_resources
partly_provisioned_example =
    scan_usage_partly_provisioned sha cluster cluster-ClusterLaws config info 1 "quota exceeded"
      refusing_world (reconcile_gardener_project_resources sha cluster config info refusing_world).1
      refl refl

from_labels_example :
    (open_stack_user_info_from_labels
        (set_project_labels "0123456789" info (record { labels = [] })).labels
      ≡ ok (labelled_info info))
    ↔ (IsReadable info × labelled_info info ≡ labelled_info info)
from_labels_example =
    from_labels-set_project_labels "0123456789" info (record { labels = [] }) (labelled_info info)
