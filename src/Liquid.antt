-- ===== src/Liquid.antt =====
-- internal/liquidserver/logic.go: usage reports and quotas for Limes, over the garden's namespaces
-- and resource quotas. A quota in a request is a uint64, a quantity's value an int64.
pub mod Quota
pub mod Server
pub mod Guarded
pub mod Contract
use persephone.Base.{
  ℕ, String, Bool, true, false, Option, none, some, List, [], ◌∷◌, Result, ok, err,
}
use persephone.Base.{leb, if◌then◌else◌}
use persephone.Base.Dict.{Dict, lookup, insert}
use persephone.Base.Int.{ℤ, pos, negsuc, max_int64, to_int64, to_uint64}
use persephone.Kube.{found, not_found, failed}
use persephone.Constants.{resource_quota_name, shoot_resource_quota_key}
use persephone.Labels.{get_gardener_project_namespace_name}
use persephone.Project.{fresh_quota}
use persephone.Garden.{ResourceQuota, Cluster}

-- `usage` is what is reported for any availability zone.
pub record ResourceUsageReport : Type 0 where
  pub forbidden : Bool
  pub quota : Option ℤ
  pub usage : ℕ

pub record ServiceUsageReport : Type 0 where
  pub info_version : ℕ
  pub resources : Dict ResourceUsageReport

pub data ScanError : Type 0 where
  failed_checking_namespace : String → ScanError
  quota_not_found : Option String → ScanError

-- The errors of `SetQuota`; the first three carry a status of their own.
pub data SetQuotaError : Type 0 where
  no_clusters_resource namespace_missing quota_missing : SetQuotaError
  failed_checking_namespace failed_checking_quota failed_reconciling_quota : String → SetQuotaError

-- The status that `respondwith.CustomStatus` attaches, where it does.
abbrev pub custom_status : SetQuotaError → Option ℕ
custom_status no_clusters_resource = some 400
custom_status namespace_missing = some 422
custom_status quota_missing = some 422
custom_status _ = none

unfoldable pub reported_usage : ResourceQuota → ℕ
reported_usage rq = elim (lookup shoot_resource_quota_key rq.used) [
  | none ↦ 0
  | some used_qty ↦ to_uint64 used_qty
]

unfoldable pub reported_quota : ResourceQuota → ℤ
reported_quota rq = elim (lookup shoot_resource_quota_key rq.hard) [ none ↦ negsuc 0 | some q ↦ q ]

-- `min(quota, math.MaxInt64)`
unfoldable pub clamp_quota : ℕ → ℕ
clamp_quota quota = if leb quota max_int64 then quota else max_int64

-- The mutation that `SetQuota` makes.
unfoldable pub put_quota : ℕ → ResourceQuota → ResourceQuota
put_quota quota rq = record rq {
  hard = insert shoot_resource_quota_key (to_int64 (clamp_quota quota)) rq.hard;
}

-- The result of the `CreateOrPatch`, in the terms of `SetQuota`.
abbrev pub reconciled : {W : Type 0} → Option String × W → Option SetQuotaError × W
reconciled (some e, w) = (some (failed_reconciling_quota e), w)
reconciled (none, w) = (none, w)

abbrev pub clusters_report : ℕ → ResourceUsageReport → ServiceUsageReport
clusters_report version report = record {
  info_version = version;
  resources = ("clusters", report) ∷ [];
}

abbrev pub forbidden_report : ResourceUsageReport
forbidden_report = record { forbidden = true; quota = some (pos 0); usage = 0 }

module _ {W : Type 0} (c : Cluster W) (region : String) where
  unfoldable pub scan_usage : String → ℕ → W → Result ScanError ServiceUsageReport
  scan_usage project_uuid version w =
      let namespace : String = get_gardener_project_namespace_name region project_uuid in
      elim (c.namespaces.get w "" namespace) [
        | not_found ↦ ok (clusters_report version forbidden_report)
        | failed e ↦ err (ScanError.failed_checking_namespace e)
        | found ns ↦ elim (c.quotas.get w namespace resource_quota_name) [
          | not_found ↦ err (quota_not_found none)
          | failed e ↦ err (quota_not_found (some e))
          | found rq ↦ ok (
              clusters_report version (record {
                forbidden = false;
                quota = some (reported_quota rq);
                usage = reported_usage rq;
              }))
        ]
      ]

  -- The request holds the wanted quota of each resource.
  unfoldable pub set_quota : String → Dict ℕ → W → Option SetQuotaError × W
  set_quota project_uuid req w =
      let namespace : String = get_gardener_project_namespace_name region project_uuid in
      elim (lookup "clusters" req) [
        | none ↦ (some no_clusters_resource, w)
        | some quota ↦ elim (c.namespaces.get w "" namespace) [
          | not_found ↦ (some namespace_missing, w)
          | failed e ↦ (some (SetQuotaError.failed_checking_namespace e), w)
          | found ns ↦ elim (c.quotas.get w namespace resource_quota_name) [
            | not_found ↦ (some quota_missing, w)
            | failed e ↦ (some (failed_checking_quota e), w)
            | found existing ↦ reconciled (
                c.quotas.create_or_patch namespace resource_quota_name fresh_quota (put_quota quota)
                  w)
          ]
        ]
      ]
