-- ===== src/Liquid/Quota.antt =====
-- What `SetQuota` writes, `ScanUsage` reports; and what it refuses leaves the cluster alone.
use persephone.Base.{ℕ, String, ◌≡◌, ◌≢◌, refl, ◌∙◌, ap, true, false, Option, none, some}
use persephone.Base.{arith, ok, err, Option-cases, inl, inr, if◌then◌else◌, leb}
use mathlib.Core.Path.{subst₂}
use persephone.Base.Dict.{Dict, lookup, lookup-insert}
use persephone.Base.Int.{pos, max_int64, to_int64}
use persephone.Kube.{Got-cases, found, not_found, failed}
use persephone.Constants.{resource_quota_name, shoot_resource_quota_key}
use persephone.Labels.{get_gardener_project_namespace_name}
use persephone.Project.{fresh_quota}
use persephone.Garden.{Namespace, ResourceQuota, Cluster, ClusterLaws}
use persephone.Liquid.{
  ServiceUsageReport, SetQuotaError, quota_not_found, no_clusters_resource, namespace_missing,
  quota_missing, failed_checking_quota, failed_reconciling_quota, reported_usage, reported_quota,
  clamp_quota, put_quota, reconciled, clusters_report, scan_usage, set_quota,
}

-- The quota that is stored is the lesser of the request and 2 ^ 63 - 1, and never negative.
clamp_quota_lem :
    (q : ℕ) → to_int64 (clamp_quota q) ≡ pos (if leb q max_int64 then q else max_int64)
unfolding clamp_quota to_int64
clamp_quota_lem q = ground arith

abbrev pub min_int64 : ℕ → ℕ
min_int64 q = if leb q max_int64 then q else max_int64

reported_quota-put_quota :
    (q : ℕ) (rq : ResourceQuota) → reported_quota (put_quota q rq) ≡ pos (min_int64 q)
unfolding reported_quota put_quota
reported_quota-put_quota q rq =
    rw (lookup-insert shoot_resource_quota_key shoot_resource_quota_key, reported_quota)
      (clamp_quota_lem q)

-- The object that the server holds after the write.
abbrev pub after_put : ℕ → ResourceQuota → ResourceQuota
after_put q rq = record (put_quota q rq) { created = true }

pub reported_quota-after_put :
    (q : ℕ) (rq : ResourceQuota) → reported_quota (after_put q rq) ≡ pos (min_int64 q)
unfolding reported_quota
reported_quota-after_put q rq = reported_quota-put_quota q rq

pub reported_usage-after_put :
    (q : ℕ) (rq : ResourceQuota) → reported_usage (after_put q rq) ≡ reported_usage rq
unfolding reported_usage put_quota
reported_usage-after_put q rq = refl

reconciled-none :
    {W : Type 0} (r : Option String × W) (w' : W) → reconciled r ≡ (none, w') → r ≡ (none, w')
reconciled-none (some e, w) w' h = cc
reconciled-none (none, w) w' h = cc

module _ {W : Type 0} (c : Cluster W) (laws : ClusterLaws c) (region project_uuid : String) where
  abbrev namespace : String
  namespace = get_gardener_project_namespace_name region project_uuid

  -- A report for a namespace and a quota that stand.
  abbrev pub report_of : ℕ → ResourceQuota → ServiceUsageReport
  report_of version rq =
      clusters_report version
        (record { forbidden = false; quota = some (reported_quota rq); usage = reported_usage rq })

  pub scan_usage_found :
      (version : ℕ) (w : W) (ns : Namespace) (rq : ResourceQuota)
      → c.namespaces.get w "" namespace ≡ found ns
      → c.quotas.get w namespace resource_quota_name ≡ found rq
      → scan_usage c region project_uuid version w ≡ ok (report_of version rq)
  unfolding scan_usage
  scan_usage_found version w ns rq e f = ground arith

  pub scan_usage_no_quota :
      (version : ℕ) (w : W) (ns : Namespace)
      → c.namespaces.get w "" namespace ≡ found ns
      → c.quotas.get w namespace resource_quota_name ≡ not_found
      → scan_usage c region project_uuid version w ≡ err (quota_not_found none)
  unfolding scan_usage
  scan_usage_no_quota version w ns e f = ground arith

  -- What a call of `SetQuota` that returns no error has found, and the write that it made.
  pub record Success (req : Dict ℕ) (w w' : W) : Type 0 where
    pub quota : ℕ
    pub ns : Namespace
    pub rq : ResourceQuota
    pub requested : lookup "clusters" req ≡ some quota
    pub has_namespace : c.namespaces.get w "" namespace ≡ found ns
    pub has_quota : c.quotas.get w namespace resource_quota_name ≡ found rq
    pub write :
        c.quotas.create_or_patch namespace resource_quota_name fresh_quota (put_quota quota) w
        ≡ (none, w')

  pub set_quota-Success :
      (req : Dict ℕ) (w w' : W)
      → set_quota c region project_uuid req w ≡ (none, w')
      → Success req w w'
  unfolding set_quota
  set_quota-Success req w w' h = elim (Option-cases (lookup "clusters" req)) [
    | inl e ↦ ground arith
    | inr (quota, e) ↦ elim (Got-cases (c.namespaces.get w "" namespace)) [
      | inl (ns, f) ↦ elim (Got-cases (c.quotas.get w namespace resource_quota_name)) [
        | inl (rq, g) ↦ record {
          quota = quota;
          ns = ns;
          rq = rq;
          requested = e;
          has_namespace = f;
          has_quota = g;
          write = reconciled-none _ w' (ground arith);
        }
        | inr (inl g) ↦ ground arith
        | inr (inr (x, g)) ↦ ground arith
      ]
      | inr (inl f) ↦ ground arith
      | inr (inr (x, f)) ↦ ground arith
    ]
  ]

  pub quota_after :
      (quota : ℕ) (rq : ResourceQuota) (w w' : W)
      → c.quotas.get w namespace resource_quota_name ≡ found rq
      → c.quotas.create_or_patch namespace resource_quota_name fresh_quota (put_quota quota) w
        ≡ (none, w')
      → c.quotas.get w' namespace resource_quota_name ≡ found (after_put quota rq)
  quota_after quota rq w w' stood write =
      laws.quotas.written _ _ _ _ _ _ write ∙ ap found (laws.stored_quota _) ∙ rw stood refl

  -- A quota that `SetQuota` has set without error is the quota that `ScanUsage` reports next, cut
  -- at 2 ^ 63 - 1; the usage reported is that of the object as it stood before, and the project is
  -- not reported as forbidden.
  pub scan_usage-set_quota :
      (version quota : ℕ) (req : Dict ℕ) (rq : ResourceQuota) (w w' : W)
      → lookup "clusters" req ≡ some quota
      → c.quotas.get w namespace resource_quota_name ≡ found rq
      → set_quota c region project_uuid req w ≡ (none, w')
      → scan_usage c region project_uuid version w'
        ≡ ok (
            clusters_report version (record {
              forbidden = false;
              quota = some (pos (min_int64 quota));
              usage = reported_usage rq;
            }))
  scan_usage-set_quota version quota req rq w w' asked stood h =
      let s = set_quota-Success req w w' h in
      let q : s.quota ≡ quota = cc in
      let write = rw q at s.write in
      scan_usage_found version w' s.ns (after_put quota rq)
        (laws.quotas_namespaces.left _ _ _ _ _ _ _ s.write "" namespace ∙ s.has_namespace)
        (quota_after quota rq w w' stood write)
      ∙ rw (reported_quota-after_put quota rq, reported_usage-after_put quota rq) refl

  -- What each error of `SetQuota` says of the request and of the cluster.
  abbrev pub Cause : Dict ℕ → W → SetQuotaError → Type 0
  Cause req w no_clusters_resource = lookup "clusters" req ≡ none
  Cause req w namespace_missing =
      (lookup "clusters" req ≢ none) × (c.namespaces.get w "" namespace ≡ not_found)
  Cause req w quota_missing =
      (lookup "clusters" req ≢ none)
      × ((ns : Namespace) × (c.namespaces.get w "" namespace ≡ found ns))
      × (c.quotas.get w namespace resource_quota_name ≡ not_found)
  Cause req w (SetQuotaError.failed_checking_namespace e) =
      (lookup "clusters" req ≢ none) × (c.namespaces.get w "" namespace ≡ failed e)
  Cause req w (failed_checking_quota e) =
      (lookup "clusters" req ≢ none)
      × ((ns : Namespace) × (c.namespaces.get w "" namespace ≡ found ns))
      × (c.quotas.get w namespace resource_quota_name ≡ failed e)
  Cause req w (failed_reconciling_quota e) =
      (quota : ℕ) × (lookup "clusters" req ≡ some quota)
      × ((c.quotas.create_or_patch namespace resource_quota_name fresh_quota (put_quota quota) w).0
          ≡ some e)

  -- Every error but that of the write itself leaves the cluster as it was.
  abbrev pub Untouched : SetQuotaError → W → W → Type 0
  Untouched (failed_reconciling_quota e) w w' = Unit
  Untouched _ w w' = w' ≡ w

  -- The cause of one error, carried over to the error that was returned.
  returned :
      (req : Dict ℕ) (e e' : SetQuotaError) (w w' w'' : W) (r : Option SetQuotaError × W)
      → Cause req w e × Untouched e w w'
      → r ≡ (some e, w')
      → r ≡ (some e', w'')
      → Cause req w e' × Untouched e' w w''
  returned req e e' w w' w'' r known computed given =
      let same : e ≡ e' = cc in
      let there : w' ≡ w'' = cc in subst₂ (λ x y. Cause req w x × Untouched x w y) same there known

  write_error :
      (req : Dict ℕ) (quota : ℕ) (e : SetQuotaError) (w w' : W) (r : Option String × W)
      → lookup "clusters" req ≡ some quota
      → c.quotas.create_or_patch namespace resource_quota_name fresh_quota (put_quota quota) w ≡ r
      → reconciled r ≡ (some e, w')
      → Cause req w e × Untouched e w w'
  write_error req quota e w w' (some x, w1) asked same h =
      returned req (failed_reconciling_quota x) e w w1 w' _ ((quota, asked, ap (λ r. r.0) same), tt)
        refl h
  write_error req quota e w w' (none, w1) asked same h = cc

  -- Each error that `SetQuota` returns has its own cause, and each but that of the write itself
  -- leaves the cluster as it was.
  pub set_quota_error :
      (req : Dict ℕ) (e : SetQuotaError) (w w' : W)
      → set_quota c region project_uuid req w ≡ (some e, w')
      → Cause req w e × Untouched e w w'
  unfolding set_quota
  set_quota_error req e w w' h = elim (Option-cases (lookup "clusters" req)) [
    | inl a ↦ returned req no_clusters_resource e w w w' _ (a, refl) (ground arith) h
    | inr (quota, a) ↦
        let asked : lookup "clusters" req ≢ none = ground arith in
        elim (Got-cases (c.namespaces.get w "" namespace)) [
          | inl (ns, f) ↦ elim (Got-cases (c.quotas.get w namespace resource_quota_name)) [
            | inl (rq, g) ↦ write_error req quota e w w' _ a refl (ground arith)
            | inr (inl g) ↦
                returned req quota_missing e w w w' _ ((asked, (ns, f), g), refl) (ground arith) h
            | inr (inr (x, g)) ↦
                returned req (failed_checking_quota x) e w w w' _ ((asked, (ns, f), g), refl)
                  (ground arith) h
          ]
          | inr (inl f) ↦
              returned req namespace_missing e w w w' _ ((asked, f), refl) (ground arith) h
          | inr (inr (x, f)) ↦
              returned req (SetQuotaError.failed_checking_namespace x) e w w w' _ ((asked, f), refl)
                (ground arith) h
        ]
  ]
