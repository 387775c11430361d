-- ===== src/Liquid/Guarded.antt =====
-- internal/liquidserver/server.go: which requests change the garden, and what a quota that was set by
-- one is reported as to another.
use persephone.Base.{
  ℕ, String, ◌≡◌, ◌≢◌, refl, sym, ap, ◌∙◌, ◌⊎◌, inl, inr, false, ◌==◌, Option, none, some, [], ◌∷◌,
  arith, eq_iff,
}
use persephone.Base.{Result, ok, Bool-cases, Option-cases, Result-cases, eqb}
use persephone.Base.Dict.{Dict, lookup}
use persephone.Base.Int.{pos}
use persephone.Kube.{found}
use persephone.Constants.{resource_quota_name}
use persephone.Labels.{get_gardener_project_namespace_name}
use persephone.Garden.{ResourceQuota, Cluster, ClusterLaws}
use persephone.Liquid.{
  SetQuotaError, clusters_report, reported_usage, scan_usage, set_quota, no_clusters_resource,
  namespace_missing, quota_missing, failed_checking_quota, failed_reconciling_quota,
}
use persephone.Liquid.Quota.{min_int64, scan_usage-set_quota}
use persephone.Liquid.Server.{
  Route, get_info, report_capacity, report_usage, put_quota, change_commitments, Request, Env,
  usage_report, require_token, handle_authorized, serve, quota_response, usage_response, status_of,
}

-- The token was accepted by Keystone and the policy, under the rule, for the project.
pub record IsAllowed (env : Env) (r : Request) (project rule : String) : Type 0 where
  pub shown : r.token ≢ ""
  pub known : env.identity_error r.token ≡ none
  pub allowed : env.check r.token (("project_id", project) ∷ []) rule ≡ none

require_token-IsAllowed :
    (env : Env) (r : Request) (project : String)
    → require_token env r (put_quota project) ≡ none
    → IsAllowed env r project "liquid:set_quota"
unfolding require_token
require_token-IsAllowed env r project h = elim (Bool-cases (r.token == "")) [
  | inl e ↦ ground arith
  | inr e ↦ elim (Option-cases (env.identity_error r.token)) [
    | inr (x, f) ↦ ground arith
    | inl f ↦ record {
      shown = ground (arith, eq_iff r.token "");
      known = f;
      allowed = ground arith;
    }
  ]
]

same_request : {a b : Dict ℕ} → ◌≡◌ {A = Result String (Dict ℕ)} (ok a) (ok b) → a ≡ b
same_request h = cc

module _ {W : Type 0} (c : Cluster W) (region : String) (env : Env) where
  unchanged :
      (route : Route) (r : Request) (w : W)
      → ((project : String) → route ≢ put_quota project)
      → (handle_authorized c region env route r w).1 ≡ w
  unfolding handle_authorized
  unchanged get_info r w n = refl
  unchanged report_capacity r w n = elim (Result-cases (env.decode_capacity r.body)) [
    | inl (a, e) ↦ simp (e, handle_authorized)
    | inr (x, e) ↦ simp (e, handle_authorized)
  ]
  unchanged (report_usage project) r w n = elim (Result-cases (env.decode_usage r.body)) [
    | inl (a, e) ↦ simp (e, handle_authorized)
    | inr (x, e) ↦ simp (e, handle_authorized)
  ]
  unchanged (put_quota project) r w n = absurd (n project refl)
  unchanged change_commitments r w n = elim (Result-cases (env.decode_commitments r.body)) [
    | inl (version, e) ↦ elim (Bool-cases (eqb env.service_info.version version)) [
      | inl f ↦ simp (e, f, handle_authorized)
      | inr f ↦ simp (e, f, handle_authorized)
    ]
    | inr (x, e) ↦ simp (e, handle_authorized)
  ]

  quota_world : (x : Option SetQuotaError × W) → (quota_response x).1 ≡ x.1
  quota_world (none, w) = refl
  quota_world (some e, w) = refl

  -- A request leaves the garden as it is, or it is one on the quota of a project with a token that
  -- was accepted for that project under the rule for quotas, and with a body that is decoded; the
  -- garden is then as `SetQuota` for that project leaves it.
  pub serve-IsAllowed :
      (route : Route) (r : Request) (w : W)
      → ((serve c region env route r w).1 ≡ w)
        ⊎ ((project : String) × (req : Dict ℕ) × (route ≡ put_quota project)
            × IsAllowed env r project "liquid:set_quota"
            × (env.decode_quota r.body ≡ ok req)
            × ((serve c region env route r w).1 ≡ (set_quota c region project req w).1))
  unfolding serve handle_authorized
  serve-IsAllowed route r w = elim (Option-cases (require_token env r route)) [
    | inr (refusal, e) ↦ inl (simp (e, serve))
    | inl e ↦ allowed route e
  ]
    where
      allowed :
          (at : Route)
          → require_token env r at ≡ none
          → ((serve c region env at r w).1 ≡ w)
            ⊎ ((project : String) × (req : Dict ℕ) × (at ≡ put_quota project)
                × IsAllowed env r project "liquid:set_quota"
                × (env.decode_quota r.body ≡ ok req)
                × ((serve c region env at r w).1 ≡ (set_quota c region project req w).1))
      allowed get_info e = inl (simp (e, serve) (unchanged get_info r w (λ p h. ground arith)))
      allowed report_capacity e =
          inl (simp (e, serve) (unchanged report_capacity r w (λ p h. ground arith)))
      allowed (report_usage project) e =
          inl (simp (e, serve) (unchanged (report_usage project) r w (λ p h. ground arith)))
      allowed change_commitments e =
          inl (simp (e, serve) (unchanged change_commitments r w (λ p h. ground arith)))
      allowed (put_quota project) e = elim (Result-cases (env.decode_quota r.body)) [
        | inr (x, f) ↦ inl (simp (e, f, serve, handle_authorized))
        | inl (req, f) ↦ inr (
          project,
          req,
          refl,
          require_token-IsAllowed env r project e,
          f,
          simp (e, f, serve, handle_authorized) (quota_world (set_quota c region project req w)),
        )
      ]

  not_204 : (e : SetQuotaError) → status_of e ≢ 204
  not_204 no_clusters_resource h = omega arith
  not_204 namespace_missing h = omega arith
  not_204 quota_missing h = omega arith
  not_204 (SetQuotaError.failed_checking_namespace e) h = omega arith
  not_204 (failed_checking_quota e) h = omega arith
  not_204 (failed_reconciling_quota e) h = omega arith

  set_of_204 : (x : Option SetQuotaError × W) → (quota_response x).0.status ≡ 204 → x ≡ (none, x.1)
  set_of_204 (none, w) h = refl
  set_of_204 (some e, w) h = absurd (not_204 e h)

  quota_set :
      (project : String) (r : Request) (w : W)
      → require_token env r (put_quota project) ≡ none
      → (serve c region env (put_quota project) r w).0.status ≡ 204
      → (req : Dict ℕ) × (env.decode_quota r.body ≡ ok req)
        × (set_quota c region project req w
            ≡ (none, (serve c region env (put_quota project) r w).1))
  unfolding serve handle_authorized
  quota_set project r w a = elim (Result-cases (env.decode_quota r.body)) [
    | inr (x, f) ↦ simp (a, f, serve, handle_authorized) λ h. absurd (omega arith)
    | inl (req, f) ↦
        simp (a, f, serve, handle_authorized)
          λ h.
            let k = set_of_204 (set_quota c region project req w) h in
            (
              req,
              refl,
              k ∙ ap (λ v. (none, v)) (sym (quota_world (set_quota c region project req w))),
            )
  ]

  reported :
      (project : String) (r : Request) (w : W)
      → require_token env r (report_usage project) ≡ none
      → env.decode_usage r.body ≡ ok tt
      → (serve c region env (report_usage project) r w).0
        ≡ usage_response (scan_usage c region project env.service_info.version w)
  unfolding serve handle_authorized
  reported project r w b u = simp (b, u, serve, handle_authorized)

  -- When a change of a project's quota with an accepted token is answered with the status 204, then
  -- an authorized report on that project's usage, made on the garden as that change left it, has
  -- the quota of the request, cut at 2 ^ 63 - 1, with the usage that the object had.
  pub usage_after_quota :
      (laws : ClusterLaws c) (project : String) (change report : Request) (rq : ResourceQuota)
      (quota : ℕ) (req : Dict ℕ) (w : W)
      → require_token env change (put_quota project) ≡ none
      → env.decode_quota change.body ≡ ok req
      → lookup "clusters" req ≡ some quota
      → c.quotas.get w (get_gardener_project_namespace_name region project) resource_quota_name
        ≡ found rq
      → (serve c region env (put_quota project) change w).0.status ≡ 204
      → require_token env report (report_usage project) ≡ none
      → env.decode_usage report.body ≡ ok tt
      → (serve c region env
          (report_usage project)
          report
          (serve c region env (put_quota project) change w).1).0
        ≡ record {
          status = 200;
          body = usage_report (
              clusters_report env.service_info.version (record {
                forbidden = false;
                quota = some (pos (min_int64 quota));
                usage = reported_usage rq;
              }));
        }
  usage_after_quota laws project change report rq quota req w a d asked stood done b u =
      let (req', d', h) = quota_set project change w a done in
      let asked' : lookup "clusters" req' ≡ some quota =
        ap (lookup "clusters") (same_request (sym d' ∙ d)) ∙ asked in
      let w' = (serve c region env (put_quota project) change w).1 in
      let scan =
        scan_usage-set_quota c laws region project env.service_info.version quota req' rq w w'
          asked' stood h in
      reported project report w' b u ∙ ap usage_response scan
