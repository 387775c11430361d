-- ===== src/Examples/Quotas.antt =====
-- The quota of a project that was provisioned is set through the liquid server, and reported.
use persephone.UserInfo.{open_stack_user_info_from_labels, get_label_value_for_key}
use persephone.Labels.{
  get_gardener_project_namespace_name, cut, trim_right, trim_left, map_runes, is_alphanumeric,
  clean, is_label_rune,
}
use persephone.Project.{reconcile_gardener_project_resources, set_default_quota, set_project_labels}
use persephone.Base.{
  ℕ, sym, ◌∙◌, ◌==◌, String, ◌≡◌, ◌⊎◌, refl, false, none, some, [], ◌∷◌, ok, arith, eq_iff,
}
use persephone.Base.Int.{pos, to_int64}
use persephone.Labels.{sanitize_label_value}
use persephone.Base.Dict.{Dict}
use persephone.Liquid.{clusters_report, set_quota, reported_usage}
use persephone.Liquid.Server.{
  put_quota, report_usage, Request, Env, usage_report, build_service_info, require_token, serve,
  handle_authorized,
}
use persephone.Liquid.Guarded.{IsAllowed, serve-IsAllowed, usage_after_quota}
use persephone.Kube.{found}
use persephone.Project.Provisioned.{IsProvisioned}
use persephone.ProjectController.{ObservedProject, resource_creation, reconcile_project}
use persephone.ProjectController.Restored.{reconcile_project-IsProvisioned}
use persephone.Project.ReadBack.{IsReadable}
use persephone.Examples.World.{cluster, cluster-ClusterLaws, empty_world}
use persephone.Examples.Garden.{sha, config, info, provisioned, default_quota}

abbrev env : Env
env = record {
  service_info = build_service_info 1700000000;
  identity_error = λ token. none;
  check = λ token vars rule. none;
  decode_capacity = λ body. ok tt;
  decode_usage = λ body. ok tt;
  decode_quota = λ body. ok (("clusters", 7) ∷ []);
  decode_commitments = λ body. ok 1;
}

abbrev change : Request
change = record {
  method = "PUT";
  path = "v1" ∷ "projects" ∷ "p1" ∷ "quota" ∷ [];
  token = "t1";
  body = "{}";
}

abbrev report : Request
report = record {
  method = "POST";
  path = "v1" ∷ "projects" ∷ "p1" ∷ "report-usage" ∷ [];
  token = "t1";
  body = "{}";
}

guarded_example :
    ((serve cluster "qa" env (put_quota "p1") change provisioned).1 ≡ provisioned)
    ⊎ ((project : String) × (req : Dict ℕ) × (put_quota "p1" ≡ put_quota project)
        × IsAllowed env change project "liquid:set_quota"
        × (env.decode_quota change.body ≡ ok req)
        × ((serve cluster "qa" env (put_quota "p1") change provisioned).1
            ≡ (set_quota cluster "qa" project req provisioned).1))
guarded_example = serve-IsAllowed cluster "qa" env (put_quota "p1") change provisioned

usage_after_quota_example :
    (serve cluster "qa" env
      (report_usage "p1")
      report
      (serve cluster "qa" env (put_quota "p1") change provisioned).1).0
    ≡ record {
      status = 200;
      body = usage_report (
          clusters_report 1700000000
            (record { forbidden = false; quota = some (pos 7); usage = 0 }));
    }
unfolding require_token reconcile_gardener_project_resources get_gardener_project_namespace_name
    set_default_quota to_int64 serve handle_authorized set_quota reported_usage
usage_after_quota_example =
    usage_after_quota cluster "qa" env cluster-ClusterLaws "p1" change report default_quota 7
      (("clusters", 7) ∷ []) provisioned refl refl refl refl refl refl refl

other_text : (s : String) → (s == "") ≡ false → s ≡ "" → ⊥
other_text s h e = ground (arith, eq_iff s "")

domain_value : sanitize_label_value "my domain" ≡ "my_domain"
unfolding sanitize_label_value cut trim_right trim_left map_runes is_alphanumeric clean
    is_label_rune
domain_value = refl

name_value : sanitize_label_value "shop" ≡ "shop"
unfolding sanitize_label_value cut trim_right trim_left map_runes is_alphanumeric clean
    is_label_rune
name_value = refl

readable : IsReadable info
readable = (
  λ e. ground (arith, eq_iff "d1" ""),
  λ e. other_text "my_domain" refl (sym domain_value ∙ e),
  λ e. ground (arith, eq_iff "p1" ""),
  λ e. other_text "shop" refl (sym name_value ∙ e),
  λ e. ground (arith, eq_iff "qa" ""),
)

abbrev shop : ObservedProject
shop = record { name = "0123456789"; deleting = false; namespace = some "garden-qa-p1" }

restored_example :
    IsProvisioned sha cluster cluster-ClusterLaws config info provisioned
      (reconcile_project sha cluster config (found shop) provisioned).2
    × ((reconcile_project sha cluster config (found shop) provisioned).1
        ≡ resource_creation "qa" "success" ∷ [])
    × (cluster.quotas.get
          (reconcile_project sha cluster config (found shop) provisioned).2
          "garden-qa-p1"
          "shoot-clusters-quota"
        ≡ cluster.quotas.get provisioned "garden-qa-p1" "shoot-clusters-quota")
unfolding reconcile_gardener_project_resources get_gardener_project_namespace_name reconcile_project
    open_stack_user_info_from_labels get_label_value_for_key set_project_labels sanitize_label_value
    cut trim_right trim_left map_runes is_alphanumeric clean is_label_rune
restored_example =
    reconcile_project-IsProvisioned sha cluster cluster-ClusterLaws config info shop
      (reconcile_project sha cluster config (found shop) provisioned).1 empty_world provisioned
      (reconcile_project sha cluster config (found shop) provisioned).2 refl readable refl refl refl
