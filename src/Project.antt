-- ===== src/Project.antt =====
-- internal/kubernetes/gardener.go, ReconcileGardenerProjectResources: what is provisioned in the
-- virtual garden for an OpenStack project. The SHA-256 of gardener's utilities is the argument
-- `compute_sha256_hex`.
pub mod Writes
pub mod Provisioned
pub mod ReadBack
use persephone.Base.{ℕ, String, Bool, true, false, ◌<>◌, Option, none, some, List, [], ◌∷◌}
use persephone.Base.{if◌then◌else◌}
use persephone.Base.Dict.{Dict, insert}
use persephone.Base.Int.{ℤ, to_int64}
use persephone.Kube.{ObjectApi}
use persephone.Constants.{
  label_key_open_stack_domain_id, label_key_open_stack_domain_name, label_key_open_stack_project_id,
  label_key_open_stack_project_name, label_key_open_stack_region, resource_quota_name,
  shoot_resource_quota_key,
}
use persephone.Config.{PersephoneConfig}
use persephone.Labels.{get_gardener_project_namespace_name, sanitize_label_value, take}
use persephone.UserInfo.{OpenStackUserInfo}
use persephone.Garden.{
  Namespace, GardenerProject, PolicyRule, Role, Subject, RoleBinding, ResourceQuota, Cluster,
}

unfoldable pub get_gardener_project_name : (String → String) → String → String → String → String
get_gardener_project_name compute_sha256_hex region project_id landscape_name =
    take 10 (compute_sha256_hex (region <> (project_id <> landscape_name)))

pub data ProjectError : Type 0 where
  namespace_failed project_failed role_failed role_binding_failed quota_failed :
      String → ProjectError

-- A write whose error ends the function; otherwise the rest runs on the new state.
abbrev pub and_then :
    {W : Type 0}
    → (String → ProjectError)
    → Option String × W
    → (W → Option ProjectError × W)
    → Option ProjectError × W
and_then wrapped (some e, w) rest = (some (wrapped e), w)
and_then wrapped (none, w) rest = rest w

unfoldable pub set_project_labels : String → OpenStackUserInfo → Namespace → Namespace
set_project_labels project_name o ns = record {
  labels = insert label_key_open_stack_region o.region (
      insert label_key_open_stack_domain_name (sanitize_label_value o.project_domain_name) (
        insert label_key_open_stack_domain_id o.project_domain_id (
          insert label_key_open_stack_project_name (sanitize_label_value o.project_name) (
            insert label_key_open_stack_project_id o.project_id (
              insert "project.gardener.cloud/name" project_name
                (insert "gardener.cloud/role" "project" ns.labels))))));
}

abbrev pub admin_role_name : String
admin_role_name = "persephone.sci.cloud.sap:openstack-project-kubernetes-admin"

abbrev all_verbs : List String
all_verbs = "get" ∷ "list" ∷ "watch" ∷ "create" ∷ "update" ∷ "patch" ∷ "delete" ∷ []

abbrev pub admin_rules : List PolicyRule
admin_rules =
    record { api_groups = "core.gardener.cloud" ∷ []; resources = "shoots" ∷ []; verbs = all_verbs }
    ∷ record {
      api_groups = "core.gardener.cloud" ∷ [];
      resources = "shoots/adminkubeconfig" ∷ [];
      verbs = "create" ∷ [];
    }
    ∷ record { api_groups = "" ∷ []; resources = "configmaps" ∷ "secrets" ∷ []; verbs = all_verbs }
    ∷ record {
      api_groups = "" ∷ [];
      resources = "resourcequotas" ∷ [];
      verbs = "get" ∷ "list" ∷ [];
    }
    ∷ []

abbrev pub admin_binding : OpenStackUserInfo → RoleBinding
admin_binding o = record {
  subjects =
      record {
        api_group = "rbac.authorization.k8s.io";
        kind = "Group";
        name = o.project_id <> ":kubernetes_admin";
      }
      ∷ [];
  role_ref = record {
    api_group = "rbac.authorization.k8s.io";
    kind = "Role";
    name = admin_role_name;
  };
}

-- The mutation of the quota: only an object that is not stored yet gets the default.
unfoldable pub set_default_quota : ℕ → ResourceQuota → ResourceQuota
set_default_quota default_shoot_quota rq =
    if rq.created
    then rq
    else record rq { hard = insert shoot_resource_quota_key (to_int64 default_shoot_quota) rq.hard }

-- The objects that hold a name only.
abbrev pub fresh_binding : RoleBinding
fresh_binding = record { subjects = []; role_ref = record { api_group = ""; kind = ""; name = "" } }

abbrev pub fresh_quota : ResourceQuota
fresh_quota = record { created = false; hard = []; used = [] }

module _ {W : Type 0} (compute_sha256_hex : String → String) (c : Cluster W) where
  unfoldable pub reconcile_gardener_project_resources :
      PersephoneConfig → OpenStackUserInfo → W → Option ProjectError × W
  reconcile_gardener_project_resources cfg o w =
      let project_name : String =
        get_gardener_project_name compute_sha256_hex o.region o.project_id cfg.landscape_name in
      let namespace : String = get_gardener_project_namespace_name o.region o.project_id in
      and_then namespace_failed
        (c.namespaces.create_or_patch "" namespace (record { labels = [] })
          (set_project_labels project_name o) w)
        (λ w1.
          and_then project_failed
            (c.projects.create_or_patch "" project_name (record { namespace = none })
              (λ p. record { namespace = some namespace }) w1)
            (λ w2.
              and_then role_failed
                (c.roles.create_or_patch namespace admin_role_name (record { rules = [] })
                  (λ r. record { rules = admin_rules }) w2)
                (λ w3.
                  and_then role_binding_failed
                    (c.role_bindings.create_or_patch namespace admin_role_name fresh_binding
                      (λ b. admin_binding o) w3)
                    (λ w4.
                      and_then quota_failed
                        (c.quotas.create_or_patch namespace resource_quota_name fresh_quota
                          (set_default_quota cfg.default_shoot_quota) w4)
                        (λ w5. (none, w5))))))
