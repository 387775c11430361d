-- ===== src/Garden.antt =====
-- The objects of the virtual garden that the program writes, with the fields that it reads or
-- sets, the API to them, and what is relied on of the API server.
use persephone.Base.{String, ◌≡◌, Bool, true, Option, some, List}
use persephone.Base.Dict.{Dict, lookup}
use persephone.Base.Int.{ℤ}
use persephone.Kube.{ObjectApi, ObjectApiLaws, Leaves}

pub record Namespace : Type 0 where
  pub labels : Dict String

pub record GardenerProject : Type 0 where
  pub namespace : Option String

pub record PolicyRule : Type 0 where
  pub api_groups : List String
  pub resources : List String
  pub verbs : List String

pub record Role : Type 0 where
  pub rules : List PolicyRule

pub record Subject : Type 0 where
  pub api_group : String
  pub kind : String
  pub name : String

pub record RoleBinding : Type 0 where
  pub subjects : List Subject
  pub role_ref : Subject

-- `created` says that the creation timestamp is set; `hard` is `spec.hard`, `used` `status.used`.
pub record ResourceQuota : Type 0 where
  pub created : Bool
  pub hard : Dict ℤ
  pub used : Dict ℤ

pub record Cluster (W : Type 0) : Type 0 where
  pub namespaces : ObjectApi W Namespace
  pub projects : ObjectApi W GardenerProject
  pub roles : ObjectApi W Role
  pub role_bindings : ObjectApi W RoleBinding
  pub quotas : ObjectApi W ResourceQuota

-- Each kind keeps the laws of `CreateOrPatch`, a write to one kind leaves the other kinds, and the
-- server stores labels, project specs, roles, bindings and quotas as they are sent; it may add
-- labels, and sets the creation timestamp.
pub record ClusterLaws {W : Type 0} (c : Cluster W) : Type 0 where
  pub namespaces : ObjectApiLaws c.namespaces
  pub projects : ObjectApiLaws c.projects
  pub roles : ObjectApiLaws c.roles
  pub role_bindings : ObjectApiLaws c.role_bindings
  pub quotas : ObjectApiLaws c.quotas
  pub projects_namespaces : Leaves c.projects c.namespaces
  pub roles_namespaces : Leaves c.roles c.namespaces
  pub role_bindings_namespaces : Leaves c.role_bindings c.namespaces
  pub quotas_namespaces : Leaves c.quotas c.namespaces
  pub roles_projects : Leaves c.roles c.projects
  pub role_bindings_projects : Leaves c.role_bindings c.projects
  pub quotas_projects : Leaves c.quotas c.projects
  pub role_bindings_roles : Leaves c.role_bindings c.roles
  pub quotas_roles : Leaves c.quotas c.roles
  pub quotas_role_bindings : Leaves c.quotas c.role_bindings
  pub namespaces_quotas : Leaves c.namespaces c.quotas
  pub projects_quotas : Leaves c.projects c.quotas
  pub roles_quotas : Leaves c.roles c.quotas
  pub role_bindings_quotas : Leaves c.role_bindings c.quotas
  pub stored_label :
      (n : Namespace) (k v : String)
      → lookup k n.labels ≡ some v
      → lookup k (c.namespaces.stored n).labels ≡ some v
  pub stored_project : (p : GardenerProject) → c.projects.stored p ≡ p
  pub stored_role : (r : Role) → c.roles.stored r ≡ r
  pub stored_role_binding : (b : RoleBinding) → c.role_bindings.stored b ≡ b
  pub stored_quota : (q : ResourceQuota) → c.quotas.stored q ≡ record q { created = true }
