-- ===== src/Examples/World.antt =====
-- A cluster in memory: each kind of object is a function of namespace and name.
use persephone.Base.{String, ◌≡◌, refl, ◌∙◌, ap, sym, true, ◌==◌, ◌&&◌, Option, none, some}
use persephone.Base.{if◌then◌else◌, eq_refl}
use persephone.Kube.{Got, found, not_found, ObjectApi, basis, ObjectApiLaws, Leaves}
use persephone.Garden.{
  Namespace, GardenerProject, Role, RoleBinding, ResourceQuota, Cluster, ClusterLaws,
}

abbrev pub Store : Type 0 → Type 0
Store O = String → String → Got O

abbrev pub put : {O : Type 0} → String → String → O → Store O → Store O
put ns name o store ns' name' = if (ns == ns') && (name == name') then found o else store ns' name'

put-same :
    {O : Type 0} (ns name : String) (o : O) (store : Store O)
    → put ns name o store ns name ≡ found o
put-same ns name o store = rw (eq_refl ns, eq_refl name) refl

-- `refusal` is the error of every write to a project, if there is one.
pub record World : Type 0 where
  pub namespaces : Store Namespace
  pub projects : Store GardenerProject
  pub roles : Store Role
  pub role_bindings : Store RoleBinding
  pub quotas : Store ResourceQuota
  pub refusal : Option String

-- One kind of object of the cluster.
pub record Kind (O : Type 0) : Type 0 where
  pub store : World → Store O
  pub with_store : Store O → World → World
  pub refused : World → Option String
  pub stored : O → O
  pub same : (s : Store O) (w : World) → store (with_store s w) ≡ s

module _ {O : Type 0} (k : Kind O) where
  abbrev pub write : String → String → O → (O → O) → World → Option String → Option String × World
  write ns name fresh mutate w (some e) = (some e, w)
  write ns name fresh mutate w none = (
    none,
    k.with_store (put ns name (k.stored (mutate (basis (k.store w ns name) fresh))) (k.store w)) w,
  )

  abbrev pub api : ObjectApi World O
  api = record {
    get = k.store;
    create_or_patch = λ ns name fresh mutate w. write ns name fresh mutate w (k.refused w);
    stored = k.stored;
  }

  write-written :
      (ns name : String) (fresh : O) (mutate : O → O) (w w' : World) (r : Option String)
      → write ns name fresh mutate w r ≡ (none, w')
      → k.store w' ns name ≡ found (k.stored (mutate (basis (k.store w ns name) fresh)))
  write-written ns name fresh mutate w w' (some e) h = cc
  write-written ns name fresh mutate w w' none h =
      ap (λ v. k.store v ns name) (ap (λ p. p.1) (sym h))
      ∙ ap (λ s. s ns name) (k.same _ w)
      ∙ put-same ns name _ (k.store w)

  pub api-ObjectApiLaws : ObjectApiLaws api
  api-ObjectApiLaws = record {
    written =
        λ ns name fresh mutate w w' h. write-written ns name fresh mutate w w' (k.refused w) h;
  }

module _ {A B : Type 0} (k : Kind A) (l : Kind B) where
  write-left :
      ((s : Store A) (w : World) → l.store (k.with_store s w) ≡ l.store w)
      → (ns name : String) (fresh : A) (mutate : A → A) (w w' : World) (e r : Option String)
      → write k ns name fresh mutate w r ≡ (e, w')
      → l.store w' ≡ l.store w
  write-left apart ns name fresh mutate w w' e (some x) h = ap l.store (ap (λ p. p.1) (sym h))
  write-left apart ns name fresh mutate w w' e none h =
      ap l.store (ap (λ p. p.1) (sym h)) ∙ apart _ w

  pub apart-Leaves :
      ((s : Store A) (w : World) → l.store (k.with_store s w) ≡ l.store w) → Leaves (api k) (api l)
  apart-Leaves apart = record {
    left = λ ns name fresh mutate w w' e h ns' name'.
        ap (λ s. s ns' name') (write-left apart ns name fresh mutate w w' e (k.refused w) h);
  }

abbrev never : World → Option String
never w = none

abbrev pub namespaces : Kind Namespace
namespaces = record {
  store = World.namespaces;
  with_store = λ s w. record w { namespaces = s };
  refused = never;
  stored = λ n. n;
  same = λ s w. refl;
}

abbrev pub projects : Kind GardenerProject
projects = record {
  store = World.projects;
  with_store = λ s w. record w { projects = s };
  refused = World.refusal;
  stored = λ p. p;
  same = λ s w. refl;
}

abbrev pub roles : Kind Role
roles = record {
  store = World.roles;
  with_store = λ s w. record w { roles = s };
  refused = never;
  stored = λ r. r;
  same = λ s w. refl;
}

abbrev pub role_bindings : Kind RoleBinding
role_bindings = record {
  store = World.role_bindings;
  with_store = λ s w. record w { role_bindings = s };
  refused = never;
  stored = λ b. b;
  same = λ s w. refl;
}

abbrev pub quotas : Kind ResourceQuota
quotas = record {
  store = World.quotas;
  with_store = λ s w. record w { quotas = s };
  refused = never;
  stored = λ q. record q { created = true };
  same = λ s w. refl;
}

abbrev pub cluster : Cluster World
cluster = record {
  namespaces = api namespaces;
  projects = api projects;
  roles = api roles;
  role_bindings = api role_bindings;
  quotas = api quotas;
}

pub cluster-ClusterLaws : ClusterLaws cluster
cluster-ClusterLaws = record {
  namespaces = api-ObjectApiLaws namespaces;
  projects = api-ObjectApiLaws projects;
  roles = api-ObjectApiLaws roles;
  role_bindings = api-ObjectApiLaws role_bindings;
  quotas = api-ObjectApiLaws quotas;
  projects_namespaces = apart-Leaves projects namespaces (λ s w. refl);
  roles_namespaces = apart-Leaves roles namespaces (λ s w. refl);
  role_bindings_namespaces = apart-Leaves role_bindings namespaces (λ s w. refl);
  quotas_namespaces = apart-Leaves quotas namespaces (λ s w. refl);
  roles_projects = apart-Leaves roles projects (λ s w. refl);
  role_bindings_projects = apart-Leaves role_bindings projects (λ s w. refl);
  quotas_projects = apart-Leaves quotas projects (λ s w. refl);
  role_bindings_roles = apart-Leaves role_bindings roles (λ s w. refl);
  quotas_roles = apart-Leaves quotas roles (λ s w. refl);
  quotas_role_bindings = apart-Leaves quotas role_bindings (λ s w. refl);
  namespaces_quotas = apart-Leaves namespaces quotas (λ s w. refl);
  projects_quotas = apart-Leaves projects quotas (λ s w. refl);
  roles_quotas = apart-Leaves roles quotas (λ s w. refl);
  role_bindings_quotas = apart-Leaves role_bindings quotas (λ s w. refl);
  stored_label = λ n k v h. h;
  stored_project = λ p. refl;
  stored_role = λ r. refl;
  stored_role_binding = λ b. refl;
  stored_quota = λ q. refl;
}

-- Nothing stands in the garden.
abbrev pub empty_world : World
empty_world = record {
  namespaces = λ _ _. not_found;
  projects = λ _ _. not_found;
  roles = λ _ _. not_found;
  role_bindings = λ _ _. not_found;
  quotas = λ _ _. not_found;
  refusal = none;
}

-- The same, with a server that refuses every project.
abbrev pub refusing_world : World
refusing_world = record empty_world { refusal = some "quota exceeded" }
