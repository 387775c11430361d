-- ===== src/ShootAdmission/Injected.antt =====
-- internal/webhook/shootadmission/handler.go: what an admitted Shoot looks like.
use mathlib.Core.Path.{subst}
use persephone.ShootAdmission.Completed.{IsCompleted, set_infrastructure-IsCompleted}
use persephone.Base.{
  eq_iff, ◌==◌, sym, String, ◌≡◌, ◌≢◌, refl, ap, ◌⊎◌, inl, inr, true, false, not, ◌&&◌, Option,
  none, some, List, [], ◌∷◌, arith,
}
use persephone.Base.{ok, Bool-cases, Result-cases}
use persephone.Base.Dict.{Dict}
use persephone.UserInfo.{
  OpenStackUserInfo, has_open_stack_user_info, open_stack_user_info_from_extra,
}
use persephone.Rotation.{Shoot, CredentialsBinding}
use persephone.ShootAdmission.{
  Env, Operation, create, update, delete, connect, Request, ShootSpec, ShootObject,
}
use persephone.ShootAdmission.Credentials.{ensure_open_stack_credential_internal_secret_and_binding}
use persephone.ShootAdmission.Infrastructure.{complete_spec}
use persephone.ShootAdmission.Handler.{
  is_create, is_nil, is_workerless, is_responsible, issue_credentials, configure, finish, mutate,
  mutate_for, handle, new_cluster_user_client_set, bind, get_cloud_profile_name, get_provider_type,
  seed_labels,
}

-- Where a Shoot with workers is created, its binding is one that was ensured; else there is none.
abbrev pub IsIssued :
    Env → Operation → OpenStackUserInfo → ShootObject → Option CredentialsBinding → Type 0
IsIssued env operation o s binding =
    ((is_create operation && not (is_workerless s.spec) ≡ false) × (binding ≡ none))
    ⊎ ((is_create operation && not (is_workerless s.spec) ≡ true)
        × ((b : CredentialsBinding) × (binding ≡ some b)
            × ((ensure_open_stack_credential_internal_secret_and_binding env s.shoot o).0 ≡ ok b)))

issue_credentials-IsIssued :
    (env : Env) (operation : Operation) (o : OpenStackUserInfo) (s : ShootObject)
    (binding : Option CredentialsBinding)
    → (issue_credentials env operation o s).0 ≡ ok binding
    → IsIssued env operation o s binding
unfolding issue_credentials
issue_credentials-IsIssued env operation o s binding h =
    elim (Bool-cases (is_create operation && not (is_workerless s.spec))) [
      | inr e ↦ inl (e, ground arith)
      | inl e ↦
          elim (Result-cases
            (ensure_open_stack_credential_internal_secret_and_binding env s.shoot o).0) [
              | inl (b, f) ↦ inr (e, (b, ground arith, f))
              | inr (x, f) ↦ ground arith
            ]
    ]

-- The configuration of a Shoot, complete or not touched.
abbrev pub IsConfigured : Env → ShootSpec → ShootSpec → Type 0
IsConfigured env s spec =
    ((s.workers ≡ []) × (spec ≡ s)) ⊎ ((s.workers ≢ []) × IsCompleted env s spec)

-- A name that is set, or else that of the OpenStack extension.
abbrev pub IsNamed : String → String → Type 0
IsNamed given name = ((given ≢ "") × (name ≡ given)) ⊎ ((given ≡ "") × (name ≡ "openstack"))

-- The Shoot names the binding, and nothing else of it is changed.
abbrev pub IsBound : Option CredentialsBinding → Shoot → Shoot → Type 0
IsBound none before after = after ≡ before
IsBound (some b) before after = after ≡ record before { credentials_binding_name = some b.name }

bind-IsBound :
    (binding : Option CredentialsBinding) (shoot : Shoot)
    → IsBound binding shoot (bind binding shoot)
bind-IsBound none shoot = refl
bind-IsBound (some b) shoot = refl

default-IsNamed :
    (name : String) → IsNamed name (elim (name == "") [ true ↦ "openstack" | false ↦ name ])
default-IsNamed name = elim (Bool-cases (name == "")) [
  | inl e ↦ inr ((eq_iff name "").0 e, simp e refl)
  | inr e ↦ inl (ground (arith, eq_iff name ""), simp e refl)
]

-- What an admitted Shoot has. The first part holds for each, the next for those that are created,
-- and the last for those with workers.
pub record IsInjected (env : Env) (operation : Operation) (o : OpenStackUserInfo)
    (s done : ShootObject) : Type 0 where
  pub connected : (new_cluster_user_client_set env o s.shoot).0 ≡ ok tt
  pub region : done.spec.region ≡ o.region
  pub profile : String
  pub profiled : done.spec.cloud_profile ≡ some ("CloudProfile", profile)
  pub profile_named : IsNamed env.default_cloud_profile_name profile
  pub provider : IsNamed env.default_provider_type done.spec.provider_type
  pub seeded :
      ((operation ≡ create)
        × (done.spec.seed_selector ≡ some (("seed.gardener.cloud/region", o.region) ∷ [])))
      ⊎ ((operation ≢ create) × (done.spec.seed_selector ≡ s.spec.seed_selector))
  pub binding : Option CredentialsBinding
  pub issued : IsIssued env operation o s binding
  pub bound : done.shoot ≡ bind binding s.shoot
  pub bound_name : IsBound binding s.shoot done.shoot
  pub spec : ShootSpec
  pub finished : done ≡ finish env operation o binding s.shoot spec
  pub configured : IsConfigured env s.spec spec
  pub workers : done.spec.workers ≡ s.spec.workers
  pub infrastructure : done.spec.infrastructure_config ≡ spec.infrastructure_config
  pub control_plane : done.spec.control_plane_config ≡ spec.control_plane_config
  pub networking : done.spec.networking ≡ spec.networking

seeded_of :
    (operation : Operation) (region : String) (old new : Option (Dict String))
    → new ≡ elim (is_create operation) [ true ↦ some (seed_labels region) | false ↦ old ]
    → ((operation ≡ create) × (new ≡ some (seed_labels region)))
      ⊎ ((operation ≢ create) × (new ≡ old))
seeded_of create region old new h = inl (refl, h)
seeded_of update region old new h = inr (ground arith, h)
seeded_of delete region old new h = inr (ground arith, h)
seeded_of connect region old new h = inr (ground arith, h)

pub nil_of : (xs : List String) → is_nil xs ≡ true → xs ≡ []
nil_of [] h = refl
nil_of (x ∷ xs) h = ground arith

configure-ok :
    (env : Env) (o : OpenStackUserInfo) (s done : ShootSpec)
    → (configure env o s).0 ≡ ok done
    → IsConfigured env s done
unfolding configure
configure-ok env o s done h = elim (Bool-cases (is_workerless s)) [
  | inl e ↦ inl (nil_of s.workers e, ground arith)
  | inr e ↦ inr (ground arith, set_infrastructure-IsCompleted env o s done (ground arith))
]

kept :
    (env : Env) (s spec : ShootSpec)
    → IsConfigured env s spec
    → (spec.workers ≡ s.workers) × (spec.seed_selector ≡ s.seed_selector)
unfolding complete_spec
kept env s spec (inl (e, f)) = (ap (λ x. x.workers) f, ap (λ x. x.seed_selector) f)
kept env s spec (inr (e, k)) =
    (ap (λ x. x.workers) k.completed, ap (λ x. x.seed_selector) k.completed)

unbound_of_workerless :
    (env : Env) (operation : Operation) (o : OpenStackUserInfo) (s : ShootObject)
    (binding : Option CredentialsBinding) (workers : List String)
    → workers ≡ s.spec.workers
    → IsIssued env operation o s binding
    → elim (is_nil workers) [ true ↦ none | false ↦ binding ] ≡ binding
unbound_of_workerless env operation o s binding workers w (inl (e, f)) =
    elim (Bool-cases (is_nil workers)) [ inl g ↦ ground arith | inr g ↦ ground arith ]
unbound_of_workerless env operation o s binding workers w (inr (e, f)) =
    let g : is_nil workers ≡ false = rw w ground arith in ground arith

module _ (env : Env) (operation : Operation) (o : OpenStackUserInfo) (s : ShootObject) where
  finish-IsInjected :
      (binding : Option CredentialsBinding) (spec : ShootSpec)
      → (new_cluster_user_client_set env o s.shoot).0 ≡ ok tt
      → IsIssued env operation o s binding
      → IsConfigured env s.spec spec
      → IsInjected env operation o s (finish env operation o binding s.shoot spec)
  unfolding finish get_cloud_profile_name get_provider_type
  finish-IsInjected binding spec connected issued configured =
      let bound_to_binding : (finish env operation o binding s.shoot spec).shoot
          ≡ bind binding s.shoot =
        ap (λ x. bind x s.shoot)
          (unbound_of_workerless env operation o s binding spec.workers
            (kept env s.spec spec configured).0 issued) in
      record {
        connected = connected;
        region = refl;
        profile = get_cloud_profile_name env;
        profiled = refl;
        profile_named = default-IsNamed env.default_cloud_profile_name;
        provider = default-IsNamed env.default_provider_type;
        seeded = seeded_of operation o.region s.spec.seed_selector _ (
            ap (λ x. elim (is_create operation) [ true ↦ some (seed_labels o.region) | false ↦ x ])
              (kept env s.spec spec configured).1);
        binding = binding;
        issued = issued;
        bound = bound_to_binding;
        bound_name =
            subst (IsBound binding s.shoot) (sym bound_to_binding) (bind-IsBound binding s.shoot);
        spec = spec;
        finished = refl;
        configured = configured;
        workers = (kept env s.spec spec configured).0;
        infrastructure = refl;
        control_plane = refl;
        networking = refl;
      }

  mutate-IsInjected :
      (done : ShootObject)
      → (mutate env operation o s).0 ≡ ok done
      → IsInjected env operation o s done
  unfolding mutate
  mutate-IsInjected done h = elim (Result-cases (new_cluster_user_client_set env o s.shoot).0) [
    | inr (x, e) ↦ ground arith
    | inl (u, e) ↦ elim (Result-cases (issue_credentials env operation o s).0) [
      | inr (x, f) ↦ ground arith
      | inl (binding, f) ↦ elim (Result-cases (configure env o s.spec).0) [
        | inr (x, g) ↦ ground arith
        | inl (spec, g) ↦
            let k : finish env operation o binding s.shoot spec ≡ done = ground arith in
            subst (IsInjected env operation o s) k (
              finish-IsInjected binding spec e
                (issue_credentials-IsIssued env operation o s binding f)
                (configure-ok env o s.spec spec g))
      ]
    ]
  ]

-- Where `handle` admits a Shoot that it is responsible for, for a user with an OpenStack identity,
-- the Shoot then has that identity's region, the default cloud profile and provider type, and a seed
-- of its region if it is created. With workers, it has what the user gave of the network and the
-- control plane, and the defaults for what was not given; and the infrastructure that the user gave,
-- with the workers' network of the nodes where it has none, and the floating pool that was given or
-- else is the only external, shared network. Created with workers, it names a binding that was
-- ensured. The rest of it is unchanged.
pub handle-IsInjected :
    (env : Env) (s done : ShootObject) (request : Request)
    → is_responsible request ≡ true
    → has_open_stack_user_info request.extra ≡ true
    → (handle env (some s) (ok request)).0 ≡ ok done
    → (o : OpenStackUserInfo) × (open_stack_user_info_from_extra request.extra ≡ ok o)
      × (env.supports o.region ≡ true)
      × IsInjected env request.operation o s done
unfolding handle mutate_for
handle-IsInjected env s done request r i h =
    elim (Result-cases (open_stack_user_info_from_extra request.extra)) [
      | inr (x, e) ↦ ground arith
      | inl (o, e) ↦ elim (Bool-cases (env.supports o.region)) [
        | inr f ↦ ground arith
        | inl f ↦ (o, e, f, mutate-IsInjected env request.operation o s done (ground arith))
      ]
    ]
