-- ===== src/ShootController/Events.antt =====
-- internal/controller/shoot/add.go: which events lead to which requests.
use persephone.Base.{
  ℕ, String, Bool, true, false, not, ◌&&◌, ◌==◌, Option, none, some, List, [], ◌∷◌, ◌≡◌, arith,
}
use persephone.Base.{all, eqb, ok, if◌then◌else◌}
use persephone.Base.Dict.{Dict, lookup, get_text}
use persephone.Kube.{Got, found, not_found, failed}
use persephone.Constants.{label_key_shoot_name}
use persephone.Rotation.{InternalSecret, CredentialsBinding}
use persephone.Rotation.Cleanup.{is_deleted}
use persephone.ShootController.{ManagedShoot, Env, delete, reconcile_request}

-- An object of another kind has its metadata only.
pub record Metadata : Type 0 where
  pub deleting : Bool
  pub generation : ℕ
  pub annotations : Dict String
  pub labels : Dict String
  pub finalizers : List String

pub data WatchedObject : Type 0 where
  shoot_object : ManagedShoot → WatchedObject
  other_object : Metadata → WatchedObject

abbrev pub metadata : WatchedObject → Metadata
metadata (shoot_object s) = record {
  deleting = s.deleting;
  generation = s.generation;
  annotations = s.annotations;
  labels = s.labels;
  finalizers = s.finalizers;
}
metadata (other_object m) = m

abbrev has_entry : Dict String → String × String → Bool
has_entry m (k, v) = elim (lookup k m) [ none ↦ false | some w ↦ w == v ]

-- `maps.Equal`
abbrev pub maps_equal : Dict String → Dict String → Bool
maps_equal m n = all (has_entry n) m && all (has_entry m) n

-- `slices.Equal`
abbrev pub slices_equal : List String → List String → Bool
slices_equal [] [] = true
slices_equal [] (t ∷ ts) = false
slices_equal (s ∷ ss) [] = false
slices_equal (s ∷ ss) (t ∷ ts) = s == t && slices_equal ss ts

-- The namespace is not that of Gardener itself, its `GardenNamespace`.
unfoldable pub not_in_garden_namespace : String → String → Bool
not_in_garden_namespace garden_namespace namespace = not (namespace == garden_namespace)

abbrev is_done : WatchedObject → Bool
is_done (shoot_object s) = is_deleted s.shoot.last_operation
is_done (other_object m) = true

-- `deep_equal` is `Semantic.DeepEqual` on the specifications.
abbrev specs_differ : (ManagedShoot → ManagedShoot → Bool) → WatchedObject → WatchedObject → Bool
specs_differ deep_equal (shoot_object s) (shoot_object t) = not (deep_equal s t)
specs_differ deep_equal (shoot_object s) (other_object m) = false
specs_differ deep_equal (other_object m) new = false

-- The test of two objects that are there.
unfoldable pub is_relevant :
    (ManagedShoot → ManagedShoot → Bool) → WatchedObject → WatchedObject → Bool
is_relevant deep_equal old new =
    let o : Metadata = metadata old in
    let n : Metadata = metadata new in
    if n.deleting
    then (if o.deleting then is_done new else true)
    else if not (eqb o.generation n.generation)
    then true
    else if not (maps_equal o.annotations n.annotations)
    then true
    else if not (slices_equal o.finalizers n.finalizers)
    then true
    else if not (maps_equal o.labels n.labels)
    then true
    else specs_differ deep_equal old new

-- `Update` of `shootRelevantUpdatePredicate`
unfoldable pub update :
    (ManagedShoot → ManagedShoot → Bool) → Option WatchedObject → Option WatchedObject → Bool
update deep_equal none new = false
update deep_equal (some old) none = false
update deep_equal (some old) (some new) = is_relevant deep_equal old new

-- A request is a namespace and a name.
abbrev pub request_of : InternalSecret → String × String
request_of secret = (secret.namespace, get_text label_key_shoot_name secret.labels)

-- `MapInternalSecretToShoot`, of an object that is none where it is no secret.
unfoldable pub map_internal_secret_to_shoot : Option InternalSecret → List (String × String)
map_internal_secret_to_shoot none = []
map_internal_secret_to_shoot (some secret) = request_of secret ∷ []

-- `MapCredentialsBindingToShoot`, with the `Get` of the secret that the binding refers to.
unfoldable pub map_credentials_binding_to_shoot :
    (String → String → Got InternalSecret) → Option CredentialsBinding → List (String × String)
map_credentials_binding_to_shoot get none = []
map_credentials_binding_to_shoot get (some binding) =
    elim (get binding.secret_namespace binding.secret_name) [
      | found secret ↦ request_of secret ∷ []
      | not_found ↦ []
      | failed e ↦ []
    ]

-- An update that is dropped, of a Shoot that is being deleted, is one on which the controller would
-- have made no call and asked for no other.
pub dropped_while_deleting :
    (deep_equal : ManagedShoot → ManagedShoot → Bool) (old : WatchedObject) (s : ManagedShoot)
    (env : Env)
    → update deep_equal (some old) (some (shoot_object s)) ≡ false
    → s.deleting ≡ true
    → reconcile_request env (found s) ≡ (ok 0, [])
unfolding update is_relevant reconcile_request delete
dropped_while_deleting deep_equal old s env h d =
    let k : is_deleted s.shoot.last_operation ≡ false = ground arith in
    simp (d, k, delete, reconcile_request)
