-- ===== src/Kube.antt =====
-- The Kubernetes API as the program's clients see it. controller-runtime's client is not part of
-- the repository: it is the argument `ObjectApi` for each kind of object, over a type W of cluster
-- states, with its documented behaviour as `ObjectApiLaws`.
use persephone.Base.{String, ◌≡◌, refl, ◌⊎◌, inl, inr, Option, none}

-- What a `Get` answers: the object, `IsNotFound`, or any other error.
pub data Got (O : Type 0) : Type 0 where
  found : O → Got O
  not_found : Got O
  failed : String → Got O

pub Got-cases :
    {O : Type 0} (g : Got O)
    → ((o : O) × (g ≡ found o)) ⊎ (g ≡ not_found) ⊎ ((e : String) × (g ≡ failed e))
Got-cases (found o) = inl (o, refl)
Got-cases not_found = inr (inl refl)
Got-cases (failed e) = inr (inr (e, refl))

-- `get w namespace name`, and `create_or_patch namespace name fresh mutate w`, which is
-- `controllerutil.CreateOrPatch` on the object `fresh` of that name; an error is its text.
-- `stored` is what the server adds to an object that it stores.
pub record ObjectApi (W O : Type 0) : Type 0 where
  pub get : W → String → String → Got O
  pub create_or_patch : String → String → O → (O → O) → W → Option String × W
  pub stored : O → O

-- What the mutation of a `CreateOrPatch` starts from.
abbrev pub basis : {O : Type 0} → Got O → O → O
basis (found o) fresh = o
basis not_found fresh = fresh
basis (failed e) fresh = fresh

-- A call that returns no error has stored the mutated object and touched no other of its kind.
pub record ObjectApiLaws {W O : Type 0} (api : ObjectApi W O) : Type 0 where
  pub written :
      (ns name : String) (fresh : O) (mutate : O → O) (w w' : W)
      → api.create_or_patch ns name fresh mutate w ≡ (none, w')
      → api.get w' ns name ≡ found (api.stored (mutate (basis (api.get w ns name) fresh)))

-- A write through `a` leaves the objects that `b` reads as they are.
pub record Leaves {W A B : Type 0} (a : ObjectApi W A) (b : ObjectApi W B) : Type 0 where
  pub left :
      (ns name : String) (fresh : A) (mutate : A → A) (w w' : W) (e : Option String)
      → a.create_or_patch ns name fresh mutate w ≡ (e, w')
      → (ns' name' : String) → b.get w' ns' name' ≡ b.get w ns' name'
