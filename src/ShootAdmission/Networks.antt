-- ===== src/ShootAdmission/Networks.antt =====
-- internal/webhook/shootadmission/handler.go, getExternalNetworkForProject: which network it takes.
use mathlib.Core.Path.{subst}
use persephone.Base.{
  String, ◌≡◌, refl, ap, ◌∙◌, ◌↔◌, ◌⊎◌, inl, inr, true, false, List, [], ◌∷◌, ◌++◌, arith,
}
use persephone.Base.{ok, All, Bool-cases, Result-cases, delete_func}
use persephone.ShootAdmission.{Env, Network}
use persephone.ShootAdmission.Infrastructure.{
  is_not_usable, single_name, get_external_network_for_project,
}

abbrev IsUsable : Network → Type 0
IsUsable n = (n.external ≡ true) × (n.shared ≡ true)

abbrev IsNotUsable : Network → Type 0
IsNotUsable n = (n.external ≡ false) ⊎ (n.shared ≡ false)

-- One network of the list is external and shared, and it has the name.
pub record HasOnly (name : String) (networks : List Network) : Type 0 where
  pub before : List Network
  pub network : Network
  pub after : List Network
  pub split : networks ≡ before ++ network ∷ after
  pub named : network.name ≡ name
  pub usable : IsUsable network
  pub others_before : All IsNotUsable before
  pub others_after : All IsNotUsable after

not_usable : (n : Network) → is_not_usable n ≡ true → IsNotUsable n
not_usable n h = elim (Bool-cases n.external) [
  | inl e ↦ elim (Bool-cases n.shared) [ inl f ↦ ground arith | inr f ↦ inr f ]
  | inr e ↦ inl e
]

usable : (n : Network) → is_not_usable n ≡ false → IsUsable n
usable n h = (ground arith, ground arith)

none_left : (ns : List Network) → delete_func is_not_usable ns ≡ [] → All IsNotUsable ns
none_left [] h = tt
none_left (n ∷ ns) h = elim (Bool-cases (is_not_usable n)) [
  | inl e ↦ (not_usable n e, none_left ns (ground arith))
  | inr e ↦ ground arith
]

only_left :
    (ns : List Network) (m : Network) → delete_func is_not_usable ns ≡ m ∷ [] → HasOnly m.name ns
only_left [] m h = ground arith
only_left (n ∷ ns) m h = elim (Bool-cases (is_not_usable n)) [
  | inl e ↦
      let k = only_left ns m (ground arith) in
      record {
        before = n ∷ k.before;
        network = k.network;
        after = k.after;
        split = ap (λ r. n ∷ r) k.split;
        named = k.named;
        usable = k.usable;
        others_before = (not_usable n e, k.others_before);
        others_after = k.others_after;
      }
  | inr e ↦ record {
    before = [];
    network = n;
    after = ns;
    split = refl;
    named = ground arith;
    usable = usable n e;
    others_before = tt;
    others_after = none_left ns (ground arith);
  }
]

single_name-ok :
    (ns : List Network) (name : String)
    → single_name ns ≡ ok name
    → (m : Network) × (ns ≡ m ∷ []) × (m.name ≡ name)
single_name-ok [] name h = ground arith
single_name-ok (m ∷ []) name h = (m, refl, ground arith)
single_name-ok (m ∷ (n ∷ rest)) name h = ground arith

none_left_of : (ns : List Network) → All IsNotUsable ns → delete_func is_not_usable ns ≡ []
none_left_of [] h = refl
none_left_of (n ∷ ns) (inl e, h) = let k = none_left_of ns h in ground arith
none_left_of (n ∷ ns) (inr e, h) = let k = none_left_of ns h in ground arith

only_left_of :
    (before after : List Network) (n : Network)
    → IsUsable n
    → All IsNotUsable before
    → All IsNotUsable after
    → delete_func is_not_usable (before ++ n ∷ after) ≡ n ∷ []
only_left_of [] after n u b a = let k = none_left_of after a in ground arith
only_left_of (m ∷ before) after n u (inl e, b) a =
    let k = only_left_of before after n u b a in ground arith
only_left_of (m ∷ before) after n u (inr e, b) a =
    let k = only_left_of before after n u b a in ground arith

-- A name is detected as the floating pool exactly if the networks are listed, one of them is both
-- external and shared, no other is, and it has that name.
pub get_external_network_for_project_iff :
    (env : Env) (name : String)
    → (get_external_network_for_project env ≡ ok name)
      ↔ ((networks : List Network) × (env.networks ≡ ok networks) × HasOnly name networks)
unfolding get_external_network_for_project
get_external_network_for_project_iff env name = (
  elim (Result-cases env.networks) [
    | inr (x, e) ↦ simp (e, get_external_network_for_project) λ h. ground arith
    | inl (ns, e) ↦
        simp (e, get_external_network_for_project)
          λ h.
            let (m, f, g) = single_name-ok (delete_func is_not_usable ns) name h in
            (ns, refl, subst (λ x. HasOnly x ns) g (only_left ns m f))
  ],
  λ (ns, e, k).
      let f = only_left_of k.before k.after k.network k.usable k.others_before k.others_after in
      let g : delete_func is_not_usable ns ≡ k.network ∷ [] =
        ap (delete_func is_not_usable) k.split ∙ f in
      simp (e, g, k.named, get_external_network_for_project),
)
