-- ===== src/OpenStack/Users.antt =====
-- internal/openstack/clusteruserclientset.go: the roles that a reconciled service user has.
use mathlib.Core.Path.{subst}
use persephone.Base.{String, ◌≡◌, refl, Option, none, some, List, [], ◌∷◌, arith}
use persephone.Base.{Result, ok, err, ◌⊎◌, inl, inr, Option-cases, Result-cases, ap, ◌∙◌}
use persephone.OpenStack.{
  only_one, get_default_service_user_roles, Call, update_user, create_user, assign_role, Identity,
  UserError, assign_one, assign_roles, assign_user_roles, with_roles,
  reconcile_cluster_service_user,
}

-- The calls assign the named roles to the user in their order, each is the only role that Keystone
-- lists under its name, and no assignment failed.
abbrev pub IsAssigned : Identity → String → String → List String → List Call → Type 0
IsAssigned k user project_id [] [] = Unit
IsAssigned k user project_id [] (call ∷ calls) = ⊥
IsAssigned k user project_id (name ∷ names) [] = ⊥
IsAssigned k user project_id (name ∷ names) (call ∷ calls) =
    ((role : String) × k.roles name ≡ ok (role ∷ [])
      × call ≡ assign_role role user project_id
      × k.change (assign_role role user project_id) ≡ none)
    × IsAssigned k user project_id names calls

only_one-found :
    {A : Type 0} (answer : Result String (List A)) (a : A)
    → only_one answer ≡ ok (some a)
    → answer ≡ ok (a ∷ [])
unfolding only_one
only_one-found (err e) a h = ground arith
only_one-found (ok []) a h = ground arith
only_one-found (ok (b ∷ [])) a h = ground arith
only_one-found (ok (b ∷ (c ∷ rest))) a h = ground arith

only_one-empty :
    {A : Type 0} (answer : Result String (List A)) → only_one answer ≡ ok none → answer ≡ ok []
unfolding only_one
only_one-empty (err e) h = ground arith
only_one-empty (ok []) h = refl
only_one-empty (ok (b ∷ [])) h = ground arith
only_one-empty (ok (b ∷ (c ∷ rest))) h = ground arith

assign_one_ok :
    (k : Identity) (user project_id name : String)
    → (assign_one k user project_id name).0 ≡ none
    → (role : String) × k.roles name ≡ ok (role ∷ [])
      × (assign_one k user project_id name).1 ≡ assign_role role user project_id ∷ []
      × k.change (assign_role role user project_id) ≡ none
unfolding assign_one
assign_one_ok k user project_id name h = elim (Result-cases (only_one (k.roles name))) [
  | inl (none, e) ↦ ground arith
  | inl (some role, e) ↦ elim (Option-cases (k.change (assign_role role user project_id))) [
    | inl e' ↦ (role, only_one-found (k.roles name) role e, ground arith, e')
    | inr (x, e') ↦ ground arith
  ]
  | inr (x, e) ↦ ground arith
]

assign_roles_ok :
    (k : Identity) (user project_id : String) (names : List String)
    → (assign_roles k user project_id names).0 ≡ none
    → IsAssigned k user project_id names (assign_roles k user project_id names).1
unfolding assign_roles
assign_roles_ok k user project_id [] = λ _. tt
assign_roles_ok k user project_id (name ∷ names) =
    elim (Option-cases (assign_one k user project_id name).0) [
      | inl e ↦
          let (role, found, calls, done) = assign_one_ok k user project_id name e in
          rw (e, calls, assign_roles)
            λ h. ((role, found, refl, done), assign_roles_ok k user project_id names h)
      | inr (x, e) ↦ rw (e, assign_roles) λ h. ground arith
    ]

-- The change with which a reconciliation starts: the new password is set on the only user of the
-- name, or a user is created with it where there is none.
abbrev pub IsFirstChange : Identity → String → String → String × String → Call → Type 0
IsFirstChange k username project_id (id, password) call =
    (k.users username ≡ ok (id ∷ []) × call ≡ update_user id password)
    ⊎ (k.users username ≡ ok []
        × id ≡ k.new_id
        × call ≡ create_user username k.domain_id password project_id)

abbrev pub IsReconciled : Identity → String → String → String × String → List Call → Type 0
IsReconciled k username project_id found [] = ⊥
IsReconciled k username project_id found (call ∷ calls) =
    IsFirstChange k username project_id found call
    × k.random ≡ ok found.1
    × k.change call ≡ none
    × IsAssigned k found.0 project_id get_default_service_user_roles calls

same : {a b : String × String} → ◌≡◌ {A = Result UserError (String × String)} (ok a) (ok b) → a ≡ b
same h = cc

module _ (k : Identity) (username project_id : String) where
  with_roles_ok :
      (known password : String) (found : String × String) (call : Call) (answer : Option String)
      → k.random ≡ ok password
      → k.change call ≡ answer
      → IsFirstChange k username project_id (known, password) call
      → (with_roles k known project_id password call answer).0 ≡ ok found
      → IsReconciled k username project_id found
          (with_roles k known project_id password call answer).1
  unfolding assign_user_roles
  with_roles_ok known password found call (some e) p a f = λ h. ground arith
  with_roles_ok known password found call none p a f =
      elim (Option-cases (assign_roles k known project_id get_default_service_user_roles).0) [
        | inl e ↦
            rw (e, with_roles)
              λ h.
                subst
                  (λ i.
                    IsReconciled k username project_id i
                      (call ∷ (assign_roles k known project_id get_default_service_user_roles).1))
                  (same h)
                  (f, p, a, assign_roles_ok k known project_id get_default_service_user_roles e)
        | inr (x, e) ↦ rw (e, with_roles) λ h. ground arith
      ]

  -- When the reconciliation gives a user's id and a password, then the generated password was set on
  -- the only user of the name, or on the one created in the domain where there was none; the log
  -- continues with the assignments of the six service user roles in the project, in order, each of
  -- them of the only role of its name; and Keystone refused none of these calls.
  pub reconcile_cluster_service_user-IsReconciled :
      (found : String × String)
      → (reconcile_cluster_service_user k username project_id).0 ≡ ok found
      → IsReconciled k username project_id found
          (reconcile_cluster_service_user k username project_id).1
  unfolding reconcile_cluster_service_user
  reconcile_cluster_service_user-IsReconciled found =
      elim (Result-cases (only_one (k.users username))) [
        | inr (x, e) ↦ rw (e, reconcile_cluster_service_user) λ h. ground arith
        | inl (user, e) ↦ elim (Result-cases k.random) [
          | inr (x, e') ↦ rw (e, e', reconcile_cluster_service_user) λ h. ground arith
          | inl (password, e') ↦ elim (Option-cases user) [
            | inl n ↦
                simp (e, e', n, reconcile_cluster_service_user)
                  (with_roles_ok k.new_id password found
                    (create_user username k.domain_id password project_id) _ e' refl
                    (inr (only_one-empty (k.users username) (e ∙ ap ok n), refl, refl)))
            | inr (known, n) ↦
                simp (e, e', n, reconcile_cluster_service_user)
                  (with_roles_ok known password found (update_user known password) _ e' refl
                    (inl (only_one-found (k.users username) known (e ∙ ap ok n), refl)))
          ]
        ]
      ]
