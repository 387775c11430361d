-- ===== src/OpenStack.antt =====
-- internal/openstack: the cluster's service user and its application credentials
-- (clusteruserclientset.go, clientset.go). Keystone is not part of the repository: what it answers
-- to a list call is an argument, and the calls that change something are a log. Times are in
-- seconds.
pub mod Users
pub mod Credentials
pub mod Catalog
pub mod ClientSet
pub mod ClusterUser
use persephone.Base.{
  ℕ, ◌+◌, String, Bool, true, false, ◌==◌, not, Option, none, some, List, [], ◌∷◌, ◌++◌,
}
use persephone.Base.{Result, ok, err, ltb, leb, if◌then◌else◌}
use persephone.Base.Texts.{has_prefix}

-- What `GetUserByName`, `getRoleByName` and `getDomainByName` make of a list: its only element,
-- none where it is empty, or the error that there are several.
pub data ListError : Type 0 where
  failed_to_list : String → ListError
  found_multiple : ListError

unfoldable pub only_one {ℓ} : {A : Type ℓ} → Result String (List A) → Result ListError (Option A)
only_one (err e) = err (failed_to_list e)
only_one (ok []) = ok none
only_one (ok (a ∷ [])) = ok (some a)
only_one (ok (a ∷ (b ∷ rest))) = err found_multiple

-- `GetDefaultServiceUserRoles`
abbrev pub get_default_service_user_roles : List String
get_default_service_user_roles =
    "compute_admin" ∷ "member" ∷ "network_admin" ∷ "objectstore_admin" ∷ "sharedfilesystem_admin"
    ∷ "volume_admin" ∷ []

-- The calls to Keystone that change a user: `update_user id password`, `create_user name domain_id
-- password default_project_id`, `assign_role role_id user_id project_id` and `delete_user id`.
pub data Call : Type 0 where
  update_user : String → String → Call
  create_user : String → String → String → String → Call
  assign_role : String → String → String → Call
  delete_user : String → Call

-- The client set: its domain, and what Keystone answers to the listings by name, the users being
-- those of the domain, and with which error, if any, to a change. A user that is created gets an
-- id. `random` is the answer of the password generator.
pub record Identity : Type 0 where
  pub users : String → Result String (List String)
  pub roles : String → Result String (List String)
  pub domain_id : String
  pub random : Result String String
  pub change : Call → Option String
  pub new_id : String

pub data UserError : Type 0 where
  failed_to_get_user : ListError → UserError
  failed_to_generate failed_to_change : String → UserError
  failed_to_get_role : String → Option ListError → UserError
  failed_to_assign : String → String → UserError

-- `getRoleByName` and the assignment of one role; the log has the call also where it fails.
unfoldable pub assign_one : Identity → String → String → String → Option UserError × List Call
assign_one k user project_id role_name = elim (only_one (k.roles role_name)) [
  | err e ↦ (some (failed_to_get_role role_name (some e)), [])
  | ok none ↦ (some (failed_to_get_role role_name none), [])
  | ok (some role) ↦
      let call : Call = assign_role role user project_id in
      elim (k.change call) [
        | some e ↦ (some (failed_to_assign role_name e), call ∷ [])
        | none ↦ (none, call ∷ [])
      ]
]

-- The loop of `assignUserRoles`.
unfoldable pub assign_roles :
    Identity → String → String → List String → Option UserError × List Call
assign_roles k user project_id [] = (none, [])
assign_roles k user project_id (role_name ∷ rest) =
    let (e, calls) = assign_one k user project_id role_name in
    elim e [
      | some x ↦ (some x, calls)
      | none ↦ let (e', later) = assign_roles k user project_id rest in (e', calls ++ later)
    ]

unfoldable pub assign_user_roles : Identity → String → String → Option UserError × List Call
assign_user_roles k user project_id = assign_roles k user project_id get_default_service_user_roles

-- The end of `reconcileClusterServiceUser`, after the user was updated or created by `call`, with
-- the answer to that.
abbrev pub with_roles :
    Identity
    → String
    → String
    → String
    → Call
    → Option String
    → Result UserError (String × String) × List Call
with_roles k id project_id password call (some e) = (err (failed_to_change e), call ∷ [])
with_roles k id project_id password call none =
    let (e, calls) = assign_user_roles k id project_id in
    (elim e [ some x ↦ err x | none ↦ ok (id, password) ], call ∷ calls)

-- `reconcileClusterServiceUser`: the id of the user, and the new password.
unfoldable pub reconcile_cluster_service_user :
    Identity → String → String → Result UserError (String × String) × List Call
reconcile_cluster_service_user k username project_id = elim (only_one (k.users username)) [
  | err e ↦ (err (failed_to_get_user e), [])
  | ok user ↦ elim k.random [
    | err e ↦ (err (failed_to_generate e), [])
    | ok password ↦ elim user [
      | some id ↦
          let call : Call = update_user id password in
          with_roles k id project_id password call (k.change call)
      | none ↦
          let call : Call = create_user username k.domain_id password project_id in
          with_roles k k.new_id project_id password call (k.change call)
    ]
  ]
]

-- `DeleteClusterServiceUser`; a user that is not there needs no call.
unfoldable pub delete_cluster_service_user : Identity → String → Option UserError × List Call
delete_cluster_service_user k username = elim (only_one (k.users username)) [
  | err e ↦ (some (failed_to_get_user e), [])
  | ok none ↦ (none, [])
  | ok (some id) ↦ (
    elim (k.change (delete_user id)) [ some e ↦ some (failed_to_change e) | none ↦ none ],
    delete_user id ∷ [],
  )
]

pub record ApplicationCredential : Type 0 where
  pub id : String
  pub name : String
  pub secret : String
  pub expires_at : ℕ

-- `constants.ApplicationCredentialsRenewTime`, 24 hours
abbrev pub renew_time : ℕ
renew_time = 86400

-- The sort by expiry, the soonest first.
unfoldable pub insert_by_expiry :
    ApplicationCredential → List ApplicationCredential → List ApplicationCredential
insert_by_expiry c [] = c ∷ []
insert_by_expiry c (d ∷ rest) =
    if leb c.expires_at d.expires_at then c ∷ d ∷ rest else d ∷ insert_by_expiry c rest

unfoldable pub sort_by_expiry : List ApplicationCredential → List ApplicationCredential
unfolding insert_by_expiry
sort_by_expiry [] = []
sort_by_expiry (c ∷ rest) = insert_by_expiry c (sort_by_expiry rest)

-- `slices.DeleteFunc` of the credentials whose name lacks the prefix.
unfoldable pub with_prefix : String → List ApplicationCredential → List ApplicationCredential
with_prefix prefix [] = []
with_prefix prefix (c ∷ rest) =
    let kept = with_prefix prefix rest in if not (has_prefix c.name prefix) then kept else c ∷ kept

-- The loop at the end: the first that is valid for longer than the renew time.
unfoldable pub first_valid : ℕ → List ApplicationCredential → Option ApplicationCredential
first_valid now [] = none
first_valid now (c ∷ rest) =
    let later = first_valid now rest in
    if ltb (now + renew_time) c.expires_at then some c else later

-- `GetValidApplicationCredential`
unfoldable pub get_valid_application_credential :
    ℕ
    → String
    → Result String (List ApplicationCredential)
    → Result String (Option ApplicationCredential)
get_valid_application_credential now prefix (err e) = err e
get_valid_application_credential now prefix (ok credentials) =
    ok (first_valid now (sort_by_expiry (with_prefix prefix credentials)))
