-- ===== src/OpenStack/ClusterUser.antt =====
-- internal/openstack/clusteruserclientset.go, NewClusterUserClientSet: the clients of a cluster's
-- service user. The waiting, `wait.PollUntilContextCancel` with its timeout and interval, is a
-- library's: `poll` is given the outcome of each try, which is none where the user is not available
-- yet, and gives that of a try, or none where the time was up before.
pub mod Available
use persephone.Base.{
  ℕ, String, ◌≡◌, refl, sym, ap, ◌∙◌, false, Option, none, some, List, [], ◌∷◌, ◌++◌, arith,
}
use persephone.Base.{Result, ok, err, ◌>>=◌, Result-cases, Option-cases}
use persephone.Base.Runs.{Run}
use persephone.OpenStack.{Identity, Call, UserError, reconcile_cluster_service_user}
use persephone.OpenStack.ClientSet.{AuthOptions, Cloud, ClientSet}
use persephone.OpenStack.Users.{IsReconciled, reconcile_cluster_service_user-IsReconciled}

pub record ClusterUserClientSet (P I N : Type 0) : Type 0 where
  pub client_set : ClientSet P I N
  pub project_id : String
  pub user : String

pub data ClusterUserError : Type 0 where
  failed_to_create : UserError → ClusterUserError
  failed_waiting : ClusterUserError

abbrev pub password_options : String → String → String → String → String → AuthOptions
password_options endpoint username password domain_id project_id = record {
  identity_endpoint = endpoint;
  application_credential_id = "";
  application_credential_secret = "";
  allow_reauth = false;
  username = username;
  password = password;
  domain_id = domain_id;
  project_id = some project_id;
}

-- The three clients of a try.
pub record Clients (P I N : Type 0) : Type 0 where
  pub provider : P
  pub identity : I
  pub network : N

module _ {P I N : Type 0} where
  -- One try of the poll: an error of any of the three calls is that it has to be tried again.
  unfoldable pub try_clients : Cloud P I N → AuthOptions → Option (Clients P I N)
  try_clients k o = elim (k.authenticated_client o) [
    | err e ↦ none
    | ok provider ↦ elim (k.new_identity_v3 provider) [
      | err e ↦ none
      | ok identity ↦ elim (k.new_network_v2 provider) [
        | err e ↦ none
        | ok network ↦ some (record { provider = provider; identity = identity; network = network })
      ]
    ]
  ]

  -- The set that is returned.
  abbrev pub cluster_user_client_set :
      Identity → String → String → Clients P I N → ClusterUserClientSet P I N
  cluster_user_client_set k project_id user c = record {
    client_set = record {
      provider_client = c.provider;
      identity_client = c.identity;
      network_client = c.network;
      domain_id = k.domain_id;
    };
    project_id = project_id;
    user = user;
  }

  module _ (poll : (ℕ → Option (Clients P I N)) → Option (Clients P I N)) (cloud : ℕ → Cloud P I N)
      (k : Identity) (endpoint username project_id : String) where
    -- The part after the user was reconciled.
    abbrev pub wait_for :
        Result UserError (String × String) → Result ClusterUserError (ClusterUserClientSet P I N)
    wait_for (err e) = err (failed_to_create e)
    wait_for (ok (id, password)) =
        elim (poll λ n.
          try_clients (cloud n)
            (password_options endpoint username password k.domain_id project_id)) [
              | none ↦ err failed_waiting
              | some c ↦ ok (cluster_user_client_set k project_id id c)
            ]

    -- `NewClusterUserClientSet`
    unfoldable pub new_cluster_user_client_set :
        Result ClusterUserError (ClusterUserClientSet P I N) × List Call
    new_cluster_user_client_set =
        let (r, calls) = reconcile_cluster_service_user k username project_id in (wait_for r, calls)
