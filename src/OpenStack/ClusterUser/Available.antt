-- ===== src/OpenStack/ClusterUser/Available.antt =====
-- internal/openstack/clusteruserclientset.go: for whom the clients of a cluster's user are.
use mathlib.Core.Path.{subst}
use persephone.Base.{ℕ, String, ◌≡◌, refl, ap, inl, inr, Option, some, arith}
use persephone.Base.{ok, Result-cases, Option-cases}
use persephone.OpenStack.{Identity, reconcile_cluster_service_user}
use persephone.OpenStack.Users.{IsReconciled, reconcile_cluster_service_user-IsReconciled}
use persephone.OpenStack.ClientSet.{AuthOptions, Cloud}
use persephone.OpenStack.ClusterUser.{
  ClusterUserClientSet, Clients, password_options, cluster_user_client_set, try_clients,
  new_cluster_user_client_set,
}

module _ {P I N : Type 0} where
  -- Each client is what one and the same try was answered.
  pub record IsLoggedIn (k : Cloud P I N) (o : AuthOptions) (c : Clients P I N) : Type 0 where
    pub provider : k.authenticated_client o ≡ ok c.provider
    pub identity : k.new_identity_v3 c.provider ≡ ok c.identity
    pub network : k.new_network_v2 c.provider ≡ ok c.network

  try_clients-IsLoggedIn :
      (k : Cloud P I N) (o : AuthOptions) (c : Clients P I N)
      → try_clients k o ≡ some c
      → IsLoggedIn k o c
  unfolding try_clients
  try_clients-IsLoggedIn k o c h = elim (Result-cases (k.authenticated_client o)) [
    | inr (x, e) ↦ ground arith
    | inl (p, e) ↦ elim (Result-cases (k.new_identity_v3 p)) [
      | inr (x, f) ↦ ground arith
      | inl (i, f) ↦ elim (Result-cases (k.new_network_v2 p)) [
        | inr (x, g) ↦ ground arith
        | inl (n, g) ↦
            let same : record { provider = p; identity = i; network = n } ≡ c = ground arith in
            subst (IsLoggedIn k o) same (record { provider = e; identity = f; network = g })
      ]
    ]
  ]

  module _ (poll : (ℕ → Option (Clients P I N)) → Option (Clients P I N)) (cloud : ℕ → Cloud P I N)
      (k : Identity) (endpoint username project_id : String) where
    -- What a client set for the user is: the user was reconciled, and the clients are those of a
    -- try with the password that was set.
    pub record IsAvailable (set : ClusterUserClientSet P I N) : Type 0 where
      pub user : String
      pub password : String
      pub reconciled :
          IsReconciled k username project_id
            (user, password)
            (new_cluster_user_client_set poll cloud k endpoint username project_id).1
      pub attempt : ℕ
      pub clients : Clients P I N
      pub options : AuthOptions
      pub logged_in : IsLoggedIn (cloud attempt) options clients
      pub at_endpoint : options.identity_endpoint ≡ endpoint
      pub by_user : options.username ≡ username
      pub with_password : options.password ≡ password
      pub in_domain : options.domain_id ≡ k.domain_id
      pub to_project : options.project_id ≡ some project_id
      pub no_credential : options.application_credential_id ≡ ""
      pub provider : set.client_set.provider_client ≡ clients.provider
      pub identity : set.client_set.identity_client ≡ clients.identity
      pub network : set.client_set.network_client ≡ clients.network
      pub domain : set.client_set.domain_id ≡ k.domain_id
      pub project : set.project_id ≡ project_id
      pub of_user : set.user ≡ user

    -- Where `NewClusterUserClientSet` gives a client set, the service user was reconciled, with a new
    -- password and its roles in the project, and all three clients are of one try, which logged in
    -- at the given endpoint, with the scope of that project, by that user's name and domain and with
    -- that password, and no application credential; if the poll gives only what a try gave.
    pub new_cluster_user_client_set-IsAvailable :
        (set : ClusterUserClientSet P I N)
        → ((tries : ℕ → Option (Clients P I N)) (c : Clients P I N)
            → poll tries ≡ some c
            → (n : ℕ) × (tries n ≡ some c))
        → (new_cluster_user_client_set poll cloud k endpoint username project_id).0 ≡ ok set
        → IsAvailable set
    unfolding new_cluster_user_client_set
    new_cluster_user_client_set-IsAvailable set sound h =
        elim (Result-cases (reconcile_cluster_service_user k username project_id).0) [
          | inr (x, e) ↦ ground arith
          | inl ((user, password), e) ↦
              let tries : ℕ → Option (Clients P I N) = λ n.
                try_clients (cloud n)
                  (password_options endpoint username password k.domain_id project_id) in
              elim (Option-cases (poll tries)) [
                | inl f ↦ ground arith
                | inr (c, f) ↦
                    let (n, g) = sound tries c f in
                    let made : set ≡ cluster_user_client_set k project_id user c = ground arith in
                    record {
                      user = user;
                      password = password;
                      reconciled =
                          reconcile_cluster_service_user-IsReconciled k username project_id
                            (user, password) e;
                      attempt = n;
                      clients = c;
                      options = password_options endpoint username password k.domain_id project_id;
                      logged_in = try_clients-IsLoggedIn (cloud n) _ c g;
                      at_endpoint = refl;
                      by_user = refl;
                      with_password = refl;
                      in_domain = refl;
                      to_project = refl;
                      no_credential = refl;
                      provider = ap (λ x. x.client_set.provider_client) made;
                      identity = ap (λ x. x.client_set.identity_client) made;
                      network = ap (λ x. x.client_set.network_client) made;
                      domain = ap (λ x. x.client_set.domain_id) made;
                      project = ap (λ x. x.project_id) made;
                      of_user = ap (λ x. x.user) made;
                    }
              ]
        ]
