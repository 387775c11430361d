-- ===== src/OpenStack/ClientSet.antt =====
-- internal/openstack/clientset.go and the end of clusteruserclientset.go: the clients of the regions,
-- and that of a cluster's service user. gophercloud's clients are values of types that are
-- parameters; what it answers is in `Cloud`.
pub mod Served
use persephone.Base.{ℕ, String, Bool, true, false, not, Option, none, some, List, [], ◌∷◌}
use persephone.Base.{Result, ok, err, ◌>>=◌, wrap, if◌then◌else◌}
use persephone.Base.Dict.{Dict, insert}
use persephone.Config.{RegionalConfig}
use persephone.OpenStack.{
  ListError, only_one, Call, UserError, Identity, reconcile_cluster_service_user,
}

-- The fields of gophercloud's options that are set here.
pub record AuthOptions : Type 0 where
  pub identity_endpoint : String
  pub application_credential_id : String
  pub application_credential_secret : String
  pub allow_reauth : Bool
  pub username : String
  pub password : String
  pub domain_id : String
  pub project_id : Option String

-- Clients of a provider, of the identity service and of the network service.
pub record Cloud (P I N : Type 0) : Type 0 where
  pub authenticated_client : AuthOptions → Result String P
  pub new_identity_v3 : P → Result String I
  pub new_network_v2 : P → Result String N
  pub domains : I → String → Result String (List String)

pub record ClientSet (P I N : Type 0) : Type 0 where
  pub provider_client : P
  pub identity_client : I
  pub network_client : N
  pub domain_id : String

pub data ClientError : Type 0 where
  no_identity_client no_network_client no_provider_client : String → ClientError
  no_domain_id : Option ListError → ClientError

-- What `getDomainByName` makes of the answer is a domain, or there is none.
abbrev pub domain_of : Result ListError (Option String) → Result ClientError String
domain_of (err e) = err (no_domain_id (some e))
domain_of (ok none) = err (no_domain_id none)
domain_of (ok (some id)) = ok id

module _ {P I N : Type 0} (k : Cloud P I N) where
  -- `NewClientSet`
  unfoldable pub new_client_set : P → String → Result ClientError (ClientSet P I N)
  new_client_set provider domain_name = do
    identity ← wrap no_identity_client (k.new_identity_v3 provider)
    network ← wrap no_network_client (k.new_network_v2 provider)
    id ← domain_of (only_one (k.domains identity domain_name))
    ok (record {
      provider_client = provider;
      identity_client = identity;
      network_client = network;
      domain_id = id;
    })

  abbrev pub region_options : RegionalConfig → AuthOptions
  region_options rc = record {
    identity_endpoint = rc.identity_endpoint;
    application_credential_id = rc.application_credential_id;
    application_credential_secret = rc.application_credential_secret;
    allow_reauth = true;
    username = "";
    password = "";
    domain_id = "";
    project_id = none;
  }

  -- The body of the loop over the regions, for one that is enabled.
  unfoldable pub region_client_set : String → RegionalConfig → Result ClientError (ClientSet P I N)
  region_client_set domain rc =
      wrap no_provider_client (k.authenticated_client (region_options rc)) >>= λ provider.
      new_client_set provider domain

  -- That loop, with the client sets so far.
  unfoldable pub connect_regions :
      String
      → List (String × RegionalConfig)
      → Dict (ClientSet P I N)
      → Result ClientError (Dict (ClientSet P I N))
  connect_regions domain [] sets = ok sets
  connect_regions domain ((region, rc) ∷ rest) sets = elim rc.enabled [
    | false ↦ connect_regions domain rest sets
    | true ↦ region_client_set domain rc >>= λ c. connect_regions domain rest (insert region c sets)
  ]

  -- `NewRegionOpenStackClientSet`
  unfoldable pub new_region_open_stack_client_set :
      Dict RegionalConfig → String → Result ClientError (Dict (ClientSet P I N))
  new_region_open_stack_client_set regions domain = connect_regions domain regions []
