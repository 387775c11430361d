-- ===== src/Examples/Keystone.antt =====
-- A service user is reconciled, a credential taken for use again, an endpoint looked up.
use persephone.Base.{String, ◌≡◌, refl, Option, none, List, [], ◌∷◌, Result, ok, err}
use persephone.Auth.{CatalogEntry}
use persephone.OpenStack.{
  Identity, reconcile_cluster_service_user, ApplicationCredential, get_valid_application_credential,
  assign_user_roles, assign_roles, assign_one, only_one,
}
use persephone.Base.{
  ℕ, Bool, true, false, inl, inr, some, ◌==◌, ◌&&◌, ltb, arith, Option-cases, if◌then◌else◌,
}
use persephone.Base.Dict.{Dict, lookup}
use persephone.Config.{RegionalConfig}
use persephone.OpenStack.ClientSet.{
  Cloud, ClientSet, new_client_set, region_client_set, connect_regions,
  new_region_open_stack_client_set,
}
use persephone.OpenStack.ClientSet.Served.{
  IsConnected, new_region_open_stack_client_set-IsConnected,
}
use persephone.OpenStack.ClusterUser.{
  Clients, cluster_user_client_set, try_clients, new_cluster_user_client_set,
}
use persephone.OpenStack.ClusterUser.Available.{
  IsAvailable, new_cluster_user_client_set-IsAvailable,
}
use persephone.OpenStack.Credentials.{IsChoice, get_valid_application_credential-IsChoice}
use persephone.OpenStack.Catalog.{EndpointOpts, get_persephone_endpoint}
use persephone.OpenStack.Catalog.Search.{IsOutcome, get_persephone_endpoint-IsOutcome}

-- Each role has the id of its name; no user is there yet.
abbrev identity : Identity
identity = record {
  users = λ name. ok [];
  roles = λ name. ok (name ∷ []);
  domain_id = "d9";
  random = ok "secret";
  change = λ call. none;
  new_id = "u9";
}

abbrev credentials : List ApplicationCredential
credentials =
    record { id = "c1"; name = "shoot-1"; secret = "s"; expires_at = 200000 }
    ∷ record { id = "c2"; name = "shoot-2"; secret = "s"; expires_at = 100000 }
    ∷ record { id = "c3"; name = "other"; secret = "s"; expires_at = 90000 }
    ∷ []

reuse_example :
    (found : Option ApplicationCredential) × get_valid_application_credential 1000 "shoot"
        (ok credentials)
      ≡ ok found
    × IsChoice 1000 "shoot" credentials found
reuse_example = get_valid_application_credential-IsChoice 1000 "shoot" credentials

abbrev catalog : List CatalogEntry
catalog =
    record {
      service_type = "kubernetes";
      service_name = "persephone-canary";
      endpoints =
          record { interface = "public"; region = "qa"; url = "https://persephone.qa" }
          ∷ record { interface = "internal"; region = "qa"; url = "https://internal.qa" }
          ∷ [];
    }
    ∷ []

abbrev locator : EndpointOpts → Result String String
locator opts = err "no endpoint"

catalog_example :
    IsOutcome "canary" catalog (get_persephone_endpoint locator (ok catalog) "canary" "")
catalog_example = get_persephone_endpoint-IsOutcome locator catalog "canary"

-- A cloud that knows the password of the user; the poll tries three times.
abbrev cloud : ℕ → Cloud String String String
cloud n = record {
  authenticated_client =
      λ o. if o.password == "secret" && ltb 0 n then ok o.identity_endpoint else err "unknown user";
  new_identity_v3 = λ p. ok "identity";
  new_network_v2 = λ p. ok "network";
  domains = λ i name. ok ("d9" ∷ []);
}

abbrev or_next : {A : Type 0} → Option A → Option A → Option A
or_next (some a) b = some a
or_next none b = b

abbrev poll : (ℕ → Option (Clients String String String)) → Option (Clients String String String)
poll tries = or_next (tries 0) (or_next (tries 1) (tries 2))

poll_tries :
    (tries : ℕ → Option (Clients String String String)) (c : Clients String String String)
    → poll tries ≡ some c
    → (n : ℕ) × (tries n ≡ some c)
poll_tries tries c h = elim (Option-cases (tries 0)) [
  | inr (x, e) ↦ (0, ground arith)
  | inl e ↦ elim (Option-cases (tries 1)) [
    | inr (x, f) ↦ (1, ground arith)
    | inl f ↦ (2, ground arith)
  ]
]

abbrev clients : Clients String String String
clients = record { provider = "https://identity.qa"; identity = "identity"; network = "network" }

client_example :
    IsAvailable poll cloud identity "https://identity.qa" "kubernetes-a" "p1"
      (cluster_user_client_set identity "p1" "u9" clients)
unfolding new_cluster_user_client_set try_clients reconcile_cluster_service_user assign_user_roles
    assign_roles assign_one only_one
client_example =
    new_cluster_user_client_set-IsAvailable poll cloud identity "https://identity.qa" "kubernetes-a"
      "p1" (cluster_user_client_set identity "p1" "u9" clients) poll_tries refl

abbrev regional : Bool → String → RegionalConfig
regional enabled endpoint = record {
  enabled = enabled;
  identity_endpoint = endpoint;
  application_credential_id = "c1";
  application_credential_secret = "secret";
  audit_transport_url = "";
}

abbrev regions : Dict RegionalConfig
regions =
    ("qa", regional true "https://identity.qa") ∷ ("eu", regional false "https://identity.eu") ∷ []

abbrev open_cloud : Cloud String String String
open_cloud = record {
  authenticated_client = λ o. ok o.identity_endpoint;
  new_identity_v3 = λ p. ok "identity";
  new_network_v2 = λ p. ok "network";
  domains = λ i name. ok ("d9" ∷ []);
}

abbrev sets : Dict (ClientSet String String String)
sets =
    (
      "qa",
      record {
        provider_client = "https://identity.qa";
        identity_client = "identity";
        network_client = "network";
        domain_id = "d9";
      },
    )
    ∷ []

regions_example : IsConnected open_cloud "users" (lookup "eu" regions) none (lookup "eu" sets)
unfolding new_region_open_stack_client_set connect_regions region_client_set new_client_set only_one
regions_example =
    new_region_open_stack_client_set-IsConnected open_cloud "users" regions sets "eu"
      (refl, (refl, tt)) refl
