-- ===== src/OpenStack/Catalog.antt =====
-- internal/openstack/catalog.go: the search for the service's endpoint in the catalog.
pub mod Search
use mathlib.Core.List.{Memᴰ}
use persephone.Base.{
  ℕ, ◌+◌, ◌≤◌, String, ◌<>◌, ◌≡◌, refl, Bool, true, false, ◌==◌, ◌&&◌, Option, none, some, List, [],
  ◌∷◌, ◌++◌,
}
use persephone.Base.{
  Result, ok, err, arith, Bool-cases, inl, inr, length, All, if◌then◌else◌, All-append,
}
use persephone.Auth.{CatalogEntry, CatalogEndpoint}

-- `GetPersephoneEndpoint` wraps the locator's error; the locator itself is an argument.
pub data EndpointError : Type 0 where
  not_found : String → EndpointError
  could_not_extract : String → EndpointError
  no_matching more_than_one : String → EndpointError

-- `gophercloud.EndpointOpts`
pub record EndpointOpts : Type 0 where
  pub availability : String
  pub name : String
  pub service_type : String
  pub region : String

abbrev pub open_stack_service_type : String
open_stack_service_type = "kubernetes"

abbrev pub get_persephone_open_stack_service_name : String → String
get_persephone_open_stack_service_name landscape = "persephone-" <> landscape

-- The inner loop of `searchPersephoneEndpoint`.
unfoldable pub public_endpoints : List CatalogEndpoint → List CatalogEndpoint
public_endpoints [] = []
public_endpoints (e ∷ rest) =
    let later = public_endpoints rest in if e.interface == "public" then e ∷ later else later

unfoldable pub is_service : String → CatalogEntry → Bool
is_service landscape s =
    (s.service_type == open_stack_service_type)
    && (s.service_name == get_persephone_open_stack_service_name landscape)

-- The outer loop.
unfoldable pub matching_endpoints : String → List CatalogEntry → List CatalogEndpoint
matching_endpoints landscape [] = []
matching_endpoints landscape (s ∷ rest) =
    let later = matching_endpoints landscape rest in
    if is_service landscape s then public_endpoints s.endpoints ++ later else later

-- The switch on the number of matches. The list of their regions, which is only printed in the
-- error, is left out.
unfoldable pub pick_endpoint : String → List CatalogEndpoint → Result EndpointError CatalogEndpoint
pick_endpoint landscape [] = err (no_matching landscape)
pick_endpoint landscape (e ∷ []) = ok e
pick_endpoint landscape (e ∷ (d ∷ rest)) = err (more_than_one landscape)

unfoldable pub search_persephone_endpoint :
    Result String (List CatalogEntry) → String → Result EndpointError CatalogEndpoint
search_persephone_endpoint (err e) landscape = err (could_not_extract e)
search_persephone_endpoint (ok catalog) landscape =
    pick_endpoint landscape (matching_endpoints landscape catalog)

unfoldable pub get_persephone_endpoint :
    (EndpointOpts → Result String String)
    → Result String (List CatalogEntry)
    → String
    → String
    → Result EndpointError CatalogEndpoint
get_persephone_endpoint locator catalog landscape region =
    if region == ""
    then search_persephone_endpoint catalog landscape
    else elim (locator record {
      availability = "public";
      name = get_persephone_open_stack_service_name landscape;
      service_type = open_stack_service_type;
      region = region;
    }) [
      | err e ↦ err (not_found e)
      | ok url ↦ ok (record { interface = ""; region = region; url = url })
    ]
