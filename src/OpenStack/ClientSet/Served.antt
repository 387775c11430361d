-- ===== src/OpenStack/ClientSet/Served.antt =====
-- internal/openstack/clientset.go: which regions have a client set.
use mathlib.Core.Path.{subst}
use persephone.Base.{
  String, ◌≡◌, refl, sym, ap, ◌∙◌, ◌⊎◌, inl, inr, true, false, ◌==◌, Option, none, some, List, [],
  ◌∷◌, arith, eq_iff,
}
use persephone.Base.{Result, ok, err, Bool-cases, Result-cases}
use persephone.Base.Dict.{Dict, lookup, insert, lookup-insert}
use persephone.Config.{RegionalConfig}
use persephone.OpenStack.{only_one}
use persephone.OpenStack.ClientSet.{
  AuthOptions, region_options, domain_of, new_client_set, Cloud, ClientSet, region_client_set,
  connect_regions, new_region_open_stack_client_set,
}

-- A map has a key once.
abbrev pub IsMap {ℓ} : {V : Type ℓ} → List (String × V) → Type ℓ
IsMap [] = Unit
IsMap ((key, v) ∷ rest) = (lookup key rest ≡ none) × IsMap rest

-- The clients of a region: the provider was logged in to at the region's endpoint with its
-- application credential, the other two are made of it, and the domain is the only one of its name.
pub record IsClientOf {P I N : Type 0} (k : Cloud P I N) (domain : String) (rc : RegionalConfig)
    (c : ClientSet P I N) : Type 0 where
  pub options : AuthOptions
  pub endpoint : options.identity_endpoint ≡ rc.identity_endpoint
  pub credential_id : options.application_credential_id ≡ rc.application_credential_id
  pub credential_secret : options.application_credential_secret ≡ rc.application_credential_secret
  pub reauthenticates : options.allow_reauth ≡ true
  pub logged_in : k.authenticated_client options ≡ ok c.provider_client
  pub identity : k.new_identity_v3 c.provider_client ≡ ok c.identity_client
  pub network : k.new_network_v2 c.provider_client ≡ ok c.network_client
  pub domain_found : k.domains c.identity_client domain ≡ ok (c.domain_id ∷ [])

only_domain :
    (r : Result String (List String)) (id : String)
    → domain_of (only_one r) ≡ ok id
    → r ≡ ok (id ∷ [])
unfolding only_one
only_domain (err e) id h = ground arith
only_domain (ok []) id h = ground arith
only_domain (ok (a ∷ [])) id h = cc
only_domain (ok (a ∷ (b ∷ rest))) id h = ground arith

region_client_set-IsClientOf :
    {P I N : Type 0} (k : Cloud P I N) (domain : String) (rc : RegionalConfig) (c : ClientSet P I N)
    → region_client_set k domain rc ≡ ok c
    → IsClientOf k domain rc c
unfolding region_client_set new_client_set
region_client_set-IsClientOf k domain rc c h =
    elim (Result-cases (k.authenticated_client (region_options k rc))) [
      | inr (x, e) ↦ ground arith
      | inl (provider, e) ↦ elim (Result-cases (k.new_identity_v3 provider)) [
        | inr (x, f) ↦ ground arith
        | inl (identity, f) ↦ elim (Result-cases (k.new_network_v2 provider)) [
          | inr (x, g) ↦ ground arith
          | inl (network, g) ↦
              elim (Result-cases (domain_of (only_one (k.domains identity domain)))) [
                | inr (x, i) ↦ ground arith
                | inl (id, i) ↦
                    let made : record {
                      provider_client = provider;
                      identity_client = identity;
                      network_client = network;
                      domain_id = id;
                    }
                        ≡ c =
                      ground arith in
                    subst (IsClientOf k domain rc) made (record {
                      options = region_options k rc;
                      endpoint = refl;
                      credential_id = refl;
                      credential_secret = refl;
                      reauthenticates = refl;
                      logged_in = e;
                      identity = f;
                      network = g;
                      domain_found = only_domain (k.domains identity domain) id i;
                    })
              ]
        ]
      ]
    ]

module _ {P I N : Type 0} (k : Cloud P I N) (domain : String) where
  -- What becomes of a region: the set that its configuration gives, or what there was before.
  abbrev pub IsConnected :
      Option RegionalConfig → Option (ClientSet P I N) → Option (ClientSet P I N) → Type 0
  IsConnected none before after = after ≡ before
  IsConnected (some rc) before after =
      ((rc.enabled ≡ false) × (after ≡ before))
      ⊎ ((rc.enabled ≡ true)
          × ((c : ClientSet P I N) × IsClientOf k domain rc c × (after ≡ some c)))

  -- One region, with what there is of it before, after it and at the end.
  first_region :
      (other region : String) (rc : RegionalConfig) (rest : List (String × RegionalConfig))
      (before between after : Option (ClientSet P I N))
      → lookup other rest ≡ none
      → (other ≡ region → IsConnected (some rc) before between)
      → ((other == region) ≡ false → between ≡ before)
      → IsConnected (lookup region rest) between after
      → IsConnected (lookup region ((other, rc) ∷ rest)) before after
  first_region other region rc rest before between after once here there h =
      elim (Bool-cases (other == region)) [
        | inl e ↦
            let same : other ≡ region = ground (arith, eq_iff other region) in
            let missing : lookup region rest ≡ none = ap (λ x. lookup x rest) (sym same) ∙ once in
            let kept : after ≡ between = subst (λ x. IsConnected x between after) missing h in
            simp e (subst (IsConnected (some rc) before) (sym kept) (here same))
        | inr e ↦ simp e (subst (λ x. IsConnected (lookup region rest) x after) (there e) h)
      ]

  connect_regions-IsConnected :
      (regions : List (String × RegionalConfig)) (before after : Dict (ClientSet P I N))
      (region : String)
      → IsMap regions
      → connect_regions k domain regions before ≡ ok after
      → IsConnected (lookup region regions) (lookup region before) (lookup region after)
  unfolding connect_regions
  connect_regions-IsConnected [] before after region m h = ground arith
  connect_regions-IsConnected ((other, rc) ∷ rest) before after region (once, m) h =
      elim (Bool-cases rc.enabled) [
        | inr e ↦
            first_region other region rc rest (lookup region before) (lookup region before)
              (lookup region after) once (λ n. inl (e, refl)) (λ n. refl)
              (connect_regions-IsConnected rest before after region m (ground arith))
        | inl e ↦ elim (Result-cases (region_client_set k domain rc)) [
          | inr (x, f) ↦ ground arith
          | inl (c, f) ↦
              first_region other region rc rest (lookup region before)
                (lookup region (insert other c before)) (lookup region after) once
                (λ n. inr (
                  e,
                  (
                    c,
                    region_client_set-IsClientOf k domain rc c f,
                    ground (arith, n, eq_iff other region, lookup-insert region other c before),
                  ),
                ))
                (λ n. ground (arith, lookup-insert region other c before))
                (connect_regions-IsConnected rest (insert other c before) after region m
                  (ground arith))
        ]
      ]

  -- Where the client sets of the regions are made, each region that is configured and enabled has
  -- one: its provider client was logged in at the region's identity endpoint with its application
  -- credential, to be renewed by itself, its other clients are made of that one, and its domain is
  -- the only one of the given name; and no other region has one.
  pub new_region_open_stack_client_set-IsConnected :
      (regions : Dict RegionalConfig) (sets : Dict (ClientSet P I N)) (region : String)
      → IsMap regions
      → new_region_open_stack_client_set k regions domain ≡ ok sets
      → IsConnected (lookup region regions) none (lookup region sets)
  unfolding new_region_open_stack_client_set
  new_region_open_stack_client_set-IsConnected regions sets region m h =
      connect_regions-IsConnected regions [] sets region m h
