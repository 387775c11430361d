-- ===== src/OpenStack/Catalog/Search.antt =====
-- internal/openstack/catalog.go: which catalogs give an endpoint when no region is given.
use mathlib.Core.List.{Memᴰ}
use persephone.Base.{
  ℕ, ◌+◌, ◌≤◌, String, ◌<>◌, ◌≡◌, refl, Bool, true, false, ◌==◌, ◌&&◌, List, [], ◌∷◌, ◌++◌,
}
use persephone.Base.{
  Result, ok, err, arith, Bool-cases, inl, inr, length, All, if◌then◌else◌, eq_iff, sym, ap, ◌∙◌,
  All-append,
}
use persephone.Auth.{CatalogEntry, CatalogEndpoint}
use persephone.OpenStack.Catalog.{
  EndpointError, not_found, could_not_extract, no_matching, more_than_one, EndpointOpts,
  public_endpoints, is_service, matching_endpoints, pick_endpoint, search_persephone_endpoint,
  get_persephone_endpoint,
}

-- An endpoint that the search takes: a public one of a service with the type and the name of the
-- landscape's Persephone.
abbrev pub IsPublicOf : String → CatalogEntry → CatalogEndpoint → Type 0
IsPublicOf landscape s e =
    e.interface ≡ "public"
    × s.service_type ≡ "kubernetes"
    × s.service_name ≡ "persephone-" <> landscape

-- How many endpoints of the catalog satisfy `IsPublicOf`, counted one by one.
abbrev pub count_public : Bool → List CatalogEndpoint → ℕ
count_public named [] = 0
count_public named (e ∷ rest) =
    (if named && (e.interface == "public") then 1 else 0) + count_public named rest

abbrev pub count_endpoints : String → List CatalogEntry → ℕ
count_endpoints landscape [] = 0
count_endpoints landscape (s ∷ rest) =
    count_public
      ((s.service_type == "kubernetes") && (s.service_name == ("persephone-" <> landscape)))
      s.endpoints
    + count_endpoints landscape rest

abbrev pub IsOffered : String → List CatalogEntry → CatalogEndpoint → Type 0
IsOffered landscape catalog e =
    (s : CatalogEntry) × Memᴰ s catalog × Memᴰ e s.endpoints × IsPublicOf landscape s e

-- What the catalog says of each outcome.
abbrev pub IsOutcome : String → List CatalogEntry → Result EndpointError CatalogEndpoint → Type 0
IsOutcome landscape catalog (ok e) =
    count_endpoints landscape catalog ≡ 1 × IsOffered landscape catalog e
IsOutcome landscape catalog (err (no_matching l)) = count_endpoints landscape catalog ≡ 0
IsOutcome landscape catalog (err (more_than_one l)) = 2 ≤ count_endpoints landscape catalog
IsOutcome landscape catalog (err (not_found e)) = ⊥
IsOutcome landscape catalog (err (could_not_extract e)) = ⊥

All-imp :
    {A : Type 0} (P Q : A → Type 0) (xs : List A) → ((x : A) → P x → Q x) → All P xs → All Q xs
All-imp P Q [] f h = tt
All-imp P Q (x ∷ xs) f h = (f x h.0, All-imp P Q xs f h.1)

length-append : {A : Type 0} (xs ys : List A) → length (xs ++ ys) ≡ length xs + length ys
length-append [] ys = omega arith
length-append (x ∷ xs) ys = let e = length-append xs ys in grind arith

count_public-false : (es : List CatalogEndpoint) → count_public false es ≡ 0
count_public-false [] = refl
count_public-false (e ∷ rest) = let h = count_public-false rest in omega arith

length-public_endpoints :
    (es : List CatalogEndpoint) → length (public_endpoints es) ≡ count_public true es
unfolding public_endpoints
length-public_endpoints [] = refl
length-public_endpoints (e ∷ rest) =
    let h = length-public_endpoints rest in
    elim (Bool-cases (e.interface == "public")) [
      | inl t ↦ rw t (omega arith)
      | inr t ↦ rw t (omega arith)
    ]

count_of_service :
    (landscape : String) (s : CatalogEntry) {b : Bool}
    → is_service landscape s ≡ b
    → ((s.service_type == "kubernetes") && (s.service_name == ("persephone-" <> landscape))) ≡ b
unfolding is_service
count_of_service landscape s h = h

length-matching_endpoints :
    (landscape : String) (catalog : List CatalogEntry)
    → length (matching_endpoints landscape catalog) ≡ count_endpoints landscape catalog
unfolding matching_endpoints
length-matching_endpoints landscape [] = refl
length-matching_endpoints landscape (s ∷ rest) =
    let h = length-matching_endpoints landscape rest in
    elim (Bool-cases (is_service landscape s)) [
      | inl t ↦ rw t (
          rw (count_of_service landscape s t) (
            length-append (public_endpoints s.endpoints) (matching_endpoints landscape rest)
            ∙ (ap (λ n. length (public_endpoints s.endpoints) + n) h)
            ∙ ap (λ n. n + count_endpoints landscape rest) (length-public_endpoints s.endpoints)))
      | inr t ↦ rw t (
          rw (count_of_service landscape s t)
            (let z = count_public-false s.endpoints in omega arith))
    ]

-- The endpoints that are taken are public members.
public_endpoints-members :
    (es : List CatalogEndpoint)
    → All (λ e. Memᴰ e es × e.interface ≡ "public") (public_endpoints es)
unfolding public_endpoints
public_endpoints-members [] = tt
public_endpoints-members (e ∷ rest) =
    let h =
      All-imp _ (λ d. Memᴰ d (e ∷ rest) × d.interface ≡ "public") (public_endpoints rest)
        (λ d m. (Memᴰ.tail m.0, m.1)) (public_endpoints-members rest) in
    elim (Bool-cases (e.interface == "public")) [
      | inl t ↦ rw t ((Memᴰ.head refl, (eq_iff e.interface "public").0 t), h)
      | inr t ↦ rw t h
    ]

is_service-names :
    (landscape : String) (s : CatalogEntry)
    → is_service landscape s ≡ true
    → s.service_type ≡ "kubernetes" × s.service_name ≡ "persephone-" <> landscape
unfolding is_service
is_service-names landscape s h =
    ground (
      arith,
      eq_iff s.service_type "kubernetes",
      eq_iff s.service_name ("persephone-" <> landscape),
    )

matching_endpoints-IsOffered :
    (landscape : String) (catalog : List CatalogEntry)
    → All (IsOffered landscape catalog) (matching_endpoints landscape catalog)
unfolding matching_endpoints
matching_endpoints-IsOffered landscape [] = tt
matching_endpoints-IsOffered landscape (s ∷ rest) =
    let h =
      All-imp _ (IsOffered landscape (s ∷ rest)) (matching_endpoints landscape rest)
        (λ d m. (m.0, Memᴰ.tail m.1, m.2, m.3)) (matching_endpoints-IsOffered landscape rest) in
    elim (Bool-cases (is_service landscape s)) [
      | inl t ↦ rw t (
          All-append _ (public_endpoints s.endpoints) (matching_endpoints landscape rest)
            (All-imp _ (IsOffered landscape (s ∷ rest)) (public_endpoints s.endpoints)
              (λ d m. (
                s,
                Memᴰ.head refl,
                m.0,
                (m.1, (is_service-names landscape s t).0, (is_service-names landscape s t).1),
              ))
              (public_endpoints-members s.endpoints))
            h)
      | inr t ↦ rw t h
    ]

pick_endpoint-IsOutcome :
    (landscape : String) (catalog : List CatalogEntry) (es : List CatalogEndpoint)
    → length es ≡ count_endpoints landscape catalog
    → All (IsOffered landscape catalog) es
    → IsOutcome landscape catalog (pick_endpoint landscape es)
unfolding pick_endpoint
pick_endpoint-IsOutcome landscape catalog [] n h = sym n
pick_endpoint-IsOutcome landscape catalog (e ∷ []) n h = (sym n, h.0)
pick_endpoint-IsOutcome landscape catalog (e ∷ (d ∷ rest)) n h = omega arith

-- Where no region is given and the catalog can be read, the search ends with an endpoint, with
-- `no_matching` or with `more_than_one`. An endpoint is one that the catalog offers, and the
-- catalog then has exactly one public endpoint of a service with the type "kubernetes" and the
-- landscape's name; it has none in the second case and at least two in the third.
pub get_persephone_endpoint-IsOutcome :
    (locator : EndpointOpts → Result String String) (catalog : List CatalogEntry)
    (landscape : String)
    → IsOutcome landscape catalog (get_persephone_endpoint locator (ok catalog) landscape "")
unfolding get_persephone_endpoint search_persephone_endpoint
get_persephone_endpoint-IsOutcome locator catalog landscape =
    pick_endpoint-IsOutcome landscape catalog (matching_endpoints landscape catalog)
      (length-matching_endpoints landscape catalog) (matching_endpoints-IsOffered landscape catalog)
