-- ===== src/ShootAdmission/Newest.antt =====
-- internal/webhook/shootadmission/handler.go, ensureOpenStackCredentialInternalSecretAndBinding:
-- which of a Shoot's secrets is taken.
use mathlib.Core.List.{Memᴰ}
use mathlib.Core.Path.{subst}
use persephone.Base.{ℕ, ◌≤◌, ◌≡◌, ◌≢◌, refl, sym, some, List, [], ◌∷◌, arith}
use persephone.Base.{All}
use persephone.Rotation.{InternalSecret}
use persephone.ShootAdmission.{Env}
use persephone.ShootAdmission.Credentials.{last_item, existing_secret}

-- By creation, the oldest first.
abbrev IsOrdered : List InternalSecret → Type 0
IsOrdered [] = Unit
IsOrdered (s ∷ rest) = All (λ t. s.creation ≤ t.creation) rest × IsOrdered rest

-- What `ByCreationTimestamp().Sort` makes of a list: it is ordered, and has the same members.
abbrev pub IsSortOf : List InternalSecret → List InternalSecret → Type 0
IsSortOf sorted secrets =
    IsOrdered sorted × All (λ s. Memᴰ s secrets) sorted × All (λ s. Memᴰ s sorted) secrets

abbrev pub IsNewest : List InternalSecret → InternalSecret → Type 0
IsNewest secrets secret = Memᴰ secret secrets × All (λ t. t.creation ≤ secret.creation) secrets

module _ (P : InternalSecret → Type 0) where
  member_of_All : {s : InternalSecret} (xs : List InternalSecret) → Memᴰ s xs → All P xs → P s
  member_of_All [] m h = elim m [ ]
  member_of_All (x ∷ xs) (Memᴰ.head q) h = subst P (sym q) h.0
  member_of_All (x ∷ xs) (Memᴰ.tail m) h = member_of_All xs m h.1

  All-members : (xs ys : List InternalSecret) → All (λ s. Memᴰ s xs) ys → All P xs → All P ys
  All-members xs [] m h = tt
  All-members xs (y ∷ ys) m h = (member_of_All xs m.0 h, All-members xs ys m.1 h)

last_item-Mem :
    (s : InternalSecret) (rest : List InternalSecret) → Memᴰ (last_item s rest) (s ∷ rest)
last_item-Mem s [] = Memᴰ.head refl
last_item-Mem s (t ∷ rest) = Memᴰ.tail (last_item-Mem t rest)

last_item-greatest :
    (s : InternalSecret) (rest : List InternalSecret)
    → IsOrdered (s ∷ rest)
    → All (λ t. t.creation ≤ (last_item s rest).creation) (s ∷ rest)
last_item-greatest s [] h = (omega arith, tt)
last_item-greatest s (t ∷ rest) ((p, q), h) =
    let k = last_item-greatest t rest h in (le_trans p k.0, k)
  where
    le_trans : {a b c : ℕ} → a ≤ b → b ≤ c → a ≤ c
    le_trans e f = omega arith

greatest_of_sorted :
    (fallback : InternalSecret) (sorted : List InternalSecret)
    → sorted ≢ []
    → IsOrdered sorted
    → IsNewest sorted (last_item fallback sorted)
greatest_of_sorted fallback [] n h = absurd (n refl)
greatest_of_sorted fallback (t ∷ rest) n h = (last_item-Mem t rest, last_item-greatest t rest h)

not_nil_of_member : {s : InternalSecret} {xs : List InternalSecret} → Memᴰ s xs → xs ≢ []
not_nil_of_member {xs = []} m e = elim m [ ]
not_nil_of_member {xs = x ∷ xs} m e = ground arith

pub existing_secret-IsNewest :
    (env : Env) (secrets : List InternalSecret) (secret : InternalSecret)
    → IsSortOf (env.sort secrets) secrets
    → existing_secret env secrets ≡ some secret
    → IsNewest secrets secret
existing_secret-IsNewest env [] secret h k = ground arith
existing_secret-IsNewest env (s ∷ rest) secret (o, there, back) k =
    let sorted : List InternalSecret = env.sort (s ∷ rest) in
    let n = greatest_of_sorted s sorted (not_nil_of_member back.0) o in
    let newest : last_item s sorted ≡ secret = ground arith in
    subst (IsNewest (s ∷ rest)) newest (
      member_of_All (λ t. Memᴰ t (s ∷ rest)) sorted n.0 there,
      All-members (λ t. t.creation ≤ (last_item s sorted).creation) sorted (s ∷ rest) back n.1,
    )
