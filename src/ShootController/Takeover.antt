-- ===== src/ShootController/Takeover.antt =====
-- internal/controller/shoot/reconciler.go: when a Shoot is moved to its newest secret, and what that
-- means to internal/controller/internalsecret.
use mathlib.Core.List.{Memᴰ}
use mathlib.Core.Path.{subst}
use persephone.Base.{
  String, ◌↔◌, sym, ℕ, ◌≡◌, ◌≢◌, refl, ap, ◌∙◌, ◌⊎◌, inl, inr, true, false, ◌==◌, Option, none,
  some, List, [], ◌∷◌, ◌++◌, arith, eq_iff,
}
use persephone.Base.{Result, ok, Bool-cases, Option-cases, Result-cases}
use persephone.Base.Dict.{get_text, erase}
use persephone.Constants.{annotation_key_force_credentials_binding_update}
use persephone.Base.Runs.{bind-ok, bind-log}
use persephone.Rotation.{InternalSecret}
use persephone.Rotation.Cleanup.{text_or_empty}
use persephone.ShootController.{
  ManagedShoot, Maintenance, Env, Call, add_finalizer, finalizer_name, contains, patch_shoot,
  finalized, taken_over, ShootError, patched, patch_credentials_binding_name, is_forced,
  is_confined, roll_out, take_over, follow_newest, reconcile,
}

-- The Shoot may be changed now: it asks for it, it has its changes rolled out in its maintenance
-- window anyway, or the window is open.
abbrev pub IsDue : Env → ManagedShoot → Type 0
IsDue env s =
    (is_forced s ≡ true)
    ⊎ ((m : Maintenance) × (s.maintenance ≡ some m)
        × ((is_confined m ≡ true) ⊎ (env.in_window s ≡ true)))

-- The Shoot's annotation asks that the change is forced.
abbrev pub IsForced : ManagedShoot → Type 0
IsForced s = get_text annotation_key_force_credentials_binding_update s.annotations ≡ "true"

-- The maintenance section confines the roll-out of changes to its window.
abbrev pub IsConfined : Maintenance → Type 0
IsConfined m = m.confine_spec_update_rollout ≡ some true

-- The same as `IsDue`, of the fields.
abbrev pub IsMovable : Env → ManagedShoot → Type 0
IsMovable env s =
    IsForced s
    ⊎ ((m : Maintenance) × (s.maintenance ≡ some m) × (IsConfined m ⊎ (env.in_window s ≡ true)))

-- The Shoot names this binding; one that names none does not differ from one that names "".
abbrev pub IsNamed : ManagedShoot → String → Type 0
IsNamed s name =
    (s.shoot.credentials_binding_name ≡ some name)
    ⊎ ((s.shoot.credentials_binding_name ≡ none) × (name ≡ ""))

-- The Shoot with this binding, and without the annotation.
abbrev pub moved_to : ManagedShoot → String → ManagedShoot
moved_to s name = record s {
  shoot = record s.shoot { credentials_binding_name = some name };
  annotations = erase annotation_key_force_credentials_binding_update s.annotations;
}

IsConfined-iff : (m : Maintenance) → (is_confined m ≡ true) ↔ IsConfined m
IsConfined-iff m = elim (Option-cases m.confine_spec_update_rollout) [
  | inl e ↦ (λ h. ground arith, λ h. ground arith)
  | inr (b, e) ↦ (λ h. e ∙ ap some (ground arith), λ h. ground arith)
]

IsForced-iff : (s : ManagedShoot) → (is_forced s ≡ true) ↔ IsForced s
IsForced-iff s =
    eq_iff (get_text annotation_key_force_credentials_binding_update s.annotations) "true"

movable : (env : Env) (s : ManagedShoot) → IsDue env s → IsMovable env s
movable env s (inl f) = inl ((IsForced-iff s).0 f)
movable env s (inr (m, e, inl c)) = inr (m, e, inl ((IsConfined-iff m).0 c))
movable env s (inr (m, e, inr w)) = inr (m, e, inr w)

IsNamed-iff :
    (s : ManagedShoot) (name : String)
    → (text_or_empty s.shoot.credentials_binding_name ≡ name) ↔ IsNamed s name
IsNamed-iff s name = elim (Option-cases s.shoot.credentials_binding_name) [
  | inl e ↦ (λ h. inr (e, ground arith), λ h. ground arith)
  | inr (b, e) ↦ (λ h. inl (e ∙ ap some (ground arith)), λ h. ground arith)
]

-- What a run without error leaves of a Shoot and its newest secret.
pub data Outcome (env : Env) (s : ManagedShoot) : ℕ → List Call → Type 0 where
  without_secret : env.newest ≡ ok none → Outcome env s 0 []
  current :
      (secret : InternalSecret)
      → env.newest ≡ ok (some secret)
      → IsNamed s secret.name
      → Outcome env s 0 []
  moved :
      (secret : InternalSecret)
      → env.newest ≡ ok (some secret)
      → (IsNamed s secret.name → ⊥)
      → IsMovable env s
      → env.patch (moved_to s secret.name) ≡ none
      → Outcome env s 0 (patch_shoot (moved_to s secret.name) ∷ [])
  waiting :
      (secret : InternalSecret) (m : Maintenance)
      → env.newest ≡ ok (some secret)
      → (IsNamed s secret.name → ⊥)
      → (IsForced s → ⊥)
      → s.maintenance ≡ some m
      → (IsConfined m → ⊥)
      → env.in_window s ≡ false
      → Outcome env s (env.until_window s) []

same : {a b : ℕ} → ◌≡◌ {A = Result ShootError ℕ} (ok a) (ok b) → a ≡ b
same h = cc

module _ (env : Env) (s : ManagedShoot) (secret : InternalSecret)
    (newest : env.newest ≡ ok (some secret)) (after : ℕ)
    (other : text_or_empty s.shoot.credentials_binding_name ≢ secret.name) where
  moved-Outcome :
      IsDue env s
      → (patched env s secret.name).0 ≡ ok after
      → Outcome env s after (patched env s secret.name).1
  unfolding patch_credentials_binding_name taken_over
  moved-Outcome due h = elim (Option-cases (env.patch (taken_over s secret.name))) [
    | inr (x, e) ↦ ground arith
    | inl e ↦
        let k : after ≡ 0 = ground arith in
        simp (e, k, patch_credentials_binding_name)
          (moved secret newest (λ n. other ((IsNamed-iff s secret.name).1 n)) (movable env s due) e)
  ]

  roll_out-Outcome :
      (maintenance : Option Maintenance)
      → s.maintenance ≡ maintenance
      → is_forced s ≡ false
      → (roll_out env s secret.name maintenance).0 ≡ ok after
      → Outcome env s after (roll_out env s secret.name maintenance).1
  roll_out-Outcome none e f = λ h. ground arith
  roll_out-Outcome (some m) e f = elim (Bool-cases (is_confined m)) [
    | inl c ↦ simp (c, roll_out) (moved-Outcome (inr (m, e, inl c)))
    | inr c ↦ elim (Bool-cases (env.in_window s)) [
      | inl w ↦ simp (c, w, roll_out) (moved-Outcome (inr (m, e, inr w)))
      | inr w ↦
          simp (c, w, roll_out)
            λ h.
              subst (λ a. Outcome env s a []) (same h)
                (waiting secret m newest (λ n. other ((IsNamed-iff s secret.name).1 n))
                  (λ q. let k = (IsForced-iff s).1 q in ground arith) e
                  (λ q. let k = (IsConfined-iff m).1 q in ground arith) w)
    ]
  ]

  take_over-Outcome :
      (take_over env s secret.name).0 ≡ ok after
      → Outcome env s after (take_over env s secret.name).1
  unfolding take_over
  take_over-Outcome =
      let differs : (text_or_empty s.shoot.credentials_binding_name == secret.name) ≡ false =
        ground (arith, eq_iff (text_or_empty s.shoot.credentials_binding_name) secret.name) in
      elim (Bool-cases (is_forced s)) [
        | inl f ↦ simp (differs, f, take_over) (moved-Outcome (inl f))
        | inr f ↦ simp (differs, f, take_over) (roll_out-Outcome s.maintenance refl f)
      ]

followed :
    (env : Env) (s : ManagedShoot) (secret : InternalSecret)
    → env.newest ≡ ok (some secret)
    → (after : ℕ) → (take_over env s secret.name).0 ≡ ok after
    → Outcome env s after (take_over env s secret.name).1
unfolding take_over
followed env s secret k after =
    elim (Bool-cases (text_or_empty s.shoot.credentials_binding_name == secret.name)) [
      | inl c ↦
          simp (c, take_over)
            λ h.
              subst (λ a. Outcome env s a []) (same h)
                (current secret k (
                  (IsNamed-iff s secret.name).0 (
                    ground (
                      arith,
                      eq_iff (text_or_empty s.shoot.credentials_binding_name) secret.name,
                    ))))
      | inr c ↦
          take_over-Outcome env s secret k after
            (ground (arith, eq_iff (text_or_empty s.shoot.credentials_binding_name) secret.name))
    ]

follow_newest-Outcome :
    (env : Env) (s : ManagedShoot) (after : ℕ)
    → (follow_newest env s).0 ≡ ok after
    → Outcome env s after (follow_newest env s).1
follow_newest-Outcome env s after = elim (Result-cases env.newest) [
  | inr (x, e) ↦ simp (e, follow_newest) λ h. ground arith
  | inl (newest, e) ↦ elim (Option-cases newest) [
    | inl n ↦
        let k : env.newest ≡ ok none = e ∙ ap ok n in
        simp (k, follow_newest) λ h. subst (λ a. Outcome env s a []) (same h) (without_secret k)
    | inr (secret, n) ↦
        let k : env.newest ≡ ok (some secret) = e ∙ ap ok n in
        simp (k, follow_newest) (followed env s secret k after)
  ]
]

-- The Shoot has the finalizer, as it had before, or by a call that added it to its others.
abbrev pub IsPrepared : Env → ManagedShoot → ManagedShoot → List Call → Type 0
IsPrepared env s prepared calls =
    Memᴰ finalizer_name prepared.finalizers
    × ((Memᴰ finalizer_name s.finalizers × (prepared ≡ s) × (calls ≡ []))
        ⊎ ((Memᴰ finalizer_name s.finalizers → ⊥)
            × (env.add_finalizer ≡ none)
            × (prepared ≡ record s { finalizers = s.finalizers ++ finalizer_name ∷ [] })
            × (calls ≡ add_finalizer s.shoot.name ∷ [])))

contains_iff : (t : String) (xs : List String) → (contains t xs ≡ true) ↔ Memᴰ t xs
contains_iff t [] = (λ h. ground arith, λ m. elim m [ ])
contains_iff t (x ∷ xs) = elim (Bool-cases (x == t)) [
  | inl e ↦ (λ h. Memᴰ.head (sym ((eq_iff x t).0 e)), λ m. simp e refl)
  | inr e ↦ (
    λ h. Memᴰ.tail ((contains_iff t xs).0 (ground arith)),
    λ m. elim m [
      | Memᴰ.head q ↦ ground (arith, eq_iff x t)
      | Memᴰ.tail l ↦ let k = (contains_iff t xs).1 l in ground arith
    ],
  )
]

last_of : (xs : List String) (t : String) → Memᴰ t (xs ++ t ∷ [])
last_of [] t = Memᴰ.head refl
last_of (x ∷ xs) t = Memᴰ.tail (last_of xs t)

ok_same : {a b : ManagedShoot} → ◌≡◌ {A = Result ShootError ManagedShoot} (ok a) (ok b) → a ≡ b
ok_same h = cc

finalized-IsPrepared :
    (env : Env) (s prepared : ManagedShoot)
    → (finalized env s).0 ≡ ok prepared
    → IsPrepared env s prepared (finalized env s).1
unfolding finalized
finalized-IsPrepared env s prepared = elim (Bool-cases (contains finalizer_name s.finalizers)) [
  | inl e ↦
      let there = (contains_iff finalizer_name s.finalizers).0 e in
      simp (e, finalized)
        λ h.
          let same : prepared ≡ s = sym (ok_same h) in
          (subst (λ x. Memᴰ finalizer_name x.finalizers) (sym same) there, inl (there, same, refl))
  | inr e ↦ elim (Option-cases env.add_finalizer) [
    | inr (x, f) ↦ simp (e, f, finalized) λ h. ground arith
    | inl f ↦
        simp (e, f, finalized)
          λ h.
            let same : prepared ≡ record s { finalizers = s.finalizers ++ finalizer_name ∷ [] } =
              sym (ok_same h) in
            (
              subst (λ x. Memᴰ finalizer_name x.finalizers) (sym same)
                  (last_of s.finalizers finalizer_name),
              inr (
                λ m. let k = (contains_iff finalizer_name s.finalizers).1 m in ground arith,
                refl,
                same,
                refl,
              ),
            )
  ]
]

-- Where `reconcile` gives no error, the Shoot has its finalizer, by a call if it had none, which
-- changes nothing else of it, and one of four things is the case, which determine the other calls:
-- there is no secret; the Shoot names the binding of the newest already; it does not, and is moved to
-- it, which takes away the annotation that forces it, as the Shoot has this annotation, confines its
-- changes to its window or is in it; or none of these, and the call comes again at the window.
pub reconcile_ok-Outcome :
    (env : Env) (s : ManagedShoot) (after : ℕ)
    → (reconcile env s).0 ≡ ok after
    → (prepared : ManagedShoot) × (first : List Call) × (calls : List Call) × IsPrepared env s
        prepared first
      × ((reconcile env s).1 ≡ first ++ calls)
      × Outcome env prepared after calls
unfolding reconcile
reconcile_ok-Outcome env s after h =
    let (prepared, f, k) = bind-ok (finalized env s) (follow_newest env) after h in
    (
      prepared,
      (finalized env s).1,
      (follow_newest env prepared).1,
      finalized-IsPrepared env s prepared f,
      bind-log (finalized env s) (follow_newest env) prepared f,
      follow_newest-Outcome env prepared after k,
    )
