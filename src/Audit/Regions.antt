-- ===== src/Audit/Regions.antt =====
-- internal/webhook/audithandler/region_auditor_set.go: which regions have an auditor, and which one.
use mathlib.Core.Path.{subst}
use mathlib.Core.List.{Memᴰ}
use persephone.Base.{
  String, ◌≡◌, sym, ap, ◌∙◌, ◌⊎◌, inl, inr, true, ◌==◌, Option, some, List, [], ◌∷◌, arith, eq_iff,
}
use persephone.Base.{Result, ok, Bool-cases, Result-cases, if◌then◌else◌}
use persephone.Base.Dict.{Dict, lookup, insert, lookup-insert}
use persephone.Config.{RegionalConfig}
use persephone.Audit.Auditors.{
  Auditor, AuditorError, make_auditor, add_regions, new_region_auditor_set, get_auditor,
}

module _ (new_auditor : String → Option String) where
  -- The auditor is the one made for an enabled region of that name.
  abbrev pub IsMade : List (String × RegionalConfig) → String → Auditor → Type 0
  IsMade regions region a =
      (cfg : RegionalConfig) × Memᴰ (region, cfg) regions
      × (cfg.enabled ≡ true)
      × (make_auditor new_auditor region cfg ≡ ok a)

  same_set :
      {a b : Dict Auditor} → ◌≡◌ {A = Result AuditorError (Dict Auditor)} (ok a) (ok b) → a ≡ b
  same_set h = cc

  wider :
      (entry : String × RegionalConfig) (rest : List (String × RegionalConfig)) (region : String)
      (a : Auditor)
      → IsMade rest region a
      → IsMade (entry ∷ rest) region a
  wider entry rest region a (cfg, there, on, made) = (cfg, Memᴰ.tail there, on, made)

  inserted :
      (region name : String) (cfg : RegionalConfig) (rest : List (String × RegionalConfig))
      (new a : Auditor) (auditors : Dict Auditor)
      → cfg.enabled ≡ true
      → make_auditor new_auditor name cfg ≡ ok new
      → lookup region (insert name new auditors) ≡ some a
      → (lookup region auditors ≡ some a) ⊎ IsMade ((name, cfg) ∷ rest) region a
  inserted region name cfg rest new a auditors on made h = elim (Bool-cases (name == region)) [
    | inr e ↦ inl (
        sym (
          subst
            (λ b.
              lookup region (insert name new auditors)
              ≡ (if b then some new else lookup region auditors))
            e (lookup-insert region name new auditors))
        ∙ h)
    | inl e ↦
        let same : name ≡ region = (eq_iff name region).0 e in
        let new_a : new ≡ a = ground (arith, lookup-insert region name new auditors) in
        inr (
          cfg,
          Memᴰ.head (ap (λ n. (n, cfg)) (sym same)),
          on,
          (subst (λ n. make_auditor new_auditor n cfg ≡ ok new) same made ∙ ap ok new_a),
        )
  ]

  add_regions-IsMade :
      (regions : List (String × RegionalConfig)) (auditors set : Dict Auditor) (region : String)
      (a : Auditor)
      → add_regions new_auditor regions auditors ≡ ok set
      → lookup region set ≡ some a
      → (lookup region auditors ≡ some a) ⊎ IsMade regions region a
  unfolding add_regions
  add_regions-IsMade [] auditors set region a h l =
      inl (subst (λ m. lookup region m ≡ some a) (sym (same_set h)) l)
  add_regions-IsMade ((name, cfg) ∷ rest) auditors set region a h l =
      elim (Bool-cases cfg.enabled) [
        | inr off ↦ elim (add_regions-IsMade rest auditors set region a (ground arith) l) [
          | inl old ↦ inl old
          | inr new ↦ inr (wider (name, cfg) rest region a new)
        ]
        | inl on ↦ elim (Result-cases (make_auditor new_auditor name cfg)) [
          | inr (x, e) ↦ ground arith
          | inl (made, e) ↦
              elim (add_regions-IsMade rest (insert name made auditors) set region a (ground arith)
                l) [
                  | inl old ↦ inserted region name cfg rest made a auditors on e old
                  | inr new ↦ inr (wider (name, cfg) rest region a new)
                ]
        ]
      ]

  -- Where the set of auditors is made without error, an auditor that it has for a region is the one
  -- made for an enabled entry of that region in the configuration.
  pub get_auditor-IsMade :
      (regions : List (String × RegionalConfig)) (set : Dict Auditor) (region : String)
      (a : Auditor)
      → new_region_auditor_set new_auditor regions ≡ ok set
      → get_auditor set region ≡ some a
      → IsMade regions region a
  unfolding new_region_auditor_set get_auditor
  get_auditor-IsMade regions set region a h l =
      elim (add_regions-IsMade regions [] set region a h l) [
        | inl none_yet ↦ ground arith
        | inr new ↦ new
      ]
