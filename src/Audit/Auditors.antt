-- ===== src/Audit/Auditors.antt =====
-- internal/webhook/audithandler/region_auditor_set.go. `audittools.NewAuditor` is not part of the
-- repository: the argument `new_auditor` says with which error, if any, it fails on a URL.
use persephone.Base.{String, true, false, ◌==◌, Option, none, some, List, [], ◌∷◌}
use persephone.Base.{Result, ok, err, if◌then◌else◌}
use persephone.Base.Dict.{Dict, lookup, insert}
use persephone.Config.{RegionalConfig}

pub data Auditor : Type 0 where
  null_auditor : Auditor
  transport : String → Auditor

-- The failure of one region's auditor.
pub data AuditorError : Type 0 where
  failed_to_create : String → String → AuditorError

module _ (new_auditor : String → Option String) where
  -- One region of the loop of `NewRegionAuditorSet`.
  unfoldable pub make_auditor : String → RegionalConfig → Result AuditorError Auditor
  make_auditor region cfg =
      if cfg.audit_transport_url == ""
      then ok null_auditor
      else elim (new_auditor cfg.audit_transport_url) [
        | some e ↦ err (failed_to_create region e)
        | none ↦ ok (transport cfg.audit_transport_url)
      ]

  unfoldable pub add_regions :
      List (String × RegionalConfig) → Dict Auditor → Result AuditorError (Dict Auditor)
  add_regions [] auditors = ok auditors
  add_regions ((region, cfg) ∷ rest) auditors = elim cfg.enabled [
    | false ↦ add_regions rest auditors
    | true ↦ elim (make_auditor region cfg) [
      | err e ↦ err e
      | ok auditor ↦ add_regions rest (insert region auditor auditors)
    ]
  ]

  unfoldable pub new_region_auditor_set : Dict RegionalConfig → Result AuditorError (Dict Auditor)
  new_region_auditor_set regions = add_regions regions []

-- `GetAuditor`; none is its error.
unfoldable pub get_auditor : Dict Auditor → String → Option Auditor
get_auditor auditors region = lookup region auditors
