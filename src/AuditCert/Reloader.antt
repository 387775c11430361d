-- ===== src/AuditCert/Reloader.antt =====
-- internal/controller/auditcert/reloader.go, and what cmd/persephone-audit-webhook/main.go reads of
-- the certificates that it writes.
use persephone.Base.{String, true, false, ◌==◌, Option, none, some, List, [], ◌∷◌, ℕ}
use persephone.Base.{Result, ok, err, eqb, if◌then◌else◌}
use persephone.Base.Dict.{Dict, insert, get_text, lookup, has_key}
use persephone.Kube.{Got, found, not_found, failed}
use persephone.AuditCert.{
  data_key_certificate_ca, data_key_certificate, data_key_private_key, Secret,
}

-- `last_resource_version` is 0 before anything is loaded. The disk is the directory's files.
pub record Reloader : Type 0 where
  pub last_resource_version : ℕ
  pub disk : Dict String

-- What the file system answers. A write that fails leaves any directory behind.
pub record Io : Type 0 where
  pub mkdir_error : Option String
  pub write_error : String → Option String
  pub broken : Dict String → Dict String

pub data ReloadError : Type 0 where
  failed_to_get : Option String → ReloadError
  failed_to_create_directory : String → ReloadError
  empty_data : String → ReloadError
  failed_to_write : String → String → ReloadError

-- The loop of `writeCertificatesToDisk`.
unfoldable pub write_files :
    Io → Dict String → List String → Dict String → Result ReloadError (Unit {0}) × Dict String
write_files io contents [] disk = (ok tt, disk)
write_files io contents (name ∷ rest) disk = elim (get_text name contents == "") [
  | true ↦ (err (empty_data name), disk)
  | false ↦ elim (io.write_error name) [
    | some e ↦ (err (failed_to_write name e), io.broken disk)
    | none ↦ write_files io contents rest (insert name (get_text name contents) disk)
  ]
]

-- The CA comes first, for the callback that the other two set off.
abbrev pub ordered : List String
ordered = data_key_certificate_ca ∷ data_key_certificate ∷ data_key_private_key ∷ []

unfoldable pub write_certificates_to_disk :
    Io → Dict String → Dict String → Result ReloadError (Unit {0}) × Dict String
write_certificates_to_disk io contents disk = elim io.mkdir_error [
  | some e ↦ (err (failed_to_create_directory e), disk)
  | none ↦ write_files io contents ordered disk
]

-- The version is taken over where the write succeeds only.
abbrev pub taken :
    {A : Type 0}
    → A
    → Secret
    → Reloader
    → Result ReloadError (Unit {0}) × Dict String
    → Result ReloadError A × Reloader
taken a secret r (ok u, disk) =
    (ok a, record { last_resource_version = secret.resource_version; disk = disk })
taken a secret r (err e, disk) = (err e, record r { disk = disk })

-- `Reconcile`, with the duration after which it is called again.
unfoldable pub reload : Io → ℕ → Got Secret → Reloader → Result ReloadError ℕ × Reloader
reload io period not_found r = (err (failed_to_get none), r)
reload io period (failed e) r = (err (failed_to_get (some e)), r)
reload io period (found secret) r = elim (eqb secret.resource_version r.last_resource_version) [
  | true ↦ (ok period, r)
  | false ↦ taken period secret r (write_certificates_to_disk io secret.contents r.disk)
]

unfoldable pub load_and_write_certs :
    Io → Got Secret → Reloader → Result ReloadError (Unit {0}) × Reloader
load_and_write_certs io not_found r = (err (failed_to_get none), r)
load_and_write_certs io (failed e) r = (err (failed_to_get (some e)), r)
load_and_write_certs io (found secret) r =
    taken tt secret r (write_certificates_to_disk io secret.contents r.disk)

pub data PoolError : Type 0 where
  failed_to_read failed_to_parse : PoolError

-- `loadCAPool` of the audit webhook; `parse` is what `AppendCertsFromPEM` makes of a text.
unfoldable pub load_ca_pool : {P : Type 0} → (String → Option P) → Dict String → Result PoolError P
load_ca_pool parse disk = elim (lookup data_key_certificate_ca disk) [
  | none ↦ err failed_to_read
  | some pem ↦ elim (parse pem) [ none ↦ err failed_to_parse | some pool ↦ ok pool ]
]

-- `certReadyCheck`: the first file that is not there.
unfoldable pub cert_ready_check : Dict String → Option String
cert_ready_check disk =
    if has_key data_key_certificate disk
    then (if has_key data_key_private_key disk then none else some data_key_private_key)
    else some data_key_certificate
