-- ===== src/AuditCert.antt =====
-- internal/controller/auditcert: the certificates of the audit webhook, which reconciler.go keeps in
-- a secret and renews, and reloader.go writes to the disk of each replica. A byte slice is a text,
-- and a resource version a number, of which the code uses that it is equal or not. PEM and the
-- making of certificates are libraries: the arguments `Pem` and `Env`.
pub mod Reconciler
pub mod Reloader
pub mod Generations
pub mod Loaded
pub mod Trust
use persephone.Base.{ℕ, String, Option, List}
use persephone.Base.{Result}
use persephone.Base.Dict.{Dict}

abbrev pub data_key_certificate_ca : String
data_key_certificate_ca = "ca.crt"

abbrev pub data_key_certificate : String
data_key_certificate = "tls.crt"

abbrev pub data_key_private_key : String
data_key_private_key = "tls.key"

pub record Secret : Type 0 where
  pub name : String
  pub namespace : String
  pub labels : Dict String
  pub resource_version : ℕ
  pub contents : Dict String

pub record Certificate : Type 0 where
  pub certificate_pem : String
  pub private_key_pem : String

pub data CertificateType : Type 0 where
  ca_cert server_cert client_cert : CertificateType

pub record CertificateConfig : Type 0 where
  pub name : String
  pub common_name : String
  pub dns_names : List String
  pub cert_type : CertificateType
  pub signing_ca : Option Certificate
  pub validity : ℕ

-- `NotBefore` and `NotAfter`
pub record Validity : Type 0 where
  pub not_before : ℕ
  pub not_after : ℕ

-- `pem.Decode`, which finds the first block, and `pem.EncodeToMemory`.
pub record Pem : Type 0 where
  pub decode : String → Option String
  pub encode : String → String

-- The reconciler's fields, the time, and what the libraries and the API server answer: `load` is
-- `LoadCertificate` on a key and a certificate, `data_key_private_key_ca` the library's name for the
-- key of the CA.
pub record Env : Type 0 where
  pub secret_name : String
  pub namespace : String
  pub service_name : String
  pub cert_validity : ℕ
  pub sync_period : ℕ
  pub now : ℕ
  pub pem : Pem
  pub data_key_private_key_ca : String
  pub load : String → String → Option Validity
  pub generate : CertificateConfig → Result String Certificate
  pub create : Secret → Option String
  pub patch : Secret → Option String

pub data Call : Type 0 where
  create_secret patch_secret : Secret → Call

pub data CertError : Type 0 where
  failed_to_get : String → CertError
  failed_to_generate : CertificateType → String → CertError
  failed_to_store failed_to_create_client : String → CertError
