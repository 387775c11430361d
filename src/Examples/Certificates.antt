-- ===== src/Examples/Certificates.antt =====
-- The audit webhook's secret, created with the CA "A" and rotated to the CA "B"; a reloader reads it.
-- A PEM block is one character here.
use Prim.Native.String.{[], ◌∷◌}
use persephone.Base.{
  ℕ, String, ◌≡◌, refl, Option, none, some, List, [], ◌∷◌, ok, ap, arith, eq_iff, All, true, false,
  eqb,
}
use text.Mathlib.TextLemmas.{cons-append}
use persephone.Base.Dict.{Dict}
use persephone.Kube.{found}
use persephone.AuditCert.{
  Secret, Certificate, CertificateType, ca_cert, server_cert, client_cert, Pem, Env,
}
use persephone.AuditCert.Reconciler.{
  first_pem_block, reconcile, generate_certificates, generate_and_create_secret, needs_rotation,
  generate_and_update_secret,
}
use persephone.AuditCert.Reloader.{
  Reloader, Io, reload, load_and_write_certs, load_ca_pool, cert_ready_check,
  write_certificates_to_disk, write_files,
}
use persephone.AuditCert.Generations as Generations
use persephone.AuditCert.Generations.{Generation, IsBlock, IsCarried, Reach-IsCarried}
use persephone.AuditCert.Loaded.{Reach, loaded}
use persephone.AuditCert.Trust.{IsTrusting, reload_ok-IsTrusting}

abbrev decode : String → Option String
decode [] = none
decode (c ∷ s) = some (c ∷ [])

abbrev pem : Pem
pem = record { decode = decode; encode = λ block. block }

abbrev certificate : String → CertificateType → Certificate
certificate ca ca_cert = record { certificate_pem = ca; private_key_pem = "k" }
certificate ca server_cert = record { certificate_pem = "S"; private_key_pem = "s" }
certificate ca client_cert = record { certificate_pem = "C"; private_key_pem = "c" }

abbrev env_with : String → Env
env_with ca = record {
  secret_name = "persephone-audit-webhook-tls";
  namespace = "garden";
  service_name = "persephone-audit-webhook";
  cert_validity = 2592000;
  sync_period = 300;
  now = 5;
  pem = pem;
  data_key_private_key_ca = "ca.key";
  load = λ key certificate. none;
  generate = λ config. ok (certificate ca config.cert_type);
  create = λ secret. none;
  patch = λ secret. none;
}

abbrev secret_of : String → ℕ → Secret
secret_of ca version = record {
  name = "persephone-audit-webhook-tls";
  namespace = "garden";
  labels = ("app", "persephone") ∷ ("role", "audit-webhook-tls") ∷ [];
  resource_version = version;
  contents =
      ("ca.crt", ca)
      ∷ ("tls.crt", "S")
      ∷ ("tls.key", "s")
      ∷ ("client.crt", "C")
      ∷ ("client.key", "c")
      ∷ ("ca.key", "k")
      ∷ [];
}

abbrev ca_a : Certificate
ca_a = certificate "A" ca_cert

abbrev ca_b : Certificate
ca_b = certificate "B" ca_cert

abbrev run_a : Generation
run_a = record { env = env_with "A"; ca = ca_a }

abbrev run_b : Generation
run_b = record { env = env_with "B"; ca = ca_b }

abbrev generations : List Generation
generations = run_b ∷ run_a ∷ []

first : Generations.Reach pem (run_a ∷ []) (secret_of "A" 0)
unfolding reconcile generate_and_create_secret generate_certificates
first = Generations.created 300 refl refl

second : Generations.Reach pem generations (secret_of "BA" 9)
unfolding reconcile needs_rotation generate_and_update_secret generate_certificates first_pem_block
second = Generations.rotated (secret_of "A" 9) 300 first refl refl refl refl

blocks : All (λ g. IsBlock pem g.ca) generations
unfolding first_pem_block
blocks = (
  (
    λ e. ground (arith, eq_iff "B" ""),
    refl,
    λ rest. ap (first_pem_block pem) (cons-append "B" "" rest),
  ),
  (
    (
      λ e. ground (arith, eq_iff "A" ""),
      refl,
      λ rest. ap (first_pem_block pem) (cons-append "A" "" rest),
    ),
    tt,
  ),
)

generations_example : IsCarried generations (secret_of "BA" 9).contents
generations_example = Reach-IsCarried pem generations (secret_of "BA" 9) second blocks

-- What the API server has under each version.
abbrev content : ℕ → Dict String
content version = elim (eqb version 9) [
  | true ↦ (secret_of "BA" 9).contents
  | false ↦ (secret_of "A" 0).contents
]

abbrev io : Io
io = record { mkdir_error = none; write_error = λ name. none; broken = λ disk. disk }

abbrev fresh : Reloader
fresh = record { last_resource_version = 0; disk = [] }

abbrev started : Reloader
started = record {
  last_resource_version = 4;
  disk = ("ca.crt", "A") ∷ ("tls.crt", "S") ∷ ("tls.key", "s") ∷ [];
}

running : Reach content 4 started
unfolding load_and_write_certs write_certificates_to_disk write_files
running = loaded io (secret_of "A" 4) fresh refl refl

trusting_example :
    IsTrusting run_b (run_a ∷ []) (reload io 30 (found (secret_of "BA" 9)) started).1.disk
    × (cert_ready_check (reload io 30 (found (secret_of "BA" 9)) started).1.disk ≡ none)
    × (load_ca_pool (λ text. some text) (reload io 30 (found (secret_of "BA" 9)) started).1.disk
        ≡ ok "BA")
unfolding reload write_certificates_to_disk write_files
trusting_example =
    reload_ok-IsTrusting (λ text. some text) "BA" pem content 4 started io 30 (secret_of "BA" 9)
      run_b (run_a ∷ []) running (omega arith) refl second blocks refl refl
