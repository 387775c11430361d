-- ===== src/AuditCert/Trust.antt =====
-- internal/controller/auditcert and cmd/persephone-audit-webhook/main.go: the certificates that a
-- replica serves, and the client certificates that it trusts.
use mathlib.Core.Path.{subst}
use persephone.Base.{
  none, arith, ℕ, ◌≤◌, String, ◌≡◌, sym, ap, ◌∙◌, inl, inr, Option, some, List, ◌∷◌,
}
use persephone.Base.{ok, All}
use persephone.Base.Dict.{Dict, lookup}
use persephone.Kube.{found}
use persephone.AuditCert.{
  data_key_certificate_ca, data_key_certificate, data_key_private_key, Secret, Certificate,
  server_cert, Pem,
}
use persephone.AuditCert.Reloader.{Reloader, Io, reload, load_ca_pool, cert_ready_check}
use persephone.AuditCert.Generations as Generations
use persephone.AuditCert.Generations.{
  Generation, IsSigned, IsBlock, bundle, IsBundled, Reach-IsCarried,
}
use persephone.AuditCert.Loaded.{Reach, IsWritten, Reach-IsUpToDate, reload-IsUpToDate}

-- The disk serves a certificate that the newest run made with its CA as the signing one, and its key;
-- its pool of client CAs has the CAs of the two newest runs.
pub record IsTrusting (g : Generation) (older : List Generation) (disk : Dict String) : Type 0 where
  pub server : Certificate
  pub server_signed : IsSigned g server_cert server
  pub served : lookup data_key_certificate disk ≡ some server.certificate_pem
  pub served_key : lookup data_key_private_key disk ≡ some server.private_key_pem
  pub trusted : lookup data_key_certificate_ca disk ≡ some (bundle (g ∷ older))

trusting :
    (g : Generation) (older : List Generation) (contents disk : Dict String)
    → IsBundled g older contents
    → IsWritten contents disk
    → IsTrusting g older disk
trusting g older contents disk b w = record {
  server = b.server;
  server_signed = b.server_signed;
  served = w.certificate.0 ∙ ap some b.served;
  served_key = w.key.0 ∙ ap some b.served_key;
  trusted = w.ca.0 ∙ ap some b.bundled;
}

ready :
    (disk : Dict String) (crt key : String)
    → lookup data_key_certificate disk ≡ some crt
    → lookup data_key_private_key disk ≡ some key
    → cert_ready_check disk ≡ none
unfolding cert_ready_check
ready disk crt key h k = ground arith

pooled :
    {P : Type 0} (parse : String → Option P) (disk : Dict String) (ca : String) (pool : P)
    → lookup data_key_certificate_ca disk ≡ some ca
    → parse ca ≡ some pool
    → load_ca_pool parse disk ≡ ok pool
unfolding load_ca_pool
pooled parse disk ca pool h k = simp (h, k, load_ca_pool)

-- Where a reloader, after any runs, reads a secret without error, and this secret has come about by
-- runs of the reconciler, then its disk serves a certificate that the newest of these runs made with
-- its CA as the signing one, with its key; it is ready; and the pool of client CAs that is loaded
-- from the disk is what is parsed of that CA followed by the one of the run before, if that text can
-- be parsed.
pub reload_ok-IsTrusting :
    {P : Type 0} (parse : String → Option P) (pool : P) (pem : Pem) (content : ℕ → Dict String)
    (seen : ℕ) (r : Reloader) (io : Io) (period : ℕ) (secret : Secret) (g : Generation)
    (older : List Generation)
    → Reach content seen r
    → seen ≤ secret.resource_version
    → secret.contents ≡ content secret.resource_version
    → Generations.Reach pem (g ∷ older) secret
    → All (λ x. IsBlock pem x.ca) (g ∷ older)
    → parse (bundle (g ∷ older)) ≡ some pool
    → (reload io period (found secret) r).0 ≡ ok period
    → IsTrusting g older (reload io period (found secret) r).1.disk
      × (cert_ready_check (reload io period (found secret) r).1.disk ≡ none)
      × (load_ca_pool parse (reload io period (found secret) r).1.disk ≡ ok pool)
reload_ok-IsTrusting parse pool pem content seen r io period secret g older reached later stored
      made blocks parsed h =
    let known = Reach-IsUpToDate content seen r reached in
    let disk = (reload io period (found secret) r).1.disk in
    elim (reload-IsUpToDate content io period secret seen r stored later known).1 [
      | inl n ↦ absurd (n h)
      | inr w ↦
          let w' = subst (λ x. IsWritten x disk) (sym stored) w in
          let t =
            trusting g older secret.contents disk
              (Reach-IsCarried pem (g ∷ older) secret made blocks) w' in
          (t, ready disk _ _ t.served t.served_key, pooled parse disk _ pool t.trusted parsed)
    ]
