-- ===== src/AuditCert/Generations.antt =====
-- internal/controller/auditcert/reconciler.go: the generations of CAs that a secret goes through, and
-- which of them it carries.
use mathlib.Core.Path.{subst}
use persephone.Base.{
  ℕ, String, ◌≡◌, ◌≢◌, some, refl, sym, ap, ◌∙◌, inl, inr, false, ◌==◌, ◌<>◌, List, [], ◌∷◌, arith,
  eq_iff,
}
use persephone.Base.{Result, ok, err, All, Bool-cases, Option-cases, Result-cases, wrap}
use persephone.Base.Dict.{Dict, get_text}
use persephone.Kube.{found, not_found}
use persephone.AuditCert.{
  data_key_certificate_ca, data_key_certificate, data_key_private_key, Secret, Certificate,
  CertificateType, CertificateConfig, server_cert, client_cert, Pem, Env, create_secret,
  patch_secret, CertError,
}
use persephone.AuditCert.Reconciler.{
  first_pem_block, ca_config, server_config, client_config, secret_data, generate_certificates,
  bundle_ca, new_secret, needs_rotation, generate_and_create_secret, generate_and_update_secret,
  reconcile,
}

-- A run that makes certificates: what it was answered, and its CA.
pub record Generation : Type 0 where
  pub env : Env
  pub ca : Certificate

-- Which secrets come about, with their generations, the newest first. Each step is a run of
-- `Reconcile` that makes one call; the contents of the secret are those of the step before, while the
-- rest of it may have changed.
pub data Reach (pem : Pem) : List Generation → Secret → Type 0 where
  created :
      {g : Generation} {secret : Secret} (after : ℕ)
      → g.env.generate (ca_config g.env) ≡ ok g.ca
      → reconcile g.env not_found ≡ (ok after, create_secret secret ∷ [])
      → Reach pem (g ∷ []) secret
  rotated :
      {g : Generation} {older : List Generation} {secret next : Secret} (read : Secret) (after : ℕ)
      → Reach pem older secret
      → read.contents ≡ secret.contents
      → g.env.pem ≡ pem
      → g.env.generate (ca_config g.env) ≡ ok g.ca
      → reconcile g.env (found read) ≡ (ok after, patch_secret next ∷ [])
      → Reach pem (g ∷ older) next

-- A text that is found to be the first block also where another text follows.
abbrev pub IsBlock : Pem → Certificate → Type 0
IsBlock pem c =
    (c.certificate_pem ≢ "")
    × (first_pem_block pem c.certificate_pem ≡ c.certificate_pem)
    × ((rest : String) → first_pem_block pem (c.certificate_pem <> rest) ≡ c.certificate_pem)

-- The newest CA and the one before it.
abbrev pub bundle : List Generation → String
bundle [] = ""
bundle (g ∷ []) = g.ca.certificate_pem
bundle (g ∷ (p ∷ rest)) = g.ca.certificate_pem <> p.ca.certificate_pem

-- A certificate of the kind that the library made in this run, with its CA as the signing one.
pub record IsSigned (g : Generation) (kind : CertificateType) (certificate : Certificate)
    : Type 0 where
  pub config : CertificateConfig
  pub made : g.env.generate config ≡ ok certificate
  pub signing : config.signing_ca ≡ some g.ca
  pub of_kind : config.cert_type ≡ kind

-- The CA bundle has the CAs of the two newest runs, and the other two certificates with their keys
-- are those that were made in the newest with its CA as the signing one.
pub record IsBundled (g : Generation) (older : List Generation) (contents : Dict String)
    : Type 0 where
  pub server : Certificate
  pub client : Certificate
  pub server_signed : IsSigned g server_cert server
  pub client_signed : IsSigned g client_cert client
  pub bundled : get_text data_key_certificate_ca contents ≡ bundle (g ∷ older)
  pub served : get_text data_key_certificate contents ≡ server.certificate_pem
  pub served_key : get_text data_key_private_key contents ≡ server.private_key_pem
  pub shown : get_text "client.crt" contents ≡ client.certificate_pem
  pub shown_key : get_text "client.key" contents ≡ client.private_key_pem

abbrev IsGenerated : Env → Certificate → Dict String → Type 0
IsGenerated env c contents =
    (server : Certificate) × (client : Certificate) × (env.generate (server_config env c)
      ≡ ok server)
    × (env.generate (client_config env c) ≡ ok client)
    × (contents ≡ secret_data env c server client)

same : {a b : Certificate} → ◌≡◌ {A = Result String Certificate} (ok a) (ok b) → a ≡ b
same h = cc

wrap-ok : {D A : Type 0} (f : D → CertError) (r : Result D A) (a : A) → wrap f r ≡ ok a → r ≡ ok a
wrap-ok f (ok b) a h = cc
wrap-ok f (err e) a h = ground arith

generate_certificates-IsGenerated :
    (env : Env) (c : Certificate) (contents : Dict String)
    → env.generate (ca_config env) ≡ ok c
    → generate_certificates env ≡ ok contents
    → IsGenerated env c contents
unfolding generate_certificates
generate_certificates-IsGenerated env c contents g h =
    elim (Result-cases (env.generate (server_config env c))) [
      | inr (x, e) ↦ ground arith
      | inl (server, e) ↦ elim (Result-cases (env.generate (client_config env c))) [
        | inr (x, f) ↦ ground arith
        | inl (client, f) ↦ (server, client, e, f, ground arith)
      ]
    ]

created_contents :
    (env : Env) (after : ℕ) (secret : Secret)
    → reconcile env not_found ≡ (ok after, create_secret secret ∷ [])
    → generate_certificates env ≡ ok secret.contents
unfolding reconcile generate_and_create_secret
created_contents env after secret h = elim (Result-cases (generate_certificates env)) [
  | inr (x, e) ↦ ground arith
  | inl (contents, e) ↦ elim (Option-cases (env.create (new_secret env contents))) [
    | inr (x, f) ↦ ground arith
    | inl f ↦ ground arith
  ]
]

rotated_contents :
    (env : Env) (after : ℕ) (read next : Secret)
    → reconcile env (found read) ≡ (ok after, patch_secret next ∷ [])
    → (contents : Dict String) × (generate_certificates env ≡ ok contents)
      × (next.contents
          ≡ bundle_ca contents
              (first_pem_block env.pem (get_text data_key_certificate_ca read.contents)))
unfolding reconcile generate_and_update_secret
rotated_contents env after read next h = elim (Bool-cases (needs_rotation env read)) [
  | inr n ↦ ground arith
  | inl y ↦ elim (Result-cases (generate_certificates env)) [
    | inr (x, e) ↦ ground arith
    | inl (contents, e) ↦
        let old = first_pem_block env.pem (get_text data_key_certificate_ca read.contents) in
        elim (Option-cases (env.patch (record read { contents = bundle_ca contents old }))) [
          | inr (x, f) ↦ ground arith
          | inl f ↦ (contents, e, ground arith)
        ]
  ]
]

-- Some CA was there first.
abbrev pub IsCarried : List Generation → Dict String → Type 0
IsCarried [] contents = ⊥
IsCarried (g ∷ older) contents = IsBundled g older contents

first_of_bundle :
    (pem : Pem) (p : Generation) (older : List Generation)
    → IsBlock pem p.ca
    → first_pem_block pem (bundle (p ∷ older)) ≡ p.ca.certificate_pem
first_of_bundle pem p [] (n, alone, followed) = alone
first_of_bundle pem p (q ∷ rest) (n, alone, followed) = followed q.ca.certificate_pem

module _ (g : Generation) (server client : Certificate)
    (s : g.env.generate (server_config g.env g.ca) ≡ ok server)
    (l : g.env.generate (client_config g.env g.ca) ≡ ok client) where
  server_of_run : IsSigned g server_cert server
  server_of_run = record {
    config = server_config g.env g.ca;
    made = s;
    signing = refl;
    of_kind = refl;
  }

  client_of_run : IsSigned g client_cert client
  client_of_run = record {
    config = client_config g.env g.ca;
    made = l;
    signing = refl;
    of_kind = refl;
  }

  first_generation : IsBundled g [] (secret_data g.env g.ca server client)
  first_generation = record {
    server = server;
    client = client;
    server_signed = server_of_run;
    client_signed = client_of_run;
    bundled = refl;
    served = refl;
    served_key = refl;
    shown = refl;
    shown_key = refl;
  }

  next_generation :
      (p : Generation) (older : List Generation) (old : String)
      → old ≡ p.ca.certificate_pem
      → p.ca.certificate_pem ≢ ""
      → IsBundled g (p ∷ older) (bundle_ca (secret_data g.env g.ca server client) old)
  next_generation p older old o n =
      let filled : (old == "") ≡ false = ground (arith, eq_iff old "") in
      record {
        server = server;
        client = client;
        server_signed = server_of_run;
        client_signed = client_of_run;
        bundled = rw (filled, o) refl;
        served = rw filled refl;
        served_key = rw filled refl;
        shown = rw filled refl;
        shown_key = rw filled refl;
      }

-- Whatever the number of rotations, the secret carries the CA that the newest run made and, in one
-- bundle after it, the CA of the run before, if there was one, and no older CA; its server and client
-- certificates, with their keys, are those that the library made in the newest run with its CA as
-- the signing one. That every CA is found by the PEM decoder as a first block is a hypothesis.
pub Reach-IsCarried :
    (pem : Pem) (runs : List Generation) (secret : Secret)
    → Reach pem runs secret
    → All (λ g. IsBlock pem g.ca) runs
    → IsCarried runs secret.contents
Reach-IsCarried pem [] secret reached blocks = elim reached [ ]
Reach-IsCarried pem (g ∷ []) secret (created after made h) blocks =
    let (server, client, s, l, e) =
      generate_certificates-IsGenerated g.env g.ca secret.contents made
        (created_contents g.env after secret h) in
    subst (IsBundled g []) (sym e) (first_generation g server client s l)
Reach-IsCarried pem (g ∷ runs) next
      (rotated {secret = secret} read after reached same_contents p made h) (block, blocks) =
    rotate runs (Reach-IsCarried pem runs secret reached blocks) blocks
  where
    rotate :
        (older : List Generation)
        → IsCarried older secret.contents
        → All (λ q. IsBlock pem q.ca) older
        → IsBundled g older next.contents
    rotate [] carried b = absurd carried
    rotate (q ∷ older) carried b =
        let (contents, generated, e) = rotated_contents g.env after read next h in
        let (server, client, s, l, f) =
          generate_certificates-IsGenerated g.env g.ca contents made generated in
        let old : String =
          first_pem_block g.env.pem (get_text data_key_certificate_ca read.contents) in
        let first : old ≡ q.ca.certificate_pem =
          ap (λ x. first_pem_block x (get_text data_key_certificate_ca read.contents)) p
          ∙ ap (λ x. first_pem_block pem (get_text data_key_certificate_ca x)) same_contents
          ∙ ap (first_pem_block pem) carried.bundled
          ∙ first_of_bundle pem q older b.0 in
        subst (IsBundled g (q ∷ older)) (sym (e ∙ ap (λ x. bundle_ca x old) f))
          (next_generation g server client s l q older old first b.0.0)
