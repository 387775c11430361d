-- ===== src/AuditCert/Reconciler.antt =====
-- internal/controller/auditcert/reconciler.go
use persephone.Base.{String, Bool, true, false, ◌==◌, ◌<>◌, Option, none, some, [], ◌∷◌, ℕ}
use persephone.Base.{Result, ok, err, ◌>>=◌, wrap, ltb, if◌then◌else◌}
use persephone.Base.Runs.{Run, ◌>>-◌, pure, fail, lift}
use persephone.Base.Dict.{Dict, insert, get_text}
use persephone.Kube.{Got, found, not_found, failed}
use persephone.Rotation.{renew_at}
use persephone.AuditCert.{
  data_key_certificate_ca, data_key_certificate, data_key_private_key, Secret, Certificate,
  CertificateConfig, ca_cert, server_cert, client_cert, Pem, Env, Call, create_secret, patch_secret,
  CertError, failed_to_get, failed_to_generate, failed_to_store, failed_to_create_client,
}

-- A time after the half of the validity of the CA, or a CA that is missing or cannot be loaded.
unfoldable pub needs_rotation : Env → Secret → Bool
needs_rotation env secret =
    let ca : String = get_text data_key_certificate_ca secret.contents in
    if ca == ""
    then true
    else elim (env.load (get_text env.data_key_private_key_ca secret.contents) ca) [
      | none ↦ true
      | some validity ↦ ltb (renew_at validity.not_before validity.not_after) env.now
    ]

unfoldable pub first_pem_block : Pem → String → String
first_pem_block pem contents = elim (pem.decode contents) [
  | none ↦ ""
  | some block ↦ pem.encode block
]

abbrev pub ca_config : Env → CertificateConfig
ca_config env = record {
  name = "audit-webhook-ca";
  common_name = "persephone-audit-webhook-ca";
  dns_names = [];
  cert_type = ca_cert;
  signing_ca = none;
  validity = env.cert_validity;
}

abbrev pub server_config : Env → Certificate → CertificateConfig
server_config env ca = record {
  name = "audit-webhook-server";
  common_name = env.service_name;
  dns_names =
      (env.service_name <> ("." <> (env.namespace <> ".svc")))
      ∷ (env.service_name <> ("." <> (env.namespace <> ".svc.cluster.local")))
      ∷ env.service_name
      ∷ [];
  cert_type = server_cert;
  signing_ca = some ca;
  validity = env.cert_validity;
}

abbrev pub client_config : Env → Certificate → CertificateConfig
client_config env ca = record {
  name = "audit-webhook-client";
  common_name = "audit-forwarder";
  dns_names = [];
  cert_type = client_cert;
  signing_ca = some ca;
  validity = env.cert_validity;
}

-- The data of a secret for three certificates.
abbrev pub secret_data : Env → Certificate → Certificate → Certificate → Dict String
secret_data env ca server client =
    (data_key_certificate_ca, ca.certificate_pem)
    ∷ (data_key_certificate, server.certificate_pem)
    ∷ (data_key_private_key, server.private_key_pem)
    ∷ ("client.crt", client.certificate_pem)
    ∷ ("client.key", client.private_key_pem)
    ∷ (env.data_key_private_key_ca, ca.private_key_pem)
    ∷ []

unfoldable pub generate_certificates : Env → Result CertError (Dict String)
generate_certificates env = do
  ca ← wrap (failed_to_generate ca_cert) (env.generate (ca_config env))
  server ← wrap (failed_to_generate server_cert) (env.generate (server_config env ca))
  client ← wrap (failed_to_generate client_cert) (env.generate (client_config env ca))
  ok (secret_data env ca server client)

-- One call, whose error ends the run.
abbrev pub send : Call → Option String → Run CertError Call (Unit {0})
send call none = (ok tt, call ∷ [])
send call (some e) = (err (failed_to_store e), call ∷ [])

-- The secret is new, and gets its version from the server.
abbrev pub new_secret : Env → Dict String → Secret
new_secret env contents = record {
  name = env.secret_name;
  namespace = env.namespace;
  labels = ("app", "persephone") ∷ ("role", "audit-webhook-tls") ∷ [];
  resource_version = 0;
  contents = contents;
}

unfoldable pub generate_and_create_secret : Env → Run CertError Call (Unit {0})
generate_and_create_secret env = lift (λ e. e) (generate_certificates env) >>- λ contents.
    send (create_secret (new_secret env contents)) (env.create (new_secret env contents))

-- The new CA, and after it the CA before it, if there is one.
abbrev pub bundle_ca : Dict String → String → Dict String
bundle_ca contents old =
    if old == ""
    then contents
    else insert data_key_certificate_ca (get_text data_key_certificate_ca contents <> old) contents

unfoldable pub generate_and_update_secret : Env → Secret → Run CertError Call (Unit {0})
generate_and_update_secret env secret =
    let old : String = first_pem_block env.pem (get_text data_key_certificate_ca secret.contents) in
    lift (λ e. e) (generate_certificates env) >>- λ contents.
    let next : Secret = record secret { contents = bundle_ca contents old } in
    send (patch_secret next) (env.patch next)

-- `Reconcile`: the duration after which it is called again.
unfoldable pub reconcile : Env → Got Secret → Run CertError Call ℕ
reconcile env (failed e) = fail (failed_to_get e)
reconcile env not_found = generate_and_create_secret env >>- λ _. pure env.sync_period
reconcile env (found secret) = elim (needs_rotation env secret) [
  | true ↦ generate_and_update_secret env secret >>- λ _. pure env.sync_period
  | false ↦ pure env.sync_period
]

-- `AddToManager` creates the secret where it is missing, before the webhook starts, by a client of
-- its own, whose construction may give an error.
unfoldable pub ensure_secret : Env → Option String → Got Secret → Run CertError Call (Unit {0})
ensure_secret env client_error (failed e) = fail (failed_to_get e)
ensure_secret env none not_found = generate_and_create_secret env
ensure_secret env (some e) not_found = fail (failed_to_create_client e)
ensure_secret env client_error (found secret) = pure tt
