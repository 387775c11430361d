-- ===== src/Examples/Login.antt =====
-- A token of Keystone is handed out, cached, and shown to the webhook.
use persephone.Base.{ℕ, ◌≡◌, ◌↔◌, String, refl, true, false, Option, none, some, List, [], ◌∷◌}
use persephone.Base.{Result, ok, err, arith, eqb, if◌then◌else◌, ap}
use persephone.Base.Dict.{lookup}
use persephone.Base.Texts.{split_colon}
use persephone.UserInfo.{open_stack_user_info_from_extra, get_first_value_for_key, to_extra}
use persephone.Project.{reconcile_gardener_project_resources}
use persephone.Project.Provisioned.{IsProvisioned}
use persephone.Auth.{
  CatalogEntry, Login, CredentialStatus, ExecCredential, File, Disk, Io, private_mode,
  check_credential, get_region, do_login, read, write,
}
use persephone.Auth.Cache.{IsFresh, read-write, read-IsFresh}
use persephone.Token.{
  Keystone, KeystoneUser, KeystoneProject, K8sUserInfo, user_info_of, handle,
  get_regional_identity_endpoint, make_user_info, authentication_attempt, resource_reconciliation,
}
use persephone.Token.Bearer.{IsServed, Names, get_regional_identity_endpoint_iff, endpoint-do_login}
use persephone.Token.Admission.{IsVouched, handle-IsVouched, handle-IsProvisioned, open_stack_part}
use persephone.Examples.World.{cluster, cluster-ClusterLaws, empty_world}
use persephone.Examples.Garden.{sha, config, qa_region}

abbrev catalog : List CatalogEntry
catalog =
    record {
      service_type = "identity";
      service_name = "keystone";
      endpoints = record { interface = "public"; region = "qa"; url = "https://identity.qa" } ∷ [];
    }
    ∷ []

abbrev pub login : Login
login = record {
  provider_error = none;
  identity_error = none;
  token = ok (record { id = "t1"; expires_at = 500 });
  catalog = ok catalog;
}

served : IsServed config "qa" "https://identity.qa"
served = record { config = qa_region; configured = refl; same = refl; set = λ h. cc }

endpoint_login_example :
    (status : CredentialStatus) × (do_login login false ≡ ok (record { status = some status }))
    × (get_regional_identity_endpoint config status.token
        ≡ ok (record {
          endpoint = "https://identity.qa";
          token = "t1";
          region = get_region catalog;
        }))
unfolding get_region
endpoint_login_example =
    endpoint-do_login config login "t1" "https://identity.qa" 500 catalog refl refl refl refl
      (λ h. cc) (λ h. omega arith, (λ h. omega arith, tt))
      (λ h. omega arith, (λ h. omega arith, tt)) served

named_endpoint_example :
    (get_regional_identity_endpoint config "qa:t1"
      ≡ ok (record { endpoint = "https://identity.qa"; token = "t1"; region = "qa" }))
    ↔ Names config "qa:t1"
        (record { endpoint = "https://identity.qa"; token = "t1"; region = "qa" })
named_endpoint_example =
    get_regional_identity_endpoint_iff config "qa:t1"
      (record { endpoint = "https://identity.qa"; token = "t1"; region = "qa" })

abbrev user : KeystoneUser
user = record { id = "u1"; name = "ada"; domain = record { id = "d2"; name = "users" } }

abbrev project : KeystoneProject
project = record { id = "p1"; name = "shop"; domain = record { id = "d1"; name = "my domain" } }

abbrev keystone : Keystone
keystone = record {
  new_client = λ _ _. none;
  get_token = λ endpoint token. record {
    user = ok (some user);
    project = ok (some project);
    roles = ok ("kubernetes_admin" ∷ []);
  };
}

abbrev ada : K8sUserInfo
ada = user_info_of "qa" user project ("kubernetes_admin" ∷ [])

admitted_example : IsVouched keystone config "qa:t1" ada
unfolding handle make_user_info get_regional_identity_endpoint split_colon
admitted_example =
    handle-IsVouched keystone sha cluster config false "qa:t1" empty_world empty_world ada [] refl

provisioned_example :
    (v : IsVouched keystone config "qa:t1" ada) × IsProvisioned sha cluster cluster-ClusterLaws
      config
      (open_stack_part v.endpoint.region v.user v.project)
      empty_world
      (handle keystone sha cluster config true "qa:t1" empty_world).2
unfolding handle make_user_info get_regional_identity_endpoint reconcile_gardener_project_resources
    split_colon open_stack_user_info_from_extra get_first_value_for_key user_info_of to_extra
provisioned_example =
    handle-IsProvisioned keystone sha cluster config cluster-ClusterLaws "qa:t1" empty_world
      (handle keystone sha cluster config true "qa:t1" empty_world).2 ada
      (authentication_attempt "qa" "success" ∷ resource_reconciliation "qa" "success" ∷ []) refl

-- A codec of credentials that expire at 500: only the token is written.
abbrev pub credential : Option ℕ → String → ExecCredential
credential expiry token = record {
  status = some (record { expiration_timestamp = expiry; token = token });
}

abbrev marshal_parts : Option ℕ → String → Result String String
marshal_parts none token = err "no expiry"
marshal_parts (some n) token = if eqb n 500 then ok token else err "another expiry"

abbrev marshal_status : Option CredentialStatus → Result String String
marshal_status none = err "no status"
marshal_status (some s) = marshal_parts s.expiration_timestamp s.token

abbrev pub marshal : ExecCredential → Result String String
marshal ec = marshal_status ec.status

abbrev pub decode : String → Result String ExecCredential
decode text = ok (credential (some 500) text)

round_trip_parts :
    (expiry : Option ℕ) (token text : String)
    → marshal_parts expiry token ≡ ok text
    → credential (some 500) text ≡ credential expiry token
round_trip_parts none token text h = cc
round_trip_parts (some n) token text h =
    let same : n ≡ 500 = ground arith in
    let kept : text ≡ token = ground arith in rw (same, kept) refl

pub round_trip_status :
    (status : Option CredentialStatus) (text : String)
    → marshal_status status ≡ ok text
    → credential (some 500) text ≡ record { status = status }
round_trip_status none text h = cc
round_trip_status (some s) text h = round_trip_parts s.expiration_timestamp s.token text h

abbrev pub io : Io
io = record { read_error = none; stat_error = none; mkdir_error = none; write_error = none }

abbrev cached : Disk
cached = ("key", record { contents = "qa:t1"; mode = private_mode }) ∷ []

fresh : IsFresh 100 (credential (some 500) "qa:t1")
fresh = record {
  status = record { expiration_timestamp = some 500; token = "qa:t1" };
  expiry = 500;
  has_status = refl;
  token = λ h. cc;
  has_expiry = refl;
  later = omega arith;
}

read_write_example : read marshal decode "key" 100 io cached ≡ ok (credential (some 500) "qa:t1")
unfolding write
read_write_example =
    read-write marshal decode "key" 100 (credential (some 500) "qa:t1") io io [] cached
      (λ e text h. ap ok (round_trip_status e.status text h)) (λ f h. cc) refl refl fresh refl

read_fresh_example :
    IsFresh 100 (credential (some 500) "qa:t1")
    × ((f : File) × (lookup "key" cached ≡ some f)
        × (f.mode ≡ private_mode)
        × (decode f.contents ≡ ok (credential (some 500) "qa:t1")))
unfolding read check_credential
read_fresh_example =
    read-IsFresh marshal decode "key" 100 (credential (some 500) "qa:t1") io cached refl
