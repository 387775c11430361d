-- ===== src/Scikube/Options.antt =====
-- cmd/scikube/cmd/openstack.go, getAuthOptions: which settings are accepted, and those that a
-- kubeconfig of internal/kubernetes/kubeconfig.go hands on.
use persephone.Base.{◌≡◌, ◌≢◌, ◌↔◌, refl, ◌⊎◌, inl, inr, true, false, arith, eq_iff}
use persephone.Base.{ok, Result-cases}
use persephone.Scikube.{
  Settings, AuthOptions, user_domain, missing_settings, none_missing, check_settings, options_of,
  get_auth_options,
}

abbrev pub HasPassword : Settings → Type 0
HasPassword s =
    (s.text "OS_APPLICATION_CREDENTIAL_SECRET" ≡ "")
    × (user_domain s ≢ "")
    × (s.text "OS_USERNAME" ≢ "")
    × (s.text "OS_PROJECT_NAME" ≢ "")
    × (s.text "OS_PASSWORD" ≢ "")

abbrev pub HasApplicationCredential : Settings → Type 0
HasApplicationCredential s =
    (s.text "OS_APPLICATION_CREDENTIAL_SECRET" ≢ "")
    × (s.text "OS_APPLICATION_CREDENTIAL_ID" ≢ "")
    × (s.text "OS_APPLICATION_CREDENTIAL_NAME" ≢ "")

-- Any settings in an end-to-end test; else an address, and a password or an application credential
-- with all that belongs to it.
abbrev pub IsAccepted : Settings → Type 0
IsAccepted s =
    (s.flag "RUN_E2E_TEST" ≡ true)
    ⊎ ((s.flag "RUN_E2E_TEST" ≡ false)
        × (s.text "OS_AUTH_URL" ≢ "")
        × (HasPassword s ⊎ HasApplicationCredential s))

none_missing_iff :
    (s : Settings)
    → (none_missing (missing_settings s) ≡ ok tt) ↔ (
        (user_domain s ≢ "")
        × (s.text "OS_USERNAME" ≢ "")
        × (s.text "OS_PROJECT_NAME" ≢ "")
        × (s.text "OS_PASSWORD" ≢ ""))
unfolding missing_settings
none_missing_iff s = ground (
  arith,
  eq_iff (user_domain s) "",
  eq_iff (s.text "OS_USERNAME") "",
  eq_iff (s.text "OS_PROJECT_NAME") "",
  eq_iff (s.text "OS_PASSWORD") "",
)

check_settings_iff : (s : Settings) → (check_settings s ≡ ok tt) ↔ IsAccepted s
unfolding check_settings
check_settings_iff s = ground (
  arith,
  none_missing_iff s,
  eq_iff (s.text "OS_AUTH_URL") "",
  eq_iff (s.text "OS_APPLICATION_CREDENTIAL_SECRET") "",
  eq_iff (s.text "OS_APPLICATION_CREDENTIAL_ID") "",
  eq_iff (s.text "OS_APPLICATION_CREDENTIAL_NAME") "",
)

-- `getAuthOptions` gives options exactly where the settings are accepted, and then those of the
-- settings: in an end-to-end test any are; else there is an address, and, without the secret of an
-- application credential, a user and a domain, a project and a password, or, with that secret, the
-- credential's id and name.
pub get_auth_options_iff :
    (s : Settings) (o : AuthOptions)
    → (get_auth_options s ≡ ok o) ↔ (IsAccepted s × (o ≡ options_of s))
unfolding get_auth_options
get_auth_options_iff s o = elim (Result-cases (check_settings s)) [
  | inl (u, e) ↦ (
    simp e λ h. ((check_settings_iff s).0 e, ground arith),
    λ (a, same). simp (e, same, get_auth_options) refl,
  )
  | inr (x, e) ↦
      (simp e λ h. ground arith, λ (a, same). let k = (check_settings_iff s).1 a in ground arith)
]
