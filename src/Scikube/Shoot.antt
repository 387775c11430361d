-- ===== src/Scikube/Shoot.antt =====
-- cmd/scikube/cmd/kubeconfig-for-shoot.go: the command `scikube kubeconfig-for-shoot`. The search in
-- PATH, and the loading of a kubeconfig, are parameters; the expiration is in seconds.
use persephone.Base.{ℕ, String, ◌≡◌, ◌≢◌, Bool, ◌==◌, not, arith, eq_iff}
use persephone.Base.{Result, ok, err, wrap, wrap-ok, if◌then◌else◌}
use persephone.Kubeconfig.{Garden, ShootKubeconfigError, get_kubeconfig_for_shoot}
use persephone.Scikube.{Settings}

pub data ShootError : Type 0 where
  no_scikube no_kubeconfig no_name : ShootError
  failed : ShootKubeconfigError → ShootError

-- `kubeconfigForShoot`: what it prints.
unfoldable pub kubeconfig_for_shoot :
    Bool → (String → Result String Garden) → Settings → ℕ → Result ShootError String
kubeconfig_for_shoot in_path load s expiration =
    if not in_path
    then err no_scikube
    else if s.text "KUBECONFIG" == ""
    then err no_kubeconfig
    else if s.text "SCIKUBE_SHOOT_NAME" == ""
    then err no_name
    else wrap failed (
        get_kubeconfig_for_shoot (load (s.text "KUBECONFIG")) (s.text "SCIKUBE_SHOOT_NAME")
          expiration)

-- What is printed is a kubeconfig for the Shoot that the settings name.
kubeconfig_for_shoot_ok :
    (in_path : Bool) (load : String → Result String Garden) (s : Settings) (expiration : ℕ)
    (text : String)
    → kubeconfig_for_shoot in_path load s expiration ≡ ok text
    → (s.text "SCIKUBE_SHOOT_NAME" ≢ "")
      × (get_kubeconfig_for_shoot
            (load (s.text "KUBECONFIG"))
            (s.text "SCIKUBE_SHOOT_NAME")
            expiration
          ≡ ok text)
unfolding kubeconfig_for_shoot
kubeconfig_for_shoot_ok in_path load s expiration text h =
    (ground (arith, eq_iff (s.text "SCIKUBE_SHOOT_NAME") ""), wrap-ok failed _ text (ground arith))
