-- ===== src/Kubeconfig/Secrecy.antt =====
-- internal/kubernetes/kubeconfig.go: what a garden kubeconfig reveals, and where it points.
use persephone.Base.{String, ◌≡◌, ◌≢◌, refl, false, ◌==◌, arith, eq_iff}
use persephone.Kubeconfig.{AuthOptions, check_method, method_env, get_kubeconfig_for_garden}

-- The kubeconfig for the garden is the same whatever the password is, if it is not empty: with any
-- method, and whether it is an error or not.
pub password_not_revealed :
    (o : AuthOptions) (p q method api_endpoint region : String)
    → p ≢ ""
    → q ≢ ""
    → get_kubeconfig_for_garden (record o { password = p }) method api_endpoint region
      ≡ get_kubeconfig_for_garden (record o { password = q }) method api_endpoint region
unfolding get_kubeconfig_for_garden check_method method_env
password_not_revealed o p q method api_endpoint region n m =
    let e : (p == "") ≡ false = ground (arith, eq_iff p "") in
    let f : (q == "") ≡ false = ground (arith, eq_iff q "") in rw (e, f) refl
