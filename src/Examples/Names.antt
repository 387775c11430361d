-- ===== src/Examples/Names.antt =====
-- Label values, extras, configurations and catalogs.
use persephone.Base.{◌≡◌, refl, some, arith, eq_iff}
use persephone.Labels.{sanitize_label_value, is_label_rune, is_alphanumeric}
use persephone.Labels.Sanitize.{IsLabelValue, sanitize_label_value-IsLabelValue}
use persephone.Kubeconfig.{AuthOptions, get_kubeconfig_for_garden}
use persephone.Kubeconfig.Secrecy.{password_not_revealed}

sanitized_example : IsLabelValue (sanitize_label_value "my domain!")
sanitized_example = sanitize_label_value-IsLabelValue "my domain!"

ab_label : IsLabelValue "ab"
unfolding is_label_rune is_alphanumeric
ab_label = record { runes = (refl, (refl, tt)); starts = refl; ends = refl; bounded = omega arith }

abbrev options : AuthOptions
options = record {
  identity_endpoint = "https://identity.qa";
  domain_name = "users";
  scope = some (record { project_id = "p1"; project_name = "shop" });
  username = "jane";
  password = "x";
  application_credential_id = "";
  application_credential_name = "";
  application_credential_secret = "";
}

password_example :
    get_kubeconfig_for_garden
      (record options { password = "x" })
      "password-auth"
      "https://garden"
      "qa"
    ≡ get_kubeconfig_for_garden
        (record options { password = "y" })
        "password-auth"
        "https://garden"
        "qa"
password_example =
    password_not_revealed options "x" "y" "password-auth" "https://garden" "qa"
      (λ e. ground (arith, eq_iff "x" "")) (λ e. ground (arith, eq_iff "y" ""))
