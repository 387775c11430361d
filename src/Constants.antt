-- ===== src/Constants.antt =====
-- internal/constants/consts.go: the keys and names that several parts share.
use persephone.Base.{String}

abbrev pub annotation_key_expires_at : String
annotation_key_expires_at = "secret.persephone.sci.cloud.sap/expires-at"

abbrev pub annotation_key_force_credentials_binding_update : String
annotation_key_force_credentials_binding_update =
    "shoot.persephone.sci.cloud.sap/force-credentials-binding-update"

abbrev pub label_key_open_stack_domain_name : String
label_key_open_stack_domain_name = "sci.cloud.sap/domain-name"

abbrev pub label_key_open_stack_domain_id : String
label_key_open_stack_domain_id = "sci.cloud.sap/domain-id"

abbrev pub label_key_open_stack_project_name : String
label_key_open_stack_project_name = "sci.cloud.sap/project-name"

abbrev pub label_key_open_stack_project_id : String
label_key_open_stack_project_id = "sci.cloud.sap/project-id"

abbrev pub label_key_open_stack_region : String
label_key_open_stack_region = "sci.cloud.sap/region"

abbrev pub label_key_shoot_name : String
label_key_shoot_name = "persephone.sci.cloud.sap/shoot-name"

abbrev pub resource_quota_name : String
resource_quota_name = "shoot-clusters-quota"

abbrev pub shoot_resource_quota_key : String
shoot_resource_quota_key = "count/shoots.core.gardener.cloud"

abbrev pub gardener_provider_type : String
gardener_provider_type = "openstack"
