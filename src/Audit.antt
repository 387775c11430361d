-- ===== src/Audit.antt =====
-- internal/webhook/audithandler: the audit events that the API server sends, and what the webhook
-- makes of them. Here are the data; the children hold filter.go, transform.go,
-- region_auditor_set.go and handler.go, and what is proved of them.
pub mod Filter
pub mod Transform
pub mod Auditors
pub mod Handler
pub mod Acting
pub mod Selection
pub mod Region
pub mod Delivery
pub mod Regions
use persephone.Base.{ℕ, String, Option, List}
use persephone.Base.Dict.{Dict}
use persephone.UserInfo.{ExtraValue}

pub record ObjectReference : Type 0 where
  pub api_group : String
  pub resource : String
  pub subresource : String
  pub namespace : String
  pub name : String

-- `extra` is none where the map is nil.
pub record EventUser : Type 0 where
  pub username : String
  pub uid : String
  pub extra : Option (Dict ExtraValue)

-- The fields of an audit event that the webhook reads. An object is its raw JSON, a status its
-- code, the timestamp of the stage a number.
pub record Event : Type 0 where
  pub stage : String
  pub verb : String
  pub request_uri : String
  pub user_agent : String
  pub source_ips : List String
  pub object_ref : Option ObjectReference
  pub user : EventUser
  pub impersonated_user : Option EventUser
  pub request_object : Option String
  pub response_object : Option String
  pub response_status : Option ℕ
  pub stage_timestamp : ℕ

abbrev pub verb_create : String
verb_create = "create"

abbrev pub verb_update : String
verb_update = "update"

abbrev pub verb_delete : String
verb_delete = "delete"

abbrev pub verb_patch : String
verb_patch = "patch"

abbrev pub gardener_api_group : String
gardener_api_group = "core.gardener.cloud"

abbrev pub shoot_resource : String
shoot_resource = "shoots"

abbrev pub subresource_admin_kubeconfig : String
subresource_admin_kubeconfig = "adminkubeconfig"

abbrev pub subresource_viewer_kubeconfig : String
subresource_viewer_kubeconfig = "viewerkubeconfig"

abbrev pub stage_response_complete : String
stage_response_complete = "ResponseComplete"
