-- ===== src/ProjectController.antt =====
-- internal/controller/project/reconciler.go: what the token webhook has provisioned for a project is
-- provisioned again, from the labels of the project's namespace. The metrics are a log.
pub mod Restored
use persephone.Base.{String, Bool, true, false, Option, none, some, List, [], ◌∷◌, Result, ok, err}
use persephone.Kube.{Got, found, not_found, failed}
use persephone.Config.{PersephoneConfig}
use persephone.UserInfo.{OpenStackUserInfo, ExtractError, open_stack_user_info_from_labels}
use persephone.Garden.{Namespace, Cluster}
use persephone.Project.{ProjectError, reconcile_gardener_project_resources}

-- A Gardener project as it is read: its name, and the namespace of its specification.
pub record ObservedProject : Type 0 where
  pub name : String
  pub deleting : Bool
  pub namespace : Option String

pub data ReconcileError : Type 0 where
  retrieval_failed : String → ReconcileError
  namespace_failed : Option String → ReconcileError
  labels_unreadable : ExtractError → ReconcileError
  resources_failed : ProjectError → ReconcileError

-- `recordResourceCreation` for a region, with the outcome.
pub data Metric : Type 0 where
  resource_creation : String → String → Metric

module _ {W : Type 0} where
  -- An error, the metrics, and the state of the cluster after the run.
  abbrev pub recorded : String → Option ProjectError × W → Option ReconcileError × List Metric × W
  recorded region (none, w) = (none, resource_creation region "success" ∷ [], w)
  recorded region (some e, w) =
      (some (resources_failed e), resource_creation region "error" ∷ [], w)

  module _ (compute_sha256_hex : String → String) (c : Cluster W) (cfg : PersephoneConfig) where
    abbrev pub restore :
        Result ExtractError OpenStackUserInfo → W → Option ReconcileError × List Metric × W
    restore (err e) w = (some (labels_unreadable e), [], w)
    restore (ok o) w =
        recorded o.region (reconcile_gardener_project_resources compute_sha256_hex c cfg o w)

    abbrev pub reconcile_namespace : Got Namespace → W → Option ReconcileError × List Metric × W
    reconcile_namespace not_found w = (some (namespace_failed none), [], w)
    reconcile_namespace (failed e) w = (some (namespace_failed (some e)), [], w)
    reconcile_namespace (found ns) w = restore (open_stack_user_info_from_labels ns.labels) w

    -- `Reconcile`
    unfoldable pub reconcile_project :
        Got ObservedProject → W → Option ReconcileError × List Metric × W
    reconcile_project not_found w = (none, [], w)
    reconcile_project (failed e) w = (some (retrieval_failed e), [], w)
    reconcile_project (found project) w = elim project.deleting [
      | true ↦ (none, [], w)
      | false ↦ elim project.namespace [
        | none ↦ (none, [], w)
        | some name ↦ reconcile_namespace (c.namespaces.get w "" name) w
      ]
    ]
