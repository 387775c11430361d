-- ===== src/Liquid/Server.antt =====
-- internal/liquidserver/server.go, with the trivial operations of logic.go: the HTTP interface of the
-- liquid server. Keystone, the policy and JSON are libraries: the arguments in `Env`. The version of
-- the service is a number.
use persephone.Base.{
  ℕ, String, Bool, true, false, ◌==◌, ◌&&◌, Option, none, some, List, [], ◌∷◌, Result, ok, err, not,
}
use persephone.Base.{eqb, if◌then◌else◌}
use persephone.Base.Dict.{Dict}
use persephone.Garden.{Cluster}
use persephone.Liquid.{
  ServiceUsageReport, ScanError, SetQuotaError, custom_status, scan_usage, set_quota,
}

-- The handlers of `AddTo`; a project is the variable of the path.
pub data Route : Type 0 where
  get_info report_capacity change_commitments : Route
  report_usage put_quota : String → Route

-- `Unit` of `liquid` for a count is "piece"; a resource has a flat topology.
pub record ResourceInfo : Type 0 where
  pub display_name : String
  pub has_quota : Bool
  pub has_capacity : Bool

pub record ServiceInfo : Type 0 where
  pub version : ℕ
  pub display_name : String
  pub resources : Dict ResourceInfo

pub data Body : Type 0 where
  nothing : Body
  text invalid_json : String → Body
  info_version_mismatch : ℕ → ℕ → Body
  info : ServiceInfo → Body
  capacity_report : ℕ → Body
  usage_report : ServiceUsageReport → Body
  commitments_accepted : Body
  scan_failed : ScanError → Body
  set_quota_failed : SetQuotaError → Body

pub record Response : Type 0 where
  pub status : ℕ
  pub body : Body

-- The path is its segments; `token` is the header X-Auth-Token, empty where it is missing.
pub record Request : Type 0 where
  pub method : String
  pub path : List String
  pub token : String
  pub body : String

-- `identity_error` is that of `newIdentityClient`; `check` is `CheckCredentials` and `Require` for a
-- token, the variables of the path and a rule: the response with which it refuses, if it does. The
-- decoders refuse unknown fields; an error is its text. A commitment change has its `InfoVersion`.
pub record Env : Type 0 where
  pub service_info : ServiceInfo
  pub identity_error : String → Option String
  pub check : String → Dict String → String → Option Response
  pub decode_capacity : String → Result String (Unit {0})
  pub decode_usage : String → Result String (Unit {0})
  pub decode_quota : String → Result String (Dict ℕ)
  pub decode_commitments : String → Result String ℕ

-- `BuildServiceInfo` at a Unix time.
abbrev pub build_service_info : ℕ → ServiceInfo
build_service_info unix_time = record {
  version = unix_time;
  display_name = "Managed Kubernetes clusters on SCI";
  resources =
      (
        "clusters",
        record {
          display_name = "Managed Kubernetes clusters";
          has_quota = true;
          has_capacity = false;
        },
      )
      ∷ [];
}

abbrev segment : String → String → Route → Option Route → Option Route
segment wanted s route other = elim (s == wanted) [ true ↦ some route | false ↦ other ]

-- The routes of two and of four segments, by method.
abbrev pub short_route : String → String → Option Route
short_route method s = elim (method == "GET") [
  | true ↦ segment "info" s get_info none
  | false ↦ elim (method == "POST") [
    | true ↦
        segment "report-capacity" s report_capacity
          (segment "change-commitments" s change_commitments none)
    | false ↦ none
  ]
]

abbrev pub project_route : String → String → String → Option Route
project_route method project s = elim (method == "POST") [
  | true ↦ segment "report-usage" s (report_usage project) none
  | false ↦ elim (method == "PUT") [
    | true ↦ segment "quota" s (put_quota project) none
    | false ↦ none
  ]
]

-- `AddTo`: the segment of a variable is not empty.
unfoldable pub route : String → List String → Option Route
route method (version ∷ (s ∷ [])) = if version == "v1" then short_route method s else none
route method (version ∷ (projects ∷ (project ∷ (s ∷ [])))) =
    if (version == "v1") && (projects == "projects") && not (project == "")
    then project_route method project s
    else none
route method _ = none

-- The rule of the policy, and the variables of the path, `mux.Vars`.
abbrev pub policy_rule : Route → String
policy_rule get_info = "liquid:get_info"
policy_rule report_capacity = "liquid:get_capacity"
policy_rule (report_usage project) = "liquid:get_usage"
policy_rule (put_quota project) = "liquid:set_quota"
policy_rule change_commitments = "liquid:change_commitments"

abbrev pub path_vars : Route → Dict String
path_vars (report_usage project) = ("project_id", project) ∷ []
path_vars (put_quota project) = ("project_id", project) ∷ []
path_vars _ = []

abbrev unauthorized : Response
unauthorized = record { status = 401; body = text "Unauthorized" }

-- The refusal, if the token does not do.
unfoldable pub require_token : Env → Request → Route → Option Response
require_token env r route = elim (r.token == "") [
  | true ↦ some unauthorized
  | false ↦ elim (env.identity_error r.token) [
    | some e ↦ some unauthorized
    | none ↦ env.check r.token (path_vars route) (policy_rule route)
  ]
]

abbrev pub bad_request : Body → Response
bad_request body = record { status = 400; body = body }

-- `http.StatusInternalServerError`, where an error has no status of its own.
abbrev pub status_of : SetQuotaError → ℕ
status_of e = elim (custom_status e) [ none ↦ 500 | some status ↦ status ]

abbrev pub usage_response : Result ScanError ServiceUsageReport → Response
usage_response (err e) = record { status = 500; body = scan_failed e }
usage_response (ok report) = record { status = 200; body = usage_report report }

abbrev pub quota_response : {W : Type 0} → Option SetQuotaError × W → Response × W
quota_response (some e, w) = (record { status = status_of e; body = set_quota_failed e }, w)
quota_response (none, w) = (record { status = 204; body = nothing }, w)

module _ {W : Type 0} (c : Cluster W) (region : String) (env : Env) where
  -- The handlers, after the check of the token.
  unfoldable pub handle_authorized : Route → Request → W → Response × W
  handle_authorized get_info r w = (record { status = 200; body = info env.service_info }, w)
  handle_authorized report_capacity r w = elim (env.decode_capacity r.body) [
    | err e ↦ (bad_request (invalid_json e), w)
    | ok _ ↦ (record { status = 200; body = capacity_report env.service_info.version }, w)
  ]
  handle_authorized (report_usage project) r w = elim (env.decode_usage r.body) [
    | err e ↦ (bad_request (invalid_json e), w)
    | ok _ ↦ (usage_response (scan_usage c region project env.service_info.version w), w)
  ]
  handle_authorized (put_quota project) r w = elim (env.decode_quota r.body) [
    | err e ↦ (bad_request (invalid_json e), w)
    | ok req ↦ quota_response (set_quota c region project req w)
  ]
  handle_authorized change_commitments r w = elim (env.decode_commitments r.body) [
    | err e ↦ (bad_request (invalid_json e), w)
    | ok version ↦ elim (eqb env.service_info.version version) [
      | false ↦ (bad_request (info_version_mismatch version env.service_info.version), w)
      | true ↦ (record { status = 200; body = commitments_accepted }, w)
    ]
  ]

  -- A request that has a route.
  unfoldable pub serve : Route → Request → W → Response × W
  serve route r w = elim (require_token env r route) [
    | some refusal ↦ (refusal, w)
    | none ↦ handle_authorized route r w
  ]
