-- ===== src/Lib.antt =====
-- Persephone: Gardener clusters for OpenStack projects.
--
-- The program is a set of servers around a virtual garden (a Kubernetes API with Gardener's
-- objects) and OpenStack's Keystone. A user logs in with `scikube auth` (internal/auth), which asks
-- Keystone for a token, puts the region before it and keeps it in a cache on disk. The token
-- webhook (internal/webhook/token) takes such a bearer token, asks the Keystone of its region for
-- user, project and roles, makes a Kubernetes user of them whose extras carry the OpenStack identity
-- (internal/kubernetes/userinfo.go), and provisions the project in the garden
-- (internal/kubernetes/gardener.go): a namespace with labels, a Gardener project, a role, a binding
-- and a quota. The liquid server (internal/liquidserver) reports usage and sets the quota of such a
-- project. The Shoot admission webhook (internal/webhook/shootadmission) gives a Shoot its
-- credential and its defaults; the InternalSecret controller (internal/controller/internalsecret)
-- renews the credential, the Shoot controller (internal/controller/shoot) moves the Shoot to the
-- newest one, and the older one may then be deleted by the InternalSecret controller. The Project
-- controller (internal/controller/project) provisions again what the token webhook did. The audit
-- webhook (internal/webhook/audithandler) turns the API server's audit events into OpenStack audit
-- events of the region, under certificates that internal/controller/auditcert
-- makes, renews and writes to disk. The operator manages service users and application
-- credentials in Keystone (internal/openstack).
--
-- Files, by the code that they model:
--   Base, with its children: shared types, tests, lemmas on lists, results, dictionaries and texts,
--     and the int64 and uint64 conversions (`% 2 ^ 64` and two's complement).
--   Constants: internal/constants/consts.go. Config: internal/config/types.go and validation.go.
--   UserInfo: internal/kubernetes/userinfo.go. A Go map is an association list.
--   Labels: the names and sanitizeLabelValue of internal/kubernetes/gardener.go.
--   Kube, Garden: the Kubernetes API as a parameter, over any type of cluster states, with what is
--     relied on of it as laws; and the kinds of objects.
--   Project: ReconcileGardenerProjectResources. Its writes are explicit state passing.
--   Liquid: ScanUsage and SetQuota of internal/liquidserver/logic.go.
--   Audit: internal/webhook/audithandler; Filter, Transform, Auditors and Handler are its files.
--     What is recorded and measured is the state.
--   Auth: internal/auth/auth.go. The disk is a dictionary of files with their modes.
--   Token: internal/webhook/token/handler.go.
--   OpenStack: internal/openstack/clusteruserclientset.go; OpenStack/Catalog: catalog.go;
--     OpenStack/ClientSet: clientset.go; OpenStack/ClusterUser: NewClusterUserClientSet. Keystone's
--     answers are arguments, the calls that change something a log.
--   Rotation: internal/controller/internalsecret/reconciler.go; Renewal is the regular flow, Cleanup
--     that of a deletion. Each step gives a result and the log of its calls.
--   ShootAdmission: internal/webhook/shootadmission/handler.go; Credentials also has
--     internal/kubernetes/credentials.go and the secret of a Shoot, Infrastructure the configuration
--     of a Shoot with workers, Handler is the handler.
--   ShootController: internal/controller/shoot; the parent is reconciler.go, Events is add.go.
--   ProjectController: internal/controller/project/reconciler.go.
--   AuditCert: internal/controller/auditcert; Reconciler and Reloader are its files. Runs of them over
--     time are relations, Reach of Generations and of Loaded.
--   Liquid/Server: internal/liquidserver/server.go.
--   Kubeconfig: internal/kubernetes/kubeconfig.go.
--   Scikube: the command auth of cmd/scikube/cmd, auth.go and openstack.go; Scikube/Garden:
--     kubeconfig-for-garden.go; Scikube/Shoot: kubeconfig-for-shoot.go.
--   Examples: a cluster in memory that keeps the laws, and runs of the theorems on concrete inputs.
--
-- Every loop of the modelled code goes through a finite list and is structural recursion, so no
-- fuel is needed. Times are natural numbers, of seconds, or of nanoseconds
-- in Rotation and AuditCert; texts are sequences of code points.
--
-- Not modelled: the libraries (controller-runtime, gophercloud, Gardener's, the poll of Kubernetes,
-- viper, JSON, PEM, URLs, SHA-256), which are parameters; the text of error messages; logging; flags
-- and wiring under cmd and in the add.go files; and the OpenStack client for end-to-end tests.
pub mod Audit
pub mod AuditCert
pub mod Auth
pub mod Base
pub mod Config
pub mod Constants
pub mod Examples
pub mod Garden
pub mod Kube
pub mod Kubeconfig
pub mod Labels
pub mod Liquid
pub mod OpenStack
pub mod Project
pub mod ProjectController
pub mod Rotation
pub mod Scikube
pub mod ShootAdmission
pub mod ShootController
pub mod Token
pub mod UserInfo
