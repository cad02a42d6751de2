-- ===== src/Lib.antt =====
-- The binding controllers of the platform, the provider of their clusters, and the verifier of tokens.
--
-- The program. A hub cluster holds one RegionalVmSetRequest or RegionalBucketRequest for each order
-- and region. Two controllers bind such a request to a spoke cluster: the VM controller
-- (platform-mvp/vm-binding-controller) makes KubeVirt VMs and a cloud-init Secret on the cluster that
-- is named like the region, the bucket controller (platform-mvp/bucket-binding-controller) makes an
-- ObjectBucketClaim on the first cluster whose profile carries the region. Each has a second
-- reconciler that hears of changes on the spokes and writes the status of the request. The clusters
-- come from the provider (providers/cluster-inventory-api), which polls the ClusterProfiles of the
-- hub and engages the manager with each. The OIDC verifier (platform-mvp/oidc-verifier) is a server of
-- its own: it checks the bearer tokens of requests with keys that it fetches from the issuer again
-- and again, and writes an audit entry for each request.
--
-- The files.
-- - Prelude and Prelude/*: tests on numbers, lists as sets, maps as association lists, sorting,
--   decimal numbers (strconv.Itoa, Atoi), and what is used of the package strings.
-- - Kube/Value, Kube/Json: untyped objects and json.Marshal of them, as tokens with sorted keys.
-- - Kube/Error: errors as they are wrapped and tested (IsNotFound, IsAlreadyExists, errors.Is).
-- - Kube/Exec: code that calls clusters, as a function from a world to a result and a world, so that
--   what a call did before a failure stays done; Exec/Keeps are the rules for invariants,
--   Exec/Inversion what a success says of the steps, Exec/Requeues when a later run is asked for.
-- - Kube/Program, Vm/Main, Bucket/Main: main.go of both controllers with SetupWithManager and
--   SetupStatusReconcilerWithManager, over a record of the calls they make of the libraries; start is
--   main up to the start of the manager, and the exit status is its result.
-- - Kube/Machinery: k8s.io/apimachinery and the finalizer helpers of controller-runtime, a record of
--   functions with the documented behaviour as laws.
-- - Vm/Domain: domain/domain.go of the VM controller (VMName is vm_name, DesiredVMNames is
--   desired_vm_names, PlanVMs is plan_vms, vmIndex is vm_index, ReadyStatus is ready_status).
-- - Vm/Adapter: adapter/adapter.go (RequestFromObject is request_from_object, VMStates is
--   vm_states, StatusChanged is status_changed, and so on).
-- - Vm/Rendering: the VMs and Secrets of adapter/adapter.go (VirtualMachine, SpokeSecret).
-- - Vm/Controller, Vm/StatusController: controller/reconciler.go and
--   controller/status_reconciler.go. Reconcile is reconcile, with the parts behind its early returns
--   as functions of their own (reconcile_object, reconcile_live, place); the other names are those of
--   the methods.
-- - Bucket/Domain, Bucket/Adapter, Bucket/Calls, Bucket/Controller, Bucket/StatusController: the same
--   parts of the bucket controller. There the variable obj, which patches change in place, is state
--   beside the world, since the deferred count reads it last.
-- - Flag, Flag/Duration: the packages flag and time, as far as the programs parse arguments
--   (FlagSet.Parse is parse_args, ParseDuration is parse_duration).
-- - Selector, Vm/Config, Bucket/Config: config/config.go of both (parseSelector is parse_selector,
--   Parse is parse_config, and what follows its reading of the flags is config_of_flags).
-- - Provider: provider.go, its state and what changes it (disengageCluster, SetLabelSelector, Get);
--   Provider/Polling: the rest (discover, readClusterKey, clusterFromClusterProfile,
--   IndexField, Run). A context is a number; a list holds the cancelled ones. Provider/Interleaving:
--   the lock sections of discover and IndexField as steps of a state machine, one step for each call
--   that a goroutine makes without the lock.
-- - Oidc: oidc-verifier/main.go. Oidc/Base64 is base64URLDecode with the decoder of encoding/base64,
--   Oidc/Unmarshal json.Unmarshal into its structs, Oidc/Jwk the keys (parseJWK is parse_jwk),
--   Oidc/KeySet the sets of keys (parseJWKSKeys is parse_jwks_keys), Oidc/Http requests, responses and
--   audit entries, Oidc/Server the server with handleHealthz and refreshJWKS, Oidc/Verify handleVerify
--   and extractSub over the JWT library, a record of functions with the documented behaviour as
--   laws, and Oidc/Main main up to the listener, Main/CommandLine from the command line on. A refresh
--   is a step of a relation, Reach its closure.
-- - The modules below these are named for what they prove. Tests holds runs over clusters in memory.
--
-- Choices. Every call of a client is a parameter that may fail, and may change the world in any way;
-- a theorem about the state of a spoke names the laws of its calls as hypotheses, which say that
-- nobody else changes the spoke during the run, and clients in memory below Tests fulfil them.
-- The order in which Go ranges over a map is a parameter that permutes the names; sort.Slice is a
-- stable sort of that order, and so any order of names that the comparison does not tell apart is
-- covered. A float64 is m / 2^k, which every finite one is, and JSON has no other; its conversion to
-- int truncates if the number fits into an int64, and is a parameter of Kube/Machinery beyond, since Go
-- leaves it to the implementation. In JSON text a whole float64 beyond 2^53 has its exact digits, for
-- which encoding/json writes the shortest ones. Texts are native texts: their length is that of the
-- bytes for the ASCII that Kubernetes allows in names and label values, and quoting (%q) is written
-- out for ASCII. A panic, of make at a capacity that is negative or more than 2^44 texts (the address
-- space of amd64 and arm64; memory that runs out below it is not modelled), is the value none
-- of the rules and the error panicked of the controller, whose worker recovers it. The recursion of
-- the decimal digits has fuel n + 1 for the number n, which is more than its digits; the loop of
-- ParseDuration has the length of its text, of which each round takes some; no other definition has
-- fuel. The run of Provider/Polling takes the number of ticks before its context is done, and the loop
-- of refreshes a list of answers. The map of the verifier's keys is shared between its goroutines: a
-- request is handled with the set as it is when the JWT library asks for the key, which is any set
-- that refreshes lead to. A document is a JSON value, or no JSON; of a response the first value is
-- read. The float64 product that stands behind the fraction of a duration is a parameter.
--
-- Not modelled: logging other than the audit entries; the creation of the metrics; the listener and
-- the routes of the verifier; the text of JSON documents, of which the model has the values; the
-- charts, manifests and end-to-end tests, which hold no code of the program. The functions of
-- Provider/Polling run as if alone, and only Provider/Interleaving lets goroutines interleave, as far
-- as clusters and indexes go.
pub mod Prelude
pub mod Kube
pub mod Selector
pub mod Vm
pub mod Bucket
pub mod Provider
pub mod Flag
pub mod Oidc
mod Tests
