-- ===== src/Lib.antt =====
-- Verification library of the Karpenter provider for Exoscale, a cloud provider of the Kubernetes
-- autoscaler Karpenter that runs its nodes on Exoscale compute instances.
--
-- The program. Karpenter calls the cloud provider (pkg/cloudprovider) to create, delete, list and
-- check NodeClaims. It turns NodeClaims into instances through the instance provider
-- (pkg/providers/instance), which talks to the Exoscale API, chooses instance types from the index
-- of pkg/providers/instancetype, and labels what it creates. A new instance boots with the user data
-- of pkg/providers/userdata. Controllers run beside it: the node class controller resolves each
-- ExoscaleNodeClass into its status, which the cloud provider reads, garbage collection deletes
-- instances that no NodeClaim corresponds to and releases stuck NodeClaims, and the bootstrap token
-- controller deletes tokens that are used up.
--
-- Files and code:
--   Constants: pkg/constants/constants.go.
--   NodeClass: the fields of ExoscaleNodeClass in apis/karpenter/v1/exoscalenodeclass_types.go.
--   Kube: the Kubernetes and Karpenter objects, with the fields that the code uses.
--   Lo: github.com/samber/lo, a parameter with the laws of the two functions that are called.
--   ProviderId: pkg/utils/provider.go. Uuid is the regular expression by hand, Parse is
--     ParseProviderID, Address is ContainsIPv6Address over a parameter for net.ParseIP.
--   Instance: pkg/providers/instance/instance.go, FromExoscaleInstance and ToNodeClaim.
--   InstanceProvider: pkg/providers/instance/provider.go. Labels has GenerateInstanceLabels,
--     UpdateTags and the security groups; Groups has checkAntiAffinityGroups; Cheapest has
--     findCheapestInstanceType; Attach has the attachments; Listing has Get, List, Delete, Reboot;
--     Creation and Attached have Create; Environment has pkg/providers/instance/options.go.
--   InstanceType: pkg/providers/instancetype/provider.go. Defs and Index have the index and its
--     refresh, Prices the prices.
--   LabelFilter: pkg/utils/labels/labels.go. Cache: pkg/utils/cache.go.
--   CloudProvider: pkg/cloudprovider/cloudprovider.go. Groups, Drift, Verdict and Repair have
--     IsDrifted; Drain and Eviction have drainNode; Deletion has Delete, Reboot, Get and List; NodeIdentity has
--     createNode, ensureNodeIdentity and Registered; Launch has Create, GetInstanceTypes and
--     RepairPolicies; Hash has patchNodeClaimAnnotations of the
--     instance provider, against what IsDrifted reads.
--   NodeClassController: pkg/controllers/nodeclass. Watch has secretToNodeClasses, and
--     Events the filter of SetupWithManager before it;
--     Selectors and Resolution have the resolution of IDs and selector terms, one definition for the
--     copies of the source; Steps, Conditions, Values, Panics, Readiness and Masking have the loop over the steps and
--     the conditions; Hash, Fingerprint and Mirrors have the configuration hash; Deletion, Orphaned
--     and Release have handleDeletion; Reconcile, Guards and Ends have the whole reconciliation.
--   UserData: pkg/providers/userdata. Registry and Endpoints have the registry resolver, Merge and
--     Documents deepMerge, Bootstrap and Taints the configuration of bootstrap/sks.go, Generate and
--     Boot the provider.
--   Template: pkg/providers/template/provider.go.
--   GarbageCollection: pkg/controllers/garbagecollection/controller.go. Defs is Reconcile, Orphans
--     and Stuck are its two loops.
--   BootstrapToken: pkg/controllers/bootstraptoken/controller.go, and in Build the Secrets of
--     pkg/utils/bootstrap.go.
--   Prelude: shared helpers. Samples and Tests: concrete objects, tests and examples.
--
-- How state and effects are modelled. The answers of the Exoscale API, of Kubernetes and of the
-- clock are arguments of an operation, as records of functions that may answer each call
-- differently. What an operation changes is the list of requests that it makes, in their order, or
-- the new value of the state that it holds. A Go error is a constructor of the component's error
-- type. Go maps are association lists; where the order of an iteration shows, the list is that
-- order. Logs and events are left out. The library of status conditions is a parameter with its
-- laws; that it recomputes `Ready` is a hypothesis of its own. TOML documents are trees with any kind
-- of leaf, and the encoders, decoders, base64, gzip, PEM and SHA-256 are parameters.
--
-- Bounds and fuel. Instants are nanoseconds since Go's zero time, and durations are signed 64-bit
-- numbers: `time.Sub` saturates and a subtraction of durations wraps, as in Go. Attaching an elastic
-- IP makes at most the 30 attempts of the source. Draining runs on 182 rounds: each ends with a
-- pause of five seconds, and 181 of those are over the limit of 15 minutes. Printing a number has the
-- number and one as its fuel, which is more than its digits. All other loops are recursions on lists
-- and trees.
--
-- Not modelled: the registration with the controller manager, but for the filter of the events of
-- Secrets in NodeClassController.Events, the entry point, mocks and generated code. Floating point prices and the formats of times, quantities
-- and addresses are parameters.
pub mod BootstrapToken
pub mod Cache
pub mod CloudProvider
pub mod Constants
pub mod GarbageCollection
pub mod Instance
pub mod InstanceProvider
pub mod InstanceType
pub mod Kube
pub mod LabelFilter
pub mod Lo
pub mod NodeClass
pub mod NodeClassController
pub mod Prelude
pub mod ProviderId
pub mod Samples
pub mod Template
pub mod Tests
pub mod UserData
