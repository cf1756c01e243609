-- ===== src/Lib.antt =====
-- Verification of karpenter-provider-hetzner, the provider that lets karpenter run nodes as servers of
-- Hetzner Cloud.
--
-- Parts and how they interact. karpenter calls the CloudProvider (pkg/cloudprovider). Its Create reads
-- the NodeClass, lists the instance types (pkg/providers/instancetype), selects the cheapest one that fits
-- and has an image, resolves the image (pkg/providers/imagefamily) and has the instance provider
-- (pkg/providers/instance) create the server; a lack of capacity puts the offering into quarantine, which
-- the next listing respects. The NodeClass controller (pkg/controllers/nodeclass) records in the status
-- which resources exist and which images resolve, and Create and GetInstanceTypes read these images. The
-- configuration (pkg/operator) and the metrics (pkg/metrics) serve them all.
--
-- Files.
--   Base: shared helpers. Lists and tests over the native numbers, Go maps as association lists (Dict),
--     int64 (Int), byte strings with strings and strconv (Text), the order of strings and sorting (Order).
--   Errors: Go's errors as values with their chains; Result, with `do` for early returns.
--   Effects: calls that change a remote state and may fail.
--   Metrics: pkg/metrics/metrics.go.
--   Api, Api/NodeClass, Api/NodeClaim: pkg/apis/v1, and karpenter's NodeClaim.
--   Hcloud: the data of the hcloud API.
--   ImageFamily: pkg/providers/imagefamily/imagefamily.go (Resolve is `resolve`).
--   Instance: pkg/providers/instance. ProviderId has ParseProviderID and FormatProviderID, CreateError has
--     errors.go, Lifecycle has Create (`create`, around `create_server`), Delete, Get and List.
--   InstanceType: pkg/providers/instancetype. Catalogue translates server types and filters them,
--     Unavailable is the quarantine, Cache is List with its cache and its refresh lock, as one step for a
--     caller that runs alone. Cache/Threads has the callers of List side by side: `Pc` is where a caller
--     is, `advance` its next step, and `Step` lets the callers, the time and MarkUnavailable go on in any
--     order.
--   CloudProvider: pkg/cloudprovider/cloudprovider.go. Scheduling is what it takes from karpenter, Image
--     has resolveImage and the gate, Selection is the loop of Create, Claims the options of a new server
--     and the NodeClaims that are made of servers, Launch has Create and the other methods, with what Create
--     asks for in Launch/Requests and what they make of each other's results in Launch/RoundTrip,
--     Launch/Removal and Launch/Agreement, Drift has IsDrifted.
--   Controller: pkg/controllers/nodeclass/controller.go. Validation has the checks, Images the resolution
--     and the merge with the status, Reconcile puts them together; Reconcile/Again is a second call,
--     Reconcile/Launched a launch after it.
--   Operator: pkg/operator, the configuration and the client's limits, and in Main what
--     cmd/controller/main.go makes of them.
--   Tests: the theorems at concrete inputs.
-- Theorems stand in child modules (Laws and the like) of the definitions that they are about.
--
-- Reading. Code of other modules is a parameter: the Kubernetes client (KubeClient), the hcloud clients
-- (ServerClient, PlacementGroupClient, ActionWaiter, ImageClient, Getter, and the answer to the listing of
-- server types), karpenter's scheduling (Scheduling, with IsLawful), operatorpkg's conditions
-- (SetCondition, with IsSetCondition), floating-point parsing (FloatOps) and time.ParseDuration. What they
-- are documented to do is a hypothesis where a theorem needs it. Clocks are arguments in nanoseconds.
-- Prices are float64 values that are not negative, by their bit patterns, which order them. Texts are read
-- as ASCII, so strings.ToLower and strings.TrimSpace act on ASCII only. A Go map that is only read is an
-- association list. Log lines are left out, and an error's message is kept as its format and arguments.
-- Contexts and their cancellation are not modelled. Cache/Flight takes the part of List under the refresh
-- lock as one step, Cache/Threads takes it apart into its steps; all offerings of a listing are judged at
-- one time. What the hcloud API keeps and shows of a server it has created (Stores), and of a placement
-- group (KeepsGroups), is a hypothesis, and so is, by a comment of hcloudnodeclass_types.go, that setting a
-- condition first adds the missing ones. Ready, which operatorpkg computes from them, is left open.
--
-- Bounds and fuel. Identifiers and resource amounts are int64, and products wrap to 64 bits. Printing a
-- number takes one round per digit, so its fuel is the number plus one, which is enough, as the round trip
-- of provider IDs shows. A caller of List takes seven steps at most. All other loops run along a list.
--
-- Not modelled: generated deepcopy code, the registration of types, labels and metrics with other
-- libraries, and charts and documents. Of the main program and of Register, what they pass to other
-- projects' code is left out.
pub mod Base
pub mod Errors
pub mod Metrics
pub mod Api
pub mod ImageFamily
pub mod Effects
pub mod Hcloud
pub mod Instance
pub mod InstanceType
pub mod CloudProvider
pub mod Controller
pub mod Operator
pub mod Tests
