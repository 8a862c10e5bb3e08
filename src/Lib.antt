-- ===== src/Lib.antt =====
-- The operator of the repository, which runs distributed training jobs on node pools that it
-- creates for them, as functions, with what is proved of them.
--
-- The program. A DistributedTraining object (operator/api/v1) describes a job. The controller
-- (operator/internal/controller) is called again and again for it; each pass reads the object,
-- acts by its phase, and stores a new status: Pending validates the spec and, in objective mode,
-- runs the topology solver on the history of earlier runs; Provisioning creates the node pool
-- through the cloud interface (operator/internal/cloud) and waits for its nodes; Ready generates a
-- manifest through the backend interface (operator/internal/backend) and applies it; Running
-- follows the backend's job; Collecting deletes the pool, collects results and writes a history
-- entry; Succeeded and Failed are the end. Deletion of the object goes through a finalizer.
--
-- The files.
--   Prelude: the library's names that are passed on, Boolean tests, lists, integers, texts.
--   Api: the types of operator/api/v1 (Spec: the spec; Status: status, object and history).
--   Runtime: Go's errors, and what is taken from Go's runtime and from apimachinery.
--   System: the calls on the API server, the cloud, the backends and the clock (Calls),
--     manifests (Objects), the world of a pass and its handlers (Monad), and rules for what
--     handlers keep (Keeps), answer (Answers) and store when they return (Ends, and Accepts where
--     no patch is refused), and for their asking to be called again (Wakes). A handler is a
--     function from a world to a world and either a value or the outcome that the Go method
--     returns. A world has the object in memory, the stored object, and the calls made, newest
--     first. A status patch that is refused changes the one in memory only.
--   Solver: operator/internal/controller/solver.go (Formulas: eta to formatSeconds; Estimate:
--     estimateModel, estimateAlpha, goldenSectionSearch; Search: the binary searches; Branches:
--     solveTimeOnly to solveBoth and buildTopology; Run: runSolver).
--   History: operator/internal/controller/history.go (Hash, Throughput, Prune, Write).
--   Controller: operator/internal/controller/distributedtraining_controller.go (Defaults,
--     Transitions, Delete, Reconcile) and phases.go (Validate, Pending, Provisioning, Ready,
--     Running, Collecting, Succeeded), Costs for getMachineCost, Metrics for metrics.go;
--     Lifecycle, Pools, Runs, Progress and Awake for what holds of passes.
--   Backend: operator/internal/backend. Reads: what the backends read from the cluster, and
--     their parsers of JSON, times and regular expressions, as one record; Collect:
--     collect/collect.go and collect/pvc.go; Pytorch: pytorch/pytorch.go (Command, Pod, Manifest,
--     Status, Results); Spark: spark/spark.go (Manifest, Status, Results); Contract: what the
--     controller expects of a backend.
--   Cloud: Gke for operator/internal/cloud/gke/gke.go over a client of the container API.
--   Startup: operator/cmd/main.go, the flags, backends and provider that the reconciler is built
--     from; Servers: the options of its servers and of the manager; Process and Main: main as calls
--     of controller-runtime and exits; and what holds of the program so put together (Contract,
--     Accepts, Placement, Sizes, Polling, Assembled).
--   Below a component, Keeps, Goes, Ends, Wakes, Finish, Starts, Secure, Safety, Exact, Bounds,
--     Budget, Once, Machines, Gpu, Registered, PoolName, Unsupported, Abandons, Distinct, Oldest,
--     Hardware, Collected, Usable, Groups, Baseline, Least, Greatest, Results, Optimal, Terminates,
--     Describes, Replicas, Phases, Cleanup, Keys and Operations hold what is proved of it.
--   Examples: sample data, runs and concrete instances of the theorems.
--
-- Parts together. The controller knows the cloud and the backends by the records Provider and
-- JobBackend. `backends` and `gke_provider` fill them from the models of the two backends and of
-- the provider, and `new_reconciler` puts all of it into a Reconciler.
--
-- Numbers. A time is a number of nanoseconds, a duration an integer of them. An int32 is an
-- integer, and its sums and differences wrap around. float64 and resource.Quantity are parameters
-- with their operations; the order laws that a theorem needs are its hypotheses. Texts are sliced
-- by bytes.
--
-- Fuel. The binary searches run on 32 rounds: a round at least halves the range, and an int32
-- range has less than 2 ^ 32 elements. The loop of the golden section search has no bound in the
-- code; the model runs it for 64 rounds, after which an interval of length 1 is shorter than
-- 1e-13 in exact arithmetic, while the code asks for 1e-6, and it stops there in any case. That
-- float64 gets that far is not proved.
--
-- Not modelled: logging, the registration of gauges (the series that one sets are modelled), the
-- clients of Kubernetes and of GKE and the manager of controller-runtime (parameters), the
-- parsing of flags and the scheme in operator/cmd/main.go, generated code, tests; the panic of
-- resource.MustParse on a float64 that is infinite or no number; the saturation of a difference
-- of times at int64 and the cut of a stored time to seconds; the fields that the API server's
-- answer to an accepted patch brings into the object in memory; the answer to the deletion of
-- the reader pod, which the code drops.
pub mod Prelude
pub mod Api
pub mod Runtime
pub mod System
pub mod Solver
pub mod History
pub mod Controller
pub mod Backend
pub mod Cloud
pub mod Startup
pub mod Examples
