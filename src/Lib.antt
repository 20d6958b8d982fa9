-- ===== src/Lib.antt =====
-- The verification library of the platform operator, a Kubernetes operator in Go that turns a
-- PlatformApplication into a Deployment, a Service and up to five more objects.
--
-- The parts of the program and the files that model them:
--   Api: the three versions of the resource, api/v1alpha1, api/v1beta1 (the hub) and api/v1, with
--     their conversions (…/platformapplication_conversion.go) and admission webhooks
--     (…/webhook_platformapplication.go). A `Default` is a function from object to object, a
--     validator returns an error's text or the warnings.
--   Errors: internal/errors/errors.go. A Go error is another package's, a wrapping by `%w`, or a
--     `*ReconcileError`.
--   Status: internal/status/conditions.go. The time of a call is an argument.
--   Metrics: internal/metrics/metrics.go. Collectors has the collectors and the list that `init`
--     registers, Samples says which of them a sample of the log belongs to.
--   Tracing: internal/tracing/tracing.go.
--   Cmd: cmd/main.go, with `SetupWithManager` in Setup. Process is how a process goes on, exits or
--     crashes, Library what controller-runtime offers, Plan the calls that `main` makes.
--   Subreconcilers: internal/controller/subreconcilers. Labels and Apply are apply.go; Deployment,
--     Service, Hpa, Networking, Pdb and ServiceMonitor build the desired objects of the files of
--     these names; Reconcilers has each `Reconcile…` and `delete…IfExists` function.
--   Steps: the parts of internal/controller/platformapplication_controller.go: Children is
--     `reconcileResources`, Reporting is `setConditions` and the other writes to the status,
--     Endings is `handleErrorResult` and the other ways to end, Finalizing is `handleDeletion` and
--     the finalizer.
--   Controller: `Reconcile`, made of the steps and cut where it returns early: `reconcile`,
--     `reconcile_body`, `reconcile_fetched`, `reconcile_live`, `report` and `publish` follow each
--     other. Converges has the API server's documented behaviour as hypotheses, and where the
--     children end up; Lifecycle has whole calls on such a cluster.
--     Keeping says what `Reconcile` keeps if each of its calls does, and Reachable is the step
--     relation of its calls and of others' changes; Budget adds up its calls and waits.
--   Cluster: what these parts run in. Objects has the Kubernetes objects with the fields that the
--     operator sets; Client is the interface of the code that the operator calls and does not
--     implement; Exec is an action on a world, which is the state of the cluster and the log of
--     metric samples, events and spans. An action returns, fails with an error, or panics, and
--     `deferring` is `defer`. Keeps, Raises and Costs have one rule for each way to build an action,
--     for what stays true of the world, for which errors come out and for what is spent.
--   Fakeclient: internal/testing/fakeclient/interceptor.go, a client over any other client. Its
--     counters are part of the state.
--   Deepcopy: api/*/zz_generated.deepcopy.go on a memory of cells (Heap), where a struct keeps a
--     reference for each map and slice. In each version's folder Stored has the structs as they are
--     stored, Flat the copies of those without references, Views what is read of the others. Copies,
--     References and Entries have one rule for each way to build a copy.
--   Common: shared names, texts, integers, maps and sorting.
--   Examples: clients of a small cluster, and each theorem at a concrete input.
--
-- How they interact: the API server calls the webhooks, then controller-runtime calls `Reconcile`
-- with a key. `Reconcile` fetches the application, handles its deletion or its finalizer, runs the
-- seven sub-reconcilers in order up to the first error, each of which builds an object and applies
-- it or deletes it, and then writes the conditions and decides when to run again from the class of
-- the error.
--
-- Bounds: the retry loop of `Apply` is a recursion on the rounds that are left, from
-- `maxApplyRetries`, so it needs no other fuel. Replica counts and ports are integers; the one
-- conversion that can cut a number, `int32(mustAtoi(…))`, wraps around as in Go, and `strconv.Atoi`
-- fails beyond 64 bits. Maps are association lists, ranged over in the order of the list.
--
-- Parameters: OpenTelemetry, controller-runtime's manager, the deep copies of other packages' types,
-- the client, the predicates of apierrors, `equality.Semantic.DeepEqual`, the helpers for owner
-- references and finalizers, the clock, waiting, which texts are quantities, and what `%T` prints.
-- A write that succeeds is taken to leave the fields of the written object that the operator reads
-- later as they were sent.
--
-- Not modelled: log lines, measured durations and the attributes of the reconciler's spans; contexts;
-- parsing of the command line; the scheme builders of the API groups; charts, manifests and tests.
pub mod Common
pub mod Api
pub mod Errors
pub mod Status
pub mod Cluster
pub mod Metrics
pub mod Subreconcilers
pub mod Steps
pub mod Controller
pub mod Fakeclient
pub mod Deepcopy
pub mod Tracing
pub mod Cmd
pub mod Examples
