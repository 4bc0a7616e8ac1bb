-- ===== src/Lib.antt =====
-- Ghostgpu makes a Kubernetes cluster advertise simulated GPUs. A GPUPool (api/v1alpha1) names a
-- GPUModel and a selector of nodes; the reconciler of internal/controller publishes, for each selected
-- node that kwok simulates (internal/safety), ResourceSlices, extended resources and labels, which
-- internal/gpu computes, with the partitioning of a card (MIG) in internal/mig. The exporter of
-- internal/metrics reports utilization for what is published, and the tool of internal/cli
-- writes such pools and models, shows what is published, and captures the fleet of another cluster.
-- This development models those packages.
--
-- The files:
--   * Base: shared names, lists, maps as association lists (Base.Dict), Go's integers (Base.Int: an
--     `int32` or `int64` is an integer, and each operation of the code that can overflow is wrapped by
--     `wrap32` or `wrap64`), results, and equality as an instance argument.
--   * Text: strings as lists of code points, with the calls of strings, strconv and fmt.
--   * Platform: what comes from outside the repository and is a parameter, the type
--     `resource.Quantity`, label selectors and SHA-256, with the laws that some theorems assume
--     (`IsLawful`). Platform.Memory is one that meets them.
--   * Api: api/v1alpha1/gpupool_types.go and gpumodel_types.go, and the parts of the Kubernetes types
--     that the program reads and writes. A message of a condition is kept as its format with the
--     arguments.
--   * Mig: internal/mig. Mig.Tables is profiles.go, Mig.Parse parse.go, Mig.Expand expand.go,
--     Mig.Resolve resolve.go and Mig.Partition partition.go.
--   * Gpu: internal/gpu. Gpu.Identity is identity.go, Gpu.Occupancy occupancy.go, Gpu.Faults faults.go,
--     Gpu.Labels nodelabels.go, Gpu.Resources migresources.go, Gpu.WholeSlice resourceslice.go and
--     Gpu.MigSlices migslices.go.
--   * Safety: internal/safety/guard.go.
--   * Controller: internal/controller/gpupool_controller.go. Controller.Client is the API client, a
--     record of the calls over a store that the program does not see; an action is a function from
--     the world, the store and the list of the writes attempted, to a result or an error and the
--     world after. Controller.Resources, Status, Nodes and Slices are the parts of the reconciler, and
--     Controller.Reconcile puts them together in the order of the code.
--   * Metrics: internal/metrics, which reads the published objects back. Metrics.Readings and
--     Metrics.Series are series.go with the names of names.go, Metrics.Devices and Metrics.Cards
--     collector.go, and Metrics.Claims and Metrics.Exporter exporter.go. A sample's value is an integer or
--     an integer divided by 100.
--   * Cli: internal/cli, the command line tool. Cli.Objects are the manifests, Cli.Up and
--     Cli.Up.Manifests are up.go, Cli.Status with Pools, Devices, Budgets and Report status.go,
--     Cli.Capture with its parts and Cli.Names capture.go, and Cli.Apply apply.go. Cli.Command is
--     the commands up and status of cmd/ghostgpu/main.go, and Cli.Command.Capturing the command
--     capture, with version.go. The validation of names and the API server are parameters (`Checks`,
--     `Server`). What the tool captures or writes
--     is in Cli.Up.Manifests.Operator and Cli.Capture.Shapes.RoundTrip put to the operator's code.
--   * Tests: the theorems at concrete objects.
--
-- Every loop of the code is over a list or a count and is structural recursion. The decimal digits of
-- a number are produced on fuel, `n + 1` rounds for `n`, which is enough because each round divides by
-- 10. Errors are values: a constructor for each message, with the values that it prints.
--
-- The search for a free name tries one candidate more than there are names taken, which is enough
-- because the candidates differ. A sort is an insertion sort, which leaves elements of equal keys in
-- their order, where the code promises no order. A wait is over the finite sequence of the reads that it makes.
--
-- Not modelled: cmd/main.go, the parsing of flags, the connection to a cluster, hack and test, the
-- rendering as YAML, readonly.go, the generated deep copies, SetupWithManager, and the
-- server of the exporter. Logging, contexts and time stamps are left out. Where the code ranges over a
-- map its order does not matter for the result, so a map is the list of its entries in the order of
-- insertion.
--
-- Outside the range that the CRD admits, 1 to 128 GPUs per node, two things differ from the code: a
-- negative number of cards gives no device where `make` panics, and the bounds of the shards in
-- Gpu.MigSlices are natural numbers, which differ from int32 above 2 ^ 31 - 8 GPUs. The warnings
-- that `Capture` returns beside an error are left out, as the command never prints them.
pub mod Base
pub mod Text
pub mod Platform
pub mod Api
pub mod Mig
pub mod Gpu
pub mod Safety
pub mod Controller
pub mod Metrics
pub mod Cli
pub mod Tests
