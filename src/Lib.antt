-- ===== src/Lib.antt =====
-- The workflow engine: what its control plane decides, modelled and verified.
--
-- Parts, and the files that model them:
--   Prelude         shared names, tests into Bool, lists, results, Go's signed integers and maps
--   Domain          internal/domain: the records of workflows, executables, resources, environments, plans, executions and
--                   queue jobs (Domain/Values holds floats and `map[string]any`)
--   Domain/Materialization
--                   internal/domain/execution/materialization.go: ReconcileWorkspace, Reconcile, Commit, Committed, Ready
--   Queue           internal/infrastructure/database/queue/repository.go: the table is the list of its rows, each method a
--                   function of the table; Queue/First says which rows Lease selects, Queue/History runs any sequence of calls
--   Plan            internal/infrastructure/plugins/planning/validator.go: Validate, with Plan/Assign for its loop over the
--                   assignments, Plan/Dag for validateDAG and Plan/Lanes for validateResourceOrders
--   Supervisor      internal/controlplane/execution/supervisor.go: executeActivities and what it calls; Supervisor/Request holds
--                   selectRuntime, validateRequest, prepareActivity, recordStartFailure and the ports (the record Outside),
--                   Supervisor/Timing the computation of tasks, transfers and traces, Supervisor/Service New and Execute;
--                   Supervisor/Inv, Steps, Ready, Answers, Loop and Execute prove the loop's invariant, Prompt, Returns
--                   and Complete that it returns, Settles and Completes how a run ends
--   EventLoop       internal/controlplane/eventloop: the loop over the queue as a function of events (starts, ticks, wakes, renews,
--                   returns, frees); EventLoop/Settings holds Config, New and the backoff, EventLoop/Dispatcher and Handlers the
--                   files of those names, Capacity, Calls and Outcome the proofs; the envelope of internal/domain/events
--   Controller      internal/application/execution/controller.go: Start, Inspect and Stop, with Controller/Logs for the logs;
--                   Start, Inspect and Redelivery prove
--   Transfer        internal/application/transfer: service.go, and coordinator.go in Transfer/Coordinator; Delivered and Prepared
--                   prove
--   Requests        internal/api/requests/workflow.go: Domain and FromDomain; Requests/Values holds identifier, cpuValue and byteValue,
--                   over what packages strings, strconv and unicode compute; Edges, Build and RoundTrip prove
--   Builds          internal/application/build/service.go: Execute, over commands, files and a catalog; Builds/Resolver
--                   holds resolver.go; Published and Resolver/Delivery prove
--   Tests           each result at a concrete input
-- How they interact: Requests makes the activities of a workflow, a plan that Plan accepts is executed activity by
-- activity on its resources, jobs that start and watch executions travel through Queue to EventLoop, whose handlers call Controller and Supervisor, Builds makes executables, Transfer brings
-- an activity's inputs to its resource, and Domain/Materialization says when they are in place.
--
-- Conventions. A method with an error result is a function into Result; one that writes returns the state too. A map is a list of
-- its entries with distinct keys; the order in which `range` meets it, how the database orders tied rows and how
-- `sort.Slice` places equals are arguments, with what Go and SQL promise of them as hypotheses. A float64 is the number of
-- its bits, and its comparison and arithmetic are arguments. A time is a number of nanoseconds. Identifiers that are drawn
-- and readings of the clock are arguments.
--
-- A panic of Go is a value of its own (`panicked`, `slice_out_of_range`, `nil_handle`, `out_of_range`, or no state at all in EventLoop):
-- the deferred call of `Execute` does not take it for an error.
--
-- Bounds: the outer loop of validateDAG runs on rounds, one more than there are activity ids. Every id enters its queue at
-- most once, so the rounds suffice: the equivalence for validateDAG would fail if they did not.
--
-- The loop of executeActivities polls until its runtime has answered, so it has no bound of its own: it runs on any number
-- of rounds, and what is shown of it holds after each number; over ports that answer at once, two rounds more than there
-- are activities are enough.
--
-- Not modelled: failures of the database driver and of the network; the shutdown of the event loop; the interleaving of
-- statements inside one transaction (SQLite runs one writer at a time); encodings, HTTP, the command line, and the
-- providers that talk to clusters; the Manager of internal/application/build, which keeps build contexts on disk; the
-- console, the storage service, the discovery of environments, and the repositories of the other tables.
pub mod Prelude
pub mod Domain
pub mod Queue
pub mod Plan
pub mod Supervisor
pub mod EventLoop
pub mod Controller
pub mod Transfer
pub mod Requests
pub mod Builds
pub mod Tests
