-- ===== src/Lib.antt =====
-- trafficctl: a Kubernetes controller that keeps the weights of an HTTPRoute within declared bounds
-- and moves weight away from backends that breach a metric threshold.
--
-- Parts of the program, and the files that model them:
-- - api/v1alpha1/trafficpolicy_types.go: the resource. Api/Types.antt has its types,
--   Api/Schema.antt the validation markers, Api/WeightMap.antt the map from names to weights that
--   several parts build.
-- - api/v1alpha1/zz_generated.deepcopy.go: Api/DeepCopy.antt has the deep copies, over the heap of
--   Api/DeepCopy/Cells.antt. The rest of the development takes a copy for the value that it reads
--   as, as Api/DeepCopy/Apart.antt allows.
-- - internal/evaluator/evaluator.go: `Evaluate` decides on new weights. Evaluator.antt is the
--   function, Evaluator/State.antt `buildStates`, Evaluator/Shift.antt the loop that moves one
--   point at a time; the files below them hold the lemmas, named for what they speak of.
-- - internal/evaluator/smoother.go: the moving averages, Smoother.antt.
-- - internal/router: `Weighter.Apply` writes weights into the route, Router.antt.
-- - internal/controller: `Reconcile`. Controller/Spec.antt is `validateSpec`,
--   Controller/Initial.antt `initialWeights`, Controller/Strategy.antt the readers of the spec,
--   Controller/Journal.antt the metrics and events, Controller/Journal/Collectors.antt the
--   collectors, Controller/Env.antt the collaborators, Controller/Sampling.antt `evaluateMetrics`
--   and `smooth`, Controller/Reconcile.antt `Reconcile`, Controller/Endings.antt the ways in which
--   a call ends, Controller/Recorder.antt the adapters of event_recorder.go.
-- - internal/metrics: `Source` and its two implementations. Metrics.antt is `StaticSource`,
--   Metrics/Prometheus.antt `PromSource`, with the HTTP client and the decoder of JSON as
--   parameters.
-- - internal/cli/cli.go: the tool. Cli.antt is `runList`, `runStatus` and `togglePaused`,
--   Cli/Tables.antt what the first two show, Cli/Writes.antt the output that they print to,
--   Cli/Commands.antt `buildClient` and the subcommands.
-- - cmd/main.go: the manager. Manager.antt is what `main` makes of its flags, Manager/Wiring.antt
--   the reconciler that it builds, Manager/Process.antt its steps and exit code.
-- - All of them together: System/Server.antt says what the API server promises to both clients,
--   System/Steps.antt is the step relation with whole calls, System/Interleaved.antt the one in
--   which they overlap, and the other files of System are named for what the parts do together.
--   System/Small.antt is a cluster that keeps those promises. The manager's client reads from a
--   cache: System/Spacing.antt and System/Frozen.antt are about calls that end with the cache up to
--   date, which is a condition there and no promise of the client. A status is stored with its
--   times in whole seconds.
-- Prelude.antt and its children hold what they share.
--
-- One call of `Reconcile` reads the policy, checks its spec, starts it with weights if it has none,
-- samples every signal through the metric source and the smoother, asks the evaluator, writes the
-- weights through the weighter and patches the status. The state that it changes is a record
-- `World`: the cluster (a type parameter), the smoother, and a journal of the calls of the event
-- recorder and of the Prometheus client library. The clock's readings are arguments.
--
-- Representation. An `int32` is an integer, and `add32` and `sub32` wrap it. `float64` is an
-- interface (Prelude/Float.antt), over which the code is generic. A pointer to a backend's state is
-- a place in the list of states. A Go map is an association list; a range over a map takes the
-- order of that list. `sort.SliceStable` is the insertion sort of Prelude/Sort.antt. A time is a
-- count of nanoseconds.
--
-- Fuel. The loop of `Evaluate` runs on fuel, one more than the sum of the step budgets: each round
-- lowers that sum, so the loop ends by its own exit. `%d` has fuel for 40 digits.
--
-- Environment. The step relation has the calls of `Reconcile`, of `freeze` and `resume`, restarts
-- of the manager and what others do to the policies, but no edit of the backends: after one, the
-- stored weights are not those of the backends any more, and the controller does not start them
-- again. In System/Steps.antt a call is one step. In System/Interleaved.antt what it reads is one
-- step and what it writes a later one, with steps of the others between; its writes to the route
-- and to the policy are one step, or the process ends between them.
--
-- Not modelled: the parsing of flags and of the command line, logging, contexts and their
-- cancellation, the registration of schemes, and test/utils. The cluster clients, the deep copies
-- of the API machinery's own types, the kubeconfig loader, the API machinery's conditions, the
-- equality of statuses, the steps of the controller-runtime manager, HTTP, URLs, JSON,
-- `strconv.ParseFloat`, `sort.Slice` and the layout of `text/tabwriter` are parameters.
pub mod Prelude
pub mod Api
pub mod Evaluator
pub mod Smoother
pub mod Router
pub mod Metrics
pub mod Controller
pub mod Cli
pub mod Manager
pub mod System
