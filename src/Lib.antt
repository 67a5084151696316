-- ===== src/Lib.antt =====
-- Verification library of the GPU workload budget operator, a Kubernetes operator in Go that counts
-- the GPU-hours of pods against a budget over a rolling window and acts on the worst pod when the
-- budget is used up.
--
-- Parts and files. The accounting engine (internal/accounting/accounting.go: WindowUsage, Compute) is
-- Accounting. The custom resource (api/v1alpha1/gpuworkloadbudget_types.go) is Api. The conversion
-- of a Kubernetes pod to a run that the engine counts (internal/controller/pod_conversion.go) is
-- PodConversion. The controller (internal/controller/gpuworkloadbudget_controller.go, metrics.go) is
-- Offender (pickWorstOffender), Controller/Status (writeStatus, markDegradedAndRequeue, the metrics,
-- gpuHoursToQuantity), Controller/Enforcing (maybeEnforce), Controller/Reconciler (Reconcile, finalize,
-- mapPodToBudgets) and Controller/Watches (SetupWithManager). The enforcers (internal/enforcement)
-- are Enforcement, and the admission webhook
-- (internal/webhook/v1alpha1/gpuworkloadbudget_webhook.go) is Webhook. The start of the operator
-- (cmd/main.go) is Manager, and what it registers (api/v1alpha1/groupversion_info.go, the `init`
-- functions, the setup of the webhook) is Registration. Of the commands under test/, the bench's
-- expectation and score (test/bench/harness.go) are Bench, the command that reports them
-- (test/bench/cmd/gwb-bench/main.go) is Bench/Report, and the generator of the pods of a run
-- (test/workload-generator/main.go) is Generator.
-- A round of Reconcile fetches the budget, lists its pods, converts and counts them, patches the
-- status, publishes the metrics, and, if the budget is over, picks an offender and runs an enforcer.
--
-- State. The operator keeps no state of its own between rounds. A function that talks to the
-- cluster is a computation on the list of the calls made so far (Cluster): it adds calls and returns
-- a value or an error. What a call answers is any function of that list, so that the theorems hold
-- for every API server. Objects that the code changes in place are returned as new values, and a
-- patch or an update returns the object that the server answers with, as the client decodes it.
--
-- Rounds. Controller/Clock follows one budget over any sequence of rounds, stamps and changes by
-- others, as a step relation (Trace) on what the server holds, beside the list of verdicts observed:
-- the abstract clock is the time at which the present row of equal verdicts began. What the server
-- must do for it, with the times of conditions written to the second, is StoresConditions.
-- Controller/Draining follows all requests over any sequence of rounds on a server that nobody else
-- uses (IsAlone), with the pods that are there and not terminating as a function of the calls made;
-- what a pod can still get, a stamp and an eviction, is the measure. Controller/Failing sets
-- beside the result of a round the refusals with which the server has answered its calls: FineCalls
-- is the sequence of calls without a refusal, but for those that the code goes on after. The
-- watch of the pods is compared with the rounds that it wakes in Controller/Watches/Agreement.
--
-- Sharing. The functions above return new values. Api/Store is a store with addresses, Api/Copies the
-- generated deep copies over it (api/v1alpha1/zz_generated.deepcopy.go), and Controller/InPlace the
-- changes that the controller makes in place before each patch. What the libraries must do for it is
-- AreDeep and IsInPlace. Samples/Objects is a store for the witnesses.
--
-- Numbers. A float64 is an abstract type with the laws of IEEE 754 that a theorem names (Numbers),
-- under which infinities and NaN are allowed; Numbers/Fixed shows that the laws can hold. Instants
-- and durations are integers of nanoseconds (GoTime); a product of durations and a negation wrap at
-- 64 bits as in Go, and the difference of instants saturates. An instant itself is unbounded.
-- Fields of 32 and 64 bits of the resource are integers. All loops are structural recursion on a
-- list or on a count of what is left: there is no fuel.
--
-- Parameters. The Kubernetes libraries (SetStatusCondition, FindStatusCondition, the finalizer
-- helpers, LabelSelectorAsSelector, resource.Quantity) are fields of Cluster and Numbers, with the
-- documented behaviour as a named hypothesis (KeepsConditions) where a theorem needs it. Kube holds
-- of their structs the fields that the source mentions. The manager's platform, and what the commands
-- under test/ call outside, are Platform and Outside of their modules. Samples holds the concrete
-- pods, budgets and server on which the modules named Tests apply the theorems.
--
-- Not modelled. Logging, the texts that the commands print and write, and the utilities of the
-- end-to-end tests (test/utils/utils.go), which run shell commands.
pub mod Prelude
pub mod GoTime
pub mod Numbers
pub mod Accounting
pub mod Kube
pub mod Api
pub mod PodConversion
pub mod Offender
pub mod Cluster
pub mod Enforcement
pub mod Webhook
pub mod Controller
pub mod Manager
pub mod Bench
pub mod Generator
pub mod Registration
pub mod Samples
