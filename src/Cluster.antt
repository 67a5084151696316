-- ===== src/Cluster.antt =====
-- The operator's environment: the API server, the clock, the event recorder, the metrics registry,
-- and the functions of the Kubernetes libraries that the operator calls. None of it is code of the
-- repository. A computation keeps the list of the calls made so far, newest first; what a call
-- answers is any function of that list and of its arguments, so the theorems hold for every
-- server, also one that answers the same call differently the next time.
use gpu_k8s_operator.Prelude.{
  Bool, true, false, String, Option, List, ◌∷◌, ℤ, Result, ok, err, Error, wrapped, StatusReason,
  api_status,
}
use gpu_k8s_operator.GoTime.{Time}
use gpu_k8s_operator.Numbers.{Numbers}
use gpu_k8s_operator.Kube.{Pod, LabelSelector, Condition}
use gpu_k8s_operator.Api.{GpuWorkloadBudget}

-- `labels.Selector`, as the test `Matches`.
abbrev pub Selector : Type 0
Selector = List (String × String) → Bool

-- The gauges of internal/controller/metrics.go.
pub data Gauge : Type 0 where
  consumed_gpu_hours remaining_gpu_hours tracked_pods accounting_accuracy_ratio : Gauge

-- `policyv1.Eviction`
pub record Eviction : Type 0 where
  pub name : String
  pub namespace : String
  pub grace_period_seconds : ℤ

-- A call, with its arguments. Budgets are named by namespace and name in events and metrics.
pub data Call (Q F : Type 0) : Type 0 where
  get_budget : String → String → Call Q F
  update_budget : GpuWorkloadBudget Q → Call Q F
  list_pods : String → Selector → Call Q F
  list_budgets : String → Call Q F
  patch_status : GpuWorkloadBudget Q → GpuWorkloadBudget Q → Call Q F
  patch_pod : Pod Q → Pod Q → Call Q F
  evict_pod : String → Eviction → Call Q F
  event : String → String → String → String → String → Call Q F
  set_gauge : Gauge → String → String → F → Call Q F
  delete_gauge : Gauge → String → String → Call Q F
  inc_counter : String → String → String → Call Q F

abbrev pub History : (num : Numbers) → Type 0
History num = List (Call num.Quantity num.Float)

pub record Cluster (num : Numbers) : Type 0 where
  pub get : History num → String → String → Result (GpuWorkloadBudget num.Quantity)
  pub update :
      History num → GpuWorkloadBudget num.Quantity → Result (GpuWorkloadBudget num.Quantity)
  pub list : History num → String → Selector → Result (List (Pod num.Quantity))
  pub list_all : History num → String → Result (List (GpuWorkloadBudget num.Quantity))
  -- A patch is sent as the difference of two objects, and answers with the new object.
  pub patch_budget :
      History num
      → GpuWorkloadBudget num.Quantity
      → GpuWorkloadBudget num.Quantity
      → Result (GpuWorkloadBudget num.Quantity)
  pub patch : History num → Pod num.Quantity → Pod num.Quantity → Result (Pod num.Quantity)
  pub evict : History num → String → Eviction → Result (Unit {0})
  -- the reconciler's clock, and the clock that the libraries read by themselves
  pub now : History num → Time
  pub wall : History num → Time
  -- `metav1.LabelSelectorAsSelector`, `meta.SetStatusCondition` at a reading of the clock, and
  -- `meta.FindStatusCondition`
  pub label_selector_as_selector : LabelSelector → Result Selector
  pub set_status_condition : Time → List Condition → Condition → List Condition
  pub find_status_condition : List Condition → String → Option Condition
  -- `controllerutil.ContainsFinalizer`, `AddFinalizer` and `RemoveFinalizer`, on the finalizers
  pub contains_finalizer : List String → String → Bool
  pub add_finalizer : List String → String → List String
  pub remove_finalizer : List String → String → List String
  -- `Format(time.RFC3339)`, and an error's text
  pub format_rfc3339 : Time → String
  pub error_text : Error → String

-- `apierrors.ReasonForError`: the reason of the status inside an error.
abbrev pub reason_of : Error → StatusReason
reason_of (api_status r m) = r
reason_of (wrapped m e) = reason_of e

abbrev pub is_not_found : Error → Bool
is_not_found e = elim (reason_of e) [ StatusReason.not_found ↦ true | _ ↦ false ]

abbrev pub is_too_many_requests : Error → Bool
is_too_many_requests e = elim (reason_of e) [ StatusReason.too_many_requests ↦ true | _ ↦ false ]

-- A computation that makes calls and returns a value and an error.
abbrev pub M : Type 0 → Type 0 → Type 0 → Type 0
M Q F A = List (Call Q F) → List (Call Q F) × Result A

-- `if err != nil { return fmt.Errorf(msg: %w, err) }`
abbrev pub wrap_result : {A : Type 0} → String → Result A → Result A
wrap_result msg (ok a) = ok a
wrap_result msg (err e) = err (wrapped msg e)

module _ {Q F : Type 0} where
  infixl 5 ◌>>=◌ ◌>>◌
  abbrev pub ret : {A : Type 0} → A → M Q F A
  ret a h = (h, ok a)

  abbrev pub fail : {A : Type 0} → Error → M Q F A
  fail e h = (h, err e)

  abbrev pub after_call :
      {A B : Type 0} → (A → M Q F B) → List (Call Q F) → Result A → List (Call Q F) × Result B
  after_call f h (ok a) = f a h
  after_call f h (err e) = (h, err e)

  abbrev pub ◌>>=◌ : {A B : Type 0} → M Q F A → (A → M Q F B) → M Q F B
  ◌>>=◌ m f h = after_call f (m h).0 (m h).1

  abbrev pub ◌>>◌ : {B : Type 0} → M Q F (Unit {0}) → M Q F B → M Q F B
  m >> k = m >>= λ _. k

  -- A call that answers, and one that does not.
  abbrev pub call : {A : Type 0} → Call Q F → (List (Call Q F) → Result A) → M Q F A
  call c answer h = (c ∷ h, answer h)

  abbrev pub emit : Call Q F → M Q F (Unit {0})
  emit c h = (c ∷ h, ok tt)

  abbrev pub wrap : {A : Type 0} → String → M Q F A → M Q F A
  wrap msg m h = ((m h).0, wrap_result msg (m h).1)

  -- The error of a call as a value, for code that looks at it.
  abbrev pub attempt : {A : Type 0} → M Q F A → M Q F (Result A)
  attempt m h = ((m h).0, ok (m h).1)
