-- ===== src/Samples.antt =====
-- Concrete pods, budgets and servers, on which the witnesses run the definitions. The numbers are
-- fixed-point: an hour of one GPU is 3600000000000.
pub mod Objects
use text.Mathlib.Text.{◌==◌ as str_eq}
use gpu_k8s_operator.Prelude.{
  Bool, true, false, String, Option, none, some, List, [], ◌∷◌, ◌||◌, if◌then◌else◌, ℤ, pos, ok,
}
use gpu_k8s_operator.GoTime.{Time}
use gpu_k8s_operator.Numbers.Fixed.{fixed}
use gpu_k8s_operator.Accounting.{Pod as AccPod, Budget}
use gpu_k8s_operator.Kube.{Pod, ContainerStatus, LabelSelector, Condition}
use gpu_k8s_operator.Api.{GpuWorkloadBudget}
use gpu_k8s_operator.Cluster.{Cluster}
use gpu_k8s_operator.Controller.Status.Transition.{KeepsConditions}
use gpu_k8s_operator.Controller.Status.Listed.{set_in, find_in, find_in-set_in}

-- `n` hours after the zero time
abbrev pub ten_hours : Time
ten_hours = pos 36_000_000_000_000

abbrev pub eight_hours : Time
eight_hours = pos 28_800_000_000_000

abbrev pub seven_hours : Time
seven_hours = pos 25_200_000_000_000

abbrev pub one_hour : Time
one_hour = pos 3_600_000_000_000

abbrev pub two_gpus : ℤ
two_gpus = pos 7_200_000_000_000

-- A run of two GPUs, and the budget of a window of two hours.
abbrev pub acc_run : Time → Option Time → AccPod ℤ
acc_run start end = record { id = "uid"; start = start; end = end; gpus = two_gpus }

abbrev pub two_hour_budget : Budget ℤ
two_hour_budget = record { window = pos 7_200_000_000_000; quota = pos 10_800_000_000_000 }

abbrev pub running_since : Time → ContainerStatus
running_since t = record {
  state = record { running = some (record { started_at = t }); terminated = none };
  last_termination_state = record { running = none; terminated = none };
}

abbrev pub finished_at : Time → Time → ContainerStatus
finished_at s t = record {
  state = record { running = none; terminated = some (record { started_at = s; finished_at = t }) };
  last_termination_state = record { running = none; terminated = none };
}

-- A pod of the namespace "ml" with one container that requests two GPUs.
abbrev pub gpu_pod : String → String → List ContainerStatus → Option Time → Pod ℤ
gpu_pod name phase statuses deleted = record {
  uid = name;
  namespace = "ml";
  name = name;
  labels = ("team", "ml") ∷ [];
  annotations = ("keep", "me") ∷ [];
  deletion_timestamp = deleted;
  containers = record { requests = ("nvidia.com/gpu", pos 2000) ∷ [] } ∷ [];
  phase = phase;
  container_statuses = statuses;
  start_time = some one_hour;
}

abbrev pub young_pod : Pod ℤ
young_pod = gpu_pod "young" "Running" (running_since eight_hours ∷ []) none

abbrev pub old_pod : Pod ℤ
old_pod = gpu_pod "old" "Running" (running_since seven_hours ∷ []) none

abbrev pub done_pod : Pod ℤ
done_pod = gpu_pod "done" "Succeeded" (finished_at seven_hours eight_hours ∷ []) none

abbrev pub pods : List (Pod ℤ)
pods = young_pod ∷ old_pod ∷ done_pod ∷ []

abbrev pub team_selector : LabelSelector
team_selector = record { match_labels = ("team", "ml") ∷ []; match_expressions = [] }

-- A budget of two GPU-hours in a window of four hours.
abbrev pub ml_budget : List String → List Condition → Option Time → GpuWorkloadBudget ℤ
ml_budget finalizers conditions deleted = record {
  namespace = "ml";
  name = "team-budget";
  generation = pos 3;
  deletion_timestamp = deleted;
  finalizers = finalizers;
  spec = record {
    selector = team_selector;
    quota = record { gpu_hours = pos 2000; window_hours = pos 4 };
    enforcement = record { action = "Evict"; grace_period_seconds = pos 60 };
    gpu_resource_name = "";
  };
  status = record {
    consumed_gpu_hours = pos 0;
    remaining_gpu_hours = pos 0;
    tracked_pods = pos 0;
    last_enforcement_at = none;
    observed_generation = pos 2;
    conditions = conditions;
  };
}

abbrev pub held : List String
held = "budget.zxuhan.dev/finalizer" ∷ []

abbrev pub budget : GpuWorkloadBudget ℤ
budget = ml_budget held [] none

abbrev pub quota_exceeded_since : Time → Condition
quota_exceeded_since t = record {
  type = "QuotaExceeded";
  status = "True";
  reason = "QuotaReached";
  message = "";
  last_transition_time = t;
}

-- The budget, over quota since the first hour.
abbrev pub expired : GpuWorkloadBudget ℤ
expired = ml_budget held (quota_exceeded_since one_hour ∷ []) none

abbrev pub contains : List String → String → Bool
contains [] f = false
contains (x ∷ xs) f = str_eq x f || contains xs f

abbrev pub without : List String → String → List String
without [] f = []
without (x ∷ xs) f = let rest = without xs f in if str_eq x f then rest else x ∷ rest

-- A server that accepts every call, at ten hours after the zero time.
abbrev pub cluster : Cluster fixed
cluster = record {
  get = λ h ns name. ok budget;
  update = λ h b. ok b;
  list = λ h ns s. ok pods;
  list_all = λ h ns. ok (budget ∷ []);
  patch_budget = λ h old new. ok new;
  patch = λ h old new. ok new;
  evict = λ h ns e. ok tt;
  now = λ h. ten_hours;
  wall = λ h. ten_hours;
  label_selector_as_selector = λ s. ok (λ labels. true);
  set_status_condition = set_in;
  find_status_condition = find_in;
  contains_finalizer = contains;
  add_finalizer = λ fs f. f ∷ fs;
  remove_finalizer = without;
  format_rfc3339 = λ t. "0001-01-01T10:00:00Z";
  error_text = λ e. "error";
}

pub keeps : KeepsConditions fixed cluster
keeps = record { find_set = find_in-set_in }
