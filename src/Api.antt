-- ===== src/Api.antt =====
-- api/v1alpha1/gpuworkloadbudget_types.go: the custom resource. `Q` is `resource.Quantity`; the
-- fields of 32 and 64 bits are integers, and their ranges are hypotheses where they matter.
pub mod Store
pub mod Copiers
pub mod Copies
use gpu_k8s_operator.Prelude.{ℤ, String, Option, List}
use gpu_k8s_operator.GoTime.{Time}
use gpu_k8s_operator.Kube.{LabelSelector, Condition}

-- A string: the server may hold values that the running operator does not know.
abbrev pub EnforcementAction : Type 0
EnforcementAction = String

abbrev pub action_evict : EnforcementAction
action_evict = "Evict"

abbrev pub action_pause : EnforcementAction
action_pause = "Pause"

abbrev pub action_alert_only : EnforcementAction
action_alert_only = "AlertOnly"

abbrev pub condition_ready : String
condition_ready = "Ready"

abbrev pub condition_quota_exceeded : String
condition_quota_exceeded = "QuotaExceeded"

abbrev pub condition_degraded : String
condition_degraded = "Degraded"

pub record Quota (Q : Type 0) : Type 0 where
  pub gpu_hours : Q
  pub window_hours : ℤ

pub record Enforcement : Type 0 where
  pub action : EnforcementAction
  pub grace_period_seconds : ℤ

pub record GpuWorkloadBudgetSpec (Q : Type 0) : Type 0 where
  pub selector : LabelSelector
  pub quota : Quota Q
  pub enforcement : Enforcement
  pub gpu_resource_name : String

pub record GpuWorkloadBudgetStatus (Q : Type 0) : Type 0 where
  pub consumed_gpu_hours : Q
  pub remaining_gpu_hours : Q
  pub tracked_pods : ℤ
  pub last_enforcement_at : Option Time
  pub observed_generation : ℤ
  pub conditions : List Condition

-- The metadata that the operator reads, the spec and the status.
pub record GpuWorkloadBudget (Q : Type 0) : Type 0 where
  pub namespace : String
  pub name : String
  pub generation : ℤ
  pub deletion_timestamp : Option Time
  pub finalizers : List String
  pub spec : GpuWorkloadBudgetSpec Q
  pub status : GpuWorkloadBudgetStatus Q
