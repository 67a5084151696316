-- ===== src/Controller/Clock.antt =====
-- The grace clock over many rounds: what the server holds of a budget, step by step, and what the
-- operator has observed on the way. Nothing of the clock lives in the operator, so that a restart
-- between two steps is no step.
pub mod Refinement
pub mod Expiry
pub mod Grace
pub mod Tests
use gpu_k8s_operator.Prelude.{
  ◌≡◌, Bool, true, false, String, Option, none, some, List, [], ◌∷◌, ok, ◌≤ℤ◌, ◌<ℤ◌, if◌then◌else◌,
}
use gpu_k8s_operator.GoTime.{Time, is_zero, add, second}
use gpu_k8s_operator.Numbers.{Numbers}
use gpu_k8s_operator.Accounting.{Result as AccResult}
use gpu_k8s_operator.Kube.{Condition}
use gpu_k8s_operator.Api.{condition_quota_exceeded, GpuWorkloadBudget}
use gpu_k8s_operator.Cluster.{Cluster, Call}
use gpu_k8s_operator.Controller.Status.{with_status, with_degraded}
use gpu_k8s_operator.Controller.Enforcing.{with_enforced}

-- A condition as it comes back from the server, which writes its time in RFC 3339.
abbrev pub kept : (Time → Time) → Option Condition → Option Condition
kept stored none = none
kept stored (some c) = some (record c { last_transition_time = stored c.last_transition_time })

-- A server that answers a patch of the status with the conditions of the patch, their times written
-- to the second: `stored` drops the fraction, and a time with none is kept.
pub record StoresConditions (num : Numbers) (cl : Cluster num) (stored : Time → Time) : Type 0 where
  pub answered :
      (h : List (Call num.Quantity num.Float)) (old new b : GpuWorkloadBudget num.Quantity)
      (t : String)
      → cl.patch_budget h old new ≡ ok b
      → cl.find_status_condition b.status.conditions t
        ≡ kept stored (cl.find_status_condition new.status.conditions t)
  pub stored_twice : (t : Time) → stored (stored t) ≡ stored t
  pub stored_le : (t : Time) → stored t ≤ℤ t
  pub stored_within : (t : Time) → t <ℤ add (stored t) second

-- The verdict of an accounting, and the time of its round.
pub record Observation : Type 0 where
  pub over : Bool
  pub at : Time

module _ (num : Numbers) (cl : Cluster num) where
  open num use {Float, Quantity}

  -- The budgets that the server can hold, with the observations so far, newest first: a new budget;
  -- a round that patches the status; a round that fails; the stamp of an enforcement; and a change
  -- by anyone else that leaves the conditions alone.
  pub data Trace : GpuWorkloadBudget Quantity → List Observation → Type 0 where
    created :
        (b : GpuWorkloadBudget Quantity)
        → cl.find_status_condition b.status.conditions condition_quota_exceeded ≡ none
        → Trace b []
    observed :
        {b : GpuWorkloadBudget Quantity} {log : List Observation} (h : List (Call Quantity Float))
        (result : AccResult Float) (now : Time) (b' : GpuWorkloadBudget Quantity)
        → Trace b log
        → is_zero now ≡ false
        → cl.patch_budget h b (with_status num cl (cl.wall h) b result now) ≡ ok b'
        → Trace b' (record { over = result.over; at = now } ∷ log)
    failed :
        {b : GpuWorkloadBudget Quantity} {log : List Observation} (h : List (Call Quantity Float))
        (reason message : String) (b' : GpuWorkloadBudget Quantity)
        → Trace b log
        → cl.patch_budget h b (with_degraded num cl (cl.wall h) b reason message) ≡ ok b'
        → Trace b' log
    stamped :
        {b : GpuWorkloadBudget Quantity} {log : List Observation} (h : List (Call Quantity Float))
        (now : Time) (b' : GpuWorkloadBudget Quantity)
        → Trace b log
        → cl.patch_budget h b (with_enforced num cl b now) ≡ ok b'
        → Trace b' log
    edited :
        {b : GpuWorkloadBudget Quantity} {log : List Observation} (b' : GpuWorkloadBudget Quantity)
        → Trace b log
        → b'.status.conditions ≡ b.status.conditions
        → Trace b' log

-- When the present verdict was first observed in a row: the abstract clock.
abbrev pub same : Bool → Bool → Bool
same true b = b
same false b = if b then false else true

pub streak_start : Observation → List Observation → Time
streak_start o [] = o.at
streak_start o (p ∷ log) = if same o.over p.over then streak_start p log else o.at
