-- ===== src/Controller/Tests.antt =====
-- The theorems on the controller, applied to a concrete budget and server.
use gpu_k8s_operator.Prelude.{
  if◌then◌else◌, ◌∷◌, map, List, wrap_int64, ◌*ℤ◌, ◌-ℤ◌, ◌≡◌, refl, true, String, some, [], arith,
  ok, ℤ, pos, ◌+ℤ◌,
}
use gpu_k8s_operator.GoTime.{zero_time, times, add, opposite, sub}
use gpu_k8s_operator.Numbers.Fixed.{fixed, fixed-IsOrdered, fixed_mul}
use gpu_k8s_operator.Accounting.{Result as AccResult, window_from, window_usage}
use gpu_k8s_operator.PodConversion.{
  pod_to_accounting, gpu_request_total, sum_requests, earliest_container_start, observe_statuses,
  observe, pod_end, latest_finish,
}
use gpu_k8s_operator.Offender.{pick_worst_offender, worst_of}
use gpu_k8s_operator.Enforcement.{annotation_paused_at}
use gpu_k8s_operator.Controller.Enforcing.Repeat.{annotated, recorded, paused_settled}
use gpu_k8s_operator.Kube.{Pod}
use gpu_k8s_operator.Api.{condition_quota_exceeded, GpuWorkloadBudget, action_pause}
use gpu_k8s_operator.Cluster.{tracked_pods}
use gpu_k8s_operator.Controller.Status.{gpu_resource_name}
use gpu_k8s_operator.Controller.Enforcing.{is_due, maybe_enforce, window_of, grace_of}
use gpu_k8s_operator.Controller.Enforcing.Gate.{offender_of}
use gpu_k8s_operator.Controller.Enforcing.Window.{window_overflow}
use gpu_k8s_operator.Samples.{cluster, expired, pods, old_pod, ten_hours}

abbrev over_result : AccResult ℤ
over_result = record {
  consumed = pos 14_400_000_000_000;
  remaining = pos 0;
  tracked_pods = 3;
  over = true;
}

-- The budget with a window of three million hours.
abbrev long_window : GpuWorkloadBudget ℤ
long_window = record expired {
  spec = record (expired.spec) {
    quota = record { gpu_hours = pos 2000; window_hours = pos 3_000_000 };
  };
}

window_overflow_example :
    (window_from fixed ten_hours (window_of long_window) ≡ zero_time)
    × (maybe_enforce fixed cluster long_window pods ten_hours [] ≡ ([], ok tt))
window_overflow_example =
    window_overflow fixed fixed-IsOrdered cluster long_window pods ten_hours 3_000_000 [] refl
      (omega arith) (omega arith)

-- The budget in the mode that pauses pods, and pods that have been paused.
abbrev pausing : GpuWorkloadBudget ℤ
pausing = record expired {
  spec = record (expired.spec) {
    enforcement = record { action = action_pause; grace_period_seconds = pos 60 };
  };
}

abbrev all_paused : Pod ℤ → List (String × String)
all_paused p = (annotation_paused_at, "0001-01-01T09:00:00Z") ∷ p.annotations

old_picked : offender_of fixed cluster pausing pods ten_hours ≡ some old_pod
unfolding pick_worst_offender worst_of pod_to_accounting gpu_request_total sum_requests ◌+ℤ◌
    gpu_resource_name earliest_container_start observe_statuses observe pod_end window_usage
    fixed_mul ◌*ℤ◌ window_of times wrap_int64 add opposite sub ◌-ℤ◌ latest_finish
old_picked = refl

paused_settled_example :
    (offender_of fixed cluster pausing (map (annotated fixed all_paused) pods) ten_hours
      ≡ some (annotated fixed all_paused old_pod))
    × ((maybe_enforce fixed cluster pausing (map (annotated fixed all_paused) pods) ten_hours []).0
        ≡ (if is_due
              (cluster.find_status_condition pausing.status.conditions condition_quota_exceeded)
              (grace_of pausing)
              ten_hours
            then recorded fixed all_paused cluster pausing ten_hours action_pause []
            else []))
paused_settled_example =
    paused_settled fixed all_paused cluster pausing pods ten_hours [] old_pod "0001-01-01T09:00:00Z"
      refl old_picked refl
