-- ===== src/Controller/Clock/Tests.antt =====
-- The grace clock on a server that writes the times of conditions to the second.
use gpu_k8s_operator.Prelude.{
  ◌+◌, ◌-◌, ◌/◌, ◌*◌, ◌%◌, ◌≡◌, ◌∙◌, refl, sym, ap, true, String, List, [], ◌∷◌, ◌++◌, ◌↔◌, arith,
  ok, err, ℤ, pos, negsuc, ◌<ℤ◌, ◌*ℤ◌, ◌+ℤ◌, ◌-ℤ◌, wrap_int64, Result, Bool-cases, inl, inr,
}
use text.Mathlib.Text.{◌==◌ as str_eq}
use gpu_k8s_operator.GoTime.{Time, add, opposite, sub, times, second, add_parts}
use gpu_k8s_operator.Numbers.Fixed.{fixed, fixed_mul}
use gpu_k8s_operator.Accounting.{Result as AccResult, window_from, compute, sum_usage, window_usage}
use gpu_k8s_operator.Kube.{Condition}
use gpu_k8s_operator.Api.{GpuWorkloadBudget, condition_quota_exceeded}
use gpu_k8s_operator.Cluster.{Cluster, patch_status}
use gpu_k8s_operator.Enforcement.Effects.{pod_writes}
use gpu_k8s_operator.Controller.Status.{
  with_status, publish_metrics, write_status, gpu_resource_name,
}
use gpu_k8s_operator.Controller.Status.Transition.{KeepsConditions}
use gpu_k8s_operator.Controller.Status.Conditions.{condition_of}
use gpu_k8s_operator.Controller.Status.Listed.{find_in, find_in-set_in}
use gpu_k8s_operator.Controller.Enforcing.{
  maybe_enforce, window_of, grace_of, enforce_on, record_enforcement, is_due,
}
use gpu_k8s_operator.Controller.Reconciler.{account, reconcile_pods, accounting_pods, conclude}
use gpu_k8s_operator.PodConversion.{
  pod_to_accounting, gpu_request_total, sum_requests, earliest_container_start, observe_statuses,
  observe, pod_end,
}
use gpu_k8s_operator.Enforcement.{enforce, evict, new}
use gpu_k8s_operator.Offender.{pick_worst_offender, worst_of}
use gpu_k8s_operator.Controller.Reconciler.Safety.{cadence}
use gpu_k8s_operator.Controller.Draining.{gauges}
use gpu_k8s_operator.Controller.Clock.Grace.{grace_respected}
use gpu_k8s_operator.Controller.Clock.{
  kept, StoresConditions, Observation, Trace, created, observed, streak_start,
}
use gpu_k8s_operator.Controller.Reconciler.Guard.{patched}
use gpu_k8s_operator.Controller.Clock.Refinement.{IsClocked, Trace-IsClocked}
use gpu_k8s_operator.Controller.Clock.Expiry.{HasLasted, is_due_iff, reconcile_pods-lasts}
use gpu_k8s_operator.Samples.{cluster, budget, old_pod, eight_hours, ten_hours}

-- The time without its fraction of a second.
abbrev whole : Time → Time
whole (pos n) = pos (n - n % 1_000_000_000)
whole (negsuc n) = negsuc (n / 1_000_000_000 * 1_000_000_000 + 999_999_999)

abbrev whole_times : List Condition → List Condition
whole_times [] = []
whole_times (c ∷ cs) =
    record c { last_transition_time = whole c.last_transition_time } ∷ whole_times cs

abbrev server : Cluster fixed
server = record cluster {
  patch_budget = λ h old new. ok (record new {
    status = record (new.status) { conditions = whole_times new.status.conditions };
  });
}

find_in-whole_times :
    (cs : List Condition) (t : String) → find_in (whole_times cs) t ≡ kept whole (find_in cs t)
find_in-whole_times [] t = refl
find_in-whole_times (c ∷ cs) t = elim (Bool-cases (str_eq c.type t)) [
  | inl e ↦ rw e refl
  | inr e ↦ rw e (find_in-whole_times cs t)
]

conditions_of : Result (GpuWorkloadBudget ℤ) → List Condition
conditions_of (ok b) = b.status.conditions
conditions_of (err e) = []

whole_twice : (t : Time) → whole (whole t) ≡ whole t
whole_twice (pos n) = ap pos (omega arith)
whole_twice (negsuc n) = ap negsuc (omega arith)

server-StoresConditions : StoresConditions fixed server whole
unfolding conditions_of
server-StoresConditions = record {
  answered = λ h old new b t e.
      ap (λ cs. find_in cs t) (ap conditions_of (sym e))
      ∙ find_in-whole_times new.status.conditions t;
  stored_twice = whole_twice;
  stored_le = λ t. ground arith;
  stored_within = λ t. ground (arith, add_parts (whole t) second);
}

server_keeps : KeepsConditions fixed server
server_keeps = record { find_set = find_in-set_in }

abbrev over_result : AccResult ℤ
over_result = record {
  consumed = pos 14_400_000_000_000;
  remaining = pos 0;
  tracked_pods = 3;
  over = true;
}

-- The budget that the server holds after a round at eight hours that found it over.
abbrev counted : GpuWorkloadBudget ℤ
counted =
    let changed = with_status fixed server ten_hours budget over_result eight_hours in
    record changed {
      status = record (changed.status) { conditions = whole_times changed.status.conditions };
    }

abbrev over_at_eight : Observation
over_at_eight = record { over = true; at = eight_hours }

counted-Trace : Trace fixed server counted (over_at_eight ∷ [])
counted-Trace = observed [] over_result eight_hours counted (created budget refl) refl refl

Trace-IsClocked_example :
    IsClocked fixed server server_keeps whole
      (over_at_eight ∷ [])
      (condition_of fixed server server_keeps counted condition_quota_exceeded)
Trace-IsClocked_example =
    Trace-IsClocked fixed server server_keeps whole server-StoresConditions counted-Trace

is_due_iff_example :
    (is_due
        (condition_of fixed server server_keeps counted condition_quota_exceeded)
        (pos 60_000_000_000)
        ten_hours
      ≡ true)
    ↔ HasLasted whole (over_at_eight ∷ []) (pos 60_000_000_000) ten_hours
is_due_iff_example =
    is_due_iff fixed server server_keeps whole server-StoresConditions (pos 60_000_000_000)
      ten_hours counted-Trace

-- The round at ten hours evicts one pod.
counted_evicts :
    pod_writes (reconcile_pods fixed server counted ten_hours (ok (old_pod ∷ [])) []).0 ≡ 1
unfolding reconcile_pods write_status compute ◌*ℤ◌ sum_usage accounting_pods pod_to_accounting
    gpu_request_total sum_requests gpu_resource_name ◌+ℤ◌ earliest_container_start observe_statuses
    observe window_usage enforce_on record_enforcement conclude enforce evict new add opposite sub
    times pick_worst_offender worst_of pod_end wrap_int64 ◌-ℤ◌ fixed_mul publish_metrics window_from
    window_of grace_of maybe_enforce account with_status
counted_evicts = refl

reconcile_pods-lasts_example :
    (b : GpuWorkloadBudget ℤ) × (patched fixed server counted (old_pod ∷ []) ten_hours [] ≡ ok b)
    × Trace fixed server b (record { over = true; at = ten_hours } ∷ over_at_eight ∷ [])
    × (add (streak_start (record { over = true; at = ten_hours }) (over_at_eight ∷ [])) (grace_of b)
        <ℤ add ten_hours second)
reconcile_pods-lasts_example =
    reconcile_pods-lasts fixed server server_keeps whole server-StoresConditions counted
      (over_at_eight ∷ []) ten_hours (old_pod ∷ []) [] counted-Trace refl
      (λ e. omega (arith, counted_evicts, e))

-- The budget that the server holds after the round at ten hours that first finds it over.
abbrev first_over : GpuWorkloadBudget ℤ
first_over =
    let changed =
      with_status fixed server (server.wall []) budget
        (account fixed server budget (old_pod ∷ []) ten_hours) ten_hours in
    record changed {
      status = record (changed.status) { conditions = whole_times changed.status.conditions };
    }

-- The accounting is over.
first_is_over : (account fixed server budget (old_pod ∷ []) ten_hours).over ≡ true
unfolding compute ◌*ℤ◌ sum_usage accounting_pods pod_to_accounting gpu_request_total sum_requests
    gpu_resource_name ◌+ℤ◌ earliest_container_start observe_statuses observe window_usage add
    opposite sub times pod_end wrap_int64 ◌-ℤ◌ fixed_mul window_from window_of account
first_is_over = refl

first_grace : first_over.spec.enforcement.grace_period_seconds ≡ pos 60
unfolding with_status
first_grace = refl

grace_respected_example :
    let result = account fixed server budget (old_pod ∷ []) ten_hours in
    reconcile_pods fixed server budget ten_hours (ok (old_pod ∷ [])) [] ≡ (
      gauges fixed first_over result
          ++ patch_status budget (with_status fixed server (server.wall []) budget result ten_hours)
            ∷ [],
      ok (cadence fixed server result.over),
    )
grace_respected_example =
    grace_respected fixed server server_keeps whole server-StoresConditions budget ten_hours
      (old_pod ∷ []) [] first_over 60 refl (λ old e. cc e) refl first_grace (omega arith)
      (omega arith)
