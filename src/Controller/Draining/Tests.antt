-- ===== src/Controller/Draining/Tests.antt =====
-- Rounds on a server that keeps its pods: evictions take them away.
use gpu_k8s_operator.Prelude.{
  ◌≡◌, refl, ◌+◌, ◌*◌, ◌≤◌, true, false, String, List, [], ◌∷◌, ◌++◌, length, All-of, IsIn, ok,
  none, arith, ℤ, ◌*ℤ◌, ◌+ℤ◌, wrap_int64, ◌-ℤ◌,
}
use mathlib.Core.Path.{subst}
use gpu_k8s_operator.GoTime.{add, opposite, sub, times}
use gpu_k8s_operator.Numbers.Fixed.{fixed, fixed_mul}
use gpu_k8s_operator.Accounting.{window_from, compute, sum_usage, window_usage}
use gpu_k8s_operator.Kube.{Pod}
use gpu_k8s_operator.PodConversion.{
  pod_to_accounting, gpu_request_total, sum_requests, earliest_container_start, observe_statuses,
  observe, pod_end,
}
use gpu_k8s_operator.Offender.{pick_worst_offender, worst_of}
use gpu_k8s_operator.Api.{GpuWorkloadBudget}
use gpu_k8s_operator.Cluster.{Cluster, Call, list_pods, get_budget, evict_pod, patch_pod}
use gpu_k8s_operator.Controller.Status.{with_status, gpu_resource_name}
use gpu_k8s_operator.Controller.Enforcing.{window_of, grace_of, with_enforced}
use gpu_k8s_operator.Controller.Reconciler.{account, accounting_pods}
use gpu_k8s_operator.Controller.Draining.{
  remove_pod, replace_pod, accepts, accepted, IsAlone, rounds,
}
use gpu_k8s_operator.Controller.Draining.Progress.{IsPressing}
use gpu_k8s_operator.Controller.Draining.Pressing.{IsPressingRound}
use gpu_k8s_operator.Controller.Draining.Ends.{enforcement_ends, drained}
use gpu_k8s_operator.Samples.{cluster, expired, young_pod, old_pod, ten_hours}

abbrev Calls : Type 0
Calls = List (Call ℤ ℤ)

-- The pods that are left after these calls.
abbrev left : Calls → List (Pod ℤ)
left [] = young_pod ∷ old_pod ∷ []
left (evict_pod ns e ∷ h) = remove_pod ns e.name (left h)
left (patch_pod old new ∷ h) = replace_pod old new (left h)
left (_ ∷ h) = left h

abbrev keeper : Cluster fixed
keeper = record cluster { get = λ h ns name. ok expired; list = λ h ns s. ok (left h) }

left_same : (c : Call ℤ ℤ) (h : Calls) → accepts fixed keeper c h ≡ false → left (c ∷ h) ≡ left h
left_same (patch_pod old new) h e = cc e
left_same (evict_pod ns ev) h e = cc e
left_same _ h e = refl

keeper-IsAlone : IsAlone fixed keeper left
keeper-IsAlone = record {
  lists = λ h ns s pods e.
      All-of (λ p. p.deletion_timestamp ≡ none → IsIn p (left h)) pods
        (λ p m _. subst (IsIn p) (cc e) m);
  evicts = λ h ns ev e. refl;
  patches = λ h old new e. refl;
  leaves = λ h c e. left_same c h e;
}

abbrev request : String × String
request = ("ml", "team-budget")

enforcement_ends_example :
    accepted fixed keeper (rounds fixed keeper (request ∷ request ∷ request ∷ []) [])
    ≤ accepted fixed keeper [] + 2 * length (left [])
enforcement_ends_example =
    enforcement_ends fixed keeper left keeper-IsAlone (request ∷ request ∷ request ∷ []) []

abbrev five : List (String × String)
five = request ∷ request ∷ request ∷ request ∷ request ∷ []

drained_example :
    (before : List (String × String)) × (r : String × String) × (after : List (String × String))
    × (five ≡ before ++ r ∷ after)
    × ¬ IsPressingRound fixed keeper r.0 r.1 (rounds fixed keeper before [])
drained_example = drained fixed keeper left keeper-IsAlone five [] (omega arith)

-- The budget that the server answers with, and a round of it over quota.
abbrev answered : GpuWorkloadBudget ℤ
answered =
    with_status fixed keeper ten_hours expired (account fixed keeper expired (left []) ten_hours)
      ten_hours

team_presses : (h : Calls) → IsPressing fixed keeper expired (left []) ten_hours h answered old_pod
unfolding compute ◌*ℤ◌ sum_usage accounting_pods pod_to_accounting gpu_request_total sum_requests
    gpu_resource_name ◌+ℤ◌ earliest_container_start observe_statuses observe window_usage add
    opposite sub times pick_worst_offender worst_of pod_end wrap_int64 ◌-ℤ◌ fixed_mul window_from
    window_of grace_of account with_status
team_presses h = record {
  is_over = refl;
  taken = refl;
  due = refl;
  action = refl;
  offends = refl;
  accepts = refl;
  stamped = (with_enforced fixed keeper answered ten_hours, refl);
}

-- The first of the rounds has an offender to evict.
first_presses : IsPressingRound fixed keeper "ml" "team-budget" []
first_presses = record {
  budget = expired;
  selector = λ labels. true;
  pods = left [];
  answered = answered;
  offender = old_pod;
  found = refl;
  stays = refl;
  holds = refl;
  parses = refl;
  lists = refl;
  presses = team_presses (list_pods "ml" (λ labels. true) ∷ get_budget "ml" "team-budget" ∷ []);
}
