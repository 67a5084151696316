-- ===== src/Controller/Enforcing/Repeat.antt =====
-- The round after a pause: the choice among pods with other annotations, and what is done to a pod
-- that has been paused.
use mathlib.Core.Option.{map as option_map}
use gpu_k8s_operator.Prelude.{
  ◌≡◌, ◌∙◌, refl, ap, String, Option, none, some, List, [], ◌∷◌, map, if◌then◌else◌, inl, inr,
  Bool-cases, Result-cases, ok,
}
use gpu_k8s_operator.GoTime.{Time, add, opposite}
use gpu_k8s_operator.Numbers.{Numbers, fzero}
use gpu_k8s_operator.Accounting.{Pod as AccPod, window_usage}
use gpu_k8s_operator.Kube.{Pod, lookup}
use gpu_k8s_operator.Api.{
  condition_quota_exceeded, action_pause, EnforcementAction, GpuWorkloadBudget,
}
use gpu_k8s_operator.Cluster.{Cluster, Call, inc_counter, patch_status}
use gpu_k8s_operator.PodConversion.{
  pod_to_accounting, gpu_request_total, earliest_container_start, pod_end,
}
use gpu_k8s_operator.Offender.{
  Best, is_worse, weigh, consider, worst_of, best_pod, pick_worst_offender,
}
use gpu_k8s_operator.Enforcement.{
  annotation_paused_at, enforce, new, pause, pause_unless, pauser, Outcome,
}
use gpu_k8s_operator.Controller.Status.{gpu_resource_name}
use gpu_k8s_operator.Controller.Enforcing.{
  is_due, grace_of, window_of, with_enforced, record_enforcement, enforce_on, maybe_enforce,
}
use gpu_k8s_operator.Controller.Enforcing.Gate.{offender_of}

module _ (num : Numbers) (annotations : Pod num.Quantity → List (String × String)) where
  open num use {Float, Quantity, fle}

  -- The pod with other annotations.
  abbrev pub annotated : Pod Quantity → Pod Quantity
  annotated p = record p { annotations = annotations p }

  abbrev best_annotated : Option (Best Quantity Float) → Option (Best Quantity Float)
  best_annotated none = none
  best_annotated (some b) = some (record b { pod = annotated b.pod })

  pod_to_accounting-annotated :
      (p : Pod Quantity) (res : String)
      → pod_to_accounting num (annotated p) res ≡ pod_to_accounting num p res
  unfolding pod_to_accounting gpu_request_total earliest_container_start pod_end
  pod_to_accounting-annotated p res = refl

  is_worse-annotated :
      (hours : Float) (name : String) (best : Option (Best Quantity Float))
      → is_worse num hours name (best_annotated best) ≡ is_worse num hours name best
  is_worse-annotated hours name none = refl
  is_worse-annotated hours name (some b) = refl

  weigh-annotated :
      (from now : Time) (best : Option (Best Quantity Float)) (p : Pod Quantity)
      (acc : Option (AccPod Float))
      → weigh num from now (best_annotated best) (annotated p) acc
        ≡ best_annotated (weigh num from now best p acc)
  weigh-annotated from now best p none = refl
  weigh-annotated from now best p (some a) =
      let hours = window_usage num a from now in
      elim (Bool-cases (fle hours (fzero num))) [
        | inl e ↦ rw e refl
        | inr e ↦ elim (Bool-cases (is_worse num hours p.name best)) [
          | inl w ↦ rw (e, is_worse-annotated hours p.name best, w) refl
          | inr w ↦ rw (e, is_worse-annotated hours p.name best, w) refl
        ]
      ]

  consider-annotated :
      (res : String) (from now : Time) (best : Option (Best Quantity Float)) (p : Pod Quantity)
      (deleted : Option Time)
      → consider num res from now (best_annotated best) (annotated p) deleted
        ≡ best_annotated (consider num res from now best p deleted)
  consider-annotated res from now best p (some t) = refl
  consider-annotated res from now best p none =
      rw (pod_to_accounting-annotated p res)
        (weigh-annotated from now best p (pod_to_accounting num p res))

  worst_of-annotated :
      (res : String) (from now : Time) (best : Option (Best Quantity Float))
      (pods : List (Pod Quantity))
      → worst_of num res from now (best_annotated best) (map annotated pods)
        ≡ best_annotated (worst_of num res from now best pods)
  unfolding worst_of
  worst_of-annotated res from now best [] = refl
  worst_of-annotated res from now best (p ∷ ps) =
      ap (λ b. worst_of num res from now b (map annotated ps))
        (consider-annotated res from now best p p.deletion_timestamp)
      ∙ worst_of-annotated res from now (consider num res from now best p p.deletion_timestamp) ps

  best_pod-annotated :
      (best : Option (Best Quantity Float))
      → best_pod num (best_annotated best) ≡ option_map annotated (best_pod num best)
  best_pod-annotated none = refl
  best_pod-annotated (some b) = refl

  pick_worst_offender-annotated :
      (pods : List (Pod Quantity)) (res : String) (from now : Time)
      → pick_worst_offender num (map annotated pods) res from now
        ≡ option_map annotated (pick_worst_offender num pods res from now)
  unfolding pick_worst_offender
  pick_worst_offender-annotated pods res from now =
      ap (best_pod num) (worst_of-annotated res from now none pods)
      ∙ best_pod-annotated (worst_of num res from now none pods)

  module _ (cl : Cluster num) where
    -- The counter, and the patch of the last enforcement time.
    abbrev pub recorded :
        GpuWorkloadBudget Quantity
        → Time
        → EnforcementAction
        → List (Call Quantity Float)
        → List (Call Quantity Float)
    recorded budget now action h =
        patch_status budget (with_enforced num cl budget now)
        ∷ (inc_counter budget.namespace budget.name action ∷ h)

    record_enforcement-calls :
        (budget : GpuWorkloadBudget Quantity) (now : Time) (out : Outcome)
        (h : List (Call Quantity Float))
        → (record_enforcement num cl budget now out h).0 ≡ recorded budget now out.action h
    unfolding record_enforcement
    record_enforcement-calls budget now out h =
        elim (Result-cases (
          cl.patch_budget (inc_counter budget.namespace budget.name out.action ∷ h) budget
            (with_enforced num cl budget now))) [ inl (b, e) ↦ rw e refl | inr (x, e) ↦ rw e refl ]

    left_paused :
        (budget : GpuWorkloadBudget Quantity) (q : Pod Quantity) (now : Time) (at : String)
        (h : List (Call Quantity Float))
        → (out : Outcome) × (pause_unless num cl budget q now (some at) h ≡ (h, ok out))
          × (out.action ≡ action_pause)
    left_paused budget q now at h = (_, refl, refl)

    enforce_paused :
        (budget : GpuWorkloadBudget Quantity) (now : Time) (q : Pod Quantity) (at : String)
        (h : List (Call Quantity Float))
        → budget.spec.enforcement.action ≡ action_pause
        → lookup annotation_paused_at q.annotations ≡ some at
        → (out : Outcome) × (enforce num cl (new budget.spec.enforcement.action) budget q now h
            ≡ (h, ok out))
          × (out.action ≡ action_pause)
    unfolding enforce pause new
    enforce_paused budget now q at h action stamped =
        let e : new budget.spec.enforcement.action ≡ pauser = ap new action in
        let (out, left, act) = left_paused budget q now at h in
        (out, ap (λ x. enforce num cl x budget q now h) e ∙ rw stamped left, act)

    enforce_on_paused :
        (budget : GpuWorkloadBudget Quantity) (now : Time) (q : Pod Quantity) (at : String)
        (h : List (Call Quantity Float))
        → budget.spec.enforcement.action ≡ action_pause
        → lookup annotation_paused_at q.annotations ≡ some at
        → (enforce_on num cl budget now (some q) h).0 ≡ recorded budget now action_pause h
    unfolding enforce_on
    enforce_on_paused budget now q at h action stamped =
        let (out, e, act) = enforce_paused budget now q at h action stamped in
        rw e (record_enforcement-calls budget now out h ∙ ap (λ a. recorded budget now a h) act)

    -- In the mode that pauses, the choice does not look at annotations, and if the pod that it
    -- falls on is stamped, `maybeEnforce` changes no pod: where the gate is open it counts an
    -- action and stamps the budget, and otherwise makes no call.
    pub paused_settled :
        (budget : GpuWorkloadBudget Quantity) (pods : List (Pod Quantity)) (now : Time)
        (h : List (Call Quantity Float)) (p : Pod Quantity) (at : String)
        → budget.spec.enforcement.action ≡ action_pause
        → offender_of num cl budget pods now ≡ some p
        → lookup annotation_paused_at (annotations p) ≡ some at
        → (offender_of num cl budget (map annotated pods) now ≡ some (annotated p))
          × ((maybe_enforce num cl budget (map annotated pods) now h).0 ≡ (
              if is_due
                (cl.find_status_condition budget.status.conditions condition_quota_exceeded)
                (grace_of budget)
                now
              then recorded budget now action_pause h
              else h))
    unfolding maybe_enforce
    paused_settled budget pods now h p at action picked stamped =
        let same =
          pick_worst_offender-annotated pods (gpu_resource_name budget)
            (add now (opposite (window_of budget))) now
          ∙ ap (option_map annotated) picked in
        (
          same,
          elim (Bool-cases (
              is_due (cl.find_status_condition budget.status.conditions condition_quota_exceeded)
                (grace_of budget) now)) [
                  | inl d ↦
                      rw (d, same) (enforce_on_paused budget now (annotated p) at h action stamped)
                  | inr d ↦ rw d refl
                ],
        )
