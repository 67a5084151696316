-- ===== src/Enforcement/Outcomes.antt =====
-- When an enforcer acts, when it fails, and what a second call does.
use Prim.Native.String.{◌++◌}
use text.Mathlib.TextEquality.{eq_iff}
use gpu_k8s_operator.Prelude.{
  ◌≡◌, ◌≢◌, ◌∙◌, sym, refl, true, false, String, Option, none, some, List, inl, inr, ◌↔◌, arith,
  Bool-cases, Result, ok, err, str_ne,
}
use gpu_k8s_operator.GoTime.{Time}
use gpu_k8s_operator.Numbers.{Numbers}
use gpu_k8s_operator.Kube.{Pod, lookup, insert}
use gpu_k8s_operator.Kube.Maps.{lookup-insert, lookup-insert_ne}
use gpu_k8s_operator.Api.{GpuWorkloadBudget, action_evict, action_pause}
use gpu_k8s_operator.Cluster.{Cluster, Call, is_not_found, is_too_many_requests}
use gpu_k8s_operator.Enforcement.{
  new, evictor, pauser, alerter, stamp, enforce, eviction_of, evict_answer, evict_unless,
  annotation_paused_at, annotation_paused_by,
}
use gpu_k8s_operator.Enforcement.Effects.{acted, is_err}

-- The action picks its enforcer; every other string, known or not, picks the alerter.
pub new_lem :
    (action : String)
    → ((new action ≡ evictor) ↔ (action ≡ action_evict))
      × ((new action ≡ pauser) ↔ (action ≡ action_pause))
      × (action ≢ action_evict → action ≢ action_pause → new action ≡ alerter)
unfolding new
new_lem action = (
  ((λ h. ground (arith, eq_iff action action_evict)), (λ e. rw e refl)),
  ((λ h. ground (arith, eq_iff action action_pause)), (λ e. rw e refl)),
  (λ a b. ground (arith, str_ne action action_evict a, str_ne action action_pause b)),
)

module _ (num : Numbers) (cl : Cluster num) (budget : GpuWorkloadBudget num.Quantity)
    (pod : Pod num.Quantity) where
  open num use {Float, Quantity}

  -- An error of the eviction that is neither "not found" nor "too many requests".
  abbrev pub IsHard : Result (Unit {0}) → Type 0
  IsHard (ok done) = ⊥
  IsHard (err e) = (is_not_found e ≡ false) × (is_too_many_requests e ≡ false)

  answer_lem :
      (a : Result (Unit {0})) (h : List (Call Quantity Float))
      → let r = (evict_answer num cl budget pod a h).1 in
        ((acted r ≡ true) ↔ (a ≡ ok tt)) × ((is_err r ≡ true) ↔ IsHard a)
  answer_lem (ok done) h = (((λ _. refl), (λ _. refl)), ((λ w. cc w), (λ w. absurd w)))
  answer_lem (err e) h = elim (Bool-cases (is_not_found e)) [
    | inl p ↦ rw p (((λ w. cc w), (λ w. cc w)), ((λ w. cc w), (λ w. cc w.0)))
    | inr p ↦ elim (Bool-cases (is_too_many_requests e)) [
      | inl q ↦ rw (p, q) (((λ w. cc w), (λ w. cc w)), ((λ w. cc w), (λ w. cc w.1)))
      | inr q ↦ rw (p, q) (((λ w. cc w), (λ w. cc w)), ((λ _. (refl, refl)), (λ w. refl)))
    ]
  ]

  evict_unless_lem :
      (h : List (Call Quantity Float)) (o : Option Time)
      → let h' = (evict_unless num cl budget pod o h).0 in
        let r = (evict_unless num cl budget pod o h).1 in
        let a = cl.evict h pod.namespace (eviction_of num cl budget pod) in
        ((acted r ≡ true) ↔ ((o ≡ none) × (a ≡ ok tt)))
        × ((is_err r ≡ true) ↔ ((o ≡ none) × IsHard a))
        × (o ≢ none → h' ≡ h)
  evict_unless_lem h (some t) =
      (((λ w. cc w), (λ w. cc (w.0))), ((λ w. cc w), (λ w. cc (w.0))), (λ _. refl))
  evict_unless_lem h none =
      let l = answer_lem (cl.evict h pod.namespace (eviction_of num cl budget pod)) _ in
      (
        ((λ w. (refl, l.0.0 w)), (λ w. l.0.1 w.1)),
        ((λ w. (refl, l.1.0 w)), (λ w. l.1.1 w.1)),
        (λ n. absurd (n refl)),
      )

  -- The evictor acts exactly if the pod is not terminating and the server accepts the eviction,
  -- fails exactly if the pod is not terminating and the answer is an error that is neither "not
  -- found" nor "too many requests", and makes no call on a terminating pod.
  pub evict_lem :
      (now : Time) (h : List (Call Quantity Float))
      → let (h', r) = enforce num cl evictor budget pod now h in
        let a = cl.evict h pod.namespace (eviction_of num cl budget pod) in
        ((acted r ≡ true) ↔ ((pod.deletion_timestamp ≡ none) × (a ≡ ok tt)))
        × ((is_err r ≡ true) ↔ ((pod.deletion_timestamp ≡ none) × IsHard a))
        × (pod.deletion_timestamp ≢ none → h' ≡ h)
  unfolding enforce
  evict_lem now h = evict_unless_lem h pod.deletion_timestamp

  -- Once stamped, a pod is not stamped again: no call is made and the outcome is no error; and the
  -- stamp leaves the pod's other annotations as they were.
  pub pause_again :
      (now later : Time) (h : List (Call Quantity Float))
      → let stamped = stamp num cl budget pod now in
        ((enforce num cl pauser budget stamped later h).0 ≡ h)
        × (acted (enforce num cl pauser budget stamped later h).1 ≡ false)
        × (is_err (enforce num cl pauser budget stamped later h).1 ≡ false)
        × ((k : String)
            → k ≢ annotation_paused_at
            → k ≢ annotation_paused_by
            → lookup k stamped.annotations ≡ lookup k pod.annotations)
  unfolding enforce
  pause_again now later h = rw found (
    refl,
    refl,
    refl,
    (λ k a b.
        lookup-insert_ne annotation_paused_by k (budget.namespace ++ "/" ++ budget.name)
          (insert annotation_paused_at (cl.format_rfc3339 now) pod.annotations) (λ e. b (sym e))
        ∙ lookup-insert_ne annotation_paused_at k (cl.format_rfc3339 now) pod.annotations
            (λ e. a (sym e))),
  )
    where
      found :
          lookup annotation_paused_at (stamp num cl budget pod now).annotations
          ≡ some (cl.format_rfc3339 now)
      found =
          lookup-insert annotation_paused_by annotation_paused_at
            (budget.namespace ++ "/" ++ budget.name)
            (insert annotation_paused_at (cl.format_rfc3339 now) pod.annotations)
          ∙ lookup-insert annotation_paused_at annotation_paused_at (cl.format_rfc3339 now)
              pod.annotations
