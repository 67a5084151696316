-- ===== src/Controller/Clock/Expiry.antt =====
-- When the grace period of a traced budget has passed, in terms of the observations.
use gpu_k8s_operator.Prelude.{
  ◌≡◌, ◌≢◌, Bool, true, false, Option, some, List, [], ◌∷◌, ok, ◌↔◌, arith, ◌≤ℤ◌, ◌<ℤ◌,
}
use gpu_k8s_operator.GoTime.{Time, Duration, is_zero, add, second, add_parts}
use gpu_k8s_operator.Numbers.{Numbers}
use gpu_k8s_operator.Kube.{Pod, Condition}
use gpu_k8s_operator.Api.{condition_quota_exceeded, GpuWorkloadBudget}
use gpu_k8s_operator.Cluster.{Cluster, Call}
use gpu_k8s_operator.Enforcement.Effects.{pod_writes}
use gpu_k8s_operator.Controller.Status.Transition.{KeepsConditions}
use gpu_k8s_operator.Controller.Status.Conditions.{condition_of, verdict}
use gpu_k8s_operator.Controller.Enforcing.{is_due, grace_of}
use gpu_k8s_operator.Controller.Reconciler.{account, reconcile_pods}
use gpu_k8s_operator.Controller.Reconciler.Guard.{patched, reconcile_pods-MayEnforce}
use gpu_k8s_operator.Controller.Clock.{StoresConditions, Observation, Trace, observed, streak_start}
use gpu_k8s_operator.Controller.Clock.Refinement.{IsClocked, Trace-IsClocked}

-- The last verdict is "over", and its row of verdicts began a grace period ago.
abbrev pub HasLasted : (Time → Time) → List Observation → Duration → Time → Type 0
HasLasted stored [] grace now = ⊥
HasLasted stored (p ∷ log) grace now =
    (p.over ≡ true) × (add (stored (streak_start p log)) grace ≤ℤ now)

module _ (num : Numbers) (cl : Cluster num) (keeps : KeepsConditions num cl)
    (stored : Time → Time) where
  open num use {Float, Quantity}

  due_verdict :
      (c : Condition) (over : Bool) (grace : Duration) (now : Time)
      → c.status ≡ verdict num cl keeps over
      → (is_due (some c) grace now ≡ true)
        ↔ ((over ≡ true) × (add c.last_transition_time grace ≤ℤ now))
  due_verdict c true grace now e = rw e (ground arith)
  due_verdict c false grace now e = rw e (ground arith)

  due_clocked :
      (log : List Observation) (o : Option Condition) (grace : Duration) (now : Time)
      → IsClocked num cl keeps stored log o
      → (is_due o grace now ≡ true) ↔ HasLasted stored log grace now
  due_clocked [] o grace now e = rw e ((λ d. cc d), (λ d. absurd d))
  due_clocked (p ∷ log) o grace now (c, found, status, time) =
      rw (found, ← time) (due_verdict c p.over grace now status)

  module _ (stores : StoresConditions num cl stored) where
    -- On a server that stores conditions, the gate is open for a traced budget exactly if the last
    -- verdict is "over" and a grace period has passed since its row of equal verdicts began, at the
    -- time that the server stored.
    pub is_due_iff :
        {b : GpuWorkloadBudget Quantity} {log : List Observation} (grace : Duration) (now : Time)
        → Trace num cl b log
        → (is_due (condition_of num cl keeps b condition_quota_exceeded) grace now ≡ true)
          ↔ HasLasted stored log grace now
    is_due_iff {b} {log} grace now t =
        due_clocked log (condition_of num cl keeps b condition_quota_exceeded) grace now
          (Trace-IsClocked num cl keeps stored stores t)

    before_second :
        (t grace now : Time) → add (stored t) grace ≤ℤ now → add t grace <ℤ add now second
    before_second t grace now le = omega (
      arith,
      stores.stored_within t,
      add_parts t grace,
      add_parts (stored t) grace,
      add_parts now second,
      add_parts (stored t) second,
    )

    -- On a server that stores conditions, to the second at worst, if a round changes a pod, then
    -- the server has answered the patch of its status with a budget, the accounting has been over
    -- in an unbroken row of verdicts up to this round, and the row began, to less than a second, a
    -- grace period of that budget ago.
    pub reconcile_pods-lasts :
        (b : GpuWorkloadBudget Quantity) (log : List Observation) (now : Time)
        (pods : List (Pod Quantity)) (h : List (Call Quantity Float))
        → Trace num cl b log
        → is_zero now ≡ false
        → pod_writes (reconcile_pods num cl b now (ok pods) h).0 ≢ pod_writes h
        → let p : Observation = record { over = true; at = now } in
          (b' : GpuWorkloadBudget Quantity) × (patched num cl b pods now h ≡ ok b')
          × Trace num cl b' (p ∷ log)
          × (add (streak_start p log) (grace_of b') <ℤ add now second)
    reconcile_pods-lasts b log now pods h t set changed =
        let (b', answer, may) = reconcile_pods-MayEnforce num cl b now pods h changed in
        let result = account num cl b pods now in
        let after : Trace num cl b' (record { over = true; at = now } ∷ log) =
          rw (← may.is_over) (observed h result now b' t set answer) in
        let (c, found, status, time) = Trace-IsClocked num cl keeps stored stores after in
        let (c', found', status', passed) = may.expired in
        let same_time : c.last_transition_time ≡ c'.last_transition_time = cc (found, found') in
        (
          b',
          answer,
          after,
          before_second (streak_start (record { over = true; at = now }) log) (grace_of b') now
              (rw (← time, same_time) passed),
        )
