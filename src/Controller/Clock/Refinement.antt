-- ===== src/Controller/Clock/Refinement.antt =====
-- The condition on the server, and the abstract clock of the observations.
use gpu_k8s_operator.Prelude.{
  ◌≡◌, ◌≢◌, ◌∙◌, refl, sym, ap, Bool, true, false, Option, none, some, List, [], ◌∷◌, inl, inr,
  Bool-cases,
}
use gpu_k8s_operator.GoTime.{Time, is_zero}
use gpu_k8s_operator.Numbers.{Numbers}
use gpu_k8s_operator.Accounting.{Result as AccResult}
use gpu_k8s_operator.Kube.{Condition}
use gpu_k8s_operator.Api.{condition_quota_exceeded, GpuWorkloadBudget}
use gpu_k8s_operator.Cluster.{Cluster}
use gpu_k8s_operator.Controller.Status.{with_status, with_degraded}
use gpu_k8s_operator.Controller.Status.Transition.{KeepsConditions}
use gpu_k8s_operator.Controller.Status.Conditions.{
  condition_of, verdict, with_status_clock, with_degraded_health,
}
use gpu_k8s_operator.Controller.Enforcing.{with_enforced}
use gpu_k8s_operator.Controller.Clock.{
  StoresConditions, Observation, Trace, created, observed, failed, stamped, edited, streak_start,
  same, kept,
}

module _ (num : Numbers) (cl : Cluster num) (keeps : KeepsConditions num cl)
    (stored : Time → Time) where
  open num use {Float, Quantity}

  -- The condition shows the last verdict, and the time at which the present row of equal verdicts
  -- began, as the server writes it; there is none before the first observation.
  abbrev pub IsClocked : List Observation → Option Condition → Type 0
  IsClocked [] o = o ≡ none
  IsClocked (p ∷ log) o =
      (c : Condition) × (o ≡ some c)
      × (c.status ≡ verdict num cl keeps p.over)
      × (c.last_transition_time ≡ stored (streak_start p log))

  verdict-same : (a b : Bool) → same a b ≡ true → verdict num cl keeps b ≡ verdict num cl keeps a
  verdict-same true b e = rw e
  verdict-same false true e = cc e
  verdict-same false false e = refl

  verdict_changes :
      (a b : Bool) → same a b ≡ false → verdict num cl keeps b ≢ verdict num cl keeps a
  verdict_changes true true e = cc e
  verdict_changes true false e = λ d. cc d
  verdict_changes false true e = λ d. cc d
  verdict_changes false false e = cc e

  module _ (stores : StoresConditions num cl stored) where
    open stores use {stored_twice}

    kept_again :
        (log : List Observation) (o : Option Condition)
        → IsClocked log o
        → IsClocked log (kept stored o)
    kept_again [] o e = rw e refl
    kept_again (p ∷ log) o (c, e, status, time) = (
      record c { last_transition_time = stored c.last_transition_time },
      ap (kept stored) e,
      status,
      ap stored time ∙ stored_twice (streak_start p log),
    )

    -- A condition that the clock of a round describes, stored.
    observed_time :
        (wall : Time) (b : GpuWorkloadBudget Quantity) (result : AccResult Float) (now : Time)
        (log : List Observation)
        → is_zero now ≡ false
        → IsClocked log (condition_of num cl keeps b condition_quota_exceeded)
        → let p : Observation = record { over = result.over; at = now } in
          IsClocked (p ∷ log) (
            kept stored (
              condition_of num cl keeps
                (with_status num cl wall b result now)
                condition_quota_exceeded))
    unfolding streak_start
    observed_time wall b result now [] set before =
        let clock = with_status_clock num cl keeps wall b result now set in
        let c = clock.0 in
        (
          record c { last_transition_time = stored c.last_transition_time },
          ap (kept stored) clock.1,
          clock.2,
          ap stored (clock.5 before),
        )
    observed_time wall b result now (q ∷ log) set (old, found, status, time) =
        let clock = with_status_clock num cl keeps wall b result now set in
        let c = clock.0 in
        (
          record c { last_transition_time = stored c.last_transition_time },
          ap (kept stored) clock.1,
          clock.2,
          (elim (Bool-cases (same result.over q.over)) [
            | inl e ↦ rw e (
                ap stored (clock.3 old found (status ∙ verdict-same result.over q.over e) ∙ time)
                ∙ stored_twice (streak_start q log))
            | inr e ↦ rw e (
                ap stored
                  (clock.4 old found (λ d. verdict_changes result.over q.over e (sym status ∙ d))))
          ]),
        )

    -- After any sequence of rounds that patch the status, rounds that fail, enforcement stamps and
    -- changes by others that leave the conditions alone, QuotaExceeded on the server, if it stores
    -- conditions, is absent before the first accounting, and then shows the last accounting's
    -- verdict and the time, as the server writes it, at which the present row of equal verdicts
    -- began; nothing of it depends on what the operator remembers.
    pub Trace-IsClocked :
        {b : GpuWorkloadBudget Quantity} {log : List Observation}
        → Trace num cl b log
        → IsClocked log (condition_of num cl keeps b condition_quota_exceeded)
    Trace-IsClocked (created b e) = e
    Trace-IsClocked (observed {b} {log} h result now b' t set e) =
        rw
          (stores.answered h b (with_status num cl (cl.wall h) b result now) b'
            condition_quota_exceeded e)
          (observed_time (cl.wall h) b result now log set (Trace-IsClocked t))
    Trace-IsClocked (failed {b} {log} h reason message b' t e) =
        let changed = with_degraded num cl (cl.wall h) b reason message in
        let left = (with_degraded_health num cl keeps (cl.wall h) b reason message).2 in
        rw (stores.answered h b changed b' condition_quota_exceeded e) (
          kept_again log (condition_of num cl keeps changed condition_quota_exceeded)
            (rw left (Trace-IsClocked t)))
    Trace-IsClocked (stamped {b} {log} h now b' t e) =
        rw (stores.answered h b (with_enforced num cl b now) b' condition_quota_exceeded e) (
          kept_again log (condition_of num cl keeps b condition_quota_exceeded) (Trace-IsClocked t))
    Trace-IsClocked (edited {b} {log} b' t e) = rw e (Trace-IsClocked t)
