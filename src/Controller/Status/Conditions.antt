-- ===== src/Controller/Status/Conditions.antt =====
-- The conditions that a round leaves on a budget. The transition time of QuotaExceeded is the clock
-- of the grace period.
use text.Mathlib.Text.{◌==◌ as str_eq}
use text.Mathlib.TextEquality.{eq_iff}
use gpu_k8s_operator.Prelude.{
  ◌≡◌, ◌≢◌, ◌∙◌, refl, sym, ap, Bool, false, String, Option, none, some, List, inl, inr,
  if◌then◌else◌, Bool-cases,
}
use gpu_k8s_operator.GoTime.{Time, is_zero, zero_time}
use gpu_k8s_operator.Numbers.{Numbers}
use gpu_k8s_operator.Accounting.{Result as AccResult}
use gpu_k8s_operator.Kube.{Condition, condition_true, condition_false}
use gpu_k8s_operator.Api.{
  condition_ready, condition_quota_exceeded, condition_degraded, GpuWorkloadBudget,
}
use gpu_k8s_operator.Cluster.{Cluster}
use gpu_k8s_operator.Controller.Status.{
  with_status, with_degraded, ready_condition, quota_condition, recovered_condition, new_condition,
}
use gpu_k8s_operator.Controller.Status.Transition.{
  transition, transition_status, transition_kept, transition_new, transition_first, KeepsConditions,
}

module _ (num : Numbers) (cl : Cluster num) (keeps : KeepsConditions num cl) where
  open num use {Float, Quantity}

  -- The condition of a type, on a budget.
  abbrev pub condition_of : GpuWorkloadBudget Quantity → String → Option Condition
  condition_of budget t = cl.find_status_condition budget.status.conditions t

  quota_type :
      (result : AccResult Float) (now : Time)
      → (quota_condition num cl result now).type ≡ condition_quota_exceeded
  quota_type result now = elim (Bool-cases result.over) [ inl e ↦ rw e | inr e ↦ rw e ]

  find_set_of :
      (wall : Time) (cs : List Condition) (c : Condition) (t : String)
      → c.type ≡ t
      → cl.find_status_condition (cl.set_status_condition wall cs c) t
        ≡ some (transition wall (cl.find_status_condition cs t) c)
  find_set_of wall cs c t e =
      keeps.find_set wall cs c t
      ∙ rw ((eq_iff c.type t).1 e)
          (ap (λ u. some (transition wall (cl.find_status_condition cs u) c)) e)

  find_set_other :
      (wall : Time) (cs : List Condition) (c : Condition) (t : String)
      → str_eq c.type t ≡ false
      → cl.find_status_condition (cl.set_status_condition wall cs c) t
        ≡ cl.find_status_condition cs t
  find_set_other wall cs c t e = keeps.find_set wall cs c t ∙ rw e

  pub find_quota :
      (wall : Time) (budget : GpuWorkloadBudget Quantity) (result : AccResult Float) (now : Time)
      → condition_of (with_status num cl wall budget result now) condition_quota_exceeded
        ≡ some (
            transition wall
              (condition_of budget condition_quota_exceeded)
              (quota_condition num cl result now))
  unfolding with_status
  find_quota wall budget result now =
      let ready =
        cl.set_status_condition wall budget.status.conditions (ready_condition num cl now) in
      let quota = quota_condition num cl result now in
      find_set_other wall (cl.set_status_condition wall ready quota)
        (recovered_condition num cl now) condition_quota_exceeded refl
      ∙ find_set_of wall ready quota condition_quota_exceeded (quota_type result now)
      ∙ ap (λ o. some (transition wall o quota))
          (find_set_other wall budget.status.conditions (ready_condition num cl now)
            condition_quota_exceeded refl)

  -- The status of a condition, and the time of its last transition, if it is there.
  abbrev pub Shows : GpuWorkloadBudget Quantity → String → String → Type 0
  Shows budget t status = (c : Condition) × (condition_of budget t ≡ some c) × (c.status ≡ status)

  quota_time :
      (result : AccResult Float) (now : Time)
      → (quota_condition num cl result now).last_transition_time ≡ now
  quota_time result now = elim (Bool-cases result.over) [ inl e ↦ rw e | inr e ↦ rw e ]

  -- The status that QuotaExceeded has after an accounting.
  abbrev pub verdict : Bool → String
  verdict over = if over then condition_true else condition_false

  quota_verdict :
      (result : AccResult Float) (now : Time)
      → (quota_condition num cl result now).status ≡ verdict result.over
  quota_verdict result now = elim (Bool-cases result.over) [ inl e ↦ rw e | inr e ↦ rw e ]

  -- What a round leaves of QuotaExceeded, if its time is set: the status is the accounting's
  -- verdict, and the transition time, the grace clock, is kept while the status stays and is the
  -- round's time where it is new.
  pub with_status_clock :
      (wall : Time) (budget : GpuWorkloadBudget Quantity) (result : AccResult Float) (now : Time)
      → is_zero now ≡ false
      → (c : Condition) × (condition_of
            (with_status num cl wall budget result now)
            condition_quota_exceeded
          ≡ some c)
        × (c.status ≡ verdict result.over)
        × ((old : Condition)
            → condition_of budget condition_quota_exceeded ≡ some old
            → old.status ≡ verdict result.over
            → c.last_transition_time ≡ old.last_transition_time)
        × ((old : Condition)
            → condition_of budget condition_quota_exceeded ≡ some old
            → old.status ≢ verdict result.over
            → c.last_transition_time ≡ now)
        × (condition_of budget condition_quota_exceeded ≡ none → c.last_transition_time ≡ now)
  with_status_clock wall budget result now set =
      let o = condition_of budget condition_quota_exceeded in
      let quota = quota_condition num cl result now in
      let is_set = ap is_zero (quota_time result now) ∙ set in
      (
        transition wall o quota,
        find_quota wall budget result now,
        transition_status wall o quota ∙ quota_verdict result now,
        λ old e same. transition_kept wall o quota old e (same ∙ sym (quota_verdict result now)),
        (λ old e differ.
            transition_new wall o quota old e (λ eq. differ (eq ∙ quota_verdict result now)) is_set
            ∙ quota_time result now),
        λ e. transition_first wall o quota e is_set ∙ quota_time result now,
      )

  -- The status of a condition that has just been set.
  shows_set :
      (wall : Time) (cs : List Condition) (c : Condition) (t : String)
      → c.type ≡ t
      → (c' : Condition) × (cl.find_status_condition (cl.set_status_condition wall cs c) t
          ≡ some c')
        × (c'.status ≡ c.status)
  shows_set wall cs c t e = (
    transition wall (cl.find_status_condition cs t) c,
    find_set_of wall cs c t e,
    transition_status wall (cl.find_status_condition cs t) c,
  )

  -- A round that succeeds leaves Ready True and Degraded False.
  pub with_status_health :
      (wall : Time) (budget : GpuWorkloadBudget Quantity) (result : AccResult Float) (now : Time)
      → let after = with_status num cl wall budget result now in
        Shows after condition_ready condition_true × Shows after condition_degraded condition_false
  unfolding with_status
  with_status_health wall budget result now =
      let cs = budget.status.conditions in
      let quota = quota_condition num cl result now in
      let ready = cl.set_status_condition wall cs (ready_condition num cl now) in
      let shown = shows_set wall cs (ready_condition num cl now) condition_ready refl in
      let not_ready : str_eq quota.type condition_ready ≡ false =
        ap (λ t. str_eq t condition_ready) (quota_type result now) in
      (
        (
          shown.0,
          find_set_other wall (cl.set_status_condition wall ready quota)
                (recovered_condition num cl now) condition_ready refl
              ∙ find_set_other wall ready quota condition_ready not_ready
              ∙ shown.1,
          shown.2,
        ),
        shows_set wall (cl.set_status_condition wall ready quota) (recovered_condition num cl now)
            condition_degraded refl,
      )

  -- A round that fails leaves Ready False and Degraded True, and QuotaExceeded, with the grace
  -- clock, as it was.
  pub with_degraded_health :
      (wall : Time) (budget : GpuWorkloadBudget Quantity) (reason message : String)
      → let after = with_degraded num cl wall budget reason message in
        Shows after condition_ready condition_false
        × Shows after condition_degraded condition_true
        × (condition_of after condition_quota_exceeded
            ≡ condition_of budget condition_quota_exceeded)
  unfolding with_degraded
  with_degraded_health wall budget reason message =
      let cs = budget.status.conditions in
      let degraded = new_condition condition_degraded condition_true reason message zero_time in
      let unready = new_condition condition_ready condition_false reason message zero_time in
      let shown = shows_set wall cs degraded condition_degraded refl in
      (
        shows_set wall (cl.set_status_condition wall cs degraded) unready condition_ready refl,
        (
          shown.0,
          find_set_other wall (cl.set_status_condition wall cs degraded) unready condition_degraded
                refl
              ∙ shown.1,
          shown.2,
        ),
        find_set_other wall (cl.set_status_condition wall cs degraded) unready
              condition_quota_exceeded refl
            ∙ find_set_other wall cs degraded condition_quota_exceeded refl,
      )
