-- ===== src/PodConversion/Laws.antt =====
-- What `podToAccounting` makes of a pod, on every branch.
use gpu_k8s_operator.Prelude.{
  ◌≡◌, refl, Bool, true, false, not, String, Option, none, some, List, [], ◌∷◌, ◌⊎◌, inl, inr, ◌↔◌,
  arith, All, str_ne, ◌&&◌,
}
use text.Mathlib.Text.{◌==◌ as str_eq}
use text.Mathlib.TextEquality.{eq_iff}
use gpu_k8s_operator.GoTime.{Time}
use gpu_k8s_operator.Numbers.{Numbers, IsOrdered, fzero}
use gpu_k8s_operator.Accounting.{Pod as AccPod}
use gpu_k8s_operator.Kube.{lookup, Container, Pod, pod_succeeded, pod_failed}
use gpu_k8s_operator.PodConversion.{
  gpu_request_total, sum_requests, earliest_container_start, pod_end, pod_to_accounting, or_else,
  add_request,
}
use gpu_k8s_operator.PodConversion.Instants.{
  starts, finishes, observe_statuses-eq, latest_finish-eq, IsLeast, IsGreatest, minimum-IsLeast,
  maximum-IsGreatest, first_minimum, first_maximum,
}

-- The result is the least of the known starts, or the fallback where none is known.
abbrev pub StartsAt : List Time → Option Time → Option Time → Type 0
StartsAt [] fallback r = r ≡ fallback
StartsAt (t ∷ ts) fallback r = (s : Time) × (r ≡ some s) × IsLeast s (t ∷ ts)

abbrev pub EndsAt : List Time → Option Time → Option Time → Type 0
EndsAt [] fallback r = r ≡ fallback
EndsAt (t ∷ ts) fallback r = (s : Time) × (r ≡ some s) × IsGreatest s (t ∷ ts)

start_of_minimum :
    (ts : List Time) (fallback : Option Time)
    → StartsAt ts fallback (or_else (first_minimum none ts) fallback)
start_of_minimum [] fallback = refl
start_of_minimum (t ∷ ts) fallback = (_, refl, minimum-IsLeast t ts)

end_of_maximum :
    (ts : List Time) (fallback : Option Time)
    → EndsAt ts fallback (or_else (first_maximum none ts) fallback)
end_of_maximum [] fallback = refl
end_of_maximum (t ∷ ts) fallback = (_, refl, maximum-IsGreatest t ts)

abbrev pub IsTerminal : String → Type 0
IsTerminal phase = (phase ≡ pod_succeeded) ⊎ (phase ≡ pod_failed)

-- The guard of `podEnd`.
abbrev is_other : String → Bool
is_other phase = not (str_eq phase pod_succeeded) && not (str_eq phase pod_failed)

terminal_guard : (phase : String) → IsTerminal phase → is_other phase ≡ false
terminal_guard phase (inl e) = ground (arith, (eq_iff phase pod_succeeded).1 e)
terminal_guard phase (inr e) = ground (arith, (eq_iff phase pod_failed).1 e)

other_guard : (phase : String) → ¬ IsTerminal phase → is_other phase ≡ true
other_guard phase h =
    ground
      (arith, str_ne phase pod_succeeded (λ e. h (inl e)), str_ne phase pod_failed (λ e. h (inr e)))

module _ (num : Numbers) where
  open num use {Float, Quantity, fadd, fle, as_approximate_float64}

  -- A pod starts at the earliest start that its statuses show, present, ended and last runs alike;
  -- only where they show none does the start time of its status count.
  pub earliest_container_start_lem :
      (pod : Pod Quantity)
      → StartsAt (starts pod.container_statuses) pod.start_time (earliest_container_start num pod)
  unfolding earliest_container_start
  earliest_container_start_lem pod =
      rw (observe_statuses-eq none pod.container_statuses)
        (start_of_minimum (starts pod.container_statuses) pod.start_time)

  -- A pod in a terminal phase ends at its latest finish, or else when it was deleted; a pod in any
  -- other phase has not ended.
  pub pod_end_lem :
      (pod : Pod Quantity)
      → (IsTerminal pod.phase
          → EndsAt (finishes pod.container_statuses) pod.deletion_timestamp (pod_end num pod))
        × (¬ IsTerminal pod.phase → pod_end num pod ≡ none)
  unfolding pod_end
  pod_end_lem pod =
      let ends = end_of_maximum (finishes pod.container_statuses) pod.deletion_timestamp in
      rw (latest_finish-eq none pod.container_statuses)
        ((λ h. rw (terminal_guard _ h) ends), (λ h. rw (other_guard _ h) refl))

  -- The conversion yields a pod exactly if that pod has the UID, the total request, which is above
  -- zero, the start, which is known, and the end of the Kubernetes pod.
  pub pod_to_accounting_iff :
      (pod : Pod Quantity) (name : String) (p : AccPod Float)
      → (pod_to_accounting num pod name ≡ some p) ↔ (
          (fle (gpu_request_total num pod name) (fzero num) ≡ false)
          × (earliest_container_start num pod ≡ some p.start)
          × (p.id ≡ pod.uid)
          × (p.end ≡ pod_end num pod)
          × (p.gpus ≡ gpu_request_total num pod name))
  unfolding pod_to_accounting
  pod_to_accounting_iff pod name p = ground arith

  add_request-none : (t : Float) (o : Option Quantity) → o ≡ none → add_request num t o ≡ t
  add_request-none t o e = rw e

  sum_requests-none :
      (name : String) (t : Float) (cs : List (Container Quantity))
      → All (λ c. lookup name c.requests ≡ none) cs
      → sum_requests num name t cs ≡ t
  unfolding sum_requests
  sum_requests-none name t [] h = refl
  sum_requests-none name t (c ∷ cs) (h, hs) =
      rw (add_request-none t (lookup name c.requests) h) (sum_requests-none name t cs hs)

  -- A pod none of whose containers requests the counted resource is skipped.
  pub pod_to_accounting_unrequested :
      (pod : Pod Quantity) (name : String)
      → IsOrdered num
      → All (λ c. lookup name c.requests ≡ none) pod.containers
      → pod_to_accounting num pod name ≡ none
  unfolding pod_to_accounting gpu_request_total
  pod_to_accounting_unrequested pod name ord h =
      rw (sum_requests-none name (fzero num) pod.containers h) (rw ord.zero_num refl)
