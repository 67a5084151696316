-- ===== src/PodConversion/Converted.antt =====
-- `podToAccounting`, beside a description of its result by the pod's requests, starts and finishes.
use gpu_k8s_operator.Prelude.{
  ◌≡◌, refl, sym, ◌∙◌, true, false, String, Option, none, some, List, [], ◌∷◌, ◌⊎◌, inl, inr,
  Bool-cases,
}
use gpu_k8s_operator.GoTime.{Time}
use gpu_k8s_operator.Numbers.{Numbers, fzero}
use gpu_k8s_operator.Accounting.{Pod as AccPod}
use gpu_k8s_operator.Kube.{lookup, Container, Pod}
use gpu_k8s_operator.PodConversion.{
  gpu_request_total, sum_requests, earliest_container_start, pod_to_accounting, add_request,
  accounting_pod,
}
use gpu_k8s_operator.PodConversion.Instants.{starts, finishes}
use gpu_k8s_operator.PodConversion.Laws.{
  StartsAt, EndsAt, IsTerminal, earliest_container_start_lem, pod_end_lem,
}

StartsAt-none :
    (ts : List Time) (fallback : Option Time)
    → StartsAt ts fallback none
    → (ts ≡ []) × (fallback ≡ none)
StartsAt-none [] fallback e = (refl, sym e)
StartsAt-none (t ∷ ts) fallback (s, e, least) = cc e

module _ (num : Numbers) where
  open num use {Float, Quantity, fadd, fle, as_approximate_float64}

  -- The amounts of a resource that containers request, in their order.
  abbrev pub present : Option Quantity → List Float → List Float
  present none xs = xs
  present (some q) xs = as_approximate_float64 q ∷ xs

  abbrev pub amounts : String → List (Container Quantity) → List Float
  amounts name [] = []
  amounts name (c ∷ cs) = present (lookup name c.requests) (amounts name cs)

  -- Their sum, from the first to the last.
  abbrev pub sum_from : Float → List Float → Float
  sum_from total [] = total
  sum_from total (x ∷ xs) = sum_from (fadd total x) xs

  abbrev pub requested : Pod Quantity → String → Float
  requested pod name = sum_from (fzero num) (amounts name pod.containers)

  -- When the pod stopped: at its latest finish, or else when it was deleted, in a terminal phase;
  -- not yet in any other.
  abbrev pub Stops : Pod Quantity → Option Time → Type 0
  Stops pod end =
      (IsTerminal pod.phase → EndsAt (finishes pod.container_statuses) pod.deletion_timestamp end)
      × (¬ IsTerminal pod.phase → end ≡ none)

  -- A pod without a request above zero, or without any start, is left out; of any other, the record
  -- has the UID, the earliest start, the end and the request.
  abbrev pub IsConverted : Pod Quantity → String → Option (AccPod Float) → Type 0
  IsConverted pod name none =
      (fle (requested pod name) (fzero num) ≡ true)
      ⊎ ((starts pod.container_statuses ≡ []) × (pod.start_time ≡ none))
  IsConverted pod name (some p) =
      (fle (requested pod name) (fzero num) ≡ false)
      × (p.id ≡ pod.uid)
      × StartsAt (starts pod.container_statuses) pod.start_time (some p.start)
      × Stops pod p.end
      × (p.gpus ≡ requested pod name)

  add_request-sum :
      (total : Float) (o : Option Quantity) (xs : List Float)
      → sum_from (add_request num total o) xs ≡ sum_from total (present o xs)
  add_request-sum total none xs = refl
  add_request-sum total (some q) xs = refl

  sum_requests-sum :
      (name : String) (total : Float) (cs : List (Container Quantity))
      → sum_requests num name total cs ≡ sum_from total (amounts name cs)
  unfolding sum_requests
  sum_requests-sum name total [] = refl
  sum_requests-sum name total (c ∷ cs) =
      sum_requests-sum name (add_request num total (lookup name c.requests)) cs
      ∙ add_request-sum total (lookup name c.requests) (amounts name cs)

  gpu_request_total-requested :
      (pod : Pod Quantity) (name : String) → gpu_request_total num pod name ≡ requested pod name
  unfolding gpu_request_total
  gpu_request_total-requested pod name = sum_requests-sum name (fzero num) pod.containers

  started-IsConverted :
      (pod : Pod Quantity) (name : String) (o : Option Time)
      → fle (requested pod name) (fzero num) ≡ false
      → StartsAt (starts pod.container_statuses) pod.start_time o
      → IsConverted pod name (accounting_pod num pod (requested pod name) o)
  started-IsConverted pod name none above s =
      inr (StartsAt-none (starts pod.container_statuses) pod.start_time s)
  started-IsConverted pod name (some t) above s = (above, refl, s, pod_end_lem num pod, refl)

  -- The conversion leaves a pod out only if its containers request, in sum, nothing above zero, or
  -- if its statuses show no start and its status has no start time. Of any other pod it yields the
  -- UID, the summed request, which is above zero or not comparable to it, as the GPUs, the earliest
  -- start that the statuses show, or the start time of its status if they show none, and as the end
  -- nothing outside the terminal phases, and in them the latest finish that the statuses show, or
  -- the deletion time if they show none.
  pub pod_to_accounting_lem :
      (pod : Pod Quantity) (name : String) → IsConverted pod name (pod_to_accounting num pod name)
  unfolding pod_to_accounting
  pod_to_accounting_lem pod name =
      rw (gpu_request_total-requested pod name)
        (elim (Bool-cases (fle (requested pod name) (fzero num))) [
          | inl e ↦ rw e (inl e)
          | inr e ↦ rw e (
              started-IsConverted pod name (earliest_container_start num pod) e
                (earliest_container_start_lem num pod))
        ])
