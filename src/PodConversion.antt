-- ===== src/PodConversion.antt =====
-- internal/controller/pod_conversion.go: a Kubernetes pod as the accounting engine sees it. A pair
-- of a value and a flag `ok` is an option; `UTC()` leaves the instant alone.
pub mod Instants
pub mod Laws
pub mod Converted
pub mod Tests
use gpu_k8s_operator.Prelude.{
  Bool, true, false, not, ◌&&◌, ◌||◌, String, Option, none, some, List, [], ◌∷◌, if◌then◌else◌,
}
use text.Mathlib.Text.{◌==◌ as str_eq}
use gpu_k8s_operator.GoTime.{Time, before, after, is_zero}
use gpu_k8s_operator.Numbers.{Numbers, fzero}
use gpu_k8s_operator.Accounting.{Pod as AccPod}
use gpu_k8s_operator.Kube.{
  lookup, ContainerStateRunning, ContainerStateTerminated, ContainerStatus, Container, Pod,
  pod_succeeded, pod_failed,
}

-- The closure `observe` of `earliestContainerStart`, on the earliest instant found so far.
unfoldable pub observe : Option Time → Time → Option Time
observe none t = if is_zero t then none else some t
observe (some earliest) t =
    if is_zero t then some earliest else if before t earliest then some t else some earliest

abbrev pub observe_running : Option Time → Option ContainerStateRunning → Option Time
observe_running earliest none = earliest
observe_running earliest (some r) = observe earliest r.started_at

abbrev pub observe_terminated : Option Time → Option ContainerStateTerminated → Option Time
observe_terminated earliest none = earliest
observe_terminated earliest (some t) = observe earliest t.started_at

-- The loop of `earliestContainerStart`.
unfoldable pub observe_statuses : Option Time → List ContainerStatus → Option Time
observe_statuses earliest [] = earliest
observe_statuses earliest (s ∷ ss) =
    observe_statuses
      (observe_terminated
        (observe_terminated (observe_running earliest s.state.running) s.state.terminated)
        s.last_termination_state.terminated)
      ss

-- The loop of `podEnd`, with the latest instant found so far.
abbrev pub later_finish : Option Time → Option ContainerStateTerminated → Option Time
later_finish latest none = latest
later_finish none (some t) = if is_zero t.finished_at then none else some t.finished_at
later_finish (some latest) (some t) =
    if is_zero t.finished_at
    then some latest
    else if after t.finished_at latest
    then some t.finished_at
    else some latest

unfoldable pub latest_finish : Option Time → List ContainerStatus → Option Time
latest_finish latest [] = latest
latest_finish latest (s ∷ ss) = latest_finish (later_finish latest s.state.terminated) ss

abbrev pub or_else : Option Time → Option Time → Option Time
or_else none fallback = fallback
or_else (some t) fallback = some t

module _ (num : Numbers) where
  open num use {Float, Quantity, fadd, fle, as_approximate_float64}

  -- The loop of `gpuRequestTotal`.
  abbrev pub add_request : Float → Option Quantity → Float
  add_request total none = total
  add_request total (some q) = fadd total (as_approximate_float64 q)

  unfoldable pub sum_requests : String → Float → List (Container Quantity) → Float
  sum_requests name total [] = total
  sum_requests name total (c ∷ cs) =
      sum_requests name (add_request total (lookup name c.requests)) cs

  unfoldable pub gpu_request_total : Pod Quantity → String → Float
  gpu_request_total pod name = sum_requests name (fzero num) pod.containers

  unfoldable pub earliest_container_start : Pod Quantity → Option Time
  earliest_container_start pod =
      or_else (observe_statuses none pod.container_statuses) pod.start_time

  unfoldable pub pod_end : Pod Quantity → Option Time
  pod_end pod =
      if not (str_eq pod.phase pod_succeeded) && not (str_eq pod.phase pod_failed)
      then none
      else or_else (latest_finish none pod.container_statuses) pod.deletion_timestamp

  -- The record that `podToAccounting` returns once the start is known.
  abbrev pub accounting_pod : Pod Quantity → Float → Option Time → Option (AccPod Float)
  accounting_pod pod gpus none = none
  accounting_pod pod gpus (some start) =
      some (record { id = pod.uid; start = start; end = pod_end pod; gpus = gpus })

  unfoldable pub pod_to_accounting : Pod Quantity → String → Option (AccPod Float)
  pod_to_accounting pod gpu_resource_name =
      let gpus = gpu_request_total pod gpu_resource_name in
      if fle gpus (fzero num) then none else accounting_pod pod gpus (earliest_container_start pod)
