-- ===== src/Offender.antt =====
-- `pickWorstOffender` of internal/controller/gpuworkloadbudget_controller.go: the pod that the
-- operator enforces against.
pub mod Rank
pub mod Worst
pub mod Order
pub mod Chosen
pub mod Tests
use gpu_k8s_operator.Prelude.{
  Bool, true, false, ◌&&◌, ◌||◌, String, str_ltb, Option, none, some, List, [], ◌∷◌, if◌then◌else◌,
}
use gpu_k8s_operator.GoTime.{Time}
use gpu_k8s_operator.Numbers.{Numbers, fzero}
use gpu_k8s_operator.Accounting.{Pod as AccPod, window_usage}
use gpu_k8s_operator.Kube.{Pod}
use gpu_k8s_operator.PodConversion.{pod_to_accounting}

-- `best` and `bestHours`; none while `best` is nil.
pub record Best (Q F : Type 0) : Type 0 where
  pub pod : Pod Q
  pub hours : F

module _ (num : Numbers) where
  open num use {Float, Quantity, fle, flt, feq}

  -- `best == nil || hours > bestHours || (hours == bestHours && p.Name < best.Name)`
  abbrev pub is_worse : Float → String → Option (Best Quantity Float) → Bool
  is_worse hours name none = true
  is_worse hours name (some best) =
      flt best.hours hours || (feq hours best.hours && str_ltb name best.pod.name)

  -- The body of the loop, from the conversion of the pod on.
  abbrev pub weigh :
      Time
      → Time
      → Option (Best Quantity Float)
      → Pod Quantity
      → Option (AccPod Float)
      → Option (Best Quantity Float)
  weigh from now best p none = best
  weigh from now best p (some acc_pod) =
      let hours = window_usage num acc_pod from now in
      if fle hours (fzero num)
      then best
      else if is_worse hours p.name best
      then some (record { pod = p; hours = hours })
      else best

  abbrev pub consider :
      String
      → Time
      → Time
      → Option (Best Quantity Float)
      → Pod Quantity
      → Option Time
      → Option (Best Quantity Float)
  consider gpu_res from now best p (some deleted) = best
  consider gpu_res from now best p none = weigh from now best p (pod_to_accounting num p gpu_res)

  unfoldable pub worst_of :
      String
      → Time
      → Time
      → Option (Best Quantity Float)
      → List (Pod Quantity)
      → Option (Best Quantity Float)
  worst_of gpu_res from now best [] = best
  worst_of gpu_res from now best (p ∷ ps) =
      worst_of gpu_res from now (consider gpu_res from now best p p.deletion_timestamp) ps

  abbrev pub best_pod : Option (Best Quantity Float) → Option (Pod Quantity)
  best_pod none = none
  best_pod (some best) = some best.pod

  unfoldable pub pick_worst_offender :
      List (Pod Quantity) → String → Time → Time → Option (Pod Quantity)
  pick_worst_offender pods gpu_res from now = best_pod (worst_of gpu_res from now none pods)
