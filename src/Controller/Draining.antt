-- ===== src/Controller/Draining.antt =====
-- Many rounds of `Reconcile` one after the other, for any budgets, in a cluster whose pods only the
-- operator changes: the pods there are, the changes that the server accepted, and how many are
-- left to make.
pub mod Pods
pub mod Rules
pub mod Enforcing
pub mod Gate
pub mod Rounds
pub mod Ends
pub mod Progress
pub mod Pressing
pub mod Tests
use text.Mathlib.Text.{◌==◌ as str_eq}
use gpu_k8s_operator.Prelude.{
  ℕ, pos, ◌+◌, ◌≡◌, Bool, true, false, ◌&&◌, String, Option, none, some, List, [], ◌∷◌, All, IsIn,
  Result, ok, err, if◌then◌else◌,
}
use gpu_k8s_operator.Numbers.{Numbers}
use gpu_k8s_operator.Accounting.{Result as AccResult}
use gpu_k8s_operator.Kube.{Pod, lookup}
use gpu_k8s_operator.Api.{GpuWorkloadBudget}
use gpu_k8s_operator.Cluster.{
  Cluster, Call, Selector, Eviction, patch_pod, evict_pod, set_gauge, tracked_pods,
  remaining_gpu_hours, consumed_gpu_hours,
}
use gpu_k8s_operator.Enforcement.{annotation_paused_at}
use gpu_k8s_operator.Enforcement.Effects.{is_pod_write}
use gpu_k8s_operator.Controller.Reconciler.{reconcile}

abbrev pub is_ok : {A : Type 0} → Result A → Bool
is_ok (ok a) = true
is_ok (err e) = false

-- How many changes a pod can still get: a stamp and an eviction, or the eviction alone.
abbrev pub weight_of : Option String → ℕ
weight_of none = 2
weight_of (some paused) = 1

module _ {Q : Type 0} where
  -- Whether a pod is the one of a namespace and a name.
  abbrev pub is_named : String → String → Pod Q → Bool
  is_named ns name p = str_eq p.namespace ns && str_eq p.name name

  -- The pods after one of them is gone, and after it is replaced.
  abbrev pub remove_pod : String → String → List (Pod Q) → List (Pod Q)
  remove_pod ns name [] = []
  remove_pod ns name (p ∷ ps) =
      let rest = remove_pod ns name ps in if is_named ns name p then rest else p ∷ rest

  abbrev pub replace_pod : Pod Q → Pod Q → List (Pod Q) → List (Pod Q)
  replace_pod old new [] = []
  replace_pod old new (p ∷ ps) =
      (if is_named old.namespace old.name p then new else p) ∷ replace_pod old new ps

  abbrev pub weight : List (Pod Q) → ℕ
  weight [] = 0
  weight (p ∷ ps) = weight_of (lookup annotation_paused_at p.annotations) + weight ps

  -- The listed pods that are not terminating are among these.
  abbrev pub AreAmong : List (Pod Q) → List (Pod Q) → Type 0
  AreAmong pods ps = All (λ p. p.deletion_timestamp ≡ none → IsIn p ps) pods

module _ (num : Numbers) where
  open num use {Float, Quantity}

  -- The calls for the gauges, newest first.
  abbrev pub gauges : GpuWorkloadBudget Quantity → AccResult Float → List (Call Quantity Float)
  gauges b result =
      set_gauge tracked_pods b.namespace b.name (num.of_int (pos result.tracked_pods))
      ∷ set_gauge remaining_gpu_hours b.namespace b.name result.remaining
      ∷ set_gauge consumed_gpu_hours b.namespace b.name result.consumed
      ∷ []

module _ (num : Numbers) (cl : Cluster num) where
  open num use {Float, Quantity}

  -- Whether a call, made after these, is a change of a pod that the server accepts.
  abbrev pub accepts : Call Quantity Float → List (Call Quantity Float) → Bool
  accepts (patch_pod old new) h = is_ok (cl.patch h old new)
  accepts (evict_pod ns e) h = is_ok (cl.evict h ns e)
  accepts _ h = false

  -- The changes that the server accepted.
  abbrev pub accepted : List (Call Quantity Float) → ℕ
  accepted [] = 0
  accepted (c ∷ h) = (if accepts c h then 1 else 0) + accepted h

  -- A server that nobody else uses. `live` are the pods that are not terminating: a list shows no
  -- other such pod, an accepted eviction takes the pod away, an accepted patch puts the new object in
  -- its place, and no other call and no refused one changes them.
  pub record IsAlone (live : List (Call Quantity Float) → List (Pod Quantity)) : Type 0 where
    pub lists :
        (h : List (Call Quantity Float)) (ns : String) (s : Selector) (pods : List (Pod Quantity))
        → cl.list h ns s ≡ ok pods
        → AreAmong pods (live h)
    pub evicts :
        (h : List (Call Quantity Float)) (ns : String) (e : Eviction)
        → is_ok (cl.evict h ns e) ≡ true
        → live (evict_pod ns e ∷ h) ≡ remove_pod ns e.name (live h)
    pub patches :
        (h : List (Call Quantity Float)) (old new : Pod Quantity)
        → is_ok (cl.patch h old new) ≡ true
        → live (patch_pod old new ∷ h) ≡ replace_pod old new (live h)
    pub leaves :
        (h : List (Call Quantity Float)) (c : Call Quantity Float)
        → accepts c h ≡ false
        → live (c ∷ h) ≡ live h

  -- The calls of rounds for these requests, one after the other.
  abbrev pub rounds :
      List (String × String) → List (Call Quantity Float) → List (Call Quantity Float)
  rounds [] h = h
  rounds ((ns, name) ∷ rs) h = rounds rs (reconcile num cl ns name h).0
