-- ===== src/Controller/Enforcing/Window.antt =====
-- The window of a budget in nanoseconds, which wraps for long windows.
use gpu_k8s_operator.Prelude.{
  ℕ, ◌*◌, ◌^◌, ◌<◌, ◌≤◌, ◌≡◌, refl, ap, false, Option, none, some, List, [], ◌∷◌, ok, inr, arith,
  pos, negsuc, ◌<ℤ◌, wrap_int64, ◌-ℤ◌, ge→ltb_ℤ, ◌-◌, ◌%◌, suc, String,
}
use gpu_k8s_operator.GoTime.{
  Time, add, opposite, add_parts, before, zero_time, times, times_pos, hour,
}
use gpu_k8s_operator.Numbers.{Numbers, IsOrdered}
use gpu_k8s_operator.Accounting.{Pod as AccPod, window_usage, window_from}
use gpu_k8s_operator.Kube.{Pod}
use gpu_k8s_operator.Api.{GpuWorkloadBudget}
use gpu_k8s_operator.Cluster.{Cluster, Call}
use gpu_k8s_operator.PodConversion.{pod_to_accounting}
use gpu_k8s_operator.Offender.{Best, consider, weigh, worst_of, best_pod, pick_worst_offender}
use gpu_k8s_operator.Controller.Status.{gpu_resource_name}
use gpu_k8s_operator.Controller.Enforcing.{window_of, maybe_enforce}
use gpu_k8s_operator.Controller.Enforcing.Gate.{maybe_enforce_idle}

small_mod : (n : ℕ) → n < 2 ^ 64 → n % 2 ^ 64 ≡ n
small_mod n h = omega arith

-- A product between 2 ^ 63 and 2 ^ 64 wraps to a negative number, whose opposite fits.
wrapped_hours : (n : ℕ) → 2 ^ 63 < n → n < 2 ^ 64 → wrap_int64 (pos n) ≡ negsuc (2 ^ 64 - 1 - n)
unfolding wrap_int64 ◌-ℤ◌
wrapped_hours n lo hi = rw (small_mod n hi) (ground (arith, hi, lo))

wrapped_back : (j : ℕ) → j < 2 ^ 63 - 1 → opposite (negsuc j) ≡ pos (suc j)
unfolding opposite wrap_int64 ◌-ℤ◌
wrapped_back j hi = ground (arith, hi)

-- From 2562048 to 5124095 hours, the window wraps to a negative duration, so that its start lies
-- after the present.
window_ahead :
    (w : ℕ) (now : Time)
    → 2_562_048 ≤ w
    → w ≤ 5_124_095
    → now <ℤ add now (opposite (times (pos w) hour))
unfolding times
window_ahead w now lo hi =
    let n = w * 3_600_000_000_000 in
    rw
      (
        times_pos w 3_600_000_000_000,
        wrapped_hours n (omega (arith, lo)) (omega (arith, hi)),
        wrapped_back (2 ^ 64 - 1 - n) (omega (arith, lo, hi)),
      )
      (omega (arith, add_parts now (pos (suc (2 ^ 64 - 1 - n))), hi))

-- The window of an accounting with such a wrapped window.
unlimited :
    (num : Numbers) (w : ℕ) (now : Time)
    → 2_562_048 ≤ w
    → w ≤ 5_124_095
    → window_from num now (times (pos w) hour) ≡ zero_time
unfolding times window_from
unlimited num w now lo hi =
    let n = w * 3_600_000_000_000 in
    rw (times_pos w 3_600_000_000_000, wrapped_hours n (omega (arith, lo)) (omega (arith, hi)))
      (ground arith)

module _ (num : Numbers) (ord : IsOrdered num) (gpu_res : String) (from now : Time) where
  open num use {Float, Quantity}

  -- With a start that is not before the present, nothing counts.
  skip_weigh :
      (best : Option (Best Quantity Float)) (p : Pod Quantity) (o : Option (AccPod Float))
      → before from now ≡ false
      → weigh num from now best p o ≡ best
  unfolding window_usage
  skip_weigh best p none e = refl
  skip_weigh best p (some a) e = rw e (rw ord.zero_num refl)

  skip_consider :
      (best : Option (Best Quantity Float)) (p : Pod Quantity) (d : Option Time)
      → before from now ≡ false
      → consider num gpu_res from now best p d ≡ best
  skip_consider best p (some t) e = refl
  skip_consider best p none e = skip_weigh best p (pod_to_accounting num p gpu_res) e

  pub no_worst :
      (best : Option (Best Quantity Float)) (pods : List (Pod Quantity))
      → before from now ≡ false
      → worst_of num gpu_res from now best pods ≡ best
  unfolding worst_of
  no_worst best [] e = refl
  no_worst best (p ∷ ps) e = rw (skip_consider best p p.deletion_timestamp e) (no_worst best ps e)

starts_ahead :
    (w : ℕ) (now : Time)
    → 2_562_048 ≤ w
    → w ≤ 5_124_095
    → before (add now (opposite (times (pos w) hour))) now ≡ false
starts_ahead w now lo hi =
    ge→ltb_ℤ (add now (opposite (times (pos w) hour))) now (omega (arith, window_ahead w now lo hi))

-- For a window of 2562048 to 5124095 hours, the product of hours wraps: the accounting counts the
-- use since the zero time, but `maybeEnforce` makes no call and returns without error, whatever the
-- pods.
pub window_overflow :
    (num : Numbers) (ord : IsOrdered num) (cl : Cluster num)
    (budget : GpuWorkloadBudget num.Quantity) (pods : List (Pod num.Quantity)) (now : Time) (w : ℕ)
    (h : List (Call num.Quantity num.Float))
    → budget.spec.quota.window_hours ≡ pos w
    → 2_562_048 ≤ w
    → w ≤ 5_124_095
    → (window_from num now (window_of budget) ≡ zero_time)
      × (maybe_enforce num cl budget pods now h ≡ (h, ok tt))
unfolding window_of pick_worst_offender
window_overflow num ord cl budget pods now w h e lo hi = (
  rw e (unlimited num w now lo hi),
  maybe_enforce_idle num cl budget pods now h (
      inr (
        ap (best_pod num) (
          no_worst num ord (gpu_resource_name budget) (add now (opposite (window_of budget))) now
            none pods (rw e (starts_ahead w now lo hi))))),
)
