-- ===== src/Accounting/Tests.antt =====
-- The theorems on the accounting, applied to concrete runs.
use gpu_k8s_operator.Prelude.{
  ◌≡◌, refl, true, false, none, some, List, [], ◌∷◌, inl, ℤ, pos, arith, ◌*ℤ◌, ◌-ℤ◌,
}
use gpu_k8s_operator.GoTime.{sub}
use gpu_k8s_operator.Numbers.{Le, Lt, fzero}
use gpu_k8s_operator.Numbers.Fixed.{fixed, fixed_mul, fixed-IsOrdered, fixed-IsRounded}
use gpu_k8s_operator.Accounting.{Pod, Budget, window_usage, window_from, compute}
use gpu_k8s_operator.Accounting.Overlap.{contribution, window_usage-eq-contribution}
use gpu_k8s_operator.Accounting.Totals.{compute-covers, compute_remaining, compute_window_mono}
use gpu_k8s_operator.Samples.{
  one_hour, seven_hours, eight_hours, ten_hours, acc_run, two_hour_budget,
}

abbrev open_run : Pod ℤ
open_run = acc_run seven_hours none

abbrev closed_run : Pod ℤ
closed_run = acc_run one_hour (some seven_hours)

abbrev runs : List (Pod ℤ)
runs = open_run ∷ closed_run ∷ []

-- Two hours of two GPUs, of the three hours that the run has lasted.
open_run_usage : window_usage fixed open_run eight_hours ten_hours ≡ pos 14_400_000_000_000
unfolding window_usage ◌*ℤ◌ fixed_mul sub ◌-ℤ◌
open_run_usage = refl

window_usage-eq-contribution_example :
    window_usage fixed open_run eight_hours ten_hours
    ≡ contribution fixed open_run eight_hours ten_hours
window_usage-eq-contribution_example =
    window_usage-eq-contribution fixed open_run eight_hours ten_hours

compute-covers_example :
    let used =
      window_usage fixed open_run (window_from fixed ten_hours two_hour_budget.window) ten_hours in
    Le fixed used (compute fixed two_hour_budget ten_hours runs).consumed
    × (Le fixed two_hour_budget.quota used
        → (compute fixed two_hour_budget ten_hours runs).over ≡ true)
compute-covers_example =
    compute-covers fixed fixed-IsOrdered fixed-IsRounded two_hour_budget ten_hours runs open_run
      (refl, (refl, tt)) (inl refl)

compute_remaining_example :
    let r = compute fixed two_hour_budget ten_hours runs in
    (r.over ≡ false
      → (r.remaining ≡ fixed.fsub two_hour_budget.quota r.consumed)
        × Lt fixed (fzero fixed) r.remaining)
    × (Lt fixed two_hour_budget.quota r.consumed → (r.over ≡ true) × (r.remaining ≡ fzero fixed))
    × (fixed.flt r.remaining (fzero fixed) ≡ false)
compute_remaining_example =
    compute_remaining fixed fixed-IsOrdered fixed-IsRounded two_hour_budget ten_hours runs
      (refl, (refl, tt)) refl

abbrev nine_hour_budget : Budget ℤ
nine_hour_budget = record { window = pos 32_400_000_000_000; quota = two_hour_budget.quota }

compute_window_mono_example :
    let r = compute fixed two_hour_budget ten_hours runs in
    let s = compute fixed nine_hour_budget ten_hours runs in
    Le fixed r.consumed s.consumed × (r.over ≡ true → s.over ≡ true)
compute_window_mono_example =
    compute_window_mono fixed fixed-IsOrdered fixed-IsRounded two_hour_budget nine_hour_budget
      ten_hours runs (refl, (refl, tt)) refl (omega arith) (omega arith) (omega arith)
