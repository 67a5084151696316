-- ===== src/Bench/Tests.antt =====
-- The theorems on the bench scenario and its score, applied to concrete values.
use native.Mathlib.Nat.{le-div_iff_mul-le}
use gpu_k8s_operator.Prelude.{
  ℕ, suc, ◌*◌, ◌/◌, ◌≤◌, ◌<◌, ◌≡◌, refl, true, arith, ℤ, pos, negsuc, ◌*ℤ◌, leb_ℤ, ltb_ℤ,
}
use gpu_k8s_operator.Numbers.{fzero, Le}
use gpu_k8s_operator.Numbers.Fixed.{fixed, fixed-IsOrdered, unit, fixed_mul, fixed_div}
use gpu_k8s_operator.GoTime.{Duration}
use gpu_k8s_operator.Bench.{Scenario, validate, start_of, run_of, expected_gpu_hours}
use gpu_k8s_operator.Bench.Expected.{sum_all, expected_gpu_hours_lem}
use gpu_k8s_operator.Bench.Score.{IsDivision}

div_mono : (x y k : ℕ) → 0 < k → x ≤ y → x / k ≤ y / k
div_mono x y k p h =
    let below : x / k * k ≤ x = (le-div_iff_mul-le p).0 (omega arith) in
    (le-div_iff_mul-le p).1 (omega (arith, below, h))

scaled_mono : (x y k : ℕ) → 0 < k → x ≤ y → x * unit / k ≤ y * unit / k
scaled_mono x y k p h = div_mono (x * unit) (y * unit) k p (omega (arith, h))

fixed_div_mono :
    (a b c : ℤ)
    → leb_ℤ a b ≡ true
    → ltb_ℤ (pos 0) c ≡ true
    → leb_ℤ (fixed_div a c) (fixed_div b c) ≡ true
unfolding fixed_div
fixed_div_mono (pos a) (pos b) (pos c) h p =
    ground (arith, scaled_mono a b c (ground arith) (ground arith))
fixed_div_mono (negsuc a) (negsuc b) (pos c) h p =
    ground (arith, scaled_mono (suc b) (suc a) c (ground arith) (ground arith))
fixed_div_mono (negsuc a) (pos b) (pos c) h p = ground arith
fixed_div_mono (pos a) (negsuc b) (pos c) h p = ground arith
fixed_div_mono a b (negsuc c) h p = ground arith

fixed-IsDivision : IsDivision fixed fixed_div
unfolding ◌*ℤ◌
fixed-IsDivision = record { one_pos = refl; fdiv_mono = λ x y z h p n m. fixed_div_mono x y z h p }

-- Ten pods a minute, of half an hour each.
abbrev scenario : Scenario ℤ
scenario = record {
  count = pos 10;
  rate = pos 600_000_000_000;
  runtime = pos 1_800_000_000_000;
  gpus = pos 3_600_000_000_000;
}

scale_mono : (x y k : ℕ) → x ≤ y → x * k / unit ≤ y * k / unit
scale_mono x y k h = div_mono (x * k) (y * k) unit (omega arith) (grind (arith, h))

-- A duration in seconds, in fixed point.
abbrev in_seconds : Duration → ℤ
in_seconds d = d *ℤ pos 3600

starts_in_order :
    (i : ℕ)
    → let r = run_of fixed fixed_div in_seconds scenario (pos 3_600_000_000_000) in
      Le fixed (start_of fixed r i) (start_of fixed r (suc i))
unfolding fixed_div ◌*ℤ◌ fixed_mul
starts_in_order i = ground (arith, scale_mono (i * unit) (suc i * unit) 6_000_000_000_000)

expected_gpu_hours_lem_example :
    let r = run_of fixed fixed_div in_seconds scenario (pos 3_600_000_000_000) in
    expected_gpu_hours fixed fixed_div in_seconds scenario (pos 3_600_000_000_000)
    ≡ fixed_div (sum_all fixed r 0 10 (fzero fixed)) (fixed.of_int (pos 3600))
unfolding validate ◌*ℤ◌
expected_gpu_hours_lem_example =
    expected_gpu_hours_lem fixed fixed-IsOrdered fixed_div in_seconds scenario
      (pos 3_600_000_000_000) starts_in_order refl refl
