-- ===== src/Bench/Expected.antt =====
-- The sum of `ExpectedGPUHours` with its break, and without.
use gpu_k8s_operator.Prelude.{
  ℕ, zero, suc, ◌≡◌, refl, sym, false, none, pos, pos_part, leb_ℤ, inl, inr, if◌then◌else◌,
  Bool-cases,
}
use gpu_k8s_operator.GoTime.{Duration}
use gpu_k8s_operator.Numbers.{Numbers, fzero, IsOrdered, Le}
use gpu_k8s_operator.Bench.{
  Scenario, validate, Run, start_of, add_pod, total_sec, run_of, expected_gpu_hours,
}

module _ (num : Numbers) where
  open num use {Float, fle, flt, of_int}

  -- The sum over all pods, of which one that starts at the end or after it adds nothing.
  unfoldable pub sum_all : Run num → ℕ → ℕ → Float → Float
  sum_all r i zero total = total
  sum_all r i (suc n) total =
      sum_all r (suc i) n
        (if fle r.t_end (start_of num r i) then total else add_pod num r (start_of num r i) total)

  module _ (ord : IsOrdered num) (r : Run num)
      (later : (i : ℕ) → Le num (start_of num r i) (start_of num r (suc i))) where
    sum_all_late :
        (i n : ℕ) (total : Float) → Le num r.t_end (start_of num r i) → sum_all r i n total ≡ total
    unfolding sum_all
    sum_all_late i zero total late = refl
    sum_all_late i (suc n) total late = rw late (
        sum_all_late (suc i) n total
          (ord.fle_trans r.t_end (start_of num r i) (start_of num r (suc i)) late (later i)))

    total_sec-eq-sum_all :
        (i n : ℕ) (total : Float) → total_sec num r i n total ≡ sum_all r i n total
    unfolding sum_all total_sec
    total_sec-eq-sum_all i zero total = refl
    total_sec-eq-sum_all i (suc n) total = elim (Bool-cases (fle r.t_end (start_of num r i))) [
      | inl late ↦ rw late (
          sym (
            sum_all_late (suc i) n total
              (ord.fle_trans r.t_end (start_of num r i) (start_of num r (suc i)) late (later i))))
      | inr early ↦
          rw early (total_sec-eq-sum_all (suc i) n (add_pod num r (start_of num r i) total))
    ]

  -- For a valid scenario and a time above 0, the expected hours are the sum over all pods, of which
  -- one that starts at the end or after it adds nothing: the loop loses none by its break, if the
  -- starts do not go back.
  pub expected_gpu_hours_lem :
      (ord : IsOrdered num) (fdiv : Float → Float → Float) (seconds : Duration → Float)
      (s : Scenario Float) (elapsed : Duration)
      → let r = run_of num fdiv seconds s elapsed in
        ((i : ℕ) → Le num (start_of num r i) (start_of num r (suc i)))
        → validate num s ≡ none
        → leb_ℤ elapsed (pos 0) ≡ false
        → expected_gpu_hours num fdiv seconds s elapsed
          ≡ fdiv (sum_all r 0 (pos_part s.count) (fzero num)) (of_int (pos 3600))
  unfolding expected_gpu_hours
  expected_gpu_hours_lem ord fdiv seconds s elapsed later valid after =
      let r = run_of num fdiv seconds s elapsed in
      rw (valid, after, total_sec-eq-sum_all ord r later 0 (pos_part s.count) (fzero num)) refl
