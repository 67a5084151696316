-- ===== src/Bench.antt =====
-- test/bench/harness.go: the scenario of a bench run and the score of its accounting
-- (`Scenario.Validate`, `ExpectedGPUHours` and `AccuracyRatio`).
pub mod Score
pub mod Expected
pub mod Report
pub mod Tests
use gpu_k8s_operator.Prelude.{
  ℕ, zero, suc, pos_part, Bool, Option, none, some, ℤ, pos, leb_ℤ, if◌then◌else◌,
}
use gpu_k8s_operator.GoTime.{Duration}
use gpu_k8s_operator.Numbers.{Numbers, fzero}

pub record Scenario (F : Type 0) : Type 0 where
  pub count : ℤ
  pub rate : F
  pub runtime : Duration
  pub gpus : F

-- The errors of `Validate`, with the value that each message shows.
pub data ScenarioError (F : Type 0) : Type 0 where
  count_error : ℤ → ScenarioError F
  rate_error : F → ScenarioError F
  runtime_error : Duration → ScenarioError F
  gpus_error : F → ScenarioError F

module _ (num : Numbers) where
  open num use {Float, fle, flt, of_int, fadd, fsub, fmul}

  unfoldable pub validate : Scenario Float → Option (ScenarioError Float)
  validate s =
      if leb_ℤ s.count (pos 0)
      then some (count_error s.count)
      else if fle s.rate (fzero num)
      then some (rate_error s.rate)
      else if leb_ℤ s.runtime (pos 0)
      then some (runtime_error s.runtime)
      else if fle s.gpus (fzero num)
      then some (gpus_error s.gpus)
      else none

  -- The literal 1.
  abbrev pub fone : Float
  fone = of_int (pos 1)

  -- `fdiv` is the operator `/` of `float64`.
  unfoldable pub accuracy_ratio : (Float → Float → Float) → Float → Float → Float
  accuracy_ratio fdiv reported expected =
      let r = fdiv reported expected in
      if fle expected (fzero num)
      then if fle reported (fzero num) then fone else fzero num
      else if flt r (fzero num)
      then fzero num
      else if flt fone r
      then fone
      else r

  -- What every pod of a run shares: the seconds between two starts and of a pod, the end, the GPUs.
  pub record Run : Type 0 where
    pub arrival_interval : Float
    pub run_sec : Float
    pub t_end : Float
    pub run_gpus : Float

  abbrev pub start_of : Run → ℕ → Float
  start_of r i = fmul (of_int (pos i)) r.arrival_interval

  -- What a pod that started at `t_start` adds: the body of the loop.
  abbrev pub add_pod : Run → Float → Float → Float
  add_pod r t_start total =
      let finish = fadd t_start r.run_sec in
      fadd total (fmul (fsub (if flt r.t_end finish then r.t_end else finish) t_start) r.run_gpus)

  -- The loop, from the pod `i` on with `n` pods left; it breaks at the first that starts too late.
  unfoldable pub total_sec : Run → ℕ → ℕ → Float → Float
  total_sec r i zero total = total
  total_sec r i (suc n) total =
      let rest = total_sec r (suc i) n (add_pod r (start_of r i) total) in
      if fle r.t_end (start_of r i) then total else rest

  -- `seconds` is `time.Duration.Seconds`.
  abbrev pub run_of : (Float → Float → Float) → (Duration → Float) → Scenario Float → Duration → Run
  run_of fdiv seconds s elapsed = record {
    arrival_interval = fdiv fone s.rate;
    run_sec = seconds s.runtime;
    t_end = seconds elapsed;
    run_gpus = s.gpus;
  }

  -- The function after the test of `Validate`.
  abbrev pub expected_unless :
      (Float → Float → Float)
      → (Duration → Float)
      → Scenario Float
      → Duration
      → Option (ScenarioError Float)
      → Float
  expected_unless fdiv seconds s elapsed (some e) = fzero num
  expected_unless fdiv seconds s elapsed none =
      if leb_ℤ elapsed (pos 0)
      then fzero num
      else fdiv (total_sec (run_of fdiv seconds s elapsed) 0 (pos_part s.count) (fzero num))
          (of_int (pos 3600))

  unfoldable pub expected_gpu_hours :
      (Float → Float → Float) → (Duration → Float) → Scenario Float → Duration → Float
  expected_gpu_hours fdiv seconds s elapsed = expected_unless fdiv seconds s elapsed (validate s)
