-- ===== src/Accounting.antt =====
-- internal/accounting/accounting.go: the GPU-hours of a set of pods over a rolling window.
-- `Budget.Compute` is `compute`; its loop is `sum_usage`.
pub mod Overlap
pub mod Bounds
pub mod Totals
pub mod Tests
use gpu_k8s_operator.Prelude.{
  ℕ, pos, Bool, not, ◌||◌, Option, none, some, List, [], ◌∷◌, leb_ℤ, length, if◌then◌else◌,
}
use gpu_k8s_operator.GoTime.{Time, Duration, before, zero_time, add, sub, opposite}
use gpu_k8s_operator.Numbers.{Numbers, fzero}
use Prim.Native.String.{String}

-- `end` is nil for a pod that still runs.
pub record Pod (F : Type 0) : Type 0 where
  pub id : String
  pub start : Time
  pub end : Option Time
  pub gpus : F

pub record Budget (F : Type 0) : Type 0 where
  pub window : Duration
  pub quota : F

pub record Result (F : Type 0) : Type 0 where
  pub consumed : F
  pub remaining : F
  pub tracked_pods : ℕ
  pub over : Bool

-- `pod.End != nil && pod.End.Before(t)`
abbrev pub ends_before : Option Time → Time → Bool
ends_before none t = Bool.false
ends_before (some e) t = before e t

-- The end of the stretch that counts: `to`, or the pod's end where it lies before `to`.
abbrev pub effective_end : Option Time → Time → Time
effective_end none to = to
effective_end (some e) to = if before e to then e else to

abbrev pub effective_start : Time → Time → Time
effective_start start from = if before start from then from else start

module _ (num : Numbers) where
  open num use {Float, fle, flt, fadd, fsub, fmul, hours}

  unfoldable pub window_usage : Pod Float → Time → Time → Float
  window_usage pod from to =
      let eff_start = effective_start pod.start from in
      let eff_end = effective_end pod.end to in
      if not (before from to)
      then fzero num
      else if ends_before pod.end pod.start
      then fzero num
      else if not (before eff_start eff_end)
      then fzero num
      else if fle pod.gpus (fzero num)
      then fzero num
      else fmul pod.gpus (hours (sub eff_end eff_start))

  -- The loop of `Compute`, from the total so far.
  unfoldable pub sum_usage : Time → Time → Float → List (Pod Float) → Float
  sum_usage from to total [] = total
  sum_usage from to total (p ∷ ps) = sum_usage from to (fadd total (window_usage p from to)) ps

  -- The start of the window: a window that is not positive reaches back to the zero time.
  unfoldable pub window_from : Time → Duration → Time
  window_from now window = if leb_ℤ window (pos 0) then zero_time else add now (opposite window)

  unfoldable pub compute : Budget Float → Time → List (Pod Float) → Result Float
  compute b now pods =
      let total = sum_usage (window_from now b.window) now (fzero num) pods in
      let remaining = fsub b.quota total in
      record {
        consumed = total;
        remaining = if flt remaining (fzero num) then fzero num else remaining;
        tracked_pods = length pods;
        over = fle b.quota total;
      }
