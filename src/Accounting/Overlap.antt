-- ===== src/Accounting/Overlap.antt =====
-- What `window_usage` is: the GPUs times the hours that the pod's run and the window share.
use gpu_k8s_operator.Prelude.{
  ◌≡◌, true, ◌&&◌, not, ◌∙◌, Option, none, some, arith, ℤ, pos, ◌-ℤ◌, -ℤ_parts, eq_of_parts, ◌≤ℤ◌,
  ◌<ℤ◌, ltb_ℤ, if◌then◌else◌,
}
use gpu_k8s_operator.GoTime.{Time, sub}
use gpu_k8s_operator.Numbers.{Numbers, fzero}
use gpu_k8s_operator.Accounting.{Pod, window_usage, ends_before, effective_end, effective_start}

abbrev pub earlier : Time → Time → Time
earlier a b = if ltb_ℤ b a then b else a

abbrev pub later : Time → Time → Time
later a b = if ltb_ℤ a b then b else a

-- The end of a run as seen at `now`: a run with no end goes on.
abbrev pub end_at : Option Time → Time → Time
end_at none now = now
end_at (some e) now = e

-- The stretch that a run and a window share, in nanoseconds; not positive where they share none.
abbrev pub shared : {F : Type 0} → Pod F → Time → Time → ℤ
shared pod from to = earlier (end_at pod.end to) to -ℤ later pod.start from

-- The pod runs at the instant `t`, and `t` lies in the half-open window.
pub record IsShared (F : Type 0) (pod : Pod F) (from to t : Time) : Type 0 where
  pub started : pod.start ≤ℤ t
  pub not_ended : t <ℤ end_at pod.end to
  pub in_from : from ≤ℤ t
  pub in_to : t <ℤ to

-- An independent description of the contribution, as in docs/accounting-model.md.
abbrev pub contribution : (num : Numbers) → Pod num.Float → Time → Time → num.Float
contribution num pod from to =
    if ltb_ℤ (pos 0) (shared pod from to) && not (num.fle pod.gpus (fzero num))
    then num.fmul pod.gpus (num.hours (sub (earlier (end_at pod.end to) to) (later pod.start from)))
    else fzero num

pub ltb_zero-sub : (a b : ℤ) → ltb_ℤ (pos 0) (a -ℤ b) ≡ ltb_ℤ b a
ltb_zero-sub a b = ground (arith, -ℤ_parts a b)

guards_running :
    (s from to : ℤ)
    → ltb_ℤ (later s from) (earlier to to)
      ≡ (ltb_ℤ from to && (true && ltb_ℤ (effective_start s from) to))
guards_running s from to = ground arith

guards_ended :
    (s e from to : ℤ)
    → ltb_ℤ (later s from) (earlier e to) ≡ (
        ltb_ℤ from to
        && (not (ltb_ℤ e s) && ltb_ℤ (effective_start s from) (effective_end (some e) to)))
guards_ended s e from to = ground arith

-- A stretch of positive length starts before its end, inside the window, and its run is not
-- inverted.
guards :
    (e : Option Time) (s from to : Time)
    → ltb_ℤ (pos 0) (earlier (end_at e to) to -ℤ later s from) ≡ (
        ltb_ℤ from to
        && (not (ends_before e s) && ltb_ℤ (effective_start s from) (effective_end e to)))
guards none s from to = ltb_zero-sub _ _ ∙ guards_running s from to
guards (some e) s from to = ltb_zero-sub _ _ ∙ guards_ended s e from to

module _ (num : Numbers) where
  open num use {Float, fle, flt, fmul, hours}

  effective_end-eq-earlier :
      (e : Option Time) (to : Time) → effective_end e to ≡ earlier (end_at e to) to
  effective_end-eq-earlier none to = ground arith
  effective_end-eq-earlier (some e) to = ground (arith, eq_of_parts e to)

  -- `WindowUsage` returns on every input the request times the hours that the run and the window
  -- share, 0 where they share none or the request is not positive.
  pub window_usage-eq-contribution :
      (pod : Pod Float) (from to : Time)
      → window_usage num pod from to ≡ contribution num pod from to
  unfolding window_usage
  window_usage-eq-contribution pod from to =
      rw (guards pod.end pod.start from to, ← effective_end-eq-earlier pod.end to) (ground arith)
