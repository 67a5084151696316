-- ===== src/GoTime.antt =====
-- The parts of Go's package `time` that the operator uses. An instant is its distance from the
-- zero time in nanoseconds (all instants are in UTC, as the accounting package asks); a duration is
-- an `int64` count of nanoseconds, with the wrap-around of Go's products written out.
use gpu_k8s_operator.Prelude.{
  ℕ, ◌+◌, ◌*◌, ◌^◌, ◌<◌, ◌≡◌, Bool, true, false, arith, ℤ, pos, negsuc, pos_part, neg_part, ◌+ℤ◌,
  ◌-ℤ◌, ◌*ℤ◌, ◌≤ℤ◌, ◌<ℤ◌, ltb_ℤ, wrap_int64, -ℤ_parts, if◌then◌else◌,
}

abbrev pub Time : Type 0
Time = ℤ

abbrev pub Duration : Type 0
Duration = ℤ

-- `time.Time{}`
abbrev pub zero_time : Time
zero_time = pos 0

abbrev pub is_zero : Time → Bool
is_zero (pos ℕ.zero) = true
is_zero _ = false

abbrev pub before : Time → Time → Bool
before a b = ltb_ℤ a b

abbrev pub after : Time → Time → Bool
after a b = ltb_ℤ b a

abbrev pub second : Duration
second = pos 1_000_000_000

abbrev pub hour : Duration
hour = pos 3_600_000_000_000

-- The product of two durations, which wraps.
unfoldable pub times : Duration → Duration → Duration
times a b = wrap_int64 (a *ℤ b)

-- `-d`, which wraps at the least value alone.
unfoldable pub opposite : Duration → Duration
opposite d = wrap_int64 (pos 0 -ℤ d)

-- `t.Add(d)`
unfoldable pub add : Time → Duration → Time
unfolding ◌+ℤ◌
add t d = t +ℤ d

abbrev pub max_duration : Duration
max_duration = pos 9_223_372_036_854_775_807

abbrev pub min_duration : Duration
min_duration = negsuc 9_223_372_036_854_775_807

-- `a.Sub(b)`: the difference, held to the range of a duration.
unfoldable pub sub : Time → Time → Duration
sub a b =
    let d = a -ℤ b in
    if ltb_ℤ max_duration d then max_duration else if ltb_ℤ d min_duration then min_duration else d

pub add_parts :
    (t : Time) (d : Duration)
    → pos_part (add t d) + neg_part t + neg_part d ≡ neg_part (add t d) + pos_part t + pos_part d
unfolding add
add_parts t d = ground arith

-- A longer stretch has no shorter duration.
pub sub_mono : (a b c d : Time) → a ≤ℤ c → d ≤ℤ b → sub a b ≤ℤ sub c d
unfolding sub
sub_mono a b c d h k = ground (arith, -ℤ_parts a b, -ℤ_parts c d)

-- The duration from an earlier instant to a later one is positive.
pub sub_pos : (a b : Time) → b <ℤ a → pos 0 <ℤ sub a b
unfolding sub
sub_pos a b h = ground (arith, -ℤ_parts a b)

-- Where the exact difference fits, it is the duration.
pub sub_exact : (a b : Time) → b ≤ℤ a → (a -ℤ b) ≤ℤ max_duration → sub a b ≡ (a -ℤ b)
unfolding sub
sub_exact a b h k = ground (arith, -ℤ_parts a b)

-- What fits an `int64` does not wrap.
pub wrap_int64_fits : (n : ℕ) → n < 2 ^ 63 → wrap_int64 (pos n) ≡ pos n
unfolding wrap_int64
wrap_int64_fits n h = ground arith

pub times_pos : (a b : ℕ) → pos a *ℤ pos b ≡ pos (a * b)
unfolding ◌*ℤ◌
times_pos a b = ground arith

pub times_fits : (a b : ℕ) → a * b < 2 ^ 63 → times (pos a) (pos b) ≡ pos (a * b)
unfolding times
times_fits a b h = rw times_pos (wrap_int64_fits (a * b) h)

pub opposite_parts : (n : ℕ) → n < 2 ^ 63 → neg_part (opposite (pos n)) ≡ n
unfolding opposite wrap_int64 ◌-ℤ◌
opposite_parts n h = ground arith
