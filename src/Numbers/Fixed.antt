-- ===== src/Numbers/Fixed.antt =====
-- A value of the interface that meets its laws: fixed-point numbers with a step of one nanosecond
-- in hours, and quantities in milli-units. The witnesses run the definitions on it.
use native.Mathlib.Nat.{mul-le-mul_left}
use gpu_k8s_operator.Prelude.{
  ℕ, suc, ◌*◌, ◌/◌, ◌≤◌, ◌≡◌, refl, Bool, true, ◌&&◌, arith, ℤ, pos, negsuc, ◌+ℤ◌, ◌-ℤ◌, ◌*ℤ◌, ◌≤ℤ◌,
  ltb_ℤ, leb_ℤ, wrap_int64,
}
use gpu_k8s_operator.Numbers.{Numbers, IsOrdered, IsRounded}

-- Nanoseconds in an hour: the fixed-point number that stands for 1.
abbrev pub unit : ℕ
unit = 3_600_000_000_000

abbrev half_unit : ℕ
half_unit = 1_800_000_000_000

-- Division by the unit, towards zero.
unfoldable pub rescale : ℤ → ℤ
rescale (pos n) = pos (n / unit)
rescale (negsuc n) = pos 0 -ℤ pos (suc n / unit)

unfoldable pub fixed_mul : ℤ → ℤ → ℤ
unfolding rescale ◌*ℤ◌
fixed_mul (pos a) (pos b) = pos (a * b / unit)
fixed_mul a b = rescale (a *ℤ b)

unfoldable pub fixed_to_int : ℤ → ℤ
unfolding rescale wrap_int64
fixed_to_int a = wrap_int64 (rescale a)

-- Division in fixed point, by a divisor above zero.
unfoldable pub fixed_div : ℤ → ℤ → ℤ
fixed_div (pos a) (pos b) = pos (a * unit / b)
fixed_div (negsuc a) (pos b) = negsuc (suc a * unit / b)
fixed_div a (negsuc b) = pos 0

abbrev pub eq_ℤ : ℤ → ℤ → Bool
eq_ℤ a b = leb_ℤ a b && leb_ℤ b a

abbrev pub fixed : Numbers
fixed = record {
  Float = ℤ;
  Quantity = ℤ;
  of_int = λ n. n *ℤ pos unit;
  half = pos half_unit;
  fadd = ◌+ℤ◌;
  fsub = ◌-ℤ◌;
  fmul = fixed_mul;
  flt = ltb_ℤ;
  fle = leb_ℤ;
  feq = eq_ℤ;
  to_int64 = fixed_to_int;
  hours = λ d. d;
  format3 = λ x. "0.000";
  as_approximate_float64 = λ q. q *ℤ pos 3_600_000_000;
  sign = λ q. q;
  quantity_string = λ q. "1m";
  new_milli_quantity = λ n. n;
}

pub fixed-IsOrdered : IsOrdered fixed
unfolding ◌*ℤ◌ ◌+ℤ◌ ◌-ℤ◌ fixed_mul fixed_to_int
fixed-IsOrdered = record {
  zero_num = refl;
  num_of_le = λ x y h. ground arith;
  fle_trans = λ x y z h k. ground arith;
  fle_total = λ x y h k. ground arith;
  flt_iff = λ x y. ground arith;
  feq_iff = λ x y. ground arith;
}

mul_mono : (a b c : ℕ) → b ≤ c → a * b / unit ≤ a * c / unit
mul_mono a b c h = omega (arith, mul-le-mul_left a h)

fixed_mul_nonneg :
    (a b : ℤ)
    → leb_ℤ (pos 0) a ≡ true
    → leb_ℤ (pos 0) b ≡ true
    → leb_ℤ (pos 0) (fixed_mul a b) ≡ true
unfolding fixed_mul
fixed_mul_nonneg (pos a) (pos b) h k = ground arith
fixed_mul_nonneg (pos a) (negsuc b) h k = ground arith
fixed_mul_nonneg (negsuc a) b h k = ground arith

fixed_mul_mono :
    (a b c : ℤ)
    → leb_ℤ (pos 0) a ≡ true
    → leb_ℤ (pos 0) b ≡ true
    → leb_ℤ b c ≡ true
    → leb_ℤ (fixed_mul a b) (fixed_mul a c) ≡ true
unfolding fixed_mul
fixed_mul_mono (pos a) (pos b) (pos c) h k l = ground (arith, mul_mono a b c)
fixed_mul_mono (pos a) (pos b) (negsuc c) h k l = ground arith
fixed_mul_mono (pos a) (negsuc b) c h k l = ground arith
fixed_mul_mono (negsuc a) b c h k l = ground arith

fixed_mul_mono_right :
    (a b : ℤ) (k : ℕ)
    → leb_ℤ (pos 0) a ≡ true
    → leb_ℤ a b ≡ true
    → leb_ℤ (fixed_mul a (pos k)) (fixed_mul b (pos k)) ≡ true
unfolding fixed_mul
fixed_mul_mono_right (pos a) (pos b) n h k = ground (arith, mul_mono n a b)
fixed_mul_mono_right (pos a) (negsuc b) n h k = ground arith
fixed_mul_mono_right (negsuc a) b n h k = ground arith

fixed_to_int_mono :
    (a b : ℤ)
    → leb_ℤ (pos 0) a ≡ true
    → leb_ℤ a b ≡ true
    → ltb_ℤ b (pos (9_223_372_036_854_775_808 * unit)) ≡ true
    → (pos 0 ≤ℤ fixed_to_int a) × (fixed_to_int a ≤ℤ fixed_to_int b)
unfolding fixed_to_int
fixed_to_int_mono (pos a) (pos b) h k l = ground arith
fixed_to_int_mono (pos a) (negsuc b) h k l = ground arith
fixed_to_int_mono (negsuc a) b h k l = ground arith

pub fixed-IsRounded : IsRounded fixed
unfolding ◌*ℤ◌ ◌+ℤ◌ ◌-ℤ◌ fixed_mul fixed_to_int
fixed-IsRounded = record {
  hours_pos = λ d h. ground arith;
  hours_mono = λ d e h. ground arith;
  fmul_nonneg = λ x y h k. fixed_mul_nonneg x y (ground arith) (ground arith);
  fmul_mono = λ x y z h k l. fixed_mul_mono x y z (ground arith) (ground arith) l;
  fadd_mono = λ x y z w h k l m. ground arith;
  le-fadd_left = λ x y h k. ground arith;
  le-fadd_right = λ x y h k. ground arith;
  fsub_neg = λ x y. ground arith;
  fsub_pos = λ x y. ground arith;
  fmul_thousand = λ x y h k. (fixed_mul_nonneg x _ h refl, fixed_mul_mono_right x y _ h k);
  half_pos = refl;
  to_int64_mono = λ x y h k l. fixed_to_int_mono x y h k l;
}
