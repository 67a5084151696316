-- ===== src/Numbers.antt =====
-- What the operator uses of `float64` and of `resource.Quantity`, neither of which is code of the
-- repository: a type for each, with the operations as a record, and the laws as named hypotheses.
-- The laws are those of IEEE 754 with its infinities and NaN: NaN is the value that is not `<=`
-- itself, and no law speaks of a product or a sum that can be NaN.
pub mod Laws
pub mod Fixed
use gpu_k8s_operator.Prelude.{ℕ, ◌≡◌, ◌↔◌, ◌⊎◌, Bool, true, false, String, ℤ, pos, ◌≤ℤ◌, ◌<ℤ◌}
use gpu_k8s_operator.GoTime.{Duration}

pub record Numbers : Type 1 where
  pub Float : Type 0
  pub Quantity : Type 0
  -- the conversion `float64(n)`, and the literal 0.5
  pub of_int : ℤ → Float
  pub half : Float
  pub fadd : Float → Float → Float
  pub fsub : Float → Float → Float
  pub fmul : Float → Float → Float
  -- the tests `<`, `<=` and `==`
  pub flt : Float → Float → Bool
  pub fle : Float → Float → Bool
  pub feq : Float → Float → Bool
  -- the conversion `int64(x)`, which truncates
  pub to_int64 : Float → ℤ
  -- `time.Duration.Hours`, and the verb `%.3f`
  pub hours : Duration → Float
  pub format3 : Float → String
  -- methods of `resource.Quantity`, and `resource.NewMilliQuantity`
  pub as_approximate_float64 : Quantity → Float
  pub sign : Quantity → ℤ
  pub quantity_string : Quantity → String
  pub new_milli_quantity : ℤ → Quantity

-- The literal 0.
abbrev pub fzero : (num : Numbers) → num.Float
fzero num = num.of_int (pos 0)

abbrev pub thousand : (num : Numbers) → num.Float
thousand num = num.of_int (pos 1000)

-- `x <= y` as a proposition. A number is what is `<=` itself.
abbrev pub Le : (num : Numbers) → num.Float → num.Float → Type 0
Le num x y = num.fle x y ≡ true

abbrev pub IsNum : (num : Numbers) → num.Float → Type 0
IsNum num x = num.fle x x ≡ true

abbrev pub Lt : (num : Numbers) → num.Float → num.Float → Type 0
Lt num x y = num.flt x y ≡ true

-- The tests order the numbers; NaN passes none of them.
pub record IsOrdered (num : Numbers) : Type 0 where
  pub zero_num : IsNum num (fzero num)
  pub num_of_le : (x y : num.Float) → Le num x y → IsNum num x × IsNum num y
  pub fle_trans : (x y z : num.Float) → Le num x y → Le num y z → Le num x z
  pub fle_total : (x y : num.Float) → IsNum num x → IsNum num y → Le num x y ⊎ Le num y x
  pub flt_iff : (x y : num.Float) → Lt num x y ↔ (IsNum num x × IsNum num y × (num.fle y x ≡ false))
  pub feq_iff : (x y : num.Float) → (num.feq x y ≡ true) ↔ (Le num x y × Le num y x)

-- What rounding keeps of the arithmetic.
pub record IsRounded (num : Numbers) : Type 0 where
  pub hours_pos : (d : Duration) → pos 0 <ℤ d → Lt num (fzero num) (num.hours d)
  pub hours_mono : (d e : Duration) → d ≤ℤ e → Le num (num.hours d) (num.hours e)
  pub fmul_nonneg :
      (x y : num.Float)
      → Lt num (fzero num) x
      → Lt num (fzero num) y
      → Le num (fzero num) (num.fmul x y)
  pub fmul_mono :
      (x y z : num.Float)
      → Lt num (fzero num) x
      → Lt num (fzero num) y
      → Le num y z
      → Le num (num.fmul x y) (num.fmul x z)
  pub fadd_mono :
      (x y z w : num.Float)
      → Le num (fzero num) x
      → Le num x y
      → Le num (fzero num) z
      → Le num z w
      → Le num (num.fadd x z) (num.fadd y w)
  pub le-fadd_left :
      (x y : num.Float) → Le num (fzero num) x → Le num (fzero num) y → Le num x (num.fadd x y)
  pub le-fadd_right :
      (x y : num.Float) → Le num (fzero num) x → Le num (fzero num) y → Le num y (num.fadd x y)
  pub fsub_neg : (x y : num.Float) → num.flt (num.fsub x y) (fzero num) ≡ num.flt x y
  pub fsub_pos : (x y : num.Float) → num.flt (fzero num) (num.fsub x y) ≡ num.flt y x
  pub fmul_thousand :
      (x y : num.Float)
      → Le num (fzero num) x
      → Le num x y
      → Le num (fzero num) (num.fmul x (thousand num))
        × Le num (num.fmul x (thousand num)) (num.fmul y (thousand num))
  pub half_pos : Lt num (fzero num) num.half
  -- `int64(x)` below 2 ^ 63
  pub to_int64_mono :
      (x y : num.Float)
      → Le num (fzero num) x
      → Le num x y
      → Lt num y (num.of_int (pos 9_223_372_036_854_775_808))
      → (pos 0 ≤ℤ num.to_int64 x) × (num.to_int64 x ≤ℤ num.to_int64 y)
