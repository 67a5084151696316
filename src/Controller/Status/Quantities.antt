-- ===== src/Controller/Status/Quantities.antt =====
-- The quantities in which the status shows GPU-hours: `gpuHoursToQuantity`.
use gpu_k8s_operator.Prelude.{◌≡◌, refl, arith, ℤ, pos, ◌≤ℤ◌, inl, inr, Bool-cases, if◌then◌else◌}
use gpu_k8s_operator.Numbers.{Numbers, fzero, thousand, Le, Lt, IsNum, IsOrdered, IsRounded}
use gpu_k8s_operator.Numbers.Laws.{le_of_lt, le_of_not_lt, not_lt_of_le}
use gpu_k8s_operator.Cluster.{Cluster}
use gpu_k8s_operator.Controller.Status.{gpu_hours_to_quantity}

module _ (num : Numbers) (cl : Cluster num) (ord : IsOrdered num) (rnd : IsRounded num) where
  open num use {Float, Quantity, flt, fadd, fmul, half, of_int, to_int64, new_milli_quantity}
  open ord use {zero_num, num_of_le, fle_trans}

  abbrev floored : Float → Float
  floored h = if flt h (fzero num) then fzero num else h

  -- The number that is truncated.
  abbrev pub scaled : Float → Float
  scaled h = fadd (fmul (floored h) (thousand num)) half

  floored-ge-zero : (h : Float) → IsNum num h → Le num (fzero num) (floored h)
  floored-ge-zero h n = ground (arith, zero_num, le_of_not_lt num ord h (fzero num) n zero_num)

  floored_mono : (x y : Float) → Le num x y → Le num (floored x) (floored y)
  floored_mono x y h = elim (Bool-cases (flt x (fzero num))) [
    | inl e ↦ rw e (floored-ge-zero y (num_of_le x y h).1)
    | inr e ↦
        let up = le_of_not_lt num ord x (fzero num) (num_of_le x y h).0 zero_num e in
        rw (e, not_lt_of_le num ord (fzero num) y (fle_trans (fzero num) x y up h)) h
  ]

  half_nonneg : Le num (fzero num) half
  half_nonneg = le_of_lt num ord (fzero num) half rnd.half_pos

  -- The conversion to quantities keeps the order: of two numbers of hours, if what the greater one
  -- comes to fits an `int64`, the quantities are of millihours that are not negative and stand in
  -- the same order.
  pub gpu_hours_to_quantity_mono :
      (x y : Float)
      → Le num x y
      → Lt num (scaled y) (of_int (pos 9_223_372_036_854_775_808))
      → (m : ℤ) × (n : ℤ) × (gpu_hours_to_quantity num cl x ≡ new_milli_quantity m)
        × (gpu_hours_to_quantity num cl y ≡ new_milli_quantity n)
        × (pos 0 ≤ℤ m)
        × (m ≤ℤ n)
  unfolding gpu_hours_to_quantity
  gpu_hours_to_quantity_mono x y h fits =
      let low = floored-ge-zero x (num_of_le x y h).0 in
      let product = rnd.fmul_thousand (floored x) (floored y) low (floored_mono x y h) in
      let half_num = (num_of_le (fzero num) half half_nonneg).1 in
      let sum =
        rnd.fadd_mono (fmul (floored x) (thousand num)) (fmul (floored y) (thousand num)) half half
          product.0 product.1 half_nonneg half_num in
      let above =
        fle_trans (fzero num) (fmul (floored x) (thousand num)) (scaled x) product.0
          (rnd.le-fadd_left (fmul (floored x) (thousand num)) half product.0 half_nonneg) in
      let ints = rnd.to_int64_mono (scaled x) (scaled y) above sum fits in
      (to_int64 (scaled x), to_int64 (scaled y), refl, refl, ints.0, ints.1)
