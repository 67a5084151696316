-- ===== src/Numbers/Laws.antt =====
-- Consequences of the laws of floats: the strict order, and the two sides of a test.
use mathlib.Core.Logic.{◌⊎◌}
use gpu_k8s_operator.Prelude.{◌≡◌, true, false, arith}
use gpu_k8s_operator.Numbers.{Numbers, IsOrdered, Lt, Le, IsNum}

module _ (num : Numbers) (ord : IsOrdered num) where
  open num use {Float, flt, fle, feq, fsub}
  open ord use {zero_num, num_of_le, fle_trans, fle_total, flt_iff, feq_iff}

  pub IsNum-of_lt : (x y : Float) → Lt num x y → IsNum num x × IsNum num y
  IsNum-of_lt x y h = let k = (flt_iff x y).0 h in (k.0, k.1)

  pub le_of_lt : (x y : Float) → Lt num x y → Le num x y
  le_of_lt x y h = let k = (flt_iff x y).0 h in ground (arith, fle_total x y k.0 k.1)

  -- A number that is not below another is at or above it.
  pub le_of_not_lt : (x y : Float) → IsNum num x → IsNum num y → flt x y ≡ false → Le num y x
  le_of_not_lt x y a b h = ground (arith, (flt_iff x y).1)

  pub not_lt_of_le : (x y : Float) → Le num x y → flt y x ≡ false
  not_lt_of_le x y h = ground (arith, (flt_iff y x).0)

  pub lt_of_not_le : (x y : Float) → IsNum num x → IsNum num y → fle x y ≡ false → Lt num y x
  lt_of_not_le x y a b h = (flt_iff y x).1 (b, a, h)

  pub lt_of_lt_of_le : (x y z : Float) → Lt num x y → Le num y z → Lt num x z
  lt_of_lt_of_le x y z h k =
      ground (arith, (flt_iff x y).0, (flt_iff x z).1, num_of_le y z, fle_trans y z x)

  pub lt_of_le_of_lt : (x y z : Float) → Le num x y → Lt num y z → Lt num x z
  lt_of_le_of_lt x y z h k =
      ground (arith, (flt_iff y z).0, (flt_iff x z).1, num_of_le x y, fle_trans z x y)

  pub lt_trans : (x y z : Float) → Lt num x y → Lt num y z → Lt num x z
  lt_trans x y z h k = lt_of_lt_of_le x y z h (le_of_lt y z k)

  pub lt_irrefl : (x : Float) → flt x x ≡ false
  lt_irrefl x = ground (arith, (flt_iff x x).0)

  -- Of two numbers, one is below the other or they pass the test of equality.
  pub trichotomy :
      (x y : Float) → IsNum num x → IsNum num y → Lt num x y ⊎ (feq x y ≡ true) ⊎ Lt num y x
  trichotomy x y a b = ground (arith, (flt_iff x y).1, (flt_iff y x).1, (feq_iff x y).1)
