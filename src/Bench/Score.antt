-- ===== src/Bench/Score.antt =====
-- What `Validate` admits, and the range of the score.
use gpu_k8s_operator.Prelude.{
  ◌≡◌, false, none, ◌↔◌, arith, pos, ◌<ℤ◌, inl, inr, if◌then◌else◌, Bool-cases,
}
use gpu_k8s_operator.Numbers.{Numbers, fzero, IsOrdered, IsNum, Le, Lt}
use gpu_k8s_operator.Numbers.Laws.{le_of_lt, le_of_not_lt, not_lt_of_le, lt_of_not_le}
use gpu_k8s_operator.Bench.{Scenario, validate, accuracy_ratio, fone}

-- What a division of float64 keeps: the order, by a divisor above zero, where the quotients are
-- numbers; and 1 is above 0.
pub record IsDivision (num : Numbers) (fdiv : num.Float → num.Float → num.Float) : Type 0 where
  pub one_pos : Lt num (fzero num) (fone num)
  pub fdiv_mono :
      (x y z : num.Float)
      → Le num x y
      → Lt num (fzero num) z
      → IsNum num (fdiv x z)
      → IsNum num (fdiv y z)
      → Le num (fdiv x z) (fdiv y z)

-- A scenario is admitted exactly if its count and runtime are above 0 and its rate and GPUs are not
-- at or below 0.
pub validate_iff :
    (num : Numbers) (s : Scenario num.Float)
    → (validate num s ≡ none) ↔ (
        (pos 0 <ℤ s.count)
        × (num.fle s.rate (fzero num) ≡ false)
        × (pos 0 <ℤ s.runtime)
        × (num.fle s.gpus (fzero num) ≡ false))
unfolding validate
validate_iff num s = ground arith

module _ (num : Numbers) (ord : IsOrdered num) (fdiv : num.Float → num.Float → num.Float)
    (division : IsDivision num fdiv) where
  open num use {Float, fle, flt}
  open ord use {zero_num, num_of_le, fle_trans}

  one_nonneg : Le num (fzero num) (fone num)
  one_nonneg = le_of_lt num ord (fzero num) (fone num) division.one_pos

  -- A number held to the range from 0 to 1.
  abbrev clamp : Float → Float
  clamp r = if flt r (fzero num) then fzero num else if flt (fone num) r then fone num else r

  clamp_lem : (r : Float) → IsNum num r → Le num (fzero num) (clamp r) × Le num (clamp r) (fone num)
  clamp_lem r n =
      let one_num = (num_of_le (fzero num) (fone num) one_nonneg).1 in
      ground (
        arith,
        one_nonneg,
        zero_num,
        one_num,
        le_of_not_lt num ord r (fzero num) n zero_num,
        le_of_not_lt num ord (fone num) r one_num n,
      )

  clamp_mono : (r s : Float) → Le num r s → Le num (clamp r) (clamp s)
  clamp_mono r s h =
      let n = num_of_le r s h in
      let one_num = (num_of_le (fzero num) (fone num) one_nonneg).1 in
      elim (Bool-cases (flt r (fzero num))) [
        | inl e ↦ rw e (clamp_lem s n.1).0
        | inr e ↦
            let low =
              fle_trans (fzero num) r s (le_of_not_lt num ord r (fzero num) n.0 zero_num e) h in
            elim (Bool-cases (flt (fone num) s)) [
              | inl f ↦ rw (not_lt_of_le num ord (fzero num) s low, f) (clamp_lem r n.0).1
              | inr f ↦ elim (Bool-cases (flt (fone num) r)) [
                | inl g ↦
                    rw (e, not_lt_of_le num ord (fzero num) s low, f, g)
                      (fle_trans (fone num) r s (le_of_lt num ord (fone num) r g) h)
                | inr g ↦ rw (e, not_lt_of_le num ord (fzero num) s low, f, g) h
              ]
            ]
      ]

  -- The score of a bench run is from 0 to 1, and for an expectation that is not at or below 0 it
  -- does not fall when more is reported, if the expectation and the quotients are numbers.
  pub accuracy_ratio_lem :
      (reported more expected : Float)
      → Le num reported more
      → IsNum num expected
      → IsNum num (fdiv reported expected)
      → IsNum num (fdiv more expected)
      → let score = accuracy_ratio num fdiv reported expected in
        Le num (fzero num) score
        × Le num score (fone num)
        × (fle expected (fzero num) ≡ false → Le num score (accuracy_ratio num fdiv more expected))
  unfolding accuracy_ratio
  accuracy_ratio_lem reported more expected le ex n m =
      elim (Bool-cases (fle expected (fzero num))) [
        | inl e ↦ elim (Bool-cases (fle reported (fzero num))) [
          | inl f ↦
              rw (e, f) (one_nonneg, (num_of_le (fzero num) (fone num) one_nonneg).1, λ k. cc k)
          | inr f ↦ rw (e, f) (zero_num, one_nonneg, λ k. cc k)
        ]
        | inr e ↦ rw e (
          (clamp_lem (fdiv reported expected) n).0,
          (clamp_lem (fdiv reported expected) n).1,
          λ _. clamp_mono (fdiv reported expected) (fdiv more expected) (
              division.fdiv_mono reported more expected le
                (lt_of_not_le num ord expected (fzero num) ex zero_num e) n m),
        )
      ]
