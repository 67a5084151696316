-- ===== src/Accounting/Bounds.antt =====
-- The size of one pod's contribution, and how it moves with the window.
use gpu_k8s_operator.Prelude.{
  ◌≡◌, refl, true, false, ◌&&◌, not, Option, none, some, inl, inr, arith, pos, ◌≤ℤ◌, ◌<ℤ◌, ltb_ℤ,
  if◌then◌else◌, Bool-cases,
}
use gpu_k8s_operator.GoTime.{Time, sub, sub_mono, sub_pos}
use gpu_k8s_operator.Numbers.{Numbers, IsOrdered, IsRounded, fzero, Lt, Le, IsNum}
use gpu_k8s_operator.Numbers.Laws.{lt_of_not_le, IsNum-of_lt}
use gpu_k8s_operator.Accounting.{Pod, window_usage}
use gpu_k8s_operator.Accounting.Overlap.{
  earlier, later, end_at, shared, IsShared, window_usage-eq-contribution, ltb_zero-sub,
}

-- A stretch of positive length has a first instant, which the run and the window share.
shared_start :
    (F : Type 0) (pod : Pod F) (from to : Time)
    → ltb_ℤ (pos 0) (shared pod from to) ≡ true
    → IsShared F pod from to (later pod.start from)
shared_start F pod from to h =
    let k : ltb_ℤ (later pod.start from) (earlier (end_at pod.end to) to) ≡ true =
      rw (ltb_zero-sub (earlier (end_at pod.end to) to) (later pod.start from)) at h in
    ground arith

-- A wider window shares no less, and a longer run neither.
end_mono :
    (e : Option Time) (to to' : Time)
    → to ≤ℤ to'
    → earlier (end_at e to) to ≤ℤ earlier (end_at e to') to'
end_mono none to to' h = ground arith
end_mono (some e) to to' h = ground arith

start_mono : (s from from' : Time) → from' ≤ℤ from → later s from' ≤ℤ later s from
start_mono s from from' h = ground arith

end-le : (e : Option Time) (to : Time) → earlier (end_at e to) to ≤ℤ to
end-le none to = ground arith
end-le (some e) to = ground arith

start-ge : (s from : Time) → from ≤ℤ later s from
start-ge s from = ground arith

module _ (num : Numbers) where
  open num use {Float, fle, flt, fmul, hours}

  -- A pod that shares no instant with the window contributes 0.
  pub window_usage_disjoint :
      (pod : Pod Float) (from to : Time)
      → ((t : Time) → ¬ IsShared Float pod from to t)
      → window_usage num pod from to ≡ fzero num
  window_usage_disjoint pod from to apart =
      rw (window_usage-eq-contribution num pod from to)
        (elim (Bool-cases (ltb_ℤ (pos 0) (shared pod from to))) [
          | inl meet ↦ absurd (apart _ (shared_start Float pod from to meet))
          | inr miss ↦ rw miss refl
        ])

  module _ (ord : IsOrdered num) (rnd : IsRounded num) where
    open ord use {zero_num, num_of_le, fle_trans}
    open rnd use {hours_pos, hours_mono, fmul_nonneg, fmul_mono}

    -- The product that the code returns for a stretch from `a` to `b`.
    product_nonneg :
        (g : Float) (a b : Time)
        → IsNum num g
        → fle g (fzero num) ≡ false
        → ltb_ℤ a b ≡ true
        → Le num (fzero num) (fmul g (hours (sub b a)))
    product_nonneg g a b n p h =
        fmul_nonneg g _ (lt_of_not_le num ord g (fzero num) n zero_num p)
          (hours_pos _ (sub_pos b a (ground arith)))

    product_mono :
        (g : Float) (a b c d : Time)
        → IsNum num g
        → fle g (fzero num) ≡ false
        → ltb_ℤ a b ≡ true
        → c ≤ℤ a
        → b ≤ℤ d
        → Le num (fmul g (hours (sub b a))) (fmul g (hours (sub d c)))
    product_mono g a b c d n p h k l =
        fmul_mono g _ _ (lt_of_not_le num ord g (fzero num) n zero_num p)
          (hours_pos _ (sub_pos b a (ground arith))) (hours_mono _ _ (sub_mono b a d c l k))

    -- What the code returns, for a stretch from `a` to `b`.
    abbrev product : Float → Time → Time → Float
    product g a b =
        if ltb_ℤ a b && not (fle g (fzero num)) then fmul g (hours (sub b a)) else fzero num

    window_usage-eq-product :
        (pod : Pod Float) (from to : Time)
        → window_usage num pod from to
          ≡ product pod.gpus (later pod.start from) (earlier (end_at pod.end to) to)
    window_usage-eq-product pod from to =
        rw (window_usage-eq-contribution num pod from to, ltb_zero-sub)

    product-ge-zero : (g : Float) (a b : Time) → IsNum num g → Le num (fzero num) (product g a b)
    product-ge-zero g a b n = ground (arith, zero_num, product_nonneg g a b n)

    product-le-product :
        (g : Float) (a b c d : Time)
        → IsNum num g
        → c ≤ℤ a
        → b ≤ℤ d
        → Le num (product g a b) (product g c d)
    product-le-product g a b c d n h k =
        ground (arith, product-ge-zero g c d n, product_mono g a b c d n)

    -- A contribution is never negative, if the pod's request is a number.
    pub window_usage_nonneg :
        (pod : Pod Float) (from to : Time)
        → IsNum num pod.gpus
        → Le num (fzero num) (window_usage num pod from to)
    window_usage_nonneg pod from to n =
        rw window_usage-eq-product
          (product-ge-zero pod.gpus (later pod.start from) (earlier (end_at pod.end to) to) n)

    -- If the request is a number, a window that reaches further on either side counts no less of a
    -- pod.
    pub window_usage_mono :
        (pod : Pod Float) (from to from' to' : Time)
        → IsNum num pod.gpus
        → from' ≤ℤ from
        → to ≤ℤ to'
        → Le num (window_usage num pod from to) (window_usage num pod from' to')
    window_usage_mono pod from to from' to' n h k =
        rw (window_usage-eq-product pod from to, window_usage-eq-product pod from' to')
          (product-le-product pod.gpus (later pod.start from) (earlier (end_at pod.end to) to)
            (later pod.start from') (earlier (end_at pod.end to') to') n
            (start_mono pod.start from from' h) (end_mono pod.end to to' k))

    -- If its request is positive and the window is not empty, no pod contributes more than its
    -- request over the whole window.
    pub window_usage_bounded :
        (pod : Pod Float) (from to : Time)
        → Lt num (fzero num) pod.gpus
        → from <ℤ to
        → Le num (window_usage num pod from to) (fmul pod.gpus (hours (sub to from)))
    window_usage_bounded pod from to g h =
        let n = (IsNum-of_lt num ord _ _ g).1 in
        let positive = (ord.flt_iff _ _).0 g in
        let whole =
          product-le-product pod.gpus (later pod.start from) (earlier (end_at pod.end to) to) from
            to n (start-ge pod.start from) (end-le pod.end to) in
        rw window_usage-eq-product (ground (arith, whole))
