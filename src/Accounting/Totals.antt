-- ===== src/Accounting/Totals.antt =====
-- `Compute`: the total of a set of pods, and what is left of the quota.
use gpu_k8s_operator.Prelude.{
  ◌+◌, ◌^◌, ◌≡◌, refl, true, false, inl, inr, arith, pos, negsuc, List, [], ◌∷◌, ◌++◌, All, Any,
  length, length-append, ◌≤ℤ◌, ◌<ℤ◌, if◌then◌else◌,
}
use gpu_k8s_operator.GoTime.{Time, Duration, add_parts, opposite, opposite_parts}
use gpu_k8s_operator.Numbers.{Numbers, IsOrdered, IsRounded, fzero, Lt, Le, IsNum}
use gpu_k8s_operator.Numbers.Laws.{lt_of_not_le, le_of_lt, lt_irrefl}
use gpu_k8s_operator.Accounting.{Pod, Budget, window_usage, sum_usage, window_from, compute}
use gpu_k8s_operator.Accounting.Bounds.{window_usage_nonneg, window_usage_mono}

-- Every pod requests a number of GPUs, not NaN.
abbrev pub AllNum : (num : Numbers) → List (Pod num.Float) → Type 0
AllNum num = All (λ p. IsNum num p.gpus)

module _ (num : Numbers) where
  open num use {Float, fle, flt, fadd, fsub}

  sum_usage-append :
      (from to : Time) (t : Float) (ps qs : List (Pod Float))
      → sum_usage num from to t (ps ++ qs) ≡ sum_usage num from to (sum_usage num from to t ps) qs
  unfolding sum_usage
  sum_usage-append from to t [] qs = refl
  sum_usage-append from to t (p ∷ ps) qs =
      sum_usage-append from to (fadd t (window_usage num p from to)) ps qs

  module _ (ord : IsOrdered num) (rnd : IsRounded num) where
    open ord use {zero_num, num_of_le, fle_trans, fle_total}
    open rnd use {fadd_mono, le-fadd_left, le-fadd_right, fsub_neg, fsub_pos}

    -- Adding pods to a total that is not negative does not lower it.
    le-sum_usage :
        (from to : Time) (t : Float) (ps : List (Pod Float))
        → AllNum num ps
        → Le num (fzero num) t
        → Le num t (sum_usage num from to t ps)
    unfolding sum_usage
    le-sum_usage from to t [] n h = (num_of_le _ _ h).1
    le-sum_usage from to t (p ∷ ps) (n, ns) h =
        let u = window_usage_nonneg num ord rnd p from to n in
        let up = le-fadd_left t (window_usage num p from to) h u in
        fle_trans _ _ _ up
          (le-sum_usage from to (fadd t (window_usage num p from to)) ps ns (fle_trans _ _ _ h up))

    -- Each pod's contribution is below the total.
    usage-le-sum_usage :
        (from to : Time) (t : Float) (ps : List (Pod Float)) (p : Pod Float)
        → AllNum num ps
        → Le num (fzero num) t
        → Any (λ q. q ≡ p) ps
        → Le num (window_usage num p from to) (sum_usage num from to t ps)
    unfolding sum_usage
    usage-le-sum_usage from to t [] p n h m = absurd m
    usage-le-sum_usage from to t (q ∷ ps) p (n, ns) h (inl e) =
        let u = window_usage_nonneg num ord rnd q from to n in
        let up = le-fadd_left t (window_usage num q from to) h u in
        fle_trans _ _ _ (rw (← e) (le-fadd_right t (window_usage num q from to) h u))
          (le-sum_usage from to _ ps ns (fle_trans _ _ _ h up))
    usage-le-sum_usage from to t (q ∷ ps) p (n, ns) h (inr m) =
        let u = window_usage_nonneg num ord rnd q from to n in
        usage-le-sum_usage from to (fadd t (window_usage num q from to)) ps p ns
          (fle_trans _ _ _ h (le-fadd_left t (window_usage num q from to) h u)) m

    sum_usage_mono :
        (from to from' : Time) (t t' : Float) (ps : List (Pod Float))
        → AllNum num ps
        → Le num (fzero num) t
        → Le num t t'
        → from' ≤ℤ from
        → Le num (sum_usage num from to t ps) (sum_usage num from' to t' ps)
    unfolding sum_usage
    sum_usage_mono from to from' t t' [] n h k l = k
    sum_usage_mono from to from' t t' (p ∷ ps) (n, ns) h k l =
        let u = window_usage_nonneg num ord rnd p from to n in
        let v = window_usage_mono num ord rnd p from to from' to n l (omega arith) in
        sum_usage_mono from to from' (fadd t (window_usage num p from to))
          (fadd t' (window_usage num p from' to)) ps ns
          (fle_trans _ _ _ h (le-fadd_left t (window_usage num p from to) h u))
          (fadd_mono _ _ _ _ h k u v) l

    -- If the requests are numbers, reporting more pods never lowers the consumption, never clears
    -- `Over`, and adds to the count of pods.
    pub compute-append :
        (b : Budget Float) (now : Time) (ps qs : List (Pod Float))
        → AllNum num ps
        → AllNum num qs
        → let r = compute num b now ps in
          let s = compute num b now (ps ++ qs) in
          Le num r.consumed s.consumed
          × (r.over ≡ true → s.over ≡ true)
          × (s.tracked_pods ≡ r.tracked_pods + length qs)
    unfolding compute
    compute-append b now ps qs n m =
        let from = window_from num now b.window in
        let base = le-sum_usage from now (fzero num) ps n zero_num in
        let more = le-sum_usage from now _ qs m base in
        rw (sum_usage-append from now (fzero num) ps qs)
          (more, (λ o. fle_trans _ _ _ o more), length-append ps qs)

    -- If the requests are numbers, the consumption is at least the contribution of each pod, and
    -- one pod that used up the quota sets `Over` by itself.
    pub compute-covers :
        (b : Budget Float) (now : Time) (ps : List (Pod Float)) (p : Pod Float)
        → AllNum num ps
        → Any (λ q. q ≡ p) ps
        → let used = window_usage num p (window_from num now b.window) now in
          Le num used (compute num b now ps).consumed
          × (Le num b.quota used → (compute num b now ps).over ≡ true)
    unfolding compute
    compute-covers b now ps p n m =
        let below =
          usage-le-sum_usage (window_from num now b.window) now (fzero num) ps p n zero_num m in
        (below, λ q. fle_trans _ _ _ q below)

    remaining_cases :
        (q t : Float)
        → IsNum num q
        → IsNum num t
        → let rest = fsub q t in
          let kept = if flt rest (fzero num) then fzero num else rest in
          (fle q t ≡ false → (kept ≡ rest) × Lt num (fzero num) kept)
          × (Lt num q t → (fle q t ≡ true) × (kept ≡ fzero num))
          × (flt kept (fzero num) ≡ false)
    remaining_cases q t n m = ground (
      arith,
      fsub_neg q t,
      fsub_pos q t,
      lt_irrefl num ord (fzero num),
      lt_of_not_le num ord q t n m,
      le_of_lt num ord q t,
    )

    -- If the requests and the quota are numbers, the remaining hours are the positive difference
    -- while the accounting is not over, and 0 past the quota, and they are never negative.
    pub compute_remaining :
        (b : Budget Float) (now : Time) (ps : List (Pod Float))
        → AllNum num ps
        → IsNum num b.quota
        → let r = compute num b now ps in
          (r.over ≡ false
            → (r.remaining ≡ fsub b.quota r.consumed) × Lt num (fzero num) r.remaining)
          × (Lt num b.quota r.consumed → (r.over ≡ true) × (r.remaining ≡ fzero num))
          × (flt r.remaining (fzero num) ≡ false)
    unfolding compute
    compute_remaining b now ps n q =
        let total = le-sum_usage (window_from num now b.window) now (fzero num) ps n zero_num in
        remaining_cases b.quota _ q (num_of_le _ _ total).1

    window_from_mono :
        (now : Time) (w v : Duration)
        → pos 0 <ℤ w
        → w ≤ℤ v
        → v <ℤ pos (2 ^ 63)
        → window_from num now v ≤ℤ window_from num now w
    unfolding window_from
    window_from_mono now (pos w) (pos v) h k l = ground (
      arith,
      add_parts now (opposite (pos w)),
      add_parts now (opposite (pos v)),
      opposite_parts w (omega arith),
      opposite_parts v (omega arith),
    )
    window_from_mono now (pos w) (negsuc v) h k l = absurd (omega arith)
    window_from_mono now (negsuc w) v h k l = absurd (omega arith)

    -- If the requests are numbers, a longer window that fits a duration counts no less under the
    -- same quota, and sets `Over` wherever the shorter positive one does.
    pub compute_window_mono :
        (b c : Budget Float) (now : Time) (ps : List (Pod Float))
        → AllNum num ps
        → b.quota ≡ c.quota
        → pos 0 <ℤ b.window
        → b.window ≤ℤ c.window
        → c.window <ℤ pos (2 ^ 63)
        → let r = compute num b now ps in
          let s = compute num c now ps in
          Le num r.consumed s.consumed × (r.over ≡ true → s.over ≡ true)
    unfolding compute
    compute_window_mono b c now ps n q h k l =
        let more =
          sum_usage_mono (window_from num now b.window) now (window_from num now c.window)
            (fzero num) (fzero num) ps n zero_num zero_num
            (window_from_mono now b.window c.window h k l) in
        (more, λ o. fle_trans _ _ _ (rw (← q) o) more)
