-- ===== src/Offender/Rank.antt =====
-- The ranking of pods, and what one round of the loop of `pickWorstOffender` does with the best
-- so far.
use gpu_k8s_operator.Prelude.{
  ◌≡◌, ◌∙◌, refl, sym, true, false, String, str_ltb, str_ltb_asymm, str_ltb_irrefl, str_le_trans,
  Option, none, some, ◌⊎◌, inl, inr, arith, Bool-cases,
}
use mathlib.Core.Path.{subst}
use mathlib.Core.Option.{some-injective}
use gpu_k8s_operator.GoTime.{Time}
use gpu_k8s_operator.Numbers.{Numbers, IsOrdered, fzero, Lt, IsNum}
use gpu_k8s_operator.Numbers.Laws.{trichotomy, lt_trans, lt_of_lt_of_le, lt_of_le_of_lt}
use gpu_k8s_operator.Accounting.{Pod as AccPod, window_usage}
use gpu_k8s_operator.Kube.{Pod}
use gpu_k8s_operator.PodConversion.{pod_to_accounting}
use gpu_k8s_operator.Offender.{Best, weigh, is_worse}

module _ (num : Numbers) where
  open num use {Float, Quantity, fle, flt, feq}

  -- A pod with `h` hours ranks no lower than one with `k`: more hours, or as many and a name that
  -- does not come later.
  abbrev pub NotBelow : Pod Quantity → Float → Pod Quantity → Float → Type 0
  NotBelow p h q k = Lt num k h ⊎ ((feq h k ≡ true) × (str_ltb q.name p.name ≡ false))

  module _ (gpu_res : String) (from now : Time) where
    -- A pod that may be enforced against, and the hours that it used: it is not terminating, the
    -- accounting covers it, and its hours in the window are above zero.
    pub record IsCandidate (p : Pod Quantity) (h : Float) : Type 0 where
      pub not_terminating : p.deletion_timestamp ≡ none
      pub acc_pod : AccPod Float
      pub converts : pod_to_accounting num p gpu_res ≡ some acc_pod
      pub used : h ≡ window_usage num acc_pod from now
      pub positive : fle h (fzero num) ≡ false

  module _ (ord : IsOrdered num) where
    open ord use {feq_iff, fle_trans}

    pub NotBelow-refl :
        (p : Pod Quantity) (h : Float) (q : Pod Quantity) (k : Float)
        → p ≡ q
        → h ≡ k
        → IsNum num h
        → NotBelow p h q k
    NotBelow-refl p h q k e f n =
        inr ((feq_iff h k).1 (rw (← f) (n, n)), rw (← e) (str_ltb_irrefl p.name))

    pub NotBelow-trans :
        (p : Pod Quantity) (h : Float) (q : Pod Quantity) (k : Float) (r : Pod Quantity) (l : Float)
        → NotBelow p h q k
        → NotBelow q k r l
        → NotBelow p h r l
    NotBelow-trans p h q k r l (inl a) (inl b) = inl (lt_trans num ord l k h b a)
    NotBelow-trans p h q k r l (inl a) (inr b) =
        inl (lt_of_le_of_lt num ord l k h ((feq_iff k l).0 b.0).1 a)
    NotBelow-trans p h q k r l (inr a) (inl b) =
        inl (lt_of_lt_of_le num ord l k h b ((feq_iff h k).0 a.0).1)
    NotBelow-trans p h q k r l (inr a) (inr b) =
        let x = (feq_iff h k).0 a.0 in
        let y = (feq_iff k l).0 b.0 in
        inr (
          (feq_iff h l).1 (fle_trans h k l x.0 y.0, fle_trans l k h y.1 x.1),
          str_le_trans p.name q.name r.name a.1 b.1,
        )

    -- A pod that displaces the best so far ranks no lower than it; one that does not, no higher.
    is_worse-NotBelow :
        (p : Pod Quantity) (h : Float) (b : Best Quantity Float)
        → is_worse num h p.name (some b) ≡ true
        → NotBelow p h b.pod b.hours
    is_worse-NotBelow p h b w = ground (arith, str_ltb_asymm p.name b.pod.name)

    not_worse-NotBelow :
        (p : Pod Quantity) (h : Float) (b : Best Quantity Float)
        → IsNum num h
        → IsNum num b.hours
        → is_worse num h p.name (some b) ≡ false
        → NotBelow b.pod b.hours p h
    not_worse-NotBelow p h b n m w =
        ground (arith, trichotomy num ord h b.hours n m, feq_iff h b.hours, feq_iff b.hours h)

    module _ (gpu_res : String) (from now : Time) where
      abbrev pub Cand : Pod Quantity → Float → Type 0
      Cand = IsCandidate gpu_res from now

      IsCandidate-unique : (p : Pod Quantity) (h k : Float) → Cand p h → Cand p k → h ≡ k
      IsCandidate-unique p h k c d = cc (c.converts, d.converts, c.used, d.used)

      -- What one round of the loop does with the best so far.
      pub record Considered (best : Option (Best Quantity Float)) (p : Pod Quantity)
          (best' : Option (Best Quantity Float)) : Type 0 where
        pub source :
            (best' ≡ best)
            ⊎ ((h : Float) × (best' ≡ some (record { pod = p; hours = h })) × Cand p h)
        pub beats_old :
            (a : Best Quantity Float)
            → best ≡ some a
            → (b : Best Quantity Float) × (best' ≡ some b) × NotBelow b.pod b.hours a.pod a.hours
        pub beats_new :
            (k : Float)
            → Cand p k
            → (b : Best Quantity Float) × (best' ≡ some b) × NotBelow b.pod b.hours p k

      abbrev pub BestNum : Option (Best Quantity Float) → Type 0
      BestNum none = Unit
      BestNum (some b) = IsNum num b.hours

      pub skipped :
          (best : Option (Best Quantity Float)) (p : Pod Quantity)
          → BestNum best
          → ((k : Float) → ¬ Cand p k)
          → Considered best p best
      skipped none p n h = record {
        source = inl refl;
        beats_old = λ a e. cc;
        beats_new = λ k c. absurd (h k c);
      }
      skipped (some b) p n h = record {
        source = inl refl;
        beats_old = λ a e.
            (b, refl, NotBelow-refl b.pod b.hours a.pod a.hours (ground arith) (ground arith) n);
        beats_new = λ k c. absurd (h k c);
      }

      taken :
          (best : Option (Best Quantity Float)) (p : Pod Quantity) (h : Float)
          → Cand p h
          → IsNum num h
          → is_worse num h p.name best ≡ true
          → Considered best p (some (record { pod = p; hours = h }))
      taken none p h c n w = record {
        source = inr (h, refl, c);
        beats_old = λ a e. cc;
        beats_new = λ k d. (_, refl, NotBelow-refl p h p k refl (IsCandidate-unique p h k c d) n);
      }
      taken (some b) p h c n w = record {
        source = inr (h, refl, c);
        beats_old = λ a e. (
          _,
          refl,
          subst (λ x. NotBelow p h x.pod x.hours) (some-injective _ _ e)
              (is_worse-NotBelow p h b w),
        );
        beats_new = λ k d. (_, refl, NotBelow-refl p h p k refl (IsCandidate-unique p h k c d) n);
      }

      passed :
          (best : Option (Best Quantity Float)) (p : Pod Quantity) (h : Float)
          → Cand p h
          → IsNum num h
          → BestNum best
          → is_worse num h p.name best ≡ false
          → Considered best p best
      passed none p h c n m w = cc
      passed (some b) p h c n m w = record {
        source = inl refl;
        beats_old = λ a e.
            (b, refl, NotBelow-refl b.pod b.hours a.pod a.hours (ground arith) (ground arith) m);
        beats_new = λ k d. (
          b,
          refl,
          subst (λ x. NotBelow b.pod b.hours p x) (IsCandidate-unique p h k c d)
              (not_worse-NotBelow p h b n m w),
        );
      }

      -- What the loop's guards leave out is no candidate.
      pub not_deleted :
          (p : Pod Quantity) (t : Time) (k : Float) → p.deletion_timestamp ≡ some t → ¬ Cand p k
      not_deleted p t k e c = cc (e, c.not_terminating)

      pub not_tracked :
          (p : Pod Quantity) (k : Float) → pod_to_accounting num p gpu_res ≡ none → ¬ Cand p k
      not_tracked p k e c = cc (e, c.converts)

      not_used :
          (p : Pod Quantity) (a : AccPod Float) (k : Float)
          → pod_to_accounting num p gpu_res ≡ some a
          → fle (window_usage num a from now) (fzero num) ≡ true
          → ¬ Cand p k
      not_used p a k e z c =
          let same : a ≡ c.acc_pod = some-injective _ _ (sym e ∙ c.converts) in
          let zero : fle k (fzero num) ≡ true = rw (c.used, ← same) z in cc (zero, c.positive)

      pub weigh-Considered :
          (best : Option (Best Quantity Float)) (p : Pod Quantity) (a : AccPod Float)
          → BestNum best
          → ((k : Float) → Cand p k → IsNum num k)
          → p.deletion_timestamp ≡ none
          → pod_to_accounting num p gpu_res ≡ some a
          → Considered best p (weigh num from now best p (some a))
            × BestNum (weigh num from now best p (some a))
      weigh-Considered best p a n m d e =
          let h = window_usage num a from now in
          elim (Bool-cases (fle h (fzero num))) [
            | inl z ↦ rw z (skipped best p n (λ k. not_used p a k e z), n)
            | inr z ↦
                let c : Cand p h = record {
                  not_terminating = d;
                  acc_pod = a;
                  converts = e;
                  used = refl;
                  positive = z;
                } in
                elim (Bool-cases (is_worse num h p.name best)) [
                  | inl w ↦ rw (z, w) (taken best p h c (m h c) w, m h c)
                  | inr w ↦ rw (z, w) (passed best p h c (m h c) n w, n)
                ]
          ]
