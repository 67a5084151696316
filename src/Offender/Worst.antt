-- ===== src/Offender/Worst.antt =====
-- The chosen pod is a worst offender: a candidate that no other candidate outranks.
use mathlib.Core.Path.{subst}
use mathlib.Core.Option.{some-injective}
use gpu_k8s_operator.Prelude.{
  ◌≡◌, ◌∙◌, refl, sym, ap, String, Option, none, some, List, [], ◌∷◌, ◌⊎◌, inl, inr, Any, All,
  Option-cases,
}
use gpu_k8s_operator.GoTime.{Time}
use gpu_k8s_operator.Numbers.{Numbers, IsOrdered, IsNum}
use gpu_k8s_operator.Accounting.{Pod as AccPod}
use gpu_k8s_operator.Kube.{Pod}
use gpu_k8s_operator.PodConversion.{pod_to_accounting}
use gpu_k8s_operator.Offender.{Best, consider, weigh, worst_of, best_pod, pick_worst_offender}
use gpu_k8s_operator.Offender.Rank.{
  NotBelow, NotBelow-trans, NotBelow-refl, IsCandidate, Considered, BestNum, skipped, not_deleted,
  not_tracked, weigh-Considered,
}

module _ (num : Numbers) (gpu_res : String) (from now : Time) where
  open num use {Float, Quantity}

  abbrev Cand : Pod Quantity → Float → Type 0
  Cand = IsCandidate num gpu_res from now

  -- The hours of every candidate are a number.
  abbrev pub CandidatesNum : List (Pod Quantity) → Type 0
  CandidatesNum = All (λ p. (k : Float) → Cand p k → IsNum num k)

  -- What the choice among `pods` is: none if there is no candidate, or else a candidate among them
  -- below which every candidate ranks.
  abbrev pub IsWorst : List (Pod Quantity) → Option (Pod Quantity) → Type 0
  IsWorst pods none = All (λ p. (k : Float) → ¬ Cand p k) pods
  IsWorst pods (some w) =
      Any (λ p. p ≡ w) pods
      × ((h : Float) × Cand w h × All (λ p. (k : Float) → Cand p k → NotBelow num w h p k) pods)

  -- The same, of the loop from a best so far.
  abbrev Outcome :
      Option (Best Quantity Float) → List (Pod Quantity) → Option (Best Quantity Float) → Type 0
  Outcome best ps none = (best ≡ none) × All (λ p. (k : Float) → ¬ Cand p k) ps
  Outcome best ps (some b) =
      ((best ≡ some b) ⊎ (Any (λ p. p ≡ b.pod) ps × Cand b.pod b.hours))
      × ((a : Best Quantity Float) → best ≡ some a → NotBelow num b.pod b.hours a.pod a.hours)
      × All (λ p. (k : Float) → Cand p k → NotBelow num b.pod b.hours p k) ps

  module _ (ord : IsOrdered num) where
    abbrev Round :
        Option (Best Quantity Float) → Pod Quantity → Option (Best Quantity Float) → Type 0
    Round = Considered num ord gpu_res from now

    abbrev IsFine : Option (Best Quantity Float) → Type 0
    IsFine = BestNum num ord gpu_res from now

    weigh_any :
        (best : Option (Best Quantity Float)) (p : Pod Quantity) (o : Option (AccPod Float))
        → IsFine best
        → ((k : Float) → Cand p k → IsNum num k)
        → p.deletion_timestamp ≡ none
        → pod_to_accounting num p gpu_res ≡ o
        → Round best p (weigh num from now best p o) × IsFine (weigh num from now best p o)
    weigh_any best p none n m d e = (
      skipped num ord gpu_res from now best p n (λ k. not_tracked num ord gpu_res from now p k e),
      n,
    )
    weigh_any best p (some a) n m d e = weigh-Considered num ord gpu_res from now best p a n m d e

    consider-Considered :
        (best : Option (Best Quantity Float)) (p : Pod Quantity) (o : Option Time)
        → IsFine best
        → ((k : Float) → Cand p k → IsNum num k)
        → p.deletion_timestamp ≡ o
        → Round best p (consider num gpu_res from now best p o)
          × IsFine (consider num gpu_res from now best p o)
    consider-Considered best p (some t) n m d = (
      skipped num ord gpu_res from now best p n (λ k. not_deleted num ord gpu_res from now p t k d),
      n,
    )
    consider-Considered best p none n m d =
        weigh_any best p (pod_to_accounting num p gpu_res) n m d refl

    prepend :
        (best best' : Option (Best Quantity Float)) (p : Pod Quantity) (ps : List (Pod Quantity))
        (r : Option (Best Quantity Float))
        → Round best p best'
        → Outcome best' ps r
        → Outcome best (p ∷ ps) r
    prepend best best' p ps none c (e, none_left) = (
      elim (Option-cases best) [ inl q ↦ q | inr (a, q) ↦ absurd (cc (e, (c.beats_old a q).1)) ],
      ((λ k d. cc (e, (c.beats_new k d).1)), none_left),
    )
    prepend best best' p ps (some b) c (src, old, rest) = (
      elim src [
        | inl e ↦ elim c.source [
          | inl q ↦ inl (sym q ∙ e)
          | inr (h, q, d) ↦
              let same : record { pod = p; hours = h } ≡ b = some-injective _ _ (sym q ∙ e) in
              inr (inl (ap (λ x. x.pod) same), subst (λ x. Cand x.pod x.hours) same d)
        ]
        | inr (m, d) ↦ inr (inr m, d)
      ],
      (λ a q.
          let (x, e, nb) = c.beats_old a q in
          NotBelow-trans num ord b.pod b.hours x.pod x.hours a.pod a.hours (old x e) nb),
      (
        (λ k d.
            let (x, e, nb) = c.beats_new k d in
            NotBelow-trans num ord b.pod b.hours x.pod x.hours p k (old x e) nb),
        rest,
      ),
    )

    worst_of-Outcome :
        (best : Option (Best Quantity Float)) (ps : List (Pod Quantity))
        → IsFine best
        → CandidatesNum ps
        → Outcome best ps (worst_of num gpu_res from now best ps)
    unfolding worst_of
    worst_of-Outcome none [] n m = (refl, tt)
    worst_of-Outcome (some b) [] n m = (
      inl refl,
      (λ a q.
          NotBelow-refl num ord b.pod b.hours a.pod a.hours (ap (λ x. x.pod) (some-injective _ _ q))
            (ap (λ x. x.hours) (some-injective _ _ q)) n),
      tt,
    )
    worst_of-Outcome best (p ∷ ps) n (m, ms) =
        let (c, fine) = consider-Considered best p p.deletion_timestamp n m refl in
        let best' = consider num gpu_res from now best p p.deletion_timestamp in
        prepend best best' p ps (worst_of num gpu_res from now best' ps) c
          (worst_of-Outcome best' ps fine ms)

    Outcome-IsWorst :
        (ps : List (Pod Quantity)) (r : Option (Best Quantity Float))
        → Outcome none ps r
        → IsWorst ps (best_pod num r)
    Outcome-IsWorst ps none (e, none_left) = none_left
    Outcome-IsWorst ps (some b) (inl e, old, rest) = absurd (cc e)
    Outcome-IsWorst ps (some b) (inr (m, d), old, rest) = (m, (b.hours, d, rest))

    -- The choice of `pickWorstOffender` is none exactly if no pod of the list may be enforced
    -- against, and otherwise a candidate of the list with the most hours in the window, and among
    -- those with as many hours the one whose name comes first, if all the hours are numbers.
    pub pick_worst_offender-IsWorst :
        (pods : List (Pod Quantity))
        → CandidatesNum pods
        → IsWorst pods (pick_worst_offender num pods gpu_res from now)
    unfolding pick_worst_offender
    pick_worst_offender-IsWorst pods m =
        Outcome-IsWorst pods (worst_of num gpu_res from now none pods)
          (worst_of-Outcome none pods tt m)
