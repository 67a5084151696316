-- ===== src/Offender/Chosen.antt =====
-- What the chosen pod shares with the listed pods that are not terminating, whatever the numbers.
use gpu_k8s_operator.Prelude.{
  ◌≡◌, refl, String, Option, none, some, List, [], ◌∷◌, inl, inr, All, Bool-cases,
}
use gpu_k8s_operator.GoTime.{Time}
use gpu_k8s_operator.Numbers.{Numbers, fzero}
use gpu_k8s_operator.Accounting.{Pod as AccPod, window_usage}
use gpu_k8s_operator.Kube.{Pod}
use gpu_k8s_operator.PodConversion.{pod_to_accounting}
use gpu_k8s_operator.Offender.{
  Best, is_worse, weigh, consider, worst_of, best_pod, pick_worst_offender,
}

-- A predicate on what an option holds.
abbrev pub AllSome : {A : Type 0} → (A → Type 0) → Option A → Type 0
AllSome P none = Unit
AllSome P (some a) = P a

module _ (num : Numbers) (gpu_res : String) (from now : Time) (S : Pod num.Quantity → Type 0) where
  open num use {Float, Quantity, fle}

  weigh-AllSome :
      (best : Option (Best Quantity Float)) (p : Pod Quantity) (acc : Option (AccPod Float))
      → S p
      → AllSome (λ b. S b.pod) best
      → AllSome (λ b. S b.pod) (weigh num from now best p acc)
  weigh-AllSome best p none s held = held
  weigh-AllSome best p (some a) s held =
      elim (Bool-cases (fle (window_usage num a from now) (fzero num))) [
        | inl e ↦ rw e held
        | inr e ↦ elim (Bool-cases (is_worse num (window_usage num a from now) p.name best)) [
          | inl w ↦ rw (e, w) s
          | inr w ↦ rw (e, w) held
        ]
      ]

  consider-AllSome :
      (best : Option (Best Quantity Float)) (p : Pod Quantity) (o : Option Time)
      → (o ≡ none → S p)
      → AllSome (λ b. S b.pod) best
      → AllSome (λ b. S b.pod) (consider num gpu_res from now best p o)
  consider-AllSome best p none s held =
      weigh-AllSome best p (pod_to_accounting num p gpu_res) (s refl) held
  consider-AllSome best p (some t) s held = held

  worst_of-AllSome :
      (ps : List (Pod Quantity)) (best : Option (Best Quantity Float))
      → All (λ p. p.deletion_timestamp ≡ none → S p) ps
      → AllSome (λ b. S b.pod) best
      → AllSome (λ b. S b.pod) (worst_of num gpu_res from now best ps)
  unfolding worst_of
  worst_of-AllSome [] best all held = held
  worst_of-AllSome (p ∷ ps) best (s, all) held =
      worst_of-AllSome ps (consider num gpu_res from now best p p.deletion_timestamp) all
        (consider-AllSome best p p.deletion_timestamp s held)

  best_pod-AllSome :
      (o : Option (Best Quantity Float)) → AllSome (λ b. S b.pod) o → AllSome S (best_pod num o)
  best_pod-AllSome none h = tt
  best_pod-AllSome (some b) h = h

  pub pick_worst_offender-AllSome :
      (ps : List (Pod Quantity))
      → All (λ p. p.deletion_timestamp ≡ none → S p) ps
      → AllSome S (pick_worst_offender num ps gpu_res from now)
  unfolding pick_worst_offender
  pick_worst_offender-AllSome ps all =
      best_pod-AllSome (worst_of num gpu_res from now none ps) (worst_of-AllSome ps none all tt)
