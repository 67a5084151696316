-- ===== src/Controller/Draining/Ends.antt =====
-- Enforcement comes to an end: over any sequence of rounds the server accepts only so many changes.
use gpu_k8s_operator.Prelude.{
  ◌+◌, ◌*◌, ◌≤◌, ◌<◌, ◌≡◌, refl, ap, String, List, [], ◌∷◌, ◌++◌, length, arith, leb, leb→le, inl,
  inr, Bool-cases,
}
use gpu_k8s_operator.Numbers.{Numbers}
use gpu_k8s_operator.Kube.{Pod}
use gpu_k8s_operator.Cluster.{Cluster, Call}
use gpu_k8s_operator.Controller.Reconciler.{reconcile}
use gpu_k8s_operator.Controller.Draining.{accepted, weight, rounds, IsAlone}
use gpu_k8s_operator.Controller.Draining.Pods.{weight_le}
use gpu_k8s_operator.Controller.Draining.Pressing.{IsPressingRound, pressing_round}
use gpu_k8s_operator.Controller.Draining.Rules.{potential}
use gpu_k8s_operator.Controller.Draining.Rounds.{reconcile-Lowers}

module _ (num : Numbers) (cl : Cluster num)
    (live : List (Call num.Quantity num.Float) → List (Pod num.Quantity))
    (alone : IsAlone num cl live) where
  open num use {Float, Quantity}

  rounds-Lowers :
      (rs : List (String × String)) (h : List (Call Quantity Float))
      → potential num cl live (rounds num cl rs h) ≤ potential num cl live h
  rounds-Lowers [] h = omega arith
  rounds-Lowers ((ns, name) ∷ rs) h = omega (
    arith,
    reconcile-Lowers num cl live alone ns name h,
    rounds-Lowers rs (reconcile num cl ns name h).0,
  )

  -- Enforcement comes to an end: in a cluster whose pods only the operator changes, over any
  -- sequence of rounds for any budgets and whatever else the server answers, it accepts at most two
  -- more changes for each pod that is there and not terminating.
  pub enforcement_ends :
      (rs : List (String × String)) (h : List (Call Quantity Float))
      → accepted num cl (rounds num cl rs h) ≤ accepted num cl h + 2 * length (live h)
  enforcement_ends rs h = omega (arith, rounds-Lowers rs h, weight_le (live h))

  -- A round among these in which the server accepts no change.
  abbrev pub HasIdle : List (String × String) → List (Call Quantity Float) → Type 0
  HasIdle rs h =
      (before : List (String × String)) × (r : String × String) × (after : List (String × String))
      × (rs ≡ before ++ r ∷ after)
      × (accepted num cl (reconcile num cl r.0 r.1 (rounds num cl before h)).0
          ≤ accepted num cl (rounds num cl before h))

  idle_after_weight :
      (rs : List (String × String)) (h : List (Call Quantity Float))
      → weight (live h) < length rs
      → HasIdle rs h
  idle_after_weight [] h lt = absurd (omega (arith, lt))
  idle_after_weight ((ns, name) ∷ rs) h lt =
      let h' = (reconcile num cl ns name h).0 in
      elim (Bool-cases (leb (accepted num cl h') (accepted num cl h))) [
        | inl e ↦ ([], (ns, name), rs, refl, leb→le (accepted num cl h') (accepted num cl h) e)
        | inr e ↦
            let lowered = reconcile-Lowers num cl live alone ns name h in
            let (before, r, after, split, idle) =
              idle_after_weight rs h' (ground (arith, lowered)) in
            ((ns, name) ∷ before, r, after, ap (λ l. (ns, name) ∷ l) split, idle)
      ]

  -- A round in which the server accepts a change does not recur for ever.
  pub idle_round :
      (rs : List (String × String)) (h : List (Call Quantity Float))
      → 2 * length (live h) < length rs
      → HasIdle rs h
  idle_round rs h lt = idle_after_weight rs h (omega (arith, lt, weight_le (live h)))

  -- In such a cluster, among any rounds of which there are more than twice as many as pods, there
  -- is one in which an offender is no longer left to be evicted: it is not so that the budget is
  -- found, stays, holds the finalizer and has a selector that parses, that the pods are listed,
  -- that the accounting is over and the gate open, that the action is Evict with an offender, and
  -- that the server accepts the calls.
  pub drained :
      (rs : List (String × String)) (h : List (Call Quantity Float))
      → 2 * length (live h) < length rs
      → (before : List (String × String)) × (r : String × String) × (after : List (String × String))
        × (rs ≡ before ++ r ∷ after)
        × ¬ IsPressingRound num cl r.0 r.1 (rounds num cl before h)
  drained rs h lt =
      let (before, r, after, split, idle) = idle_round rs h lt in
      (
        before,
        r,
        after,
        split,
        λ press. omega (arith, idle, pressing_round num cl r.0 r.1 (rounds num cl before h) press),
      )
