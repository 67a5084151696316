-- ===== src/Controller/Reconciler/Requests.antt =====
-- Which budgets a changed pod wakes.
use gpu_k8s_operator.Prelude.{
  ◌≡◌, refl, ap, ◌∙◌, Bool, true, false, String, some, List, [], ◌∷◌, ◌⊎◌, inl, inr, ◌↔◌, Any,
  Result, ok, err, Bool-cases,
}
use gpu_k8s_operator.Numbers.{Numbers}
use gpu_k8s_operator.Kube.{Pod}
use gpu_k8s_operator.Api.{GpuWorkloadBudget}
use gpu_k8s_operator.Cluster.{Cluster, Call, Selector}
use gpu_k8s_operator.Controller.Reconciler.{request_if, requests_for, map_pod_to_budgets}

module _ (num : Numbers) (cl : Cluster num) (pod : Pod num.Quantity) where
  open num use {Float, Quantity}

  -- The budget's selector parses and matches the pod.
  abbrev pub Matches : GpuWorkloadBudget Quantity → Type 0
  Matches b =
      (s : Selector) × (cl.label_selector_as_selector b.spec.selector ≡ ok s)
      × (s pod.labels ≡ true)

  -- One of the budgets matches the pod and has this namespace and name.
  abbrev pub Wakes : List (GpuWorkloadBudget Quantity) → String × String → Type 0
  Wakes budgets q = Any (λ b. Matches b × (q ≡ (b.namespace, b.name))) budgets

  abbrev pub WakesIn : Result (List (GpuWorkloadBudget Quantity)) → String × String → Type 0
  WakesIn (ok budgets) q = Wakes budgets q
  WakesIn (err e) q = ⊥

  abbrev pub Holds : String × String → List (String × String) → Type 0
  Holds q out = Any (λ r. q ≡ r) out

  passes : Result Selector → Bool
  passes (ok s) = s pod.labels
  passes (err e) = false

  Selects : Result Selector → Type 0
  Selects r = (s : Selector) × (r ≡ ok s) × (s pod.labels ≡ true)

  Selects-passes : (r : Result Selector) → Selects r → passes r ≡ true
  unfolding passes Selects
  Selects-passes r (s, e, m) = ap passes e ∙ m

  request_if_iff :
      (r : Result Selector) (b : GpuWorkloadBudget Quantity) (out : List (String × String))
      (q : String × String)
      → Holds q (request_if num cl r pod b out)
        ↔ ((Selects r × (q ≡ (b.namespace, b.name))) ⊎ Holds q out)
  unfolding passes Selects
  request_if_iff (err e) b out q = ((λ k. inr k), (λ k. elim k [ inl m ↦ cc m.0.1 | inr k ↦ k ]))
  request_if_iff (ok s) b out q = elim (Bool-cases (s pod.labels)) [
    | inl e ↦ rw e (
      (λ k. elim k [ inl m ↦ inl ((s, refl, e), m) | inr k ↦ inr k ]),
      (λ k. elim k [ inl m ↦ inl m.1 | inr k ↦ inr k ]),
    )
    | inr e ↦
        rw e ((λ k. inr k), (λ k. elim k [ inl m ↦ cc (Selects-passes (ok s) m.0, e) | inr k ↦ k ]))
  ]

  requests_for_iff :
      (budgets : List (GpuWorkloadBudget Quantity)) (q : String × String)
      → Holds q (requests_for num cl pod budgets) ↔ Wakes budgets q
  unfolding requests_for Selects
  requests_for_iff [] q = ((λ k. k), (λ k. k))
  requests_for_iff (b ∷ bs) q =
      let head =
        request_if_iff (cl.label_selector_as_selector b.spec.selector) b
          (requests_for num cl pod bs) q in
      let tail = requests_for_iff bs q in
      (
        (λ k. elim (head.0 k) [ inl m ↦ inl m | inr k ↦ inr (tail.0 k) ]),
        (λ k. elim k [ inl m ↦ head.1 (inl m) | inr k ↦ head.1 (inr (tail.1 k)) ]),
      )

  -- A pod wakes exactly the budgets that the server lists for its namespace whose selector parses
  -- and matches the pod's labels, and none if the list fails; the mapping never returns an error.
  pub map_pod_to_budgets_iff :
      (h : List (Call Quantity Float)) (budgets : Result (List (GpuWorkloadBudget Quantity)))
      → cl.list_all h pod.namespace ≡ budgets
      → (out : List (String × String)) × ((map_pod_to_budgets num cl (some pod) h).1 ≡ ok out)
        × ((q : String × String) → Holds q out ↔ (WakesIn budgets q))
  unfolding map_pod_to_budgets
  map_pod_to_budgets_iff h (ok budgets) e =
      rw e (requests_for num cl pod budgets, refl, requests_for_iff budgets)
  map_pod_to_budgets_iff h (err x) e = rw e ([], refl, λ q. ((λ k. k), (λ k. k)))
