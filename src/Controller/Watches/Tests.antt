-- ===== src/Controller/Watches/Tests.antt =====
-- A server that lists what it holds, and the event of one of its pods.
use text.Mathlib.Text.{◌==◌ as str_eq}
use text.Mathlib.TextEquality.{eq_iff}
use gpu_k8s_operator.Prelude.{
  ◌≡◌, ◌∙◌, refl, sym, ap, Bool, true, ◌&&◌, String, List, [], ◌∷◌, ok, ◌↔◌, inl, inr, IsIn,
  Bool-cases, if◌then◌else◌, ℤ,
}
use gpu_k8s_operator.Numbers.Fixed.{fixed}
use gpu_k8s_operator.Kube.{Pod, is_zero_ptr}
use gpu_k8s_operator.Api.{GpuWorkloadBudget}
use gpu_k8s_operator.Cluster.{Cluster, Selector}
use gpu_k8s_operator.Controller.Status.{finalizer_name}
use gpu_k8s_operator.Controller.Reconciler.Requests.{Holds}
use gpu_k8s_operator.Controller.Watches.{pod_event, requests_of}
use gpu_k8s_operator.Controller.Watches.Agreement.{Serves, RoundLists, requests_of_iff}
use gpu_k8s_operator.Samples.{cluster, budget, pods, old_pod}

module _ {A : Type 0} (test : A → Bool) where
  kept : List A → List A
  kept [] = []
  kept (x ∷ xs) = let rest = kept xs in if test x then x ∷ rest else rest

  kept_iff : (xs : List A) (a : A) → IsIn a (kept xs) ↔ (IsIn a xs × (test a ≡ true))
  unfolding kept
  kept_iff [] a = ((λ m. absurd m), (λ m. absurd m.0))
  kept_iff (x ∷ xs) a =
      let rest = kept_iff xs a in
      elim (Bool-cases (test x)) [
        | inl e ↦ rw e (
          (λ m. elim m [
            | inl f ↦ (inl f, ap test (sym f) ∙ e)
            | inr k ↦ let (i, t) = rest.0 k in (inr i, t)
          ]),
          (λ m. elim m.0 [ inl f ↦ inl f | inr k ↦ inr (rest.1 (k, m.1)) ]),
        )
        | inr e ↦ rw e (
          (λ m. let (i, t) = rest.0 m in (inr i, t)),
          (λ m. elim m.0 [ inl f ↦ cc (f, e, m.1) | inr k ↦ rest.1 (k, m.1) ]),
        )
      ]

abbrev in_namespace : String → Selector → Pod ℤ → Bool
in_namespace namespace s p = str_eq p.namespace namespace && s p.labels

abbrev server : Cluster fixed
server = record cluster {
  get = λ h namespace name. ok budget;
  list = λ h namespace s. ok (kept (in_namespace namespace s) pods);
  list_all = λ h namespace. ok (kept (λ b. str_eq b.namespace namespace) (budget ∷ []));
}

in_namespace_iff :
    (namespace : String) (s : Selector) (p : Pod ℤ)
    → (in_namespace namespace s p ≡ true) ↔ ((p.namespace ≡ namespace) × (s p.labels ≡ true))
in_namespace_iff namespace s p = elim (Bool-cases (str_eq p.namespace namespace)) [
  | inl e ↦ rw e ((λ m. ((eq_iff p.namespace namespace).0 e, m)), (λ m. m.1))
  | inr e ↦ rw e ((λ m. cc m), (λ m. cc (e, (eq_iff p.namespace namespace).1 m.0)))
]

serves : Serves fixed server pods (budget ∷ [])
serves = record {
  got = λ h b i. elim i [ inl e ↦ ap ok e | inr m ↦ absurd m ];
  live = λ b i. elim i [
    | inl e ↦ ap (λ b. is_zero_ptr b.deletion_timestamp) (sym e)
    | inr m ↦ absurd m
  ];
  holds = λ b i. elim i [
    | inl e ↦ ap (λ b. server.contains_finalizer b.finalizers finalizer_name) (sym e)
    | inr m ↦ absurd m
  ];
  listed = λ h namespace s. (
    _,
    refl,
    λ p.
        let k = kept_iff (in_namespace namespace s) pods p in
        let i = in_namespace_iff namespace s p in
        (
          (λ m. let (j, t) = k.0 m in let (a, b) = i.0 t in (j, a, b)),
          (λ m. let (j, a, b) = m in k.1 (j, i.1 (a, b))),
        ),
  );
  all_listed = λ h namespace. (
    _,
    refl,
    λ b.
        let k = kept_iff (λ b. str_eq b.namespace namespace) (budget ∷ []) b in
        (
          (λ m. let (j, t) = k.0 m in (j, (eq_iff b.namespace namespace).0 t)),
          (λ m. k.1 (m.0, (eq_iff b.namespace namespace).1 m.1)),
        ),
  );
}

requests_of_iff_example :
    (out : List (String × String)) × ((requests_of fixed server (pod_event old_pod) []).1 ≡ ok out)
    × ((q : String × String)
        → Holds fixed server old_pod q out ↔ (
            (b : GpuWorkloadBudget ℤ) × IsIn b (budget ∷ [])
            × (q ≡ (b.namespace, b.name))
            × RoundLists fixed server pods (budget ∷ []) [] b old_pod))
requests_of_iff_example =
    requests_of_iff fixed server pods (budget ∷ []) serves [] [] old_pod (inr (inl refl))
