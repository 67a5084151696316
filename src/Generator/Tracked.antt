-- ===== src/Generator/Tracked.antt =====
-- The generator and the accounting: which created pods the operator counts, and what their labels say.
use mathlib.Core.Path.{subst}
use text.Mathlib.Text.{◌==◌ as str_eq}
use text.Mathlib.TextEquality.{eq_iff}
use gpu_k8s_operator.Prelude.{
  ℕ, zero, suc, ◌<◌, ◌≡◌, ◌≢◌, ◌↔◌, inl, inr, refl, sym, ap, ◌∙◌, true, false, String, some, List,
  [], ◌∷◌, IsIn, arith, Bool-cases, str_ne, if◌then◌else◌,
}
use gpu_k8s_operator.GoTime.{Time}
use gpu_k8s_operator.Numbers.{Numbers, IsOrdered, fzero}
use gpu_k8s_operator.Accounting.{Pod as AccPod}
use gpu_k8s_operator.Kube.{Pod, lookup}
use gpu_k8s_operator.Kube.Maps.{lookup-insert}
use gpu_k8s_operator.PodConversion.{
  pod_to_accounting, gpu_request_total, sum_requests, earliest_container_start, pod_end,
}
use gpu_k8s_operator.PodConversion.Laws.{pod_to_accounting_iff}
use gpu_k8s_operator.Generator.{Options, WorkerPod, Platform, build_pod, managed_by, run, Exit}
use gpu_k8s_operator.Generator.Launches.{first_pods, Asked, IsRun, run-IsRun}

among_first :
    {Q : Type 0} (pod_of : ℕ → WorkerPod Q) (n : ℕ) (w : WorkerPod Q)
    → IsIn w (first_pods pod_of n)
    → (i : ℕ) × (i < n) × (pod_of i ≡ w)
among_first pod_of zero w m = absurd m
among_first pod_of (suc n) w (inl e) = (n, omega arith, e)
among_first pod_of (suc n) w (inr m) =
    let (i, lt, e) = among_first pod_of n w m in (i, omega (arith, lt), e)

module _ (num : Numbers) (pf : Platform num) where
  open num use {Float, Quantity, fadd, fle, as_approximate_float64}

  tracked_iff :
      (p : Pod Quantity) (res : String) (t : Time)
      → earliest_container_start num p ≡ some t
      → ((acc : AccPod Float) × (pod_to_accounting num p res ≡ some acc))
        ↔ (fle (gpu_request_total num p res) (fzero num) ≡ false)
  tracked_iff p res t start =
      let acc : AccPod Float = record {
        id = p.uid;
        start = t;
        end = pod_end num p;
        gpus = gpu_request_total num p res;
      } in
      (
        (λ (a, e). ((pod_to_accounting_iff num p res a).0 e).0),
        (λ above. (acc, (pod_to_accounting_iff num p res acc).1 (above, start, refl, refl, refl))),
      )

  requested :
      (p : Pod Quantity) (own : String) (q : Quantity)
      → p.containers ≡ record { requests = (own, q) ∷ [] } ∷ []
      → gpu_request_total num p own ≡ fadd (fzero num) (as_approximate_float64 q)
  unfolding gpu_request_total sum_requests
  requested p own q one =
      let same : str_eq own own ≡ true = (eq_iff own own).1 refl in rw one (rw same refl)

  not_requested :
      (p : Pod Quantity) (res own : String) (q : Quantity)
      → p.containers ≡ record { requests = (own, q) ∷ [] } ∷ []
      → own ≢ res
      → gpu_request_total num p res ≡ fzero num
  unfolding gpu_request_total sum_requests
  not_requested p res own q one apart =
      let other : str_eq own res ≡ false = str_ne own res apart in rw one (rw other refl)

  -- A pod with one container is counted exactly if that requests the counted resource.
  counted :
      IsOrdered num
      → (p : Pod Quantity) (res own : String) (q : Quantity) (t : Time)
      → p.containers ≡ record { requests = (own, q) ∷ [] } ∷ []
      → earliest_container_start num p ≡ some t
      → ((acc : AccPod Float) × (pod_to_accounting num p res ≡ some acc))
        ↔ ((res ≡ own) × (fle (fadd (fzero num) (as_approximate_float64 q)) (fzero num) ≡ false))
  counted ord p res own q t one start =
      let known = tracked_iff p res t start in
      elim (Bool-cases (str_eq own res)) [
        | inl e ↦
            let same : res ≡ own = sym ((eq_iff own res).0 e) in
            let total : gpu_request_total num p res ≡ fadd (fzero num) (as_approximate_float64 q) =
              ap (gpu_request_total num p) same ∙ requested p own q one in
            (
              (λ a. (same, ap (λ x. fle x (fzero num)) (sym total) ∙ known.0 a)),
              (λ b. known.1 (ap (λ x. fle x (fzero num)) total ∙ b.1)),
            )
        | inr e ↦
            let apart : own ≢ res = λ w. cc (e, (eq_iff own res).1 w) in
            let total = not_requested p res own q one apart in
            (
              (λ a. cc (ap (λ x. fle x (fzero num)) total, known.0 a, ord.zero_num)),
              (λ b. absurd (apart (sym b.0))),
            )
      ]

  label_of :
      (o : Options Float) (key value : String) (q : Quantity) (i : ℕ)
      → lookup key (build_pod num pf o key value q i).pod.labels
        ≡ some (if str_eq managed_by key then "gwb-workload" else value)
  unfolding build_pod
  label_of o key value q i =
      let same : str_eq key key ≡ true = (eq_iff key key).1 refl in
      lookup-insert managed_by key "gwb-workload" ((key, value) ∷ [])
      ∙ rw same
          (elim (Bool-cases (str_eq managed_by key)) [ inl e ↦ rw e refl | inr e ↦ rw e refl ])

  run_among :
      (o : Options Float) (r : List (WorkerPod Quantity) × Exit Float) (w : WorkerPod Quantity)
      → IsRun num pf o r
      → IsIn w r.0
      → (a : Asked num pf o) × (i : ℕ) × (build_pod num pf o a.key a.value a.gpu_qty i ≡ w)
  run_among o (made, exit) w (inl (none_made, bad)) m = absurd (subst (IsIn w) none_made m)
  run_among o (made, exit) w (inr (a, (j, le, same, ends))) m =
      let pod_of = build_pod num pf o a.key a.value a.gpu_qty in
      let (i, lt, e) = among_first pod_of j w (subst (IsIn w) same m) in (a, i, e)

  -- The generator and the operator fit: of a pod that a run of the generator created, on the server
  -- with the same containers and labels and a known start, the label at the asked key has the asked
  -- value, or gwb-workload if the key is app.kubernetes.io/managed-by, and the accounting counts
  -- the pod exactly if it looks at the resource that the generator requests and the amount is above
  -- 0.
  pub created-tracked :
      (o : Options Float) (w : WorkerPod Quantity) (p : Pod Quantity) (res : String) (t : Time)
      → IsOrdered num
      → IsIn w (run num pf o).0
      → p.containers ≡ w.pod.containers
      → p.labels ≡ w.pod.labels
      → earliest_container_start num p ≡ some t
      → (a : Asked num pf o) × (lookup a.key p.labels
          ≡ some (if str_eq managed_by a.key then "gwb-workload" else a.value))
        × (((acc : AccPod Float) × (pod_to_accounting num p res ≡ some acc)) ↔ (
            (res ≡ o.gpu_resource)
            × (fle (fadd (fzero num) (as_approximate_float64 a.gpu_qty)) (fzero num) ≡ false)))
  unfolding build_pod
  created-tracked o w p res t ord made containers labels start =
      let (a, i, e) = run_among o (run num pf o) w (run-IsRun num pf o) made in
      (
        a,
        ap (lookup a.key) (labels ∙ ap (λ v. v.pod.labels) (sym e))
            ∙ label_of o a.key a.value a.gpu_qty i,
        counted ord p res o.gpu_resource a.gpu_qty t
            (containers ∙ ap (λ v. v.pod.containers) (sym e)) start,
      )
