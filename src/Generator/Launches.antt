-- ===== src/Generator/Launches.antt =====
-- Which pods a run of the generator creates.
use gpu_k8s_operator.Prelude.{
  ℕ, zero, suc, ◌+◌, ◌≤◌, ◌<◌, ◌≡◌, ◌≢◌, ◌↔◌, ◌⊎◌, inl, inr, refl, ap, ◌∙◌, ◌==◌, false, String,
  Option, none, some, List, [], ◌∷◌, pos, pos_part, leb_ℤ, Result, ok, err, Error, Bool-cases,
  arith,
}
use gpu_k8s_operator.Numbers.{Numbers, fzero}
use gpu_k8s_operator.Generator.Label.{parse_label}
use gpu_k8s_operator.Generator.{
  Options, WorkerPod, Exit, done, failed, RunError, context_error, create_error, Platform,
  after_create, after_wait, build_pod, interval_from_rate, load_kubeconfig, wait_before, launch,
  launch_all, connect, with_quantity, with_label, run,
}

-- The first `n` pods, newest first.
abbrev pub first_pods : {Q : Type 0} → (ℕ → WorkerPod Q) → ℕ → List (WorkerPod Q)
first_pods pod_of zero = []
first_pods pod_of (suc n) = pod_of n ∷ first_pods pod_of n

module _ (num : Numbers) (pf : Platform num) where
  open num use {Float, Quantity, fle}

  -- The pods are the first of the planned ones, and all `n` of them exactly if there is no error.
  abbrev pub Launched :
      (ℕ → WorkerPod Quantity) → ℕ → List (WorkerPod Quantity) × Exit Float → Type 0
  Launched pod_of n (made, exit) =
      (j : ℕ) × (j ≤ n) × (made ≡ first_pods pod_of j) × ((exit ≡ done) ↔ (j ≡ n))

  stopped :
      (pod_of : ℕ → WorkerPod Quantity) (i m : ℕ) (e : RunError Float)
      → i < m
      → Launched pod_of m (first_pods pod_of i, failed e)
  stopped pod_of i m e lt =
      (i, omega (arith, lt), refl, ((λ w. cc w), (λ w. absurd (omega (arith, lt, w)))))

  created :
      (pod_of : ℕ → WorkerPod Quantity) (i m : ℕ) (rest : List (WorkerPod Quantity) × Exit Float)
      (name : String) (a : Result (Unit {0}))
      → i < m
      → Launched pod_of m rest
      → Launched pod_of m (after_create num pf (first_pods pod_of i) name rest a)
  created pod_of i m rest name (ok done_) lt l = l
  created pod_of i m rest name (err e) lt l = stopped pod_of i m (create_error name e) lt

  waited :
      (pod_of : ℕ → WorkerPod Quantity) (i m : ℕ) (rest : List (WorkerPod Quantity) × Exit Float)
      (o : Option Error)
      → i < m
      → Launched pod_of m rest
      → Launched pod_of m (after_wait num pf (first_pods pod_of i) rest o)
  waited pod_of i m rest none lt l = l
  waited pod_of i m rest (some e) lt l = stopped pod_of i m (context_error e) lt

  launch-Launched :
      (cs : pf.Clientset) (pod_of : ℕ → WorkerPod Quantity) (n i m : ℕ)
      → n + i ≡ m
      → Launched pod_of m (launch num pf cs pod_of n i (first_pods pod_of i))
  unfolding launch
  launch-Launched cs pod_of zero i m e =
      (i, omega (arith, e), refl, ((λ _. omega (arith, e)), (λ _. refl)))
  launch-Launched cs pod_of (suc n) i m e =
      let rest = launch num pf cs pod_of n (suc i) (first_pods pod_of (suc i)) in
      let made = first_pods pod_of i in
      waited pod_of i m
        (after_create num pf made (pod_of i).pod.name rest
          (pf.create cs made (pod_of i).pod.namespace (pod_of i)))
        (wait_before num pf i made) (omega (arith, e))
        (created pod_of i m rest (pod_of i).pod.name
          (pf.create cs made (pod_of i).pod.namespace (pod_of i)) (omega (arith, e))
          (launch-Launched cs pod_of n (suc i) m (omega (arith, e))))

  all_of :
      (pod_of : ℕ → WorkerPod Quantity) (n : ℕ) (r : List (WorkerPod Quantity) × Exit Float)
      → Launched pod_of n r
      → r.1 ≡ done
      → r ≡ (first_pods pod_of n, done)
  all_of pod_of n (made, exit) (j, le, same, ends) e =
      λ i. ((same ∙ ap (first_pods pod_of) (ends.0 e)) i, e i)

  -- The pods that the options ask for.
  pub record Asked (o : Options Float) : Type 0 where
    pub key : String
    pub value : String
    pub gpu_qty : Quantity
    pub labelled : parse_label o.label ≡ some (key, value)
    pub parsed : pf.parse_quantity o.gpus ≡ ok gpu_qty
    pub rate : fle o.rate_per_sec (fzero num) ≡ false
    pub count : leb_ℤ o.count (pos 0) ≡ false

  -- Nothing is created and there is an error, or the options are valid and the pods are the first of
  -- those asked for.
  abbrev pub IsRun : Options Float → List (WorkerPod Quantity) × Exit Float → Type 0
  IsRun o r =
      ((r.0 ≡ []) × (r.1 ≢ done))
      ⊎ ((a : Asked o) × Launched (build_pod num pf o a.key a.value a.gpu_qty) (pos_part o.count) r)

  launch_all-IsRun :
      (o : Options Float) (a : Asked o) (r : Result pf.Clientset)
      → IsRun o (launch_all num pf o (build_pod num pf o a.key a.value a.gpu_qty) r)
  launch_all-IsRun o a (err e) = inl (refl, λ w. cc w)
  launch_all-IsRun o a (ok cs) =
      elim (Bool-cases (leb_ℤ (interval_from_rate num pf o.rate_per_sec) (pos 0))) [
        | inl e ↦ rw e (inl (refl, λ w. cc w))
        | inr e ↦ rw e (
            inr (
              a,
              launch-Launched cs (build_pod num pf o a.key a.value a.gpu_qty) (pos_part o.count) 0
                  (pos_part o.count) (omega arith),
            ))
      ]

  connect-IsRun :
      (o : Options Float) (a : Asked o) (r : Result pf.Config)
      → IsRun o (connect num pf o (build_pod num pf o a.key a.value a.gpu_qty) r)
  connect-IsRun o a (err e) = inl (refl, λ w. cc w)
  connect-IsRun o a (ok cfg) = launch_all-IsRun o a (pf.new_for_config cfg)

  quantity-IsRun :
      (o : Options Float) (key value : String) (r : Result Quantity)
      → parse_label o.label ≡ some (key, value)
      → pf.parse_quantity o.gpus ≡ r
      → IsRun o (with_quantity num pf o key value r)
  quantity-IsRun o key value (err e) l p = inl (refl, λ w. cc w)
  quantity-IsRun o key value (ok q) l p = elim (Bool-cases (fle o.rate_per_sec (fzero num))) [
    | inl e ↦ rw e (inl (refl, λ w. cc w))
    | inr e ↦ elim (Bool-cases (leb_ℤ o.count (pos 0))) [
      | inl f ↦ rw (e, f) (inl (refl, λ w. cc w))
      | inr f ↦
          let a : Asked o = record {
            key = key;
            value = value;
            gpu_qty = q;
            labelled = l;
            parsed = p;
            rate = e;
            count = f;
          } in
          rw (e, f) (connect-IsRun o a (load_kubeconfig num pf o.kubeconfig))
    ]
  ]

  label-IsRun :
      (o : Options Float) (l : Option (String × String))
      → parse_label o.label ≡ l
      → IsRun o (with_label num pf o l)
  label-IsRun o none e = inl (refl, λ w. cc w)
  label-IsRun o (some (key, value)) e = quantity-IsRun o key value (pf.parse_quantity o.gpus) e refl

  -- A run of the generator either creates nothing and does not end well, or its options are valid,
  -- the pods created are the first of the planned ones in their order, at most as many as asked
  -- for, and it ends well exactly if all of them were created.
  pub run-IsRun : (o : Options Float) → IsRun o (run num pf o)
  unfolding run
  run-IsRun o = label-IsRun o (parse_label o.label) refl

  -- A platform that fails no call of the generator and does not end its context.
  pub record IsWilling : Type 0 where
    pub configures :
        (override : String) → (cfg : pf.Config) × (load_kubeconfig num pf override ≡ ok cfg)
    pub connects : (cfg : pf.Config) → (cs : pf.Clientset) × (pf.new_for_config cfg ≡ ok cs)
    pub waits : (made : List (WorkerPod Quantity)) → pf.ctx_done made ≡ none
    pub creates :
        (cs : pf.Clientset) (made : List (WorkerPod Quantity)) (ns : String)
        (p : WorkerPod Quantity)
        → pf.create cs made ns p ≡ ok tt

  module _ (willing : IsWilling) where
    no_wait : (i : ℕ) (made : List (WorkerPod Quantity)) → wait_before num pf i made ≡ none
    no_wait i made = elim (Bool-cases (i == 0)) [
      | inl e ↦ rw e refl
      | inr e ↦ rw e (willing.waits made)
    ]

    launch_done :
        (cs : pf.Clientset) (pod_of : ℕ → WorkerPod Quantity) (n i : ℕ)
        (made : List (WorkerPod Quantity))
        → (launch num pf cs pod_of n i made).1 ≡ done
    unfolding launch
    launch_done cs pod_of zero i made = refl
    launch_done cs pod_of (suc n) i made =
        rw (no_wait i made, willing.creates cs made (pod_of i).pod.namespace (pod_of i))
          (launch_done cs pod_of n (suc i) (pod_of i ∷ made))

    -- On a platform that fails no call, with valid options and an interval above 0, a run of the
    -- generator ends well and creates as many pods as asked for, numbered from 0.
    pub all_launched :
        (o : Options Float) (a : Asked o)
        → leb_ℤ (interval_from_rate num pf o.rate_per_sec) (pos 0) ≡ false
        → run num pf o
          ≡ (first_pods (build_pod num pf o a.key a.value a.gpu_qty) (pos_part o.count), done)
    unfolding run
    all_launched o a ticks =
        let cfg = willing.configures o.kubeconfig in
        let cs = willing.connects cfg.0 in
        let pod_of = build_pod num pf o a.key a.value a.gpu_qty in
        rw (a.labelled, a.parsed, a.rate, a.count, cfg.1, cs.1, ticks)
          (all_of pod_of (pos_part o.count) (launch num pf cs.0 pod_of (pos_part o.count) 0 [])
            (launch-Launched cs.0 pod_of (pos_part o.count) 0 (pos_part o.count) (omega arith))
            (launch_done cs.0 pod_of (pos_part o.count) 0 []))
