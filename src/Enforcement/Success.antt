-- ===== src/Enforcement/Success.antt =====
-- Computations that return no error, and the servers under which an enforcer is one.
use gpu_k8s_operator.Prelude.{
  ◌≡◌, refl, Bool, true, false, ◌||◌, String, List, Option, none, some, inl, inr, Bool-cases,
  Result, ok, err,
}
use gpu_k8s_operator.GoTime.{Time}
use gpu_k8s_operator.Numbers.{Numbers}
use gpu_k8s_operator.Kube.{Pod, lookup}
use gpu_k8s_operator.Api.{GpuWorkloadBudget}
use gpu_k8s_operator.Cluster.{
  Cluster, Call, Eviction, M, ◌>>=◌, after_call, wrap, is_not_found, is_too_many_requests, event,
}
use gpu_k8s_operator.Enforcement.{
  Enforcer, evictor, pauser, alerter, enforce, evict_answer, evict_unless, pause_unless,
  eviction_of, stamp, alert, annotation_paused_at,
}
use gpu_k8s_operator.Enforcement.Effects.{is_err}

abbrev pub Succeeds : {Q F A : Type 0} → M Q F A → Type 0
Succeeds {Q} {F} m = (h : List (Call Q F)) → is_err (m h).1 ≡ false

-- The answers to an eviction that the operator does not report as an error.
abbrev pub is_tolerated : Result (Unit {0}) → Bool
is_tolerated (ok done) = true
is_tolerated (err e) = is_not_found e || is_too_many_requests e

-- The answers to a fetch that the operator does not report as an error.
abbrev pub is_settled : {A : Type 0} → Result A → Bool
is_settled (ok a) = true
is_settled (err e) = is_not_found e

-- A server that fails no call, but may not find the budget, may not find the pod of an eviction, and
-- may refuse an eviction for a disruption budget.
pub record IsHealthy (num : Numbers) (cl : Cluster num) : Type 0 where
  pub gets :
      (h : List (Call num.Quantity num.Float)) (ns name : String)
      → is_settled (cl.get h ns name) ≡ true
  pub updates :
      (h : List (Call num.Quantity num.Float)) (b : GpuWorkloadBudget num.Quantity)
      → is_err (cl.update h b) ≡ false
  pub patches_budget :
      (h : List (Call num.Quantity num.Float)) (old new : GpuWorkloadBudget num.Quantity)
      → is_err (cl.patch_budget h old new) ≡ false
  pub patches_pod :
      (h : List (Call num.Quantity num.Float)) (old new : Pod num.Quantity)
      → is_err (cl.patch h old new) ≡ false
  pub evicts :
      (h : List (Call num.Quantity num.Float)) (ns : String) (e : Eviction)
      → is_tolerated (cl.evict h ns e) ≡ true

module _ {Q F : Type 0} where
  after_call-Succeeds :
      {A B : Type 0} (f : A → M Q F B) (h : List (Call Q F)) (r : Result A)
      → is_err r ≡ false
      → ((a : A) → Succeeds (f a))
      → is_err (after_call f h r).1 ≡ false
  after_call-Succeeds f h (ok a) e s = s a h
  after_call-Succeeds f h (err x) e s = cc e

  pub bind-Succeeds :
      {A B : Type 0} (m : M Q F A) (f : A → M Q F B)
      → Succeeds m
      → ((a : A) → Succeeds (f a))
      → Succeeds (m >>= f)
  bind-Succeeds m f s t h = after_call-Succeeds f (m h).0 (m h).1 (s h) t

  pub wrap-Succeeds : {A : Type 0} (msg : String) (m : M Q F A) → Succeeds m → Succeeds (wrap msg m)
  wrap-Succeeds msg m s h = wrapped_ok (m h).1 (s h)
    where
      wrapped_ok :
          {A : Type 0} (r : Result A)
          → is_err r ≡ false
          → is_err (gpu_k8s_operator.Cluster.wrap_result msg r) ≡ false
      wrapped_ok (ok a) e = refl
      wrapped_ok (err x) e = cc e

module _ (num : Numbers) (cl : Cluster num) (healthy : IsHealthy num cl)
    (budget : GpuWorkloadBudget num.Quantity) (pod : Pod num.Quantity) where
  open num use {Float, Quantity}

  evict_answer-ok :
      (a : Result (Unit {0})) → is_tolerated a ≡ true → Succeeds (evict_answer num cl budget pod a)
  evict_answer-ok (ok done) e h = refl
  evict_answer-ok (err x) e h = elim (Bool-cases (is_not_found x)) [
    | inl p ↦ rw p refl
    | inr p ↦ elim (Bool-cases (is_too_many_requests x)) [
      | inl q ↦ rw (p, q) refl
      | inr q ↦ cc (p, q, e)
    ]
  ]

  evict_unless-Succeeds : (o : Option Time) → Succeeds (evict_unless num cl budget pod o)
  evict_unless-Succeeds (some t) h = refl
  evict_unless-Succeeds none h =
      evict_answer-ok (cl.evict h pod.namespace (eviction_of num cl budget pod))
        (healthy.evicts h pod.namespace (eviction_of num cl budget pod)) _

  pause_answer-ok :
      (now : Time) (h : List (Call Quantity Float)) (a : Result (Pod Quantity))
      → cl.patch h pod (stamp num cl budget pod now) ≡ a
      → is_err a ≡ false
      → is_err (pause_unless num cl budget pod now none h).1 ≡ false
  pause_answer-ok now h (ok patched) e ne = rw e refl
  pause_answer-ok now h (err x) e ne = cc ne

  pause_unless-Succeeds :
      (now : Time) (o : Option String) → Succeeds (pause_unless num cl budget pod now o)
  pause_unless-Succeeds now (some t) h = refl
  pause_unless-Succeeds now none h =
      pause_answer-ok now h (cl.patch h pod (stamp num cl budget pod now)) refl
        (healthy.patches_pod h pod (stamp num cl budget pod now))

  pub enforce-Succeeds : (e : Enforcer) (now : Time) → Succeeds (enforce num cl e budget pod now)
  unfolding enforce alert
  enforce-Succeeds evictor now h = evict_unless-Succeeds pod.deletion_timestamp h
  enforce-Succeeds pauser now h =
      pause_unless-Succeeds now (lookup annotation_paused_at pod.annotations) h
  enforce-Succeeds alerter now h = refl
