-- ===== src/Enforcement/Effects.antt =====
-- What an enforcer does to the cluster: which calls it makes, on which pod, and what it reports.
use mathlib.Core.List.{append_assoc}
use gpu_k8s_operator.Prelude.{
  ℕ, ◌+◌, ◌≤◌, ◌≡◌, refl, sym, Bool, true, false, String, Option, none, some, List, [], ◌∷◌, ◌++◌,
  inl, inr, arith, All, All-append, if◌then◌else◌, Bool-cases, Result, ok, err,
}
use gpu_k8s_operator.GoTime.{Time}
use gpu_k8s_operator.Numbers.{Numbers}
use gpu_k8s_operator.Kube.{Pod, lookup}
use gpu_k8s_operator.Api.{GpuWorkloadBudget}
use gpu_k8s_operator.Cluster.{
  Cluster, Call, event, patch_pod, evict_pod, is_not_found, is_too_many_requests,
}
use gpu_k8s_operator.Enforcement.{
  Enforcer, Outcome, evictor, pauser, alerter, stamp, enforce, eviction_of, evict_answer,
  evict_unless, pause_unless, annotation_paused_at, alert,
}

-- The calls that change a pod.
abbrev pub is_pod_write : {Q F : Type 0} → Call Q F → Bool
is_pod_write (patch_pod _ _) = true
is_pod_write (evict_pod _ _) = true
is_pod_write _ = false

abbrev pub pod_writes : {Q F : Type 0} → List (Call Q F) → ℕ
pod_writes [] = 0
pod_writes (c ∷ h) = (if is_pod_write c then 1 else 0) + pod_writes h

-- Whether a result reports a change; an error reports none.
abbrev pub acted : Result Outcome → Bool
acted (ok out) = out.acted
acted (err e) = false

abbrev pub is_err : {A : Type 0} → Result A → Bool
is_err (ok a) = false
is_err (err e) = true

pub pod_writes-append :
    {Q F : Type 0} (cs h : List (Call Q F)) → pod_writes (cs ++ h) ≡ pod_writes cs + pod_writes h
pod_writes-append [] h = omega arith
pod_writes-append (c ∷ cs) h = omega (arith, pod_writes-append cs h)

module _ (num : Numbers) (cl : Cluster num) (budget : GpuWorkloadBudget num.Quantity)
    (pod : Pod num.Quantity) where
  open num use {Float, Quantity}

  -- A call that an enforcer may make: an event on the budget, the stamp of this pod, or the
  -- eviction of this pod with the budget's grace period.
  abbrev pub IsOwn : Time → Call Quantity Float → Type 0
  IsOwn now (event ns name _ _ _) = (ns ≡ budget.namespace) × (name ≡ budget.name)
  IsOwn now (patch_pod old new) = (old ≡ pod) × (new ≡ stamp num cl budget pod now)
  IsOwn now (evict_pod ns e) = (ns ≡ pod.namespace) × (e ≡ eviction_of num cl budget pod)
  IsOwn now _ = ⊥

  -- The calls that a run adds, and how they go with its result.
  pub record Adds (now : Time) (e : Enforcer) (h h' : List (Call Quantity Float))
      (r : Result Outcome) : Type 0 where
    pub calls : List (Call Quantity Float)
    pub added : h' ≡ calls ++ h
    pub own : All (IsOwn now) calls
    pub at_most_one : pod_writes calls ≤ 1
    pub acted_writes : acted r ≡ true → pod_writes calls ≡ 1
    pub alerter_writes : e ≡ alerter → pod_writes calls ≡ 0

  -- A run that makes no call.
  none_added :
      (now : Time) (e : Enforcer) (h : List (Call Quantity Float)) (r : Result Outcome)
      → acted r ≡ false
      → Adds now e h h r
  none_added now e h r a = record {
    calls = [];
    added = refl;
    own = tt;
    at_most_one = omega arith;
    acted_writes = λ w. cc (w, a);
    alerter_writes = λ _. refl;
  }

  -- A run of the evictor that submits the eviction, and then makes other calls.
  evict_added :
      (now : Time) (h cs : List (Call Quantity Float)) (r : Result Outcome)
      → All (IsOwn now) cs
      → pod_writes cs ≡ 0
      → let c : Call Quantity Float = evict_pod pod.namespace (eviction_of num cl budget pod) in
        Adds now evictor h (cs ++ c ∷ h) r
  evict_added now h cs r o z = record {
    calls = cs ++ evict_pod pod.namespace (eviction_of num cl budget pod) ∷ [];
    added = sym (append_assoc cs _ h);
    own = All-append (IsOwn now) cs _ o ((refl, refl), tt);
    at_most_one = omega (
      arith,
      pod_writes-append cs (evict_pod pod.namespace (eviction_of num cl budget pod) ∷ []),
    );
    acted_writes = λ _. omega (
      arith,
      pod_writes-append cs (evict_pod pod.namespace (eviction_of num cl budget pod) ∷ []),
    );
    alerter_writes = λ e. cc;
  }

  evict_answer-Adds :
      (now : Time) (h : List (Call Quantity Float)) (a : Result (Unit {0}))
      → let c : Call Quantity Float = evict_pod pod.namespace (eviction_of num cl budget pod) in
        Adds now evictor h
          (evict_answer num cl budget pod a (c ∷ h)).0
          (evict_answer num cl budget pod a (c ∷ h)).1
  evict_answer-Adds now h (ok done) =
      evict_added now h (event _ _ _ _ _ ∷ []) _ ((refl, refl), tt) refl
  evict_answer-Adds now h (err x) = elim (Bool-cases (is_not_found x)) [
    | inl e ↦ rw e (evict_added now h [] _ tt refl)
    | inr e ↦ elim (Bool-cases (is_too_many_requests x)) [
      | inl f ↦ rw (e, f) (evict_added now h (event _ _ _ _ _ ∷ []) _ ((refl, refl), tt) refl)
      | inr f ↦ rw (e, f) (evict_added now h [] _ tt refl)
    ]
  ]

  evict-Adds :
      (now : Time) (h : List (Call Quantity Float)) (o : Option Time)
      → Adds now evictor h
          (evict_unless num cl budget pod o h).0
          (evict_unless num cl budget pod o h).1
  evict-Adds now h (some t) = none_added now evictor h _ refl
  evict-Adds now h none =
      evict_answer-Adds now h (cl.evict h pod.namespace (eviction_of num cl budget pod))

  alert-Adds :
      (now : Time) (h : List (Call Quantity Float))
      → Adds now alerter h (alert num cl budget pod h).0 (alert num cl budget pod h).1
  unfolding alert
  alert-Adds now h = record {
    calls = event _ _ _ _ _ ∷ [];
    added = refl;
    own = ((refl, refl), tt);
    at_most_one = omega arith;
    acted_writes = λ w. cc w;
    alerter_writes = λ _. refl;
  }

  -- The stamp, answered by `a`.
  pause_answer-Adds :
      (now : Time) (h : List (Call Quantity Float)) (a : Result (Pod Quantity))
      → cl.patch h pod (stamp num cl budget pod now) ≡ a
      → Adds now pauser h
          (pause_unless num cl budget pod now none h).0
          (pause_unless num cl budget pod now none h).1
  pause_answer-Adds now h (ok patched) e = rw e (record {
    calls = event _ _ _ _ _ ∷ patch_pod _ _ ∷ [];
    added = refl;
    own = ((refl, refl), ((refl, refl), tt));
    at_most_one = omega arith;
    acted_writes = λ _. refl;
    alerter_writes = λ e. cc;
  })
  pause_answer-Adds now h (err x) e = rw e (record {
    calls = patch_pod _ _ ∷ [];
    added = refl;
    own = ((refl, refl), tt);
    at_most_one = omega arith;
    acted_writes = λ _. refl;
    alerter_writes = λ e. cc;
  })

  pause-Adds :
      (now : Time) (h : List (Call Quantity Float)) (o : Option String)
      → Adds now pauser h
          (pause_unless num cl budget pod now o h).0
          (pause_unless num cl budget pod now o h).1
  pause-Adds now h (some already) = none_added now pauser h _ refl
  pause-Adds now h none = pause_answer-Adds now h _ refl

  -- Whatever the action and whatever the server answers, an enforcer only adds events on its budget
  -- and at most one change of a pod, which is of the given pod; if it reports that it acted, it
  -- made that one change; and the alerter makes none.
  pub enforce-Adds :
      (now : Time) (e : Enforcer) (h : List (Call Quantity Float))
      → Adds now e h (enforce num cl e budget pod now h).0 (enforce num cl e budget pod now h).1
  unfolding enforce
  enforce-Adds now evictor h = evict-Adds now h pod.deletion_timestamp
  enforce-Adds now pauser h = pause-Adds now h (lookup annotation_paused_at pod.annotations)
  enforce-Adds now alerter h = alert-Adds now h
