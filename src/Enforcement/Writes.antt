-- ===== src/Enforcement/Writes.antt =====
-- How often a computation of the operator changes a pod, and what values it returns: the rules for
-- the computation's parts.
use gpu_k8s_operator.Prelude.{ℕ, ◌+◌, ◌≤◌, ◌≡◌, false, List, arith, Result, ok, err}
use gpu_k8s_operator.GoTime.{Time}
use gpu_k8s_operator.Numbers.{Numbers}
use gpu_k8s_operator.Kube.{Pod}
use gpu_k8s_operator.Api.{GpuWorkloadBudget}
use gpu_k8s_operator.Cluster.{Cluster, Call, M, ◌>>=◌, call, emit, after_call}
use gpu_k8s_operator.Enforcement.{Enforcer, enforce}
use gpu_k8s_operator.Enforcement.Effects.{is_pod_write, pod_writes, pod_writes-append, enforce-Adds}

-- At most `n` changes of a pod.
abbrev pub Writes : {Q F A : Type 0} → ℕ → M Q F A → Type 0
Writes {Q} {F} n m = (h : List (Call Q F)) → pod_writes (m h).0 ≤ n + pod_writes h

-- A predicate on the value of a result, if there is one.
abbrev pub AllOk : {A : Type 0} → (A → Type 0) → Result A → Type 0
AllOk P (ok a) = P a
AllOk P (err e) = Unit

-- A predicate on every value that a computation returns.
abbrev pub Returns : {Q F A : Type 0} → (A → Type 0) → M Q F A → Type 0
Returns {Q} {F} P m = (h : List (Call Q F)) → AllOk P (m h).1

module _ {Q F : Type 0} where
  after_call-Writes :
      {A B : Type 0} (n : ℕ) (f : A → M Q F B) (h : List (Call Q F)) (r : Result A)
      → ((a : A) → Writes n (f a))
      → pod_writes (after_call f h r).0 ≤ n + pod_writes h
  after_call-Writes n f h (ok a) w = w a h
  after_call-Writes n f h (err e) w = omega arith

  pub bind-Writes :
      {A B : Type 0} (k n : ℕ) (m : M Q F A) (f : A → M Q F B)
      → Writes k m
      → ((a : A) → Writes n (f a))
      → Writes (n + k) (m >>= f)
  bind-Writes k n m f w v h = omega (arith, w h, after_call-Writes n f (m h).0 (m h).1 v)

  pub call-Writes :
      {A : Type 0} (c : Call Q F) (answer : List (Call Q F) → Result A)
      → is_pod_write c ≡ false
      → Writes 0 (call c answer)
  call-Writes c answer e h = rw e (omega arith)

  pub emit-Writes : (c : Call Q F) → is_pod_write c ≡ false → Writes 0 (emit c)
  emit-Writes c e h = rw e (omega arith)

  after_call-Returns :
      {A B : Type 0} (P : B → Type 0) (f : A → M Q F B) (h : List (Call Q F)) (r : Result A)
      → ((a : A) → Returns P (f a))
      → AllOk P (after_call f h r).1
  after_call-Returns P f h (ok a) v = v a h
  after_call-Returns P f h (err e) v = tt

  pub bind-Returns :
      {A B : Type 0} (P : B → Type 0) (m : M Q F A) (f : A → M Q F B)
      → ((a : A) → Returns P (f a))
      → Returns P (m >>= f)
  bind-Returns P m f v h = after_call-Returns P f (m h).0 (m h).1 v

pub enforce-Writes :
    (num : Numbers) (cl : Cluster num) (e : Enforcer) (budget : GpuWorkloadBudget num.Quantity)
    (pod : Pod num.Quantity) (now : Time)
    → Writes 1 (enforce num cl e budget pod now)
enforce-Writes num cl e budget pod now h =
    let adds = enforce-Adds num cl budget pod now e h in
    rw adds.added (omega (arith, pod_writes-append adds.calls h, adds.at_most_one))
