-- ===== src/Controller/Failing.antt =====
-- The calls of a round of `Reconcile` that the server refuses, and the error that the round returns.
pub mod Enforcing
pub mod Rounds
pub mod Tests
use gpu_k8s_operator.Prelude.{
  ◌≡◌, refl, Bool, true, false, ◌||◌, String, Option, none, some, List, ◌∷◌, ◌⊎◌, inl, inr, Result,
  ok, err, Error, api_status, wrapped,
}
use gpu_k8s_operator.Numbers.{Numbers}
use gpu_k8s_operator.Cluster.{
  Cluster, Call, get_budget, update_budget, list_pods, list_budgets, patch_status, patch_pod,
  evict_pod, M, ◌>>=◌, call, wrap, wrap_result, after_call, is_not_found, is_too_many_requests,
}

-- An error is another one, with or without messages around it.
abbrev pub Wraps : Error → Error → Type 0
Wraps (api_status r m) x = api_status r m ≡ x
Wraps (wrapped m e) x = (wrapped m e ≡ x) ⊎ Wraps e x

pub Wraps-self : (e : Error) → Wraps e e
Wraps-self (api_status r m) = refl
Wraps-self (wrapped m e) = inl refl

abbrev pub error_of : {A : Type 0} → Result A → Option Error
error_of (ok a) = none
error_of (err e) = some e

module _ (num : Numbers) (cl : Cluster num) where
  open num use {Float, Quantity}

  -- The error with which the server answers a call, made after these.
  abbrev pub refusal : Call Quantity Float → List (Call Quantity Float) → Option Error
  refusal (get_budget ns name) h = error_of (cl.get h ns name)
  refusal (update_budget b) h = error_of (cl.update h b)
  refusal (list_pods ns s) h = error_of (cl.list h ns s)
  refusal (list_budgets ns) h = error_of (cl.list_all h ns)
  refusal (patch_status old new) h = error_of (cl.patch_budget h old new)
  refusal (patch_pod old new) h = error_of (cl.patch h old new)
  refusal (evict_pod ns e) h = error_of (cl.evict h ns e)
  refusal _ h = none

  -- The refusals that a round goes on after: a budget that is gone, a list of pods that fails, and
  -- an eviction of a pod that is gone or held back by a disruption budget.
  abbrev pub tolerated : Call Quantity Float → Error → Bool
  tolerated (get_budget ns name) e = is_not_found e
  tolerated (list_pods ns s) e = true
  tolerated (evict_pod ns v) e = is_not_found e || is_too_many_requests e
  tolerated _ e = false

  abbrev pub allowed : Call Quantity Float → Option Error → Bool
  allowed c none = true
  allowed c (some e) = tolerated c e

  -- The calls made since `h`, none of which was refused, but for the tolerated refusals.
  pub data FineCalls (h : List (Call Quantity Float)) : List (Call Quantity Float) → Type 0 where
    here : FineCalls h h
    next :
        {k : List (Call Quantity Float)} (c : Call Quantity Float)
        → FineCalls h k
        → allowed c (refusal c k) ≡ true
        → FineCalls h (c ∷ k)

  pub FineCalls-trans :
      {h k l : List (Call Quantity Float)} → FineCalls h k → FineCalls k l → FineCalls h l
  FineCalls-trans first here = first
  FineCalls-trans first (next c rest fine) = next c (FineCalls-trans first rest) fine

  -- Without an error, all calls are fine. An error is that of the last call, a refusal that is not
  -- tolerated, and the calls before it are fine.
  abbrev pub EndsRefused :
      {A : Type 0} → List (Call Quantity Float) → List (Call Quantity Float) → Result A → Type 0
  EndsRefused h h' (ok a) = FineCalls h h'
  EndsRefused h h' (err e) =
      (c : Call Quantity Float) × (before : List (Call Quantity Float)) × (x : Error) × (h'
        ≡ c ∷ before)
      × FineCalls h before
      × (refusal c before ≡ some x)
      × (tolerated c x ≡ false)
      × Wraps e x

  abbrev pub FailsLast : {A : Type 0} → M Quantity Float A → Type 0
  FailsLast m = (h : List (Call Quantity Float)) → EndsRefused h (m h).0 (m h).1

  -- Fine calls first change nothing.
  pub extend :
      {A : Type 0} {h k : List (Call Quantity Float)} (m : List (Call Quantity Float) × Result A)
      → FineCalls h k
      → EndsRefused k m.0 m.1
      → EndsRefused h m.0 m.1
  extend (l, ok a) first rest = FineCalls-trans first rest
  extend (l, err e) first (c, before, x, last, fine, refused, strict, wraps) =
      (c, before, x, last, FineCalls-trans first fine, refused, strict, wraps)

  after_call-FailsLast :
      {A B : Type 0} (f : A → M Quantity Float B) (h k : List (Call Quantity Float)) (r : Result A)
      → EndsRefused h k r
      → ((a : A) → FailsLast (f a))
      → EndsRefused h (after_call f k r).0 (after_call f k r).1
  after_call-FailsLast f h k (ok a) first rest = extend (f a k) first (rest a k)
  after_call-FailsLast f h k (err e) first rest = first

  pub bind-FailsLast :
      {A B : Type 0} (m : M Quantity Float A) (f : A → M Quantity Float B)
      → FailsLast m
      → ((a : A) → FailsLast (f a))
      → FailsLast (m >>= f)
  bind-FailsLast m f first rest h = after_call-FailsLast f h (m h).0 (m h).1 (first h) rest

  wrap_result-EndsRefused :
      {A : Type 0} (msg : String) (h k : List (Call Quantity Float)) (r : Result A)
      → EndsRefused h k r
      → EndsRefused h k (wrap_result msg r)
  wrap_result-EndsRefused msg h k (ok a) first = first
  wrap_result-EndsRefused msg h k (err e) (c, before, x, last, fine, refused, strict, wraps) =
      (c, before, x, last, fine, refused, strict, inr wraps)

  pub wrap-FailsLast :
      {A : Type 0} (msg : String) (m : M Quantity Float A) → FailsLast m → FailsLast (wrap msg m)
  wrap-FailsLast msg m first h = wrap_result-EndsRefused msg h (m h).0 (m h).1 (first h)

  answered :
      {A : Type 0} (c : Call Quantity Float) (h : List (Call Quantity Float)) (r : Result A)
      → ((x : Error) → tolerated c x ≡ false)
      → refusal c h ≡ error_of r
      → EndsRefused h (c ∷ h) r
  answered c h (ok a) strict e = next c here (rw e refl)
  answered c h (err x) strict e = (c, h, x, refl, here, e, strict x, Wraps-self x)

  -- A call no refusal of which is tolerated, and whose error is returned.
  pub call-FailsLast :
      {A : Type 0} (c : Call Quantity Float) (answer : List (Call Quantity Float) → Result A)
      → ((x : Error) → tolerated c x ≡ false)
      → ((h : List (Call Quantity Float)) → refusal c h ≡ error_of (answer h))
      → FailsLast (call c answer)
  call-FailsLast c answer strict e h = answered c h (answer h) strict (e h)
