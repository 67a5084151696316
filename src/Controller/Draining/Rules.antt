-- ===== src/Controller/Draining/Rules.antt =====
-- The changes made and left, and the rules for the parts of a computation that does not raise them.
use gpu_k8s_operator.Prelude.{
  ℕ, ◌+◌, ◌≤◌, ◌≡◌, refl, false, List, [], ◌∷◌, ◌++◌, ◌∙◌, All, arith, Result, ok, err,
}
use gpu_k8s_operator.Numbers.{Numbers}
use gpu_k8s_operator.Kube.{Pod}
use gpu_k8s_operator.Cluster.{Cluster, Call, patch_pod, evict_pod, M, ◌>>=◌, after_call}
use gpu_k8s_operator.Enforcement.Effects.{is_pod_write}
use gpu_k8s_operator.Controller.Draining.{accepts, accepted, weight, IsAlone}

module _ (num : Numbers) (cl : Cluster num)
    (live : List (Call num.Quantity num.Float) → List (Pod num.Quantity)) where
  open num use {Float, Quantity}

  -- The changes that were accepted, and those that the pods can still get.
  abbrev pub potential : List (Call Quantity Float) → ℕ
  potential h = accepted num cl h + weight (live h)

  abbrev pub LowersAt : {A : Type 0} → M Quantity Float A → List (Call Quantity Float) → Type 0
  LowersAt m h = potential (m h).0 ≤ potential h

  -- The same pods, and no change accepted.
  abbrev pub IsQuiet : List (Call Quantity Float) → List (Call Quantity Float) → Type 0
  IsQuiet h h' = (live h' ≡ live h) × (accepted num cl h' ≡ accepted num cl h)

  -- Only a change of a pod is accepted as one.
  accepts_write :
      (c : Call Quantity Float) (h : List (Call Quantity Float))
      → is_pod_write c ≡ false
      → accepts num cl c h ≡ false
  accepts_write (patch_pod old new) h e = cc e
  accepts_write (evict_pod ns ev) h e = cc e
  accepts_write _ h e = refl

  pub quiet-Lowers : (h h' : List (Call Quantity Float)) → IsQuiet h h' → potential h' ≤ potential h
  quiet-Lowers h h' (same, none_accepted) = rw (same, none_accepted) (omega arith)

  -- The part that follows may use what the first part answered.
  pub bind-Lowers :
      {A B : Type 0} (m : M Quantity Float A) (f : A → M Quantity Float B)
      (h : List (Call Quantity Float))
      → LowersAt m h
      → ((a : A) → (m h).1 ≡ ok a → LowersAt (f a) (m h).0)
      → LowersAt (m >>= f) h
  bind-Lowers m f h first rest = after (m h).1 refl
    where
      after : (r : Result _) → (m h).1 ≡ r → potential (after_call f (m h).0 r).0 ≤ potential h
      after (ok a) e = omega (arith, first, rest a e)
      after (err x) e = omega (arith, first)

  module _ (alone : IsAlone num cl live) where
    pub call-IsQuiet :
        (h : List (Call Quantity Float)) (c : Call Quantity Float)
        → accepts num cl c h ≡ false
        → IsQuiet h (c ∷ h)
    call-IsQuiet h c e = (alone.leaves h c e, rw e (omega arith))

    -- Calls that change no pod, one after the other.
    pub calls-IsQuiet :
        (h cs : List (Call Quantity Float))
        → All (λ c. is_pod_write c ≡ false) cs
        → IsQuiet h (cs ++ h)
    calls-IsQuiet h [] all = (refl, refl)
    calls-IsQuiet h (c ∷ cs) (e, all) =
        let (same, none_accepted) = calls-IsQuiet h cs all in
        let (same', none_accepted') = call-IsQuiet (cs ++ h) c (accepts_write c (cs ++ h) e) in
        (same' ∙ same, none_accepted' ∙ none_accepted)

    pub calls_Lower :
        (h cs : List (Call Quantity Float))
        → All (λ c. is_pod_write c ≡ false) cs
        → potential (cs ++ h) ≤ potential h
    calls_Lower h cs all = quiet-Lowers h (cs ++ h) (calls-IsQuiet h cs all)
