-- ===== src/Api/Copies/Fields.antt =====
-- The deep copies of a pointer to a time and of a slice of conditions, from what the libraries
-- document of theirs.
use gpu_k8s_operator.Prelude.{
  ℕ, ◌<◌, ◌≤◌, ◌≡◌, ◌∙◌, refl, ap, Option, none, some, List, [], ◌∷◌, map, All, arith,
}
use gpu_k8s_operator.GoTime.{Time}
use gpu_k8s_operator.Kube.{Condition}
use gpu_k8s_operator.Api.Store.{Store, Agree, IsAllocated, IsNew, Copier, IsCopier}
use gpu_k8s_operator.Api.Copiers.{put-put, put_other}
use gpu_k8s_operator.Api.Copies.{Libraries, copy_time, copy_conditions}

-- A nil slice reads as an empty list.
abbrev pub addr_of : Option ℕ → List ℕ
addr_of none = []
addr_of (some a) = a ∷ []

module _ {B : Type 0} where
  abbrev pub time_at : Store B → Option ℕ → Option Time
  time_at s none = none
  time_at s (some a) = some (s.times a)

  abbrev pub conditions_at : Store B → Option ℕ → List Condition
  conditions_at s none = []
  conditions_at s (some a) = s.arrays a

module _ {Q B Meta Selector Amount : Type 0} (lib : Libraries Q B Meta Selector Amount) where
  -- What the libraries document of `DeepCopy` and `DeepCopyInto`.
  pub record AreDeep : Type 0 where
    pub deep_meta : IsCopier lib.object_meta
    pub deep_selector : IsCopier lib.label_selector
    pub deep_quantity : IsCopier lib.quantity
    pub deep_time : (t : Time) → lib.time_copy t ≡ t
    pub deep_condition : (c : Condition) → lib.condition_copy c ≡ c

  abbrev pub times : Copier B (Option ℕ) (Option Time)
  times = record { addrs = addr_of; value = time_at; copy = copy_time lib }

  abbrev pub arrays : Copier B (Option ℕ) (List Condition)
  arrays = record { addrs = addr_of; value = conditions_at; copy = copy_conditions lib }

  map_same :
      (f : Condition → Condition)
      → ((c : Condition) → f c ≡ c)
      → (cs : List Condition) → map f cs ≡ cs
  map_same f e [] = refl
  map_same f e (c ∷ cs) = cc (e c, map_same f e cs)

  module _ (deep : AreDeep) where
    open deep use {deep_meta, deep_selector, deep_quantity, deep_time, deep_condition}

    time_value :
        (s t : Store B) (o : Option ℕ)
        → All (λ a. Agree s t a) (addr_of o)
        → time_at s o ≡ time_at t o
    time_value s t none h = refl
    time_value s t (some a) (h, u) = ap some h.0

    time_next : (o : Option ℕ) (s : Store B) → s.next ≤ (copy_time lib o s).0.next
    time_next none s = omega arith
    time_next (some a) s = omega arith

    time_kept : (o : Option ℕ) (s : Store B) (a : ℕ) → a < s.next → Agree s (copy_time lib o s).0 a
    time_kept none s a lt = (refl, refl, refl)
    time_kept (some b) s a lt =
        (put_other s.times s.next (lib.time_copy (s.times b)) a lt, refl, refl)

    time_copied :
        (o : Option ℕ) (s : Store B)
        → All (IsAllocated s) (addr_of o)
        → time_at (copy_time lib o s).0 (copy_time lib o s).1 ≡ time_at s o
    time_copied none s h = refl
    time_copied (some a) s h =
        ap some (put-put s.times s.next (lib.time_copy (s.times a)) ∙ deep_time (s.times a))

    time-IsNew :
        (o : Option ℕ) (s : Store B)
        → All (IsNew s (copy_time lib o s).0) (addr_of (copy_time lib o s).1)
    time-IsNew none s = tt
    time-IsNew (some a) s = ((omega arith, omega arith), tt)

    array_value :
        (s t : Store B) (o : Option ℕ)
        → All (λ a. Agree s t a) (addr_of o)
        → conditions_at s o ≡ conditions_at t o
    array_value s t none h = refl
    array_value s t (some a) (h, u) = h.1

    array_next : (o : Option ℕ) (s : Store B) → s.next ≤ (copy_conditions lib o s).0.next
    array_next none s = omega arith
    array_next (some a) s = omega arith

    array_kept :
        (o : Option ℕ) (s : Store B) (a : ℕ) → a < s.next → Agree s (copy_conditions lib o s).0 a
    array_kept none s a lt = (refl, refl, refl)
    array_kept (some b) s a lt =
        (refl, put_other s.arrays s.next (map lib.condition_copy (s.arrays b)) a lt, refl)

    array_copied :
        (o : Option ℕ) (s : Store B)
        → All (IsAllocated s) (addr_of o)
        → conditions_at (copy_conditions lib o s).0 (copy_conditions lib o s).1 ≡ conditions_at s o
    array_copied none s h = refl
    array_copied (some a) s h =
        put-put s.arrays s.next (map lib.condition_copy (s.arrays a))
        ∙ map_same lib.condition_copy deep_condition (s.arrays a)

    array-IsNew :
        (o : Option ℕ) (s : Store B)
        → All (IsNew s (copy_conditions lib o s).0) (addr_of (copy_conditions lib o s).1)
    array-IsNew none s = tt
    array-IsNew (some a) s = ((omega arith, omega arith), tt)

    pub times-IsCopier : IsCopier times
    times-IsCopier = record {
      value_at = time_value;
      next_le = time_next;
      kept = time_kept;
      copied = time_copied;
      all_new = time-IsNew;
    }

    pub arrays-IsCopier : IsCopier arrays
    arrays-IsCopier = record {
      value_at = array_value;
      next_le = array_next;
      kept = array_kept;
      copied = array_copied;
      all_new = array-IsNew;
    }
