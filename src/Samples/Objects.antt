-- ===== src/Samples/Objects.antt =====
-- A budget in a store, whose quota is a pointer and whose conditions are a slice, with libraries
-- that copy what they point to.
use gpu_k8s_operator.Prelude.{
  ℕ, ◌<◌, ◌≤◌, ◌≡◌, ◌≢◌, refl, Option, none, some, List, [], ◌∷◌, All, ℤ, pos, ◌⊎◌, inl, inr, arith,
}
use gpu_k8s_operator.GoTime.{Time}
use gpu_k8s_operator.Numbers.Fixed.{fixed}
use gpu_k8s_operator.Kube.{Condition, LabelSelector}
use gpu_k8s_operator.Api.Store.{
  Store, Agree, put, new_other, new_array, IsAllocated, IsNew, Copier, IsCopier,
}
use gpu_k8s_operator.Api.Copiers.{put-put, put_other}
use gpu_k8s_operator.Api.Copies.{ObjectMeta, Libraries, BudgetObject}
use gpu_k8s_operator.Api.Copies.Fields.{AreDeep, conditions_at}
use gpu_k8s_operator.Controller.Status.Listed.{set_in}
use gpu_k8s_operator.Controller.InPlace.{NotAt}
use gpu_k8s_operator.Controller.InPlace.Calls.{IsInPlace}
use gpu_k8s_operator.Samples.{cluster, team_selector, held, quota_exceeded_since, one_hour}

-- A type without addresses.
abbrev pub plain : {V : Type 0} → Copier ℤ V V
plain = record { addrs = λ v. []; value = λ s v. v; copy = λ v s. (s, v) }

pub plain-IsCopier : {V : Type 0} → IsCopier (plain {V = V})
plain-IsCopier = record {
  value_at = λ s t x h. refl;
  next_le = λ x s. omega arith;
  kept = λ x s a lt. (refl, refl, refl);
  copied = λ x s h. refl;
  all_new = λ x s. tt;
}

-- A quantity: an amount, or a pointer to one.
abbrev pub Amount : Type 0
Amount = ℤ ⊎ ℕ

abbrev pub amount_addrs : Amount → List ℕ
amount_addrs (inl q) = []
amount_addrs (inr a) = a ∷ []

abbrev pub amount_value : Store ℤ → Amount → ℤ
amount_value s (inl q) = q
amount_value s (inr a) = s.others a

abbrev pub amount_copy : Amount → Store ℤ → Store ℤ × Amount
amount_copy (inl q) s = (s, inl q)
amount_copy (inr a) s = let out = new_other s (s.others a) in (out.0, inr out.1)

abbrev pub amounts : Copier ℤ Amount ℤ
amounts = record { addrs = amount_addrs; value = amount_value; copy = amount_copy }

amount_at :
    (s t : Store ℤ) (x : Amount)
    → All (λ a. Agree s t a) (amount_addrs x)
    → amount_value s x ≡ amount_value t x
amount_at s t (inl q) h = refl
amount_at s t (inr a) (h, u) = h.2

amount_next : (x : Amount) (s : Store ℤ) → s.next ≤ (amount_copy x s).0.next
amount_next (inl q) s = omega arith
amount_next (inr a) s = omega arith

amount_kept : (x : Amount) (s : Store ℤ) (a : ℕ) → a < s.next → Agree s (amount_copy x s).0 a
amount_kept (inl q) s a lt = (refl, refl, refl)
amount_kept (inr b) s a lt = (refl, refl, put_other s.others s.next (s.others b) a lt)

amount_copied :
    (x : Amount) (s : Store ℤ)
    → All (IsAllocated s) (amount_addrs x)
    → amount_value (amount_copy x s).0 (amount_copy x s).1 ≡ amount_value s x
amount_copied (inl q) s h = refl
amount_copied (inr a) s h = put-put s.others s.next (s.others a)

amount-IsNew :
    (x : Amount) (s : Store ℤ)
    → All (IsNew s (amount_copy x s).0) (amount_addrs (amount_copy x s).1)
amount-IsNew (inl q) s = tt
amount-IsNew (inr a) s = ((omega arith, omega arith), tt)

abbrev pub libraries : Libraries ℤ ℤ ObjectMeta LabelSelector Amount
libraries = record {
  object_meta = plain;
  label_selector = plain;
  quantity = amounts;
  time_copy = λ t. t;
  condition_copy = λ c. c;
}

pub libraries-AreDeep : AreDeep libraries
libraries-AreDeep = record {
  deep_meta = plain-IsCopier;
  deep_selector = plain-IsCopier;
  deep_quantity = record {
    value_at = amount_at;
    next_le = amount_next;
    kept = amount_kept;
    copied = amount_copied;
    all_new = amount-IsNew;
  };
  deep_time = λ t. refl;
  deep_condition = λ c. refl;
}

-- `meta.SetStatusCondition` in the slice itself, or in a new one where there is none.
abbrev pub set_at : Time → Option ℕ → Condition → Store ℤ → Store ℤ × Option ℕ
set_at wall none c s = let out = new_array s (set_in wall [] c) in (out.0, some out.1)
set_at wall (some a) c s =
    (record s { arrays = put s.arrays a (set_in wall (s.arrays a) c) }, some a)

set_at-sets :
    (wall : Time) (o : Option ℕ) (c : Condition) (s : Store ℤ)
    → conditions_at (set_at wall o c s).0 (set_at wall o c s).1 ≡ set_in wall (conditions_at s o) c
set_at-sets wall none c s = put-put s.arrays s.next (set_in wall [] c)
set_at-sets wall (some a) c s = put-put s.arrays a (set_in wall (s.arrays a) c)

put_apart :
    (m : ℕ → List Condition) (a : ℕ) (x : List Condition) (b : ℕ) → a ≢ b → m b ≡ put m a x b
put_apart m a x b ne = ground arith

set_at-others :
    (wall : Time) (o : Option ℕ) (c : Condition) (s : Store ℤ) (a : ℕ)
    → a < s.next
    → NotAt o a
    → Agree s (set_at wall o c s).0 a × NotAt (set_at wall o c s).1 a
set_at-others wall none c s a lt n = (
  (refl, put_other s.arrays s.next (set_in wall [] c) a lt, refl),
  ((λ e. omega (arith, lt, e)), tt),
)
set_at-others wall (some b) c s a lt (n, u) =
    ((refl, put_apart s.arrays b (set_in wall (s.arrays b) c) a n, refl), (n, u))

set_at-grows :
    (wall : Time) (o : Option ℕ) (c : Condition) (s : Store ℤ) → s.next ≤ (set_at wall o c s).0.next
set_at-grows wall none c s = omega arith
set_at-grows wall (some a) c s = omega arith

pub set_at-IsInPlace : IsInPlace fixed cluster libraries set_at inl
set_at-IsInPlace = record {
  sets = set_at-sets;
  others = set_at-others;
  grows = set_at-grows;
  amount_value = λ q s. refl;
}

-- The budget of 2000, whose quota is at address 0 and whose conditions are at address 1.
abbrev pub stored : Store ℤ
stored = record {
  next = 2;
  times = λ a. one_hour;
  arrays = λ a. quota_exceeded_since one_hour ∷ [];
  others = λ a. pos 2000;
}

abbrev pub budget_object : BudgetObject ObjectMeta LabelSelector Amount
budget_object = record {
  object_meta = record {
    namespace = "ml";
    name = "team-budget";
    generation = pos 3;
    deletion_timestamp = none;
    finalizers = held;
  };
  spec = record {
    selector = team_selector;
    quota = record { gpu_hours = inr 0; window_hours = pos 4 };
    enforcement = record { action = "Evict"; grace_period_seconds = pos 60 };
    gpu_resource_name = "";
  };
  status = record {
    consumed_gpu_hours = inl (pos 0);
    remaining_gpu_hours = inl (pos 0);
    tracked_pods = pos 0;
    last_enforcement_at = none;
    observed_generation = pos 2;
    conditions = some 1;
  };
}
