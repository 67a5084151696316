-- ===== src/Api/Store.antt =====
-- A store of shared objects, and what a deep copy promises about it. A struct is a value that holds
-- addresses; what a pointer or a slice leads to stands in the store.
use gpu_k8s_operator.Prelude.{ℕ, suc, ◌<◌, ◌≤◌, ◌≡◌, ◌==◌, List, All, if◌then◌else◌}
use gpu_k8s_operator.GoTime.{Time}
use gpu_k8s_operator.Kube.{Condition}

-- The times and the arrays of conditions that the resource points to, and the objects of type `B`
-- of the libraries. The addresses from `next` on are free.
pub record Store (B : Type 0) : Type 0 where
  pub next : ℕ
  pub times : ℕ → Time
  pub arrays : ℕ → List Condition
  pub others : ℕ → B

-- A memory with one cell changed.
abbrev pub put : {A : Type 0} → (ℕ → A) → ℕ → A → ℕ → A
put m a x b = if b == a then x else m b

module _ {B : Type 0} where
  -- Two stores hold the same at an address.
  abbrev pub Agree : Store B → Store B → ℕ → Type 0
  Agree s t a = (s.times a ≡ t.times a) × (s.arrays a ≡ t.arrays a) × (s.others a ≡ t.others a)

  abbrev pub new_time : Store B → Time → Store B × ℕ
  new_time s t = (record s { next = suc s.next; times = put s.times s.next t }, s.next)

  abbrev pub new_array : Store B → List Condition → Store B × ℕ
  new_array s cs = (record s { next = suc s.next; arrays = put s.arrays s.next cs }, s.next)

  abbrev pub new_other : Store B → B → Store B × ℕ
  new_other s b = (record s { next = suc s.next; others = put s.others s.next b }, s.next)

  abbrev pub IsAllocated : Store B → ℕ → Type 0
  IsAllocated s a = a < s.next

  abbrev pub IsNew : Store B → Store B → ℕ → Type 0
  IsNew s t a = (s.next ≤ a) × (a < t.next)

-- A type of structs: the addresses of a struct, what it reads as, and its deep copy.
pub record Copier (B X V : Type 0) : Type 0 where
  pub addrs : X → List ℕ
  pub value : Store B → X → V
  pub copy : X → Store B → Store B × X

-- What a deep copy promises: it changes nothing that was there; the copy reads as the original; and
-- all that the copy leads to is new.
pub record IsCopier {B X V : Type 0} (c : Copier B X V) : Type 0 where
  pub value_at :
      (s t : Store B) (x : X) → All (λ a. Agree s t a) (c.addrs x) → c.value s x ≡ c.value t x
  pub next_le : (x : X) (s : Store B) → s.next ≤ (c.copy x s).0.next
  pub kept : (x : X) (s : Store B) (a : ℕ) → a < s.next → Agree s (c.copy x s).0 a
  pub copied :
      (x : X) (s : Store B)
      → All (IsAllocated s) (c.addrs x)
      → c.value (c.copy x s).0 (c.copy x s).1 ≡ c.value s x
  pub all_new : (x : X) (s : Store B) → All (IsNew s (c.copy x s).0) (c.addrs (c.copy x s).1)
