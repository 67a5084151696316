-- ===== src/Api/Copiers/Each.antt =====
-- Deep copies of the elements of a list, one after the other.
use gpu_k8s_operator.Prelude.{◌≡◌, ◌≤◌, ◌<◌, refl, ℕ, List, [], ◌∷◌, ◌++◌, All, All-append, arith}
use gpu_k8s_operator.Api.Store.{Store, Agree, IsAllocated, IsNew, Copier, IsCopier}
use gpu_k8s_operator.Api.Copiers.{All-left, All-right, All-map, Agree_trans}

module _ {B X V : Type 0} (c : Copier B X V) where
  abbrev each_addrs : List X → List ℕ
  each_addrs [] = []
  each_addrs (x ∷ xs) = c.addrs x ++ each_addrs xs

  abbrev each_value : Store B → List X → List V
  each_value s [] = []
  each_value s (x ∷ xs) = c.value s x ∷ each_value s xs

  abbrev pub each_copy : List X → Store B → Store B × List X
  each_copy [] s = (s, [])
  each_copy (x ∷ xs) s =
      let out = c.copy x s in let rest = each_copy xs out.0 in (rest.0, out.1 ∷ rest.1)

  abbrev pub each : Copier B (List X) (List V)
  each = record { addrs = each_addrs; value = each_value; copy = each_copy }

  module _ (i : IsCopier c) where
    each_at :
        (s t : Store B) (xs : List X)
        → All (λ a. Agree s t a) (each_addrs xs)
        → each_value s xs ≡ each_value t xs
    each_at s t [] h = refl
    each_at s t (x ∷ xs) h =
        let agree : ℕ → Type 0 = λ a. Agree s t a in
        cc (
          i.value_at s t x (All-left agree (c.addrs x) (each_addrs xs) h),
          each_at s t xs (All-right agree (c.addrs x) (each_addrs xs) h),
        )

    each_next : (xs : List X) (s : Store B) → s.next ≤ (each_copy xs s).0.next
    each_next [] s = omega arith
    each_next (x ∷ xs) s = omega (arith, i.next_le x s, each_next xs (c.copy x s).0)

    each_kept : (xs : List X) (s : Store B) (a : ℕ) → a < s.next → Agree s (each_copy xs s).0 a
    each_kept [] s a lt = (refl, refl, refl)
    each_kept (x ∷ xs) s a lt =
        let s' = (c.copy x s).0 in
        Agree_trans s s' (each_copy xs s').0 a (i.kept x s a lt)
          (each_kept xs s' a (omega (arith, i.next_le x s, lt)))

    each_copied :
        (xs : List X) (s : Store B)
        → All (IsAllocated s) (each_addrs xs)
        → each_value (each_copy xs s).0 (each_copy xs s).1 ≡ each_value s xs
    each_copied [] s all = refl
    each_copied (x ∷ xs) s all =
        let s' = (c.copy x s).0 in
        let x' = (c.copy x s).1 in
        let t = (each_copy xs s').0 in
        let left = All-left (IsAllocated s) (c.addrs x) (each_addrs xs) all in
        let right = All-right (IsAllocated s) (c.addrs x) (each_addrs xs) all in
        let later =
          All-map (IsAllocated s) (IsAllocated s') (λ a lt. omega (arith, i.next_le x s, lt))
            (each_addrs xs) right in
        cc (
          i.value_at s' t x' (
              All-map (IsNew s s') (λ a. Agree s' t a) (λ a n. each_kept xs s' a n.1) (c.addrs x')
                (i.all_new x s)),
          i.copied x s left,
          each_copied xs s' later,
          each_at s s' xs
              (All-map (IsAllocated s) (λ a. Agree s s' a) (i.kept x s) (each_addrs xs) right),
        )

    each-IsNew :
        (xs : List X) (s : Store B)
        → All (IsNew s (each_copy xs s).0) (each_addrs (each_copy xs s).1)
    each-IsNew [] s = tt
    each-IsNew (x ∷ xs) s =
        let s' = (c.copy x s).0 in
        let x' = (c.copy x s).1 in
        let t = (each_copy xs s').0 in
        All-append (IsNew s t) (c.addrs x') (each_addrs (each_copy xs s').1)
          (All-map (IsNew s s') (IsNew s t) (λ a n. (n.0, omega (arith, n.1, each_next xs s')))
            (c.addrs x') (i.all_new x s))
          (All-map (IsNew s' t) (IsNew s t) (λ a n. (omega (arith, n.0, i.next_le x s), n.1))
            (each_addrs (each_copy xs s').1) (each-IsNew xs s'))

    pub each-IsCopier : IsCopier each
    each-IsCopier = record {
      value_at = each_at;
      next_le = each_next;
      kept = each_kept;
      copied = each_copied;
      all_new = each-IsNew;
    }
