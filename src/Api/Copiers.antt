-- ===== src/Api/Copiers.antt =====
-- Deep copies of pairs, of fields, of pointers to a time and of slices of conditions.
pub mod Each
use gpu_k8s_operator.Prelude.{
  ℕ, ◌<◌, ◌≤◌, ◌≡◌, ◌∙◌, sym, ap, List, [], ◌∷◌, ◌++◌, All, All-append, arith,
}
use gpu_k8s_operator.Api.Store.{Store, Agree, put, IsAllocated, IsNew, Copier, IsCopier}

module _ {A : Type 0} where
  pub pair_eq : {C : Type 0} {a b : A} {c d : C} → a ≡ b → c ≡ d → ◌≡◌ {A = A × C} (a, c) (b, d)
  pair_eq e f = cc (e, f)

  pub put-put : (m : ℕ → A) (a : ℕ) (x : A) → put m a x a ≡ x
  put-put m a x = ground arith

  pub put_other : (m : ℕ → A) (a : ℕ) (x : A) (b : ℕ) → b < a → m b ≡ put m a x b
  put_other m a x b lt = ground arith

  pub All-map : (P Q : A → Type 0) → ((a : A) → P a → Q a) → (xs : List A) → All P xs → All Q xs
  All-map P Q f [] h = tt
  All-map P Q f (x ∷ xs) (p, ps) = (f x p, All-map P Q f xs ps)

  pub All-map2 :
      (P Q R : A → Type 0)
      → ((a : A) → P a → Q a → R a)
      → (xs : List A) → All P xs
      → All Q xs
      → All R xs
  All-map2 P Q R f [] h k = tt
  All-map2 P Q R f (x ∷ xs) (p, ps) (q, qs) = (f x p q, All-map2 P Q R f xs ps qs)

  -- All of a list that ends differently.
  pub All-ending :
      (P : A → Type 0) (xs ys zs : List A)
      → (All P ys → All P zs)
      → All P (xs ++ ys)
      → All P (xs ++ zs)
  All-ending P [] ys zs f h = f h
  All-ending P (x ∷ xs) ys zs f (p, ps) = (p, All-ending P xs ys zs f ps)

  pub All-left : (P : A → Type 0) (xs ys : List A) → All P (xs ++ ys) → All P xs
  All-left P [] ys h = tt
  All-left P (x ∷ xs) ys (p, ps) = (p, All-left P xs ys ps)

  pub All-right : (P : A → Type 0) (xs ys : List A) → All P (xs ++ ys) → All P ys
  All-right P [] ys h = h
  All-right P (x ∷ xs) ys (p, ps) = All-right P xs ys ps

-- A part of a struct, the struct with another part, and what it reads as from what its part does.
pub record View (X V Y W : Type 0) : Type 0 where
  pub part : X → Y
  pub put_back : X → Y → X
  pub build : X → W → V

module _ {B : Type 0} where
  pub Agree_trans : (s t u : Store B) (a : ℕ) → Agree s t a → Agree t u a → Agree s u a
  Agree_trans s t u a p q = (p.0 ∙ q.0, p.1 ∙ q.1, p.2 ∙ q.2)

  Agree_sym : (s t : Store B) (a : ℕ) → Agree s t a → Agree t s a
  Agree_sym s t a p = (sym p.0, sym p.1, sym p.2)

  -- One after the other.
  abbrev pub both : {X V Y W : Type 0} → Copier B X V → Copier B Y W → Copier B (X × Y) (V × W)
  both c d = record {
    addrs = λ p. c.addrs p.0 ++ d.addrs p.1;
    value = λ s p. (c.value s p.0, d.value s p.1);
    copy = λ p s.
        ((d.copy p.1 (c.copy p.0 s).0).0, ((c.copy p.0 s).1, (d.copy p.1 (c.copy p.0 s).0).1));
  }

  -- The copy of a part, put back into the struct.
  abbrev pub via : {X V Y W : Type 0} → View X V Y W → Copier B Y W → Copier B X V
  via v c = record {
    addrs = λ x. c.addrs (v.part x);
    value = λ s x. v.build x (c.value s (v.part x));
    copy = λ x s. ((c.copy (v.part x) s).0, v.put_back x (c.copy (v.part x) s).1);
  }

  module _ {X V : Type 0} where
    -- The copy reads as the original, whatever is written to what was there before.
    pub read-copy :
        (c : Copier B X V)
        → IsCopier c
        → (x : X) (s u : Store B) → All (IsAllocated s) (c.addrs x)
        → ((a : ℕ) → s.next ≤ a → a < (c.copy x s).0.next → Agree (c.copy x s).0 u a)
        → c.value u (c.copy x s).1 ≡ c.value s x
    read-copy c i x s u all old =
        let t = (c.copy x s).0 in
        sym (
          i.value_at t u (c.copy x s).1 (
            All-map (IsNew s t) (λ a. Agree t u a) (λ a n. old a n.0 n.1) (c.addrs (c.copy x s).1)
              (i.all_new x s)))
        ∙ i.copied x s all

  module _ {X V Y W : Type 0} where
    -- What a later copy leaves of an earlier one.
    pub still_copied :
        (c : Copier B X V) (d : Copier B Y W)
        → IsCopier c
        → IsCopier d
        → (x : X) (y : Y) (s : Store B) → All (IsAllocated s) (c.addrs x)
        → All (IsAllocated s) (d.addrs y)
        → let s' = (c.copy x s).0 in
          let after = d.copy y s' in
          (c.value after.0 (c.copy x s).1 ≡ c.value s x) × (d.value after.0 after.1 ≡ d.value s y)
    still_copied c d i j x y s left right =
        let s' = (c.copy x s).0 in
        let x' = (c.copy x s).1 in
        let t = (d.copy y s').0 in
        (
          sym (
                i.value_at s' t x' (
                  All-map (IsNew s s') (λ a. Agree s' t a) (λ a n. j.kept y s' a n.1) (c.addrs x')
                    (i.all_new x s)))
              ∙ i.copied x s left,
          j.copied y s' (
                All-map (IsAllocated s) (IsAllocated s') (λ a lt. omega (arith, i.next_le x s, lt))
                  (d.addrs y) right)
              ∙ sym (
                  j.value_at s s' y
                    (All-map (IsAllocated s) (λ a. Agree s s' a) (i.kept x s) (d.addrs y) right)),
        )

    pub both-IsCopier :
        (c : Copier B X V) (d : Copier B Y W) → IsCopier c → IsCopier d → IsCopier (both c d)
    both-IsCopier c d i j = record {
      value_at = λ s t p all.
          let agree : ℕ → Type 0 = λ a. Agree s t a in
          ap (λ v. (v, d.value s p.1))
            (i.value_at s t p.0 (All-left agree (c.addrs p.0) (d.addrs p.1) all))
          ∙ ap (λ w. (c.value t p.0, w))
              (j.value_at s t p.1 (All-right agree (c.addrs p.0) (d.addrs p.1) all));
      next_le = λ p s. omega (arith, i.next_le p.0 s, j.next_le p.1 (c.copy p.0 s).0);
      kept = λ p s a lt.
          let s' = (c.copy p.0 s).0 in
          Agree_trans s s' (d.copy p.1 s').0 a (i.kept p.0 s a lt)
            (j.kept p.1 s' a (omega (arith, i.next_le p.0 s, lt)));
      copied = λ p s all.
          let (l, r) =
            still_copied c d i j p.0 p.1 s
              (All-left (IsAllocated s) (c.addrs p.0) (d.addrs p.1) all)
              (All-right (IsAllocated s) (c.addrs p.0) (d.addrs p.1) all) in
          pair_eq l r;
      all_new = λ p s.
          let s' = (c.copy p.0 s).0 in
          let t = (d.copy p.1 s').0 in
          All-append (IsNew s t) (c.addrs (c.copy p.0 s).1) (d.addrs (d.copy p.1 s').1)
            (All-map (IsNew s s') (IsNew s t) (λ a n. (n.0, omega (arith, n.1, j.next_le p.1 s')))
              (c.addrs (c.copy p.0 s).1) (i.all_new p.0 s))
            (All-map (IsNew s' t) (IsNew s t) (λ a n. (omega (arith, n.0, i.next_le p.0 s), n.1))
              (d.addrs (d.copy p.1 s').1) (j.all_new p.1 s'));
    }

    pub via-IsCopier :
        (v : View X V Y W) (c : Copier B Y W)
        → ((x : X) (y : Y) → v.part (v.put_back x y) ≡ y)
        → ((x : X) (y : Y) (w : W) → v.build (v.put_back x y) w ≡ v.build x w)
        → IsCopier c
        → IsCopier (via v c)
    via-IsCopier v c back built i = record {
      value_at = λ s t x all. ap (v.build x) (i.value_at s t (v.part x) all);
      next_le = λ x s. i.next_le (v.part x) s;
      kept = λ x s. i.kept (v.part x) s;
      copied = λ x s all.
          rw (back x (c.copy (v.part x) s).1)
            (built x (c.copy (v.part x) s).1 _ ∙ ap (v.build x) (i.copied (v.part x) s all));
      all_new = λ x s. rw (back x (c.copy (v.part x) s).1) (i.all_new (v.part x) s);
    }
