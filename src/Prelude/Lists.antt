-- ===== src/Prelude/Lists.antt =====
-- Lists measured by native numbers, and membership as a recursive predicate.
use Prim.Native.Nat.{ℕ, suc, ◌+◌}
use mathlib.Core.Path.{◌≡◌, refl, sym, subst}
use mathlib.Core.Logic.{◌⊎◌, ◌↔◌, inl, inr}
use mathlib.Core.List.{List, [], ◌∷◌, ◌++◌}
use native.Mathlib.Omega.{arith}

module _ {ℓ} {A : Type ℓ} where
  abbrev pub length : List A → ℕ
  length [] = 0
  length (x ∷ xs) = suc (length xs)

  -- An element that satisfies a predicate, with its place kept.
  abbrev pub Any : (A → Type 0) → List A → Type 0
  Any P [] = ⊥
  Any P (x ∷ xs) = P x ⊎ Any P xs

  abbrev pub All : (A → Type 0) → List A → Type 0
  All P [] = Unit
  All P (x ∷ xs) = P x × All P xs

  pub length-append : (xs ys : List A) → length (xs ++ ys) ≡ length xs + length ys
  length-append [] ys = omega arith
  length-append (x ∷ xs) ys = omega (arith, length-append xs ys)

module _ {ℓ} {A : Type ℓ} (P : A → Type 0) where
  pub All-append : (xs ys : List A) → All P xs → All P ys → All P (xs ++ ys)
  All-append [] ys p q = q
  All-append (x ∷ xs) ys (p, ps) q = (p, All-append xs ys ps q)

-- The members of a list.
abbrev pub IsIn : {A : Type 0} → A → List A → Type 0
IsIn a xs = Any (λ x. x ≡ a) xs

module _ {A : Type 0} (P : A → Type 0) where
  pub All-at : (xs : List A) (a : A) → All P xs → IsIn a xs → P a
  All-at [] a h m = absurd m
  All-at (x ∷ xs) a (h, hs) (inl e) = subst P e h
  All-at (x ∷ xs) a (h, hs) (inr m) = All-at xs a hs m

  pub All-of : (xs : List A) → ((a : A) → IsIn a xs → P a) → All P xs
  All-of [] f = tt
  All-of (x ∷ xs) f = (f x (inl refl), All-of xs (λ a m. f a (inr m)))

  pub Any-IsIn : (xs : List A) → Any P xs ↔ ((a : A) × IsIn a xs × P a)
  Any-IsIn [] = ((λ m. absurd m), (λ m. m.1))
  Any-IsIn (x ∷ xs) =
      let rest = Any-IsIn xs in
      (
        (λ m. elim m [
          | inl p ↦ (x, inl refl, p)
          | inr k ↦ let (a, i, p) = rest.0 k in (a, inr i, p)
        ]),
        (λ m. elim m.1 [ inl e ↦ inl (subst P (sym e) m.2) | inr i ↦ inr (rest.1 (m.0, i, m.2)) ]),
      )
