-- ===== src/Prelude/Text.antt =====
-- Comparison of texts: `==` and `<` of Go's strings, which compare bytes. On UTF-8 that is the
-- order of the code points.
use Prim.Native.String.{String, [], ◌∷◌}
use Prim.Native.Char.{code}
use mathlib.Core.Path.{◌≡◌, refl}
use mathlib.Core.Bool.{Bool, true, false}
use native.Mathlib.Omega.{arith}
use mathlib.Core.Logic.{◌≢◌, inl, inr}
use text.Mathlib.Text.{◌==◌ as str_eq}
use text.Mathlib.TextEquality.{eq_iff, Char-path}
use gpu_k8s_operator.Prelude.Tests.{Bool-cases, ltb, ◌==◌, if◌then◌else◌}

unfoldable pub str_ltb : String → String → Bool
str_ltb [] [] = false
str_ltb [] (d ∷ t) = true
str_ltb (c ∷ s) [] = false
str_ltb (c ∷ s) (d ∷ t) =
    if ltb (code c) (code d) then true else if code c == code d then str_ltb s t else false

pub str_ne : (a b : String) → a ≢ b → str_eq a b ≡ false
str_ne a b h = elim (Bool-cases (str_eq a b)) [ inl e ↦ absurd (h ((eq_iff a b).0 e)) | inr e ↦ e ]

pub str_ltb_asymm : (a b : String) → str_ltb a b ≡ true → str_ltb b a ≡ false
unfolding str_ltb
str_ltb_asymm [] [] h = cc
str_ltb_asymm [] (d ∷ t) h = refl
str_ltb_asymm (c ∷ s) [] h = cc
str_ltb_asymm (c ∷ s) (d ∷ t) h = ground (arith, str_ltb_asymm s t)

-- "Not greater" is transitive.
pub str_le_trans :
    (a b c : String) → str_ltb b a ≡ false → str_ltb c b ≡ false → str_ltb c a ≡ false
unfolding str_ltb
str_le_trans [] [] [] h k = refl
str_le_trans [] [] (z ∷ r) h k = refl
str_le_trans [] (y ∷ t) [] h k = refl
str_le_trans [] (y ∷ t) (z ∷ r) h k = refl
str_le_trans (x ∷ s) [] c h k = cc
str_le_trans (x ∷ s) (y ∷ t) [] h k = cc
str_le_trans (x ∷ s) (y ∷ t) (z ∷ r) h k = ground (arith, str_le_trans s t r)

-- Two texts neither of which is less are equal.
pub str_eq_of_not_ltb : (a b : String) → str_ltb a b ≡ false → str_ltb b a ≡ false → a ≡ b
unfolding str_ltb
str_eq_of_not_ltb [] [] h k = refl
str_eq_of_not_ltb [] (y ∷ t) h k = cc
str_eq_of_not_ltb (x ∷ s) [] h k = cc
str_eq_of_not_ltb (x ∷ s) (y ∷ t) h k =
    let same : code x ≡ code y = ground arith in
    let rest : s ≡ t = ground (arith, str_eq_of_not_ltb s t) in λ i. Char-path x y same i ∷ rest i

pub str_ltb_irrefl : (a : String) → str_ltb a a ≡ false
str_ltb_irrefl a = elim (Bool-cases (str_ltb a a)) [ inl e ↦ str_ltb_asymm a a e | inr e ↦ e ]
