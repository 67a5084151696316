-- ===== src/Generator/Label.antt =====
-- `strings.Cut` at "=", and `parseLabel`.
use mathlib.Core.Path.{subst}
use mathlib.Core.Option.{some-injective}
use Prim.Native.Char.{Char, code}
use Prim.Native.String.{[], ◌∷◌}
use text.Mathlib.Text.{◌==◌ as str_eq}
use text.Mathlib.TextEquality.{eq_iff, Char-path}
use gpu_k8s_operator.Prelude.{
  ℕ, String, ◌≡◌, ◌≢◌, ◌↔◌, refl, ap, sym, ◌∙◌, str_ne, inl, inr, true, false, ◌||◌, Option, none,
  some, arith, Bool-cases, ◌==◌, ==_iff, if◌then◌else◌,
}

-- The code of '='.
abbrev pub equals_sign : ℕ
equals_sign = b'='

-- The cut of a text that starts with another character, from the cut of its rest.
abbrev cut_later : Char → Option (String × String) → Option (String × String)
cut_later c none = none
cut_later c (some (before, after)) = some (c ∷ before, after)

-- The text before the first '=' and the text after it; none if there is none.
unfoldable pub cut : String → Option (String × String)
cut [] = none
cut (c ∷ s) = let rest = cut s in if code c == equals_sign then some ("", s) else cut_later c rest

-- `key == "" || val == ""`
abbrev pub non_empty_parts : Option (String × String) → Option (String × String)
non_empty_parts none = none
non_empty_parts (some (key, value)) =
    if str_eq key "" || str_eq value "" then none else some (key, value)

-- `parseLabel`; none is its error.
unfoldable pub parse_label : String → Option (String × String)
parse_label raw = non_empty_parts (cut raw)

-- No '=' in a text.
abbrev pub IsPlain : String → Type 0
IsPlain [] = Unit
IsPlain (c ∷ s) = (code c ≢ equals_sign) × IsPlain s

-- A key and a value with '=' between them.
abbrev pub join : String → String → String
join [] value = "=" ∷ value
join (c ∷ k) value = c ∷ join k value

cut-join : (key value : String) → IsPlain key → cut (join key value) ≡ some (key, value)
unfolding cut
cut-join [] value p = refl
cut-join (c ∷ k) value (n, p) = elim (Bool-cases (code c == equals_sign)) [
  | inl e ↦ absurd (n ((==_iff (code c) equals_sign).0 e))
  | inr e ↦ rw (e, cut-join k value p) refl
]

-- What a cut says of the text.
abbrev IsCut : String → Option (String × String) → Type 0
IsCut raw none = Unit
IsCut raw (some (key, value)) = (raw ≡ join key value) × IsPlain key

cut_later-IsCut :
    (c : Char) (s : String) (o : Option (String × String))
    → code c ≢ equals_sign
    → IsCut s o
    → IsCut (c ∷ s) (cut_later c o)
cut_later-IsCut c s none n h = tt
cut_later-IsCut c s (some (key, value)) n (e, p) = ((λ i. c ∷ e i), (n, p))

cut-IsCut : (raw : String) → IsCut raw (cut raw)
unfolding cut
cut-IsCut [] = tt
cut-IsCut (c ∷ s) = elim (Bool-cases (code c == equals_sign)) [
  | inl e ↦ rw e ((λ i. Char-path c "=" ((==_iff (code c) equals_sign).0 e) i ∷ s), tt)
  | inr e ↦
      rw e
        (cut_later-IsCut c s (cut s) (λ p. cc (e, (==_iff (code c) equals_sign).1 p)) (cut-IsCut s))
]

kept :
    (k v : String)
    → (str_eq k "" || str_eq v "") ≡ false
    → non_empty_parts (some (k, v)) ≡ some (k, v)
kept k v e = rw e refl

rejected :
    (k v : String) → (str_eq k "" || str_eq v "") ≡ true → non_empty_parts (some (k, v)) ≡ none
rejected k v e = rw e refl

non_empty-lem :
    (raw : String) (o : Option (String × String)) (key value : String)
    → IsCut raw o
    → non_empty_parts o ≡ some (key, value)
    → (raw ≡ join key value) × IsPlain key × (key ≢ "") × (value ≢ "")
non_empty-lem raw none key value h e = cc e
non_empty-lem raw (some (k, v)) key value (same, p) e =
    elim (Bool-cases (str_eq k "" || str_eq v "")) [
      | inl empty ↦ cc (rejected k v empty, e)
      | inr full ↦
          let found : String × String = (k, v) in
          let asked : String × String = (key, value) in
          let same_parts : found ≡ asked = some-injective found asked (sym (kept k v full) ∙ e) in
          subst (λ q. (raw ≡ join q.0 q.1) × IsPlain q.0 × (q.0 ≢ "") × (q.1 ≢ "")) same_parts
            (
              same,
              p,
              (λ w. ground (arith, full, (eq_iff k "").1 w)),
              (λ w. ground (arith, full, (eq_iff v "").1 w)),
            )
    ]

-- `parseLabel` yields a key and a value exactly if the text is the two with an equals sign between
-- them, neither is empty, and the key has none of its own.
pub parse_label_iff :
    (raw key value : String)
    → (parse_label raw ≡ some (key, value))
      ↔ ((raw ≡ join key value) × IsPlain key × (key ≢ "") × (value ≢ ""))
unfolding parse_label
parse_label_iff raw key value = (
  (λ e. non_empty-lem raw (cut raw) key value (cut-IsCut raw) e),
  (λ (same, p, k_full, v_full).
      ap (λ r. non_empty_parts (cut r)) same
      ∙ ap non_empty_parts (cut-join key value p)
      ∙ kept key value (ground (arith, str_ne key "" k_full, str_ne value "" v_full))),
)
