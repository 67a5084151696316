-- ===== src/Controller/Status/Listed.antt =====
-- Conditions in a list, a value of the interface that meets its laws. The witnesses run on it.
use text.Mathlib.Text.{◌==◌ as str_eq}
use text.Mathlib.TextEquality.{eq_iff}
use gpu_k8s_operator.Prelude.{
  ◌≡◌, ◌∙◌, refl, sym, ap, false, String, Option, none, some, List, [], ◌∷◌, inl, inr,
  if◌then◌else◌, Bool-cases,
}
use gpu_k8s_operator.GoTime.{Time}
use gpu_k8s_operator.Kube.{Condition}
use gpu_k8s_operator.Controller.Status.Transition.{transition}

abbrev pub set_in : Time → List Condition → Condition → List Condition
set_in wall [] c = transition wall none c ∷ []
set_in wall (x ∷ cs) c =
    if str_eq x.type c.type then transition wall (some x) c ∷ cs else x ∷ set_in wall cs c

abbrev pub find_in : List Condition → String → Option Condition
find_in [] t = none
find_in (x ∷ cs) t = if str_eq x.type t then some x else find_in cs t

apart : (a b t : String) → str_eq a b ≡ false → a ≡ t → str_eq b t ≡ false
apart a b t ne e = elim (Bool-cases (str_eq b t)) [
  | inl same ↦ cc (ne, (eq_iff a b).1 (e ∙ sym ((eq_iff b t).0 same)))
  | inr differ ↦ differ
]

pub find_in-set_in :
    (wall : Time) (cs : List Condition) (c : Condition) (t : String)
    → find_in (set_in wall cs c) t
      ≡ (if str_eq c.type t then some (transition wall (find_in cs c.type) c) else find_in cs t)
find_in-set_in wall [] c t = refl
find_in-set_in wall (x ∷ cs) c t = elim (Bool-cases (str_eq x.type c.type)) [
  | inl e ↦
      rw (e, ap (λ s. str_eq s t) ((eq_iff x.type c.type).0 e))
        (elim (Bool-cases (str_eq c.type t)) [ inl f ↦ rw f refl | inr f ↦ rw f refl ])
  | inr e ↦ rw e (elim (Bool-cases (str_eq x.type t)) [
    | inl f ↦ rw (f, apart x.type c.type t e ((eq_iff x.type t).0 f)) refl
    | inr f ↦ rw f (find_in-set_in wall cs c t)
  ])
]
