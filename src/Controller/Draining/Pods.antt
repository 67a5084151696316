-- ===== src/Controller/Draining/Pods.antt =====
-- How an eviction and a stamp lower the number of changes that are left.
use text.Mathlib.TextEquality.{eq_iff}
use gpu_k8s_operator.Prelude.{
  ◌*◌, ◌≤◌, ◌<◌, ◌≡◌, refl, true, String, Option, none, some, List, [], ◌∷◌, length, IsIn, arith,
  Bool-cases, inl, inr,
}
use gpu_k8s_operator.Kube.{Pod, lookup}
use gpu_k8s_operator.Enforcement.{annotation_paused_at}
use gpu_k8s_operator.Controller.Draining.{is_named, remove_pod, replace_pod, weight_of, weight}

pub weight_of_le : (o : Option String) → (1 ≤ weight_of o) × (weight_of o ≤ 2)
weight_of_le none = (omega arith, omega arith)
weight_of_le (some s) = (omega arith, omega arith)

module _ {Q : Type 0} where
  is_named_self : (p : Pod Q) → is_named p.namespace p.name p ≡ true
  is_named_self p = ground (arith, eq_iff p.namespace p.namespace, eq_iff p.name p.name)

  pub weight_le : (ps : List (Pod Q)) → weight ps ≤ 2 * length ps
  weight_le [] = omega arith
  weight_le (p ∷ ps) =
      omega (arith, weight_le ps, (weight_of_le (lookup annotation_paused_at p.annotations)).1)

  remove_le : (ns name : String) (ps : List (Pod Q)) → weight (remove_pod ns name ps) ≤ weight ps
  remove_le ns name [] = omega arith
  remove_le ns name (p ∷ ps) = elim (Bool-cases (is_named ns name p)) [
    | inl e ↦ rw e (omega (arith, remove_le ns name ps))
    | inr e ↦ rw e (omega (arith, remove_le ns name ps))
  ]

  -- A pod that is there makes the removal count.
  pub remove_lt :
      (p : Pod Q) (ps : List (Pod Q))
      → IsIn p ps
      → weight (remove_pod p.namespace p.name ps) < weight ps
  remove_lt p [] m = absurd m
  remove_lt p (q ∷ ps) (inl e) =
      let named : is_named p.namespace p.name q ≡ true = rw e (is_named_self p) in
      rw named (
        omega (
          arith,
          remove_le p.namespace p.name ps,
          (weight_of_le (lookup annotation_paused_at q.annotations)).0,
        ))
  remove_lt p (q ∷ ps) (inr m) = elim (Bool-cases (is_named p.namespace p.name q)) [
    | inl e ↦ rw e (omega (arith, remove_lt p ps m))
    | inr e ↦ rw e (omega (arith, remove_lt p ps m))
  ]

  module _ (old new : Pod Q)
      (stamped : weight_of (lookup annotation_paused_at new.annotations) ≡ 1) where
    replace_le : (ps : List (Pod Q)) → weight (replace_pod old new ps) ≤ weight ps
    replace_le [] = omega arith
    replace_le (p ∷ ps) = elim (Bool-cases (is_named old.namespace old.name p)) [
      | inl e ↦ rw e (
          omega (
            arith,
            stamped,
            replace_le ps,
            (weight_of_le (lookup annotation_paused_at p.annotations)).0,
          ))
      | inr e ↦ rw e (omega (arith, replace_le ps))
    ]

    -- A pod that is there and bears no stamp makes the stamp count.
    pub replace_lt :
        (ps : List (Pod Q))
        → lookup annotation_paused_at old.annotations ≡ none
        → IsIn old ps
        → weight (replace_pod old new ps) < weight ps
    replace_lt [] free m = absurd m
    replace_lt (q ∷ ps) free (inl e) =
        let named : is_named old.namespace old.name q ≡ true = rw e (is_named_self old) in
        let two : weight_of (lookup annotation_paused_at q.annotations) ≡ 2 = rw (e, free) refl in
        rw named (omega (arith, stamped, two, replace_le ps))
    replace_lt (q ∷ ps) free (inr m) = elim (Bool-cases (is_named old.namespace old.name q)) [
      | inl e ↦ rw e (
          omega (
            arith,
            stamped,
            replace_lt ps free m,
            (weight_of_le (lookup annotation_paused_at q.annotations)).0,
          ))
      | inr e ↦ rw e (omega (arith, replace_lt ps free m))
    ]
