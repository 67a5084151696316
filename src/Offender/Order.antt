-- ===== src/Offender/Order.antt =====
-- The choice, and the order in which the server lists the pods.
use gpu_k8s_operator.Prelude.{
  IsIn, All-at, All-of, ◌≡◌, refl, ap, String, str_eq_of_not_ltb, Option, none, some, List, inl,
  inr, ◌↔◌, All,
}
use gpu_k8s_operator.GoTime.{Time}
use gpu_k8s_operator.Numbers.{Numbers, IsOrdered, IsNum}
use gpu_k8s_operator.Numbers.Laws.{lt_trans, lt_irrefl, not_lt_of_le}
use gpu_k8s_operator.Kube.{Pod}
use gpu_k8s_operator.Offender.{pick_worst_offender}
use gpu_k8s_operator.Offender.Rank.{NotBelow, IsCandidate}
use gpu_k8s_operator.Offender.Worst.{CandidatesNum, IsWorst, pick_worst_offender-IsWorst}

module _ {A : Type 0} where
  -- Two lists with the same members, in any order and as often as they like.
  abbrev pub SameMembers : List A → List A → Type 0
  SameMembers xs ys = (a : A) → IsIn a xs ↔ IsIn a ys

  All-SameMembers : (P : A → Type 0) (xs ys : List A) → SameMembers xs ys → All P xs → All P ys
  All-SameMembers P xs ys same h = All-of P ys (λ a m. All-at P xs a h ((same a).1 m))

module _ (num : Numbers) (gpu_res : String) (from now : Time) (ord : IsOrdered num) where
  open num use {Float, Quantity, feq}

  -- In a namespace, a name belongs to one pod.
  abbrev pub NamesUnique : List (Pod Quantity) → Type 0
  NamesUnique pods = (p q : Pod Quantity) → IsIn p pods → IsIn q pods → p.name ≡ q.name → p ≡ q

  -- Two pods neither of which ranks below the other have the same name.
  NotBelow-antisymm :
      (p : Pod Quantity) (h : Float) (q : Pod Quantity) (k : Float)
      → NotBelow num p h q k
      → NotBelow num q k p h
      → p.name ≡ q.name
  NotBelow-antisymm p h q k (inl a) (inl b) = cc (lt_trans num ord k h k a b, lt_irrefl num ord k)
  NotBelow-antisymm p h q k (inl a) (inr b) =
      cc (a, not_lt_of_le num ord h k ((ord.feq_iff k h).0 b.0).1)
  NotBelow-antisymm p h q k (inr a) (inl b) =
      cc (b, not_lt_of_le num ord k h ((ord.feq_iff h k).0 a.0).1)
  NotBelow-antisymm p h q k (inr a) (inr b) = str_eq_of_not_ltb p.name q.name b.1 a.1

  IsWorst-unique :
      (pods qs : List (Pod Quantity)) (o r : Option (Pod Quantity))
      → SameMembers pods qs
      → NamesUnique pods
      → IsWorst num gpu_res from now pods o
      → IsWorst num gpu_res from now qs r
      → o ≡ r
  IsWorst-unique pods qs none none same names a b = refl
  IsWorst-unique pods qs none (some w) same names a (m, (h, c, rest)) = absurd (
      All-at (λ p. (k : Float) → ¬ IsCandidate num gpu_res from now p k) pods w a ((same w).1 m) h
        c)
  IsWorst-unique pods qs (some w) none same names (m, (h, c, rest)) b =
      absurd (
        All-at (λ p. (k : Float) → ¬ IsCandidate num gpu_res from now p k) qs w b ((same w).0 m) h
          c)
  IsWorst-unique pods qs (some w) (some v) same names (m, (h, c, rest)) (n, (k, d, others)) =
      let below =
        All-at (λ p. (j : Float) → IsCandidate num gpu_res from now p j → NotBelow num w h p j) pods
          v rest ((same v).1 n) k d in
      let above =
        All-at (λ p. (j : Float) → IsCandidate num gpu_res from now p j → NotBelow num v k p j) qs w
          others ((same w).0 m) h c in
      ap some (names w v m ((same v).1 n) (NotBelow-antisymm w h v k below above))

  -- The choice depends only on which pods there are: two lists with the same members give the same
  -- offender, if the names of the pods are unique and the candidates' hours are numbers.
  pub pick_worst_offender_any_order :
      (pods qs : List (Pod Quantity))
      → SameMembers pods qs
      → NamesUnique pods
      → CandidatesNum num gpu_res from now pods
      → pick_worst_offender num pods gpu_res from now ≡ pick_worst_offender num qs gpu_res from now
  pick_worst_offender_any_order pods qs same names n =
      IsWorst-unique pods qs _ _ same names
        (pick_worst_offender-IsWorst num gpu_res from now ord pods n)
        (pick_worst_offender-IsWorst num gpu_res from now ord qs (
          All-SameMembers (λ p. (k : Float) → IsCandidate num gpu_res from now p k → IsNum num k)
            pods qs same n))
