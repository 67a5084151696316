-- ===== src/Controller/InPlace/Calls.antt =====
-- What the calls of a patch leave of the store.
use gpu_k8s_operator.Prelude.{
  ℕ, ◌<◌, ◌≤◌, ◌≡◌, ◌∙◌, refl, sym, ap, Option, none, some, List, [], ◌++◌, All, arith,
}
use gpu_k8s_operator.GoTime.{Time}
use gpu_k8s_operator.Numbers.{Numbers}
use gpu_k8s_operator.Kube.{Condition}
use gpu_k8s_operator.Api.Store.{Store, Agree, new_time, IsAllocated, IsNew}
use gpu_k8s_operator.Api.Copiers.{All-map, All-map2, All-ending, put_other, Agree_trans, All-right}
use gpu_k8s_operator.Api.Copies.{Libraries, BudgetObject, budget_deep_copy_into}
use gpu_k8s_operator.Api.Copies.Fields.{AreDeep, arrays-IsCopier, addr_of, conditions_at}
use gpu_k8s_operator.Api.Copies.Laws.{budgets, budgets-IsCopier}
use gpu_k8s_operator.Cluster.{Cluster}
use gpu_k8s_operator.Controller.InPlace.{NotAt}

-- The library works in place: what `meta.SetStatusCondition` leaves in the slice, or in a new one,
-- and that it writes nowhere else; and a new quantity has its amount in itself.
pub record IsInPlace (num : Numbers) (cl : Cluster num) {B Meta Selector Amount : Type 0}
    (lib : Libraries num.Quantity B Meta Selector Amount)
    (set_at : Time → Option ℕ → Condition → Store B → Store B × Option ℕ)
    (amount : num.Quantity → Amount) : Type 0 where
  pub sets :
      (wall : Time) (o : Option ℕ) (c : Condition) (s : Store B)
      → conditions_at (set_at wall o c s).0 (set_at wall o c s).1
        ≡ cl.set_status_condition wall (conditions_at s o) c
  pub others :
      (wall : Time) (o : Option ℕ) (c : Condition) (s : Store B) (a : ℕ)
      → a < s.next
      → NotAt o a
      → Agree s (set_at wall o c s).0 a × NotAt (set_at wall o c s).1 a
  pub grows :
      (wall : Time) (o : Option ℕ) (c : Condition) (s : Store B)
      → s.next ≤ (set_at wall o c s).0.next
  pub amount_value : (q : num.Quantity) (s : Store B) → lib.quantity.value s (amount q) ≡ q

module _ (num : Numbers) (cl : Cluster num) {B Meta Selector Amount : Type 0}
    (lib : Libraries num.Quantity B Meta Selector Amount) (deep : AreDeep lib)
    (set_at : Time → Option ℕ → Condition → Store B → Store B × Option ℕ)
    (amount : num.Quantity → Amount) (in_place : IsInPlace num cl lib set_at amount) where
  open num use {Float, Quantity}

  -- What the patches leave at an address of the store `t`, from which the calls started.
  abbrev pub Leaves : Option ℕ → Store B → Option ℕ → Store B → Type 0
  Leaves o t p u = (t.next ≤ u.next) × ((a : ℕ) → a < t.next → NotAt o a → Agree t u a × NotAt p a)

  pub Leaves-set :
      (o : Option ℕ) (t : Store B) (p : Option ℕ) (u : Store B) (wall : Time) (c : Condition)
      → Leaves o t p u
      → Leaves o t (set_at wall p c u).1 (set_at wall p c u).0
  Leaves-set o t p u wall c (le, at) = (
    omega (arith, le, in_place.grows wall p c u),
    λ a lt n.
        let (same, other) = at a lt n in
        let next = in_place.others wall p c u a (omega (arith, lt, le)) other in
        (Agree_trans t u (set_at wall p c u).0 a same next.0, next.1),
  )

  pub Leaves-none : (o : Option ℕ) (t : Store B) → Leaves o t o t
  Leaves-none o t = (omega arith, λ a lt n. ((refl, refl, refl), n))

  pub Leaves-time : (o : Option ℕ) (t : Store B) (now : Time) → Leaves o t o (new_time t now).0
  Leaves-time o t now =
      (omega arith, λ a lt n. ((put_other t.times t.next now a lt, refl, refl), n))

  pub conditions-new_time :
      (o : Option ℕ) (t : Store B) (now : Time)
      → conditions_at (new_time t now).0 o ≡ conditions_at t o
  conditions-new_time none t now = refl
  conditions-new_time (some a) t now = refl

  -- The budget but for its conditions.
  abbrev pub rest : BudgetObject Meta Selector Amount → BudgetObject Meta Selector Amount
  rest b = record b { status = record (b.status) { conditions = none } }

  -- All that the budget leads to exists, and nothing but the conditions leads to their slice.
  pub record IsOwner (b : BudgetObject Meta Selector Amount) (s : Store B) : Type 0 where
    pub allocated : All (IsAllocated s) ((budgets lib).addrs b)
    pub own : All (NotAt b.status.conditions) ((budgets lib).addrs (rest b))

  module _ (b : BudgetObject Meta Selector Amount) (s : Store B) (owner : IsOwner b s) where
    open owner use {allocated, own}

    rest-IsAllocated : All (IsAllocated s) ((budgets lib).addrs (rest b))
    rest-IsAllocated =
        let m = lib.object_meta.addrs b.object_meta in
        let q =
          lib.label_selector.addrs b.spec.selector ++ lib.quantity.addrs b.spec.quota.gpu_hours in
        let c = lib.quantity.addrs b.status.consumed_gpu_hours in
        let r = lib.quantity.addrs b.status.remaining_gpu_hours in
        let l = addr_of b.status.last_enforcement_at in
        let k = addr_of b.status.conditions in
        let all = IsAllocated s in
        All-ending all m (q ++ (c ++ (r ++ (l ++ k)))) (q ++ (c ++ (r ++ (l ++ []))))
          (All-ending all q (c ++ (r ++ (l ++ k))) (c ++ (r ++ (l ++ []))) (
            All-ending all c (r ++ (l ++ k)) (r ++ (l ++ []))
              (All-ending all r (l ++ k) (l ++ []) (All-ending all l k [] (λ h. tt)))))
          allocated

    conditions-IsAllocated : All (IsAllocated s) (addr_of b.status.conditions)
    conditions-IsAllocated =
        let m = lib.object_meta.addrs b.object_meta in
        let q =
          lib.label_selector.addrs b.spec.selector ++ lib.quantity.addrs b.spec.quota.gpu_hours in
        let c = lib.quantity.addrs b.status.consumed_gpu_hours in
        let r = lib.quantity.addrs b.status.remaining_gpu_hours in
        let l = addr_of b.status.last_enforcement_at in
        let k = addr_of b.status.conditions in
        let all = IsAllocated s in
        All-right all l k (
          All-right all r (l ++ k) (
            All-right all c (r ++ (l ++ k)) (
              All-right all q (c ++ (r ++ (l ++ k)))
                (All-right all m (q ++ (c ++ (r ++ (l ++ k)))) allocated))))

    new-NotAt : (o : Option ℕ) (a : ℕ) → All (IsAllocated s) (addr_of o) → s.next ≤ a → NotAt o a
    new-NotAt none a h le = tt
    new-NotAt (some c) a (h, u) le = ((λ e. omega (arith, h, le, e)), tt)

    -- After the deep copy and the calls, the copy reads as the budget did, and so do the parts of
    -- the budget that are not written.
    pub after_calls :
        (p : Option ℕ) (u : Store B)
        → Leaves b.status.conditions (budget_deep_copy_into lib b s).0 p u
        → ((budgets lib).value u (budget_deep_copy_into lib b s).1 ≡ (budgets lib).value s b)
          × ((budgets lib).value u (rest b) ≡ (budgets lib).value s (rest b))
    after_calls p u (le, at) =
        let i = budgets-IsCopier lib deep in
        let t = (budget_deep_copy_into lib b s).0 in
        let c = (budget_deep_copy_into lib b s).1 in
        (
          sym (
                i.value_at t u c (
                  All-map (IsNew s t) (λ a. Agree t u a)
                    (λ a n.
                      (at a n.1 (new-NotAt b.status.conditions a conditions-IsAllocated n.0)).0)
                    ((budgets lib).addrs c) (i.all_new b s)))
              ∙ i.copied b s allocated,
          sym (
              i.value_at s u (rest b) (
                All-map2 (IsAllocated s) (NotAt b.status.conditions) (λ a. Agree s u a)
                  (λ a lt n.
                    Agree_trans s t u a (i.kept b s a lt)
                      (at a (omega (arith, lt, i.next_le b s)) n).0)
                  ((budgets lib).addrs (rest b)) rest-IsAllocated own)),
        )

    -- The condition slice when the calls start.
    pub conditions_copied :
        conditions_at (budget_deep_copy_into lib b s).0 b.status.conditions
        ≡ conditions_at s b.status.conditions
    conditions_copied =
        let t = (budget_deep_copy_into lib b s).0 in
        sym (
          (arrays-IsCopier lib deep).value_at s t b.status.conditions (
            All-map (IsAllocated s) (λ a. Agree s t a) ((budgets-IsCopier lib deep).kept b s)
              (addr_of b.status.conditions) conditions-IsAllocated))

    -- The conditions after one more call.
    pub set_again :
        (wall : Time) (p : Option ℕ) (c : Condition) (u : Store B) (cs : List Condition)
        → conditions_at u p ≡ cs
        → conditions_at (set_at wall p c u).0 (set_at wall p c u).1
          ≡ cl.set_status_condition wall cs c
    set_again wall p c u cs e =
        in_place.sets wall p c u ∙ ap (λ cs. cl.set_status_condition wall cs c) e
