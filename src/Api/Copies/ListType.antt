-- ===== src/Api/Copies/ListType.antt =====
-- The deep copies of `GPUWorkloadBudgetList`, whose items are a slice of budgets.
pub mod Laws
pub mod Tests
use gpu_k8s_operator.Prelude.{ℕ, suc, Option, none, some, List, [], ◌∷◌}
use gpu_k8s_operator.Api.{GpuWorkloadBudget}
use gpu_k8s_operator.Api.Store.{Store, put, Copier}
use gpu_k8s_operator.Api.Copies.{Libraries, BudgetObject, budget_deep_copy_into, deep_copy}

-- `GPUWorkloadBudgetList`; `Meta` is ListMeta.
pub record ListObject (Meta : Type 0) : Type 0 where
  pub list_meta : Meta
  pub items : Option ℕ

-- A store, with the slices of budgets; the addresses are those of the store.
pub record Shelf (B X : Type 0) : Type 0 where
  pub store : Store B
  pub slices : ℕ → List X

module _ {Q B Meta Selector Amount ListMeta : Type 0} (lib : Libraries Q B Meta Selector Amount)
    (list_meta : Copier B ListMeta ListMeta) where
  -- The loop over the items.
  abbrev pub copy_items :
      List (BudgetObject Meta Selector Amount)
      → Store B
      → Store B × List (BudgetObject Meta Selector Amount)
  copy_items [] s = (s, [])
  copy_items (b ∷ bs) s =
      let out = budget_deep_copy_into lib b s in
      let rest = copy_items bs out.0 in (rest.0, out.1 ∷ rest.1)

  -- `if in.Items != nil`: the array is made before the loop.
  abbrev pub copy_slice :
      Option ℕ
      → Shelf B (BudgetObject Meta Selector Amount)
      → Shelf B (BudgetObject Meta Selector Amount) × Option ℕ
  copy_slice none s = (s, none)
  copy_slice (some a) s =
      let place = s.store.next in
      let out = copy_items (s.slices a) (record (s.store) { next = suc place }) in
      (record { store = out.0; slices = put s.slices place out.1 }, some place)

  abbrev pub list_deep_copy_into :
      ListObject ListMeta
      → Shelf B (BudgetObject Meta Selector Amount)
      → Shelf B (BudgetObject Meta Selector Amount) × ListObject ListMeta
  list_deep_copy_into l s =
      let meta = list_meta.copy l.list_meta s.store in
      let slice = copy_slice l.items (record s { store = meta.0 }) in
      (slice.0, record l { list_meta = meta.1; items = slice.1 })

  abbrev pub list_deep_copy :
      Option (ListObject ListMeta)
      → Shelf B (BudgetObject Meta Selector Amount)
      → Shelf B (BudgetObject Meta Selector Amount) × Option (ListObject ListMeta)
  list_deep_copy l s = deep_copy list_deep_copy_into l s

  abbrev pub list_deep_copy_object :
      Option (ListObject ListMeta)
      → Shelf B (BudgetObject Meta Selector Amount)
      → Shelf B (BudgetObject Meta Selector Amount) × Option (ListObject ListMeta)
  list_deep_copy_object l s =
      let c = list_deep_copy l s in elim c.1 [ some o ↦ (c.0, some o) | none ↦ (c.0, none) ]
