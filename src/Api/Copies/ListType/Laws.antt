-- ===== src/Api/Copies/ListType/Laws.antt =====
-- What the deep copy of a list reads as, after writes to the old objects.
use mathlib.Core.Path.{subst}
use gpu_k8s_operator.Prelude.{
  ℕ, suc, ◌<◌, ◌≤◌, ◌≡◌, ◌∙◌, refl, sym, ap, Option, none, some, List, [], ◌∷◌, All, arith,
}
use gpu_k8s_operator.Api.{GpuWorkloadBudget}
use gpu_k8s_operator.Api.Store.{Store, Agree, IsAllocated, Copier, IsCopier}
use gpu_k8s_operator.Api.Copiers.{All-map, Agree_trans, put-put, pair_eq, read-copy}
use gpu_k8s_operator.Api.Copiers.Each.{each, each_copy, each-IsCopier}
use gpu_k8s_operator.Api.Copies.{Libraries, BudgetObject, budget_deep_copy_into}
use gpu_k8s_operator.Api.Copies.Fields.{AreDeep}
use gpu_k8s_operator.Api.Copies.Laws.{budgets, budgets-IsCopier}
use gpu_k8s_operator.Api.Copies.ListType.{
  ListObject, Shelf, copy_items, copy_slice, list_deep_copy_into,
}

module _ {Q B Meta Selector Amount ListMeta : Type 0} (lib : Libraries Q B Meta Selector Amount)
    (list_meta : Copier B ListMeta ListMeta) where
  -- The budgets of a slice, and those of the list; a nil slice reads as an empty list.
  abbrev pub items_at :
      Shelf B (BudgetObject Meta Selector Amount)
      → Option ℕ
      → List (BudgetObject Meta Selector Amount)
  items_at s none = []
  items_at s (some a) = s.slices a

  abbrev pub list_value :
      Shelf B (BudgetObject Meta Selector Amount)
      → ListObject ListMeta
      → ListMeta × List (GpuWorkloadBudget Q)
  list_value s l =
      (list_meta.value s.store l.list_meta, (each (budgets lib)).value s.store (items_at s l.items))

  -- All that the list leads to exists.
  pub record IsStored (l : ListObject ListMeta) (s : Shelf B (BudgetObject Meta Selector Amount))
      : Type 0 where
    pub meta_stored : All (IsAllocated s.store) (list_meta.addrs l.list_meta)
    pub items_stored : All (IsAllocated s.store) ((each (budgets lib)).addrs (items_at s l.items))

  -- Two shelves hold the same at an address.
  abbrev pub AgreeAt :
      Shelf B (BudgetObject Meta Selector Amount)
      → Shelf B (BudgetObject Meta Selector Amount)
      → ℕ
      → Type 0
  AgreeAt s t a = Agree s.store t.store a × (s.slices a ≡ t.slices a)

  each_copy-eq-copy_items :
      (bs : List (BudgetObject Meta Selector Amount)) (s : Store B)
      → ◌≡◌ {A = Store B × List (BudgetObject Meta Selector Amount)}
          (each_copy (budgets lib) bs s)
          (copy_items lib list_meta bs s)
  each_copy-eq-copy_items [] s = refl
  each_copy-eq-copy_items (b ∷ bs) s =
      let out = budget_deep_copy_into lib b s in rw (each_copy-eq-copy_items bs out.0) refl

  items : Copier B (List (BudgetObject Meta Selector Amount)) (List (GpuWorkloadBudget Q))
  items = record (each (budgets lib)) { copy = copy_items lib list_meta }

  module _ (deep : AreDeep lib) (deep_meta : IsCopier list_meta) where
    items-IsCopier : IsCopier items
    unfolding items
    items-IsCopier =
        subst (λ f. IsCopier (record (each (budgets lib)) { copy = f }))
          (λ i bs s. each_copy-eq-copy_items bs s i)
          (each-IsCopier (budgets lib) (budgets-IsCopier lib deep))

    -- The items of a slice, from the store `m` that the copy of the metadata left.
    items_copied :
        (o : Option ℕ) (s u : Shelf B (BudgetObject Meta Selector Amount)) (m : Store B)
        → s.store.next ≤ m.next
        → ((a : ℕ) → a < s.store.next → Agree s.store m a)
        → All (IsAllocated s.store) ((each (budgets lib)).addrs (items_at s o))
        → let out = copy_slice lib list_meta o (record s { store = m }) in
          ((a : ℕ) → m.next ≤ a → a < out.0.store.next → AgreeAt out.0 u a)
          → (each (budgets lib)).value u.store (items_at u out.1)
            ≡ (each (budgets lib)).value s.store (items_at s o)
    unfolding items
    items_copied none s u m le kept stored old = refl
    items_copied (some a) s u m le kept stored old =
        let made = record m { next = suc m.next } in
        let bs = s.slices a in
        let out = copy_items lib list_meta bs made in
        let i = items-IsCopier in
        let same : u.slices m.next ≡ out.1 =
          sym (old m.next (omega arith) (omega (arith, i.next_le bs made))).1
          ∙ put-put s.slices m.next out.1 in
        ap ((each (budgets lib)).value u.store) same
        ∙ read-copy items i bs made u.store
            (All-map (IsAllocated s.store) (IsAllocated made) (λ a lt. omega (arith, lt, le))
              (items.addrs bs) stored)
            (λ a le lt. (old a (omega (arith, le)) lt).0)
        ∙ sym (
            i.value_at s.store made bs (
              All-map (IsAllocated s.store) (λ a. Agree s.store made a) kept (items.addrs bs)
                stored))

    slice_next :
        (o : Option ℕ) (s : Shelf B (BudgetObject Meta Selector Amount))
        → s.store.next ≤ (copy_slice lib list_meta o s).0.store.next
    unfolding items
    slice_next none s = omega arith
    slice_next (some a) s =
        omega (
          arith,
          items-IsCopier.next_le (s.slices a) (record (s.store) { next = suc s.store.next }),
        )

    slice_kept :
        (o : Option ℕ) (s : Shelf B (BudgetObject Meta Selector Amount)) (a : ℕ)
        → a < s.store.next
        → Agree s.store (copy_slice lib list_meta o s).0.store a
    unfolding items
    slice_kept none s a lt = (refl, refl, refl)
    slice_kept (some b) s a lt =
        items-IsCopier.kept (s.slices b) (record (s.store) { next = suc s.store.next }) a
          (omega (arith, lt))

    -- If the libraries copy deeply, the deep copy of a list whose objects exist reads as the list
    -- did, its budgets in their order, whatever is then written to the objects that were there
    -- before.
    pub list_deep_copy_into_lem :
        (l : ListObject ListMeta) (s u : Shelf B (BudgetObject Meta Selector Amount))
        → IsStored l s
        → let t = (list_deep_copy_into lib list_meta l s).0 in
          ((a : ℕ) → s.store.next ≤ a → a < t.store.next → AgreeAt t u a)
          → list_value u (list_deep_copy_into lib list_meta l s).1 ≡ list_value s l
    list_deep_copy_into_lem l s u stored old =
        let meta = list_meta.copy l.list_meta s.store in
        let out = copy_slice lib list_meta l.items (record s { store = meta.0 }) in
        pair_eq
          (read-copy list_meta deep_meta l.list_meta s.store u.store stored.meta_stored (λ a le lt.
            Agree_trans meta.0 out.0.store u.store a
              (slice_kept l.items (record s { store = meta.0 }) a lt)
              (old a le (omega (arith, lt, slice_next l.items (record s { store = meta.0 })))).0))
          (items_copied l.items s u meta.0 (deep_meta.next_le l.list_meta s.store)
            (deep_meta.kept l.list_meta s.store) stored.items_stored
            (λ a le lt. old a (omega (arith, le, deep_meta.next_le l.list_meta s.store)) lt))
