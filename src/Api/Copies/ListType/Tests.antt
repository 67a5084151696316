-- ===== src/Api/Copies/ListType/Tests.antt =====
-- A list of one budget, copied, after the budget's quota has been overwritten.
use gpu_k8s_operator.Prelude.{ℕ, ◌≤◌, ◌≡◌, refl, some, String, [], ◌∷◌, ℤ, pos, arith}
use gpu_k8s_operator.Kube.{LabelSelector}
use gpu_k8s_operator.Api.Store.{put}
use gpu_k8s_operator.Api.Copies.{ObjectMeta, BudgetObject}
use gpu_k8s_operator.Api.Copies.ListType.{ListObject, Shelf, list_deep_copy_into}
use gpu_k8s_operator.Api.Copies.ListType.Laws.{IsStored, list_value, list_deep_copy_into_lem}
use gpu_k8s_operator.Samples.Objects.{
  libraries, libraries-AreDeep, plain, plain-IsCopier, stored, budget_object, Amount,
}

-- The slice of items is at address 2.
abbrev shelf : Shelf ℤ (BudgetObject ObjectMeta LabelSelector Amount)
shelf = record { store = record stored { next = 3 }; slices = λ a. budget_object ∷ [] }

abbrev one_budget : ListObject String
one_budget = record { list_meta = "7"; items = some 2 }

one_budget-IsStored : IsStored libraries plain one_budget shelf
one_budget-IsStored = record { meta_stored = tt; items_stored = (omega arith, (omega arith, tt)) }

abbrev copied : Shelf ℤ (BudgetObject ObjectMeta LabelSelector Amount)
copied = (list_deep_copy_into libraries plain one_budget shelf).0

abbrev old_written : Shelf ℤ (BudgetObject ObjectMeta LabelSelector Amount)
old_written = record copied {
  store = record (copied.store) { others = put copied.store.others 0 (pos 7) };
}

put_later : (m : ℕ → ℤ) (a : ℕ) → 3 ≤ a → m a ≡ put m 0 (pos 7) a
put_later m a le = ground arith

list_deep_copy_into_lem_example :
    list_value libraries plain old_written (list_deep_copy_into libraries plain one_budget shelf).1
    ≡ list_value libraries plain shelf one_budget
list_deep_copy_into_lem_example =
    list_deep_copy_into_lem libraries plain libraries-AreDeep plain-IsCopier one_budget shelf
      old_written one_budget-IsStored
      (λ a le lt. ((refl, refl, put_later copied.store.others a le), refl))
