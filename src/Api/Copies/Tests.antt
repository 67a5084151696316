-- ===== src/Api/Copies/Tests.antt =====
-- A deep copy of a budget whose quota is a pointer, after the quota and the conditions of the budget
-- have been overwritten.
use gpu_k8s_operator.Prelude.{ℕ, ◌<◌, ◌≤◌, ◌≡◌, refl, ℤ, pos, arith}
use gpu_k8s_operator.Api.Store.{Store, put}
use gpu_k8s_operator.Api.Copies.{budget_deep_copy_into}
use gpu_k8s_operator.Api.Copies.Laws.{budgets, budget_deep_copy_into_lem}
use gpu_k8s_operator.Samples.Objects.{libraries, libraries-AreDeep, stored, budget_object}

abbrev copied : Store ℤ
copied = (budget_deep_copy_into libraries budget_object stored).0

-- The quota of the budget is overwritten, then that of the copy.
abbrev old_written : Store ℤ
old_written = record copied { others = put copied.others 0 (pos 7) }

abbrev new_written : Store ℤ
new_written = record copied { others = put copied.others 2 (pos 7) }

put_later : (m : ℕ → ℤ) (a : ℕ) → 2 ≤ a → m a ≡ put m 0 (pos 7) a
put_later m a le = ground arith

put_earlier : (m : ℕ → ℤ) (a : ℕ) → a < 2 → m a ≡ put m 2 (pos 7) a
put_earlier m a lt = ground arith

budget_deep_copy_into_lem_example :
    ((budgets libraries).value old_written (budget_deep_copy_into libraries budget_object stored).1
      ≡ (budgets libraries).value stored budget_object)
    × ((budgets libraries).value new_written budget_object
        ≡ (budgets libraries).value stored budget_object)
budget_deep_copy_into_lem_example =
    budget_deep_copy_into_lem libraries libraries-AreDeep budget_object stored old_written
      new_written (omega arith, (omega arith, tt))
      (λ a le lt. (refl, refl, put_later copied.others a le))
      (λ a lt. (refl, refl, put_earlier copied.others a lt))
