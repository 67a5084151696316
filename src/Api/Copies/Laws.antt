-- ===== src/Api/Copies/Laws.antt =====
-- What the deep copy of a budget reads as, and what it leads to.
use gpu_k8s_operator.Prelude.{ℕ, ◌<◌, ◌≤◌, ◌≡◌, refl, sym, Option, List, All}
use gpu_k8s_operator.GoTime.{Time}
use gpu_k8s_operator.Kube.{Condition, LabelSelector}
use gpu_k8s_operator.Api.{Quota, GpuWorkloadBudgetSpec, GpuWorkloadBudgetStatus, GpuWorkloadBudget}
use gpu_k8s_operator.Api.Store.{Store, Agree, IsAllocated, Copier, IsCopier}
use gpu_k8s_operator.Api.Copiers.{
  View, both, via, both-IsCopier, via-IsCopier, All-map, Agree_trans, read-copy,
}
use gpu_k8s_operator.Api.Copies.{
  ObjectMeta, Libraries, QuotaObject, SpecObject, StatusObject, BudgetObject, quota_deep_copy_into,
  spec_deep_copy_into, status_deep_copy_into, budget_deep_copy_into,
}
use gpu_k8s_operator.Api.Copies.Fields.{AreDeep, times, arrays, times-IsCopier, arrays-IsCopier}

module _ {Q B Meta Selector Amount : Type 0} (lib : Libraries Q B Meta Selector Amount) where
  abbrev quota_view : View (QuotaObject Amount) (Quota Q) Amount Q
  quota_view = record {
    part = λ q. q.gpu_hours;
    put_back = λ q g. record q { gpu_hours = g };
    build = λ q g. record { gpu_hours = g; window_hours = q.window_hours };
  }

  abbrev pub quotas : Copier B (QuotaObject Amount) (Quota Q)
  quotas = record (via quota_view lib.quantity) { copy = quota_deep_copy_into lib }

  abbrev spec_view :
      View
        (SpecObject Selector Amount)
        (GpuWorkloadBudgetSpec Q)
        (Selector × QuotaObject Amount)
        (LabelSelector × Quota Q)
  spec_view = record {
    part = λ x. (x.selector, x.quota);
    put_back = λ x y. record x { selector = y.0; quota = y.1 };
    build = λ x v. record {
      selector = v.0;
      quota = v.1;
      enforcement = x.enforcement;
      gpu_resource_name = x.gpu_resource_name;
    };
  }

  abbrev pub specs : Copier B (SpecObject Selector Amount) (GpuWorkloadBudgetSpec Q)
  specs = record (via spec_view (both lib.label_selector quotas)) { copy = spec_deep_copy_into lib }

  abbrev status_parts :
      Copier B
        (Amount × (Amount × (Option ℕ × Option ℕ)))
        (Q × (Q × (Option Time × List Condition)))
  status_parts = both lib.quantity (both lib.quantity (both (times lib) (arrays lib)))

  abbrev status_view :
      View
        (StatusObject Amount)
        (GpuWorkloadBudgetStatus Q)
        (Amount × (Amount × (Option ℕ × Option ℕ)))
        (Q × (Q × (Option Time × List Condition)))
  status_view = record {
    part =
        λ x. (x.consumed_gpu_hours, (x.remaining_gpu_hours, (x.last_enforcement_at, x.conditions)));
    put_back = λ x y. record x {
      consumed_gpu_hours = y.0;
      remaining_gpu_hours = y.1.0;
      last_enforcement_at = y.1.1.0;
      conditions = y.1.1.1;
    };
    build = λ x v. record {
      consumed_gpu_hours = v.0;
      remaining_gpu_hours = v.1.0;
      tracked_pods = x.tracked_pods;
      last_enforcement_at = v.1.1.0;
      observed_generation = x.observed_generation;
      conditions = v.1.1.1;
    };
  }

  abbrev pub statuses : Copier B (StatusObject Amount) (GpuWorkloadBudgetStatus Q)
  statuses = record (via status_view status_parts) { copy = status_deep_copy_into lib }

  abbrev budget_view :
      View
        (BudgetObject Meta Selector Amount)
        (GpuWorkloadBudget Q)
        (Meta × (SpecObject Selector Amount × StatusObject Amount))
        (ObjectMeta × (GpuWorkloadBudgetSpec Q × GpuWorkloadBudgetStatus Q))
  budget_view = record {
    part = λ x. (x.object_meta, (x.spec, x.status));
    put_back = λ x y. record x { object_meta = y.0; spec = y.1.0; status = y.1.1 };
    build = λ x v. record {
      namespace = v.0.namespace;
      name = v.0.name;
      generation = v.0.generation;
      deletion_timestamp = v.0.deletion_timestamp;
      finalizers = v.0.finalizers;
      spec = v.1.0;
      status = v.1.1;
    };
  }

  abbrev pub budgets : Copier B (BudgetObject Meta Selector Amount) (GpuWorkloadBudget Q)
  budgets = record (via budget_view (both lib.object_meta (both specs statuses))) {
    copy = budget_deep_copy_into lib;
  }

  module _ (deep : AreDeep lib) where
    open deep use {deep_meta, deep_selector, deep_quantity}

    quotas-IsCopier : IsCopier quotas
    quotas-IsCopier =
        via-IsCopier quota_view lib.quantity (λ x y. refl) (λ x y w. refl) deep_quantity

    specs-IsCopier : IsCopier specs
    specs-IsCopier =
        via-IsCopier spec_view (both lib.label_selector quotas) (λ x y. refl) (λ x y w. refl)
          (both-IsCopier lib.label_selector quotas deep_selector quotas-IsCopier)

    statuses-IsCopier : IsCopier statuses
    statuses-IsCopier =
        via-IsCopier status_view status_parts (λ x y. refl) (λ x y w. refl)
          (both-IsCopier lib.quantity (both lib.quantity (both (times lib) (arrays lib)))
            deep_quantity
            (both-IsCopier lib.quantity (both (times lib) (arrays lib)) deep_quantity (
              both-IsCopier (times lib) (arrays lib) (times-IsCopier lib deep)
                (arrays-IsCopier lib deep))))

    pub budgets-IsCopier : IsCopier budgets
    budgets-IsCopier =
        via-IsCopier budget_view (both lib.object_meta (both specs statuses)) (λ x y. refl)
          (λ x y w. refl)
          (both-IsCopier lib.object_meta (both specs statuses) deep_meta
            (both-IsCopier specs statuses specs-IsCopier statuses-IsCopier))

    -- If the libraries copy deeply, the deep copy of a budget whose objects exist reads as the
    -- budget did, whatever is then written to the objects that were there before, and the budget
    -- reads as it did whatever is written to the new ones.
    pub budget_deep_copy_into_lem :
        (b : BudgetObject Meta Selector Amount) (s u v : Store B)
        → All (IsAllocated s) (budgets.addrs b)
        → let t = (budget_deep_copy_into lib b s).0 in
          ((a : ℕ) → s.next ≤ a → a < t.next → Agree t u a)
          → ((a : ℕ) → a < s.next → Agree t v a)
          → (budgets.value u (budget_deep_copy_into lib b s).1 ≡ budgets.value s b)
            × (budgets.value v b ≡ budgets.value s b)
    budget_deep_copy_into_lem b s u v allocated old new =
        let i = budgets-IsCopier in
        let t = (budget_deep_copy_into lib b s).0 in
        (
          read-copy budgets i b s u allocated old,
          sym (
              i.value_at s v b (
                All-map (IsAllocated s) (λ a. Agree s v a)
                  (λ a lt. Agree_trans s t v a (i.kept b s a lt) (new a lt)) (budgets.addrs b)
                  allocated)),
        )
