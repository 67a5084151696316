-- ===== src/Api/Copies.antt =====
-- api/v1alpha1/zz_generated.deepcopy.go: the deep copies of the resource, over a store. `Meta`,
-- `Selector` and `Amount` are ObjectMeta, LabelSelector and resource.Quantity, whose deep copies are
-- the libraries', like those of a time and of a condition. TypeMeta, which the operator does not
-- read, is left out. The list type is the child ListType.
pub mod Fields
pub mod Laws
pub mod ListType
pub mod Tests
use gpu_k8s_operator.Prelude.{ℕ, ℤ, String, Option, none, some, List, [], ◌∷◌, ◌++◌, map}
use gpu_k8s_operator.GoTime.{Time}
use gpu_k8s_operator.Kube.{Condition, LabelSelector}
use gpu_k8s_operator.Api.{
  Quota, Enforcement, GpuWorkloadBudgetSpec, GpuWorkloadBudgetStatus, GpuWorkloadBudget,
}
use gpu_k8s_operator.Api.Store.{Store, new_time, new_array, Copier}

-- The fields of ObjectMeta that the operator reads.
pub record ObjectMeta : Type 0 where
  pub namespace : String
  pub name : String
  pub generation : ℤ
  pub deletion_timestamp : Option Time
  pub finalizers : List String

-- The deep copies of the libraries, on objects of the types `Meta`, `Selector` and `Amount`.
pub record Libraries (Q B Meta Selector Amount : Type 0) : Type 0 where
  pub object_meta : Copier B Meta ObjectMeta
  pub label_selector : Copier B Selector LabelSelector
  pub quantity : Copier B Amount Q
  pub time_copy : Time → Time
  pub condition_copy : Condition → Condition

-- The structs, with an address for each pointer and each slice of the resource's own.
pub record QuotaObject (Amount : Type 0) : Type 0 where
  pub gpu_hours : Amount
  pub window_hours : ℤ

pub record SpecObject (Selector Amount : Type 0) : Type 0 where
  pub selector : Selector
  pub quota : QuotaObject Amount
  pub enforcement : Enforcement
  pub gpu_resource_name : String

pub record StatusObject (Amount : Type 0) : Type 0 where
  pub consumed_gpu_hours : Amount
  pub remaining_gpu_hours : Amount
  pub tracked_pods : ℤ
  pub last_enforcement_at : Option ℕ
  pub observed_generation : ℤ
  pub conditions : Option ℕ

pub record BudgetObject (Meta Selector Amount : Type 0) : Type 0 where
  pub object_meta : Meta
  pub spec : SpecObject Selector Amount
  pub status : StatusObject Amount

-- `DeepCopy`, of a pointer that may be nil, for a type with its `DeepCopyInto`.
abbrev pub deep_copy : {X S : Type 0} → (X → S → S × X) → Option X → S → S × Option X
deep_copy copy_into none s = (s, none)
deep_copy copy_into (some x) s = let out = copy_into x s in (out.0, some out.1)

module _ {Q B Meta Selector Amount : Type 0} (lib : Libraries Q B Meta Selector Amount) where
  open lib use {object_meta, label_selector, quantity, time_copy, condition_copy}

  -- `if in.LastEnforcementAt != nil`, and `if in.Conditions != nil`.
  abbrev pub copy_time : Option ℕ → Store B → Store B × Option ℕ
  copy_time none s = (s, none)
  copy_time (some a) s = let out = new_time s (time_copy (s.times a)) in (out.0, some out.1)

  abbrev pub copy_conditions : Option ℕ → Store B → Store B × Option ℕ
  copy_conditions none s = (s, none)
  copy_conditions (some a) s =
      let out = new_array s (map condition_copy (s.arrays a)) in (out.0, some out.1)

  -- The methods `DeepCopyInto`; each starts from `*out = *in`.
  abbrev pub enforcement_deep_copy_into : Enforcement → Store B → Store B × Enforcement
  enforcement_deep_copy_into e s = (s, e)

  abbrev pub quota_deep_copy_into : QuotaObject Amount → Store B → Store B × QuotaObject Amount
  quota_deep_copy_into q s =
      let hours = quantity.copy q.gpu_hours s in (hours.0, record q { gpu_hours = hours.1 })

  abbrev pub spec_deep_copy_into :
      SpecObject Selector Amount → Store B → Store B × SpecObject Selector Amount
  spec_deep_copy_into spec s =
      let selector = label_selector.copy spec.selector s in
      let quota = quota_deep_copy_into spec.quota selector.0 in
      (
        quota.0,
        record spec { selector = selector.1; quota = quota.1; enforcement = spec.enforcement },
      )

  abbrev pub status_deep_copy_into : StatusObject Amount → Store B → Store B × StatusObject Amount
  status_deep_copy_into status s =
      let consumed = quantity.copy status.consumed_gpu_hours s in
      let remaining = quantity.copy status.remaining_gpu_hours consumed.0 in
      let last = copy_time status.last_enforcement_at remaining.0 in
      let conditions = copy_conditions status.conditions last.0 in
      (
        conditions.0,
        record status {
          consumed_gpu_hours = consumed.1;
          remaining_gpu_hours = remaining.1;
          last_enforcement_at = last.1;
          conditions = conditions.1;
        },
      )

  abbrev pub budget_deep_copy_into :
      BudgetObject Meta Selector Amount → Store B → Store B × BudgetObject Meta Selector Amount
  budget_deep_copy_into b s =
      let meta = object_meta.copy b.object_meta s in
      let spec = spec_deep_copy_into b.spec meta.0 in
      let status = status_deep_copy_into b.status spec.0 in
      (status.0, record b { object_meta = meta.1; spec = spec.1; status = status.1 })

  abbrev pub enforcement_deep_copy : Option Enforcement → Store B → Store B × Option Enforcement
  enforcement_deep_copy e s = deep_copy enforcement_deep_copy_into e s

  abbrev pub quota_deep_copy :
      Option (QuotaObject Amount) → Store B → Store B × Option (QuotaObject Amount)
  quota_deep_copy q s = deep_copy quota_deep_copy_into q s

  abbrev pub spec_deep_copy :
      Option (SpecObject Selector Amount) → Store B → Store B × Option (SpecObject Selector Amount)
  spec_deep_copy spec s = deep_copy spec_deep_copy_into spec s

  abbrev pub status_deep_copy :
      Option (StatusObject Amount) → Store B → Store B × Option (StatusObject Amount)
  status_deep_copy status s = deep_copy status_deep_copy_into status s

  abbrev pub budget_deep_copy :
      Option (BudgetObject Meta Selector Amount)
      → Store B
      → Store B × Option (BudgetObject Meta Selector Amount)
  budget_deep_copy b s = deep_copy budget_deep_copy_into b s

  abbrev pub budget_deep_copy_object :
      Option (BudgetObject Meta Selector Amount)
      → Store B
      → Store B × Option (BudgetObject Meta Selector Amount)
  budget_deep_copy_object b s =
      let c = budget_deep_copy b s in elim c.1 [ some o ↦ (c.0, some o) | none ↦ (c.0, none) ]
