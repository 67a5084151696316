-- ===== src/Registration.antt =====
-- What the operator registers before it starts: the types of the resource with the scheme
-- (api/v1alpha1/groupversion_info.go, gpuworkloadbudget_types.go), the metrics with the registry
-- (internal/controller/metrics.go), the webhook with the manager
-- (internal/webhook/v1alpha1/gpuworkloadbudget_webhook.go); and the reconciler's choice of a clock.
-- The scheme, the registry and the manager are libraries: what is handed to them is data.
use gpu_k8s_operator.Prelude.{String, Option, none, some, List, [], ◌∷◌}
use gpu_k8s_operator.GoTime.{Time}
use gpu_k8s_operator.Numbers.{Numbers}
use gpu_k8s_operator.Api.{GpuWorkloadBudget}
use gpu_k8s_operator.Cluster.{
  Gauge, consumed_gpu_hours, remaining_gpu_hours, tracked_pods, accounting_accuracy_ratio, Cluster,
}
use gpu_k8s_operator.Webhook.{InvalidError, validate_create, validate_update, validate_delete}

-- `schema.GroupVersion`
pub record GroupVersion : Type 0 where
  pub group : String
  pub version : String

abbrev pub scheme_group_version : GroupVersion
scheme_group_version = record { group = "budget.zxuhan.dev"; version = "v1alpha1" }

abbrev pub group_version : GroupVersion
group_version = scheme_group_version

-- `scheme.Builder`, with the Go types registered, whose names are the kinds.
pub record SchemeBuilder : Type 0 where
  pub group_version : GroupVersion
  pub kinds : List String

abbrev pub scheme_builder : SchemeBuilder
scheme_builder = record { group_version = scheme_group_version; kinds = [] }

-- `init` of the package of the types.
abbrev pub registered_types : SchemeBuilder
registered_types = record scheme_builder {
  kinds = "GPUWorkloadBudget" ∷ "GPUWorkloadBudgetList" ∷ [];
}

-- `prometheus.GaugeVec` and `prometheus.CounterVec`: the name, and the names of the labels.
pub data Kind : Type 0 where
  gauge counter : Kind

pub record Collector : Type 0 where
  pub kind : Kind
  pub name : String
  pub labels : List String

abbrev pub gauge_vec : Gauge → Collector
gauge_vec consumed_gpu_hours = record {
  kind = gauge;
  name = "gwb_consumed_gpu_hours";
  labels = "namespace" ∷ "name" ∷ [];
}
gauge_vec remaining_gpu_hours = record {
  kind = gauge;
  name = "gwb_remaining_gpu_hours";
  labels = "namespace" ∷ "name" ∷ [];
}
gauge_vec tracked_pods = record {
  kind = gauge;
  name = "gwb_tracked_pods";
  labels = "namespace" ∷ "name" ∷ [];
}
gauge_vec accounting_accuracy_ratio = record {
  kind = gauge;
  name = "gwb_accounting_accuracy_ratio";
  labels = "namespace" ∷ "name" ∷ [];
}

abbrev pub enforcement_actions_total : Collector
enforcement_actions_total = record {
  kind = counter;
  name = "gwb_enforcement_actions_total";
  labels = "namespace" ∷ "name" ∷ "action" ∷ [];
}

-- `init` of the metrics: what `MustRegister` is given.
abbrev pub registered_collectors : List Collector
registered_collectors =
    gauge_vec consumed_gpu_hours
    ∷ gauge_vec remaining_gpu_hours
    ∷ gauge_vec tracked_pods
    ∷ enforcement_actions_total
    ∷ gauge_vec accounting_accuracy_ratio
    ∷ []

-- `GPUWorkloadBudgetCustomValidator`, as the three hooks that it implements.
pub record CustomValidator (Q : Type 0) : Type 0 where
  pub on_create : GpuWorkloadBudget Q → Option (InvalidError)
  pub on_update : GpuWorkloadBudget Q → GpuWorkloadBudget Q → Option (InvalidError)
  pub on_delete : GpuWorkloadBudget Q → Option (InvalidError)

-- `SetupGPUWorkloadBudgetWebhookWithManager`: the kind of the objects, and their validator.
pub record WebhookSetup (Q : Type 0) : Type 0 where
  pub for_kind : String
  pub validator : CustomValidator Q

module _ (num : Numbers) (cl : Cluster num) where
  open num use {Float, Quantity}

  abbrev pub custom_validator : CustomValidator Quantity
  custom_validator = record {
    on_create = validate_create num cl;
    on_update = validate_update num cl;
    on_delete = validate_delete num cl;
  }

  abbrev pub webhook_setup : WebhookSetup Quantity
  webhook_setup = record { for_kind = "GPUWorkloadBudget"; validator = custom_validator }

-- `GPUWorkloadBudgetReconciler`; a field that is nil is none. `H` is what a clock reads.
pub record Reconciler (H Client Scheme Clientset Recorder : Type 0) : Type 0 where
  pub client : Client
  pub scheme : Scheme
  pub clock : Option (H → Time)
  pub clientset : Option Clientset
  pub recorder : Option Recorder

abbrev clock_or : {H : Type 0} → Option (H → Time) → (H → Time) → H → Time
clock_or none time_now h = time_now h
clock_or (some clock) time_now h = clock h

module _ {H Client Scheme Clientset Recorder : Type 0} where
  -- The reconciler that `main` sets up, on the clock of the process.
  abbrev pub new_reconciler :
      (H → Time)
      → Client
      → Scheme
      → Clientset
      → Recorder
      → Reconciler H Client Scheme Clientset Recorder
  new_reconciler real_clock client scheme clientset recorder = record {
    client = client;
    scheme = scheme;
    clock = some real_clock;
    clientset = some clientset;
    recorder = some recorder;
  }

  -- The reconciler's `now`: its clock if it has one, or `time.Now`.
  abbrev pub now : Reconciler H Client Scheme Clientset Recorder → (H → Time) → H → Time
  now r time_now h = clock_or r.clock time_now h
