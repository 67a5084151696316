-- ===== src/Controller/Watches.antt =====
-- `SetupWithManager`: which requests an event on a watched object enqueues. A budget enqueues itself,
-- which is the handler of controller-runtime's `For`, and a pod goes through `mapPodToBudgets`.
pub mod Agreement
pub mod Tests
use gpu_k8s_operator.Prelude.{String, some, List, [], ◌∷◌}
use gpu_k8s_operator.Numbers.{Numbers}
use gpu_k8s_operator.Kube.{Pod}
use gpu_k8s_operator.Api.{GpuWorkloadBudget}
use gpu_k8s_operator.Cluster.{Cluster, M, ret}
use gpu_k8s_operator.Controller.Reconciler.{map_pod_to_budgets}

pub data Event (Q : Type 0) : Type 0 where
  budget_event : GpuWorkloadBudget Q → Event Q
  pod_event : Pod Q → Event Q

unfoldable pub requests_of :
    (num : Numbers) (cl : Cluster num)
    → Event num.Quantity
    → M num.Quantity num.Float (List (String × String))
requests_of num cl (budget_event b) = ret ((b.namespace, b.name) ∷ [])
requests_of num cl (pod_event p) = map_pod_to_budgets num cl (some p)
