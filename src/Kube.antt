-- ===== src/Kube.antt =====
-- The Kubernetes data that the operator reads and writes (k8s.io/api, k8s.io/apimachinery): of each
-- struct the fields that the source mentions. Maps are association lists; a nil map is empty.
pub mod Maps
use gpu_k8s_operator.Prelude.{
  Bool, true, false, String, Option, none, some, List, [], ◌∷◌, ℤ, if◌then◌else◌,
}
use text.Mathlib.Text.{◌==◌ as str_eq}
use gpu_k8s_operator.GoTime.{Time, is_zero}

module _ {ℓ} {V : Type ℓ} where
  -- `v, ok := m[k]`, and `m[k] = v`.
  abbrev pub lookup : String → List (String × V) → Option V
  lookup k [] = none
  lookup k ((j, v) ∷ m) = if str_eq j k then some v else lookup k m

  abbrev pub insert : String → V → List (String × V) → List (String × V)
  insert k v [] = (k, v) ∷ []
  insert k v ((j, w) ∷ m) = if str_eq j k then (k, v) ∷ m else (j, w) ∷ insert k v m

pub record ContainerStateRunning : Type 0 where
  pub started_at : Time

pub record ContainerStateTerminated : Type 0 where
  pub started_at : Time
  pub finished_at : Time

pub record ContainerState : Type 0 where
  pub running : Option ContainerStateRunning
  pub terminated : Option ContainerStateTerminated

pub record ContainerStatus : Type 0 where
  pub state : ContainerState
  pub last_termination_state : ContainerState

-- `spec.containers[i]`, with its resource requests.
pub record Container (Q : Type 0) : Type 0 where
  pub requests : List (String × Q)

-- `corev1.Pod`: metadata, spec and status.
pub record Pod (Q : Type 0) : Type 0 where
  pub uid : String
  pub namespace : String
  pub name : String
  pub labels : List (String × String)
  pub annotations : List (String × String)
  pub deletion_timestamp : Option Time
  pub containers : List (Container Q)
  pub phase : String
  pub container_statuses : List ContainerStatus
  pub start_time : Option Time

abbrev pub pod_succeeded : String
pod_succeeded = "Succeeded"

abbrev pub pod_failed : String
pod_failed = "Failed"

pub record LabelSelectorRequirement : Type 0 where
  pub key : String
  pub operator : String
  pub values : List String

pub record LabelSelector : Type 0 where
  pub match_labels : List (String × String)
  pub match_expressions : List LabelSelectorRequirement

-- `metav1.Condition`; a status is "True", "False" or "Unknown".
pub record Condition : Type 0 where
  pub type : String
  pub status : String
  pub reason : String
  pub message : String
  pub last_transition_time : Time

abbrev pub condition_true : String
condition_true = "True"

abbrev pub condition_false : String
condition_false = "False"

-- `(*metav1.Time).IsZero`: nil, or the zero time.
abbrev pub is_zero_ptr : Option Time → Bool
is_zero_ptr none = true
is_zero_ptr (some t) = is_zero t
