-- ===== src/Webhook.antt =====
-- internal/webhook/v1alpha1/gpuworkloadbudget_webhook.go: the validating webhook. The hooks return
-- no warnings; their error is an option.
pub mod Laws
pub mod Paths
pub mod Tests
use Prim.Native.String.{◌++◌}
use mathlib.Core.List.{◌++◌ as ◌⧺◌}
use text.Mathlib.Text.{◌==◌ as str_eq}
use gpu_k8s_operator.Prelude.{
  Bool, true, false, ◌&&◌, ◌||◌, String, Option, none, some, List, [], ◌∷◌, ℤ, pos, ltb_ℤ, leb_ℤ,
  Result, ok, err, Error, if◌then◌else◌,
}
use gpu_k8s_operator.Numbers.{Numbers}
use gpu_k8s_operator.Kube.{LabelSelector}
use gpu_k8s_operator.Api.{
  EnforcementAction, action_evict, action_pause, action_alert_only, GpuWorkloadBudgetSpec,
  GpuWorkloadBudget,
}
use gpu_k8s_operator.Cluster.{Cluster, Selector}

-- `field.Error`: its type, its path, the value that it shows, and its detail.
pub data FieldErrorType : Type 0 where
  invalid required not_supported : FieldErrorType

pub data BadValue : Type 0 where
  text_value : String → BadValue
  integer_value : ℤ → BadValue
  selector_value : LabelSelector → BadValue
  no_value : BadValue

pub record FieldError : Type 0 where
  pub type : FieldErrorType
  pub field : String
  pub bad_value : BadValue
  pub detail : String
  pub supported : List String

-- `path.Child(name)`
abbrev pub child : String → String → String
child path name = path ++ "." ++ name

abbrev pub invalid_error : String → BadValue → String → FieldError
invalid_error path value detail = record {
  type = invalid;
  field = path;
  bad_value = value;
  detail = detail;
  supported = [];
}

abbrev pub required_error : String → String → FieldError
required_error path detail = record {
  type = required;
  field = path;
  bad_value = no_value;
  detail = detail;
  supported = [];
}

abbrev pub not_supported_error : String → String → List String → FieldError
not_supported_error path value values = record {
  type = not_supported;
  field = path;
  bad_value = text_value value;
  detail = "";
  supported = values;
}

-- `isEmptyLabelSelector`; none is a nil pointer.
abbrev pub is_empty_list {ℓ} : {A : Type ℓ} → List A → Bool
is_empty_list [] = true
is_empty_list (x ∷ xs) = false

unfoldable pub is_empty_label_selector : Option LabelSelector → Bool
is_empty_label_selector none = true
is_empty_label_selector (some s) = is_empty_list s.match_labels && is_empty_list s.match_expressions

-- The error of `apierrors.NewInvalid`: the kind, the object's name and the causes.
pub record InvalidError : Type 0 where
  pub kind : String
  pub name : String
  pub causes : List FieldError

abbrev pub gwb_kind : String
gwb_kind = "GPUWorkloadBudget"

-- The part of `validateSpec` on the action.
abbrev pub action_errors : EnforcementAction → String → List FieldError
action_errors action path =
    if str_eq action action_evict || str_eq action action_pause || str_eq action action_alert_only
    then []
    else if str_eq action ""
    then required_error path "one of Evict, Pause, AlertOnly" ∷ []
    else not_supported_error path action (action_evict ∷ action_pause ∷ action_alert_only ∷ []) ∷ []

module _ (num : Numbers) (cl : Cluster num) where
  open num use {Quantity, sign, quantity_string}

  abbrev pub parse_errors : LabelSelector → String → Result Selector → List FieldError
  parse_errors s path (ok selector) = []
  parse_errors s path (err e) = invalid_error path (selector_value s) (cl.error_text e) ∷ []

  abbrev pub selector_errors : LabelSelector → String → List FieldError
  unfolding is_empty_label_selector
  selector_errors s path =
      if is_empty_label_selector (some s)
      then required_error path
          "must not be empty; set matchLabels or matchExpressions to scope the budget"
        ∷ []
      else parse_errors s path (cl.label_selector_as_selector s)

  abbrev pub quota_errors : Quantity → String → List FieldError
  quota_errors gpu_hours path =
      if leb_ℤ (sign gpu_hours) (pos 0)
      then invalid_error path (text_value (quantity_string gpu_hours)) "must be greater than 0" ∷ []
      else []

  abbrev pub window_errors : ℤ → String → List FieldError
  window_errors window_hours path =
      if leb_ℤ window_hours (pos 0)
      then invalid_error path (integer_value window_hours) "must be greater than 0" ∷ []
      else []

  abbrev pub grace_errors : ℤ → String → List FieldError
  grace_errors seconds path =
      if ltb_ℤ seconds (pos 0)
      then invalid_error path (integer_value seconds) "must be greater than or equal to 0" ∷ []
      else []

  -- `validateSpec`: the errors of the five checks, in the order of the source.
  unfoldable pub validate_spec : GpuWorkloadBudgetSpec Quantity → String → List FieldError
  validate_spec spec path =
      let quota_path = child path "quota" in
      let enf_path = child path "enforcement" in
      quota_errors spec.quota.gpu_hours (child quota_path "gpuHours")
      ⧺ (window_errors spec.quota.window_hours (child quota_path "windowHours")
          ⧺ (action_errors spec.enforcement.action (child enf_path "action")
              ⧺ (grace_errors spec.enforcement.grace_period_seconds
                    (child enf_path "gracePeriodSeconds")
                  ⧺ selector_errors spec.selector (child path "selector"))))

  -- `toInvalidErr`
  abbrev pub invalid_name : GpuWorkloadBudget Quantity → String
  invalid_name obj = if str_eq obj.name "" then "<new " ++ gwb_kind ++ ">" else obj.name

  unfoldable pub to_invalid_err : GpuWorkloadBudget Quantity → List FieldError → Option InvalidError
  to_invalid_err obj [] = none
  to_invalid_err obj (e ∷ errs) =
      some (record { kind = gwb_kind; name = invalid_name obj; causes = e ∷ errs })

  unfoldable pub validate_create : GpuWorkloadBudget Quantity → Option InvalidError
  unfolding validate_spec to_invalid_err
  validate_create obj = to_invalid_err obj (validate_spec obj.spec "spec")

  unfoldable pub validate_update :
      GpuWorkloadBudget Quantity → GpuWorkloadBudget Quantity → Option InvalidError
  unfolding validate_spec to_invalid_err
  validate_update old_obj new_obj = to_invalid_err new_obj (validate_spec new_obj.spec "spec")

  unfoldable pub validate_delete : GpuWorkloadBudget Quantity → Option InvalidError
  validate_delete obj = none
