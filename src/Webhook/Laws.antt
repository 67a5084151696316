-- ===== src/Webhook/Laws.antt =====
-- The webhook admits exactly the specs that the operator can work with, and names every defect.
use text.Mathlib.TextEquality.{eq_iff}
use gpu_k8s_operator.Prelude.{
  ◌≡◌, ◌≢◌, refl, false, ◌&&◌, String, none, some, List, [], ◌∷◌, ◌++◌, ◌⊎◌, inl, inr, ◌↔◌, arith,
  ℤ, pos, ◌<ℤ◌, ◌≤ℤ◌, Result, ok, err, Bool-cases,
}
use gpu_k8s_operator.Numbers.{Numbers}
use gpu_k8s_operator.Kube.{LabelSelector}
use gpu_k8s_operator.Api.{
  EnforcementAction, action_evict, action_pause, action_alert_only, GpuWorkloadBudgetSpec,
  GpuWorkloadBudget,
}
use gpu_k8s_operator.Cluster.{Cluster, Selector}
use gpu_k8s_operator.Webhook.{
  FieldError, is_empty_list, is_empty_label_selector, action_errors, parse_errors, selector_errors,
  quota_errors, window_errors, grace_errors, validate_spec, to_invalid_err, validate_create,
  validate_update, validate_delete,
}

abbrev pub IsKnownAction : EnforcementAction → Type 0
IsKnownAction a = (a ≡ action_evict) ⊎ (a ≡ action_pause) ⊎ (a ≡ action_alert_only)

abbrev pub SelectsSome : LabelSelector → Type 0
SelectsSome s = (s.match_labels ≢ []) ⊎ (s.match_expressions ≢ [])

abbrev pub IsOk : {A : Type 0} → Result A → Type 0
IsOk (ok a) = Unit
IsOk (err e) = ⊥

-- What a spec must satisfy.
pub record IsValidSpec (num : Numbers) (cl : Cluster num)
    (spec : GpuWorkloadBudgetSpec num.Quantity) : Type 0 where
  pub quota_positive : pos 0 <ℤ num.sign spec.quota.gpu_hours
  pub window_positive : pos 0 <ℤ spec.quota.window_hours
  pub action_known : IsKnownAction spec.enforcement.action
  pub grace_not_negative : pos 0 ≤ℤ spec.enforcement.grace_period_seconds
  pub selector_scopes : SelectsSome spec.selector
  pub selector_parses : IsOk (cl.label_selector_as_selector spec.selector)

five_nil_iff :
    {A : Type 0} (a b c d e : List A)
    → ((a ++ (b ++ (c ++ (d ++ e)))) ≡ []) ↔ ((a ≡ []) × (b ≡ []) × (c ≡ []) × (d ≡ []) × (e ≡ []))
five_nil_iff [] [] [] [] e = ((λ h. (refl, refl, refl, refl, h)), (λ h. h.4))
five_nil_iff (x ∷ a) b c d e = ((λ h. cc h), (λ h. cc h.0))
five_nil_iff [] (x ∷ b) c d e = ((λ h. cc h), (λ h. cc h.1))
five_nil_iff [] [] (x ∷ c) d e = ((λ h. cc h), (λ h. cc h.2))
five_nil_iff [] [] [] (x ∷ d) e = ((λ h. cc h), (λ h. cc h.3))

pub action_errors_iff :
    (a : EnforcementAction) (p : String) → (action_errors a p ≡ []) ↔ IsKnownAction a
action_errors_iff a p =
    ground (arith, eq_iff a action_evict, eq_iff a action_pause, eq_iff a action_alert_only)

either_nonempty :
    {A B : Type 0} (xs : List A) (ys : List B)
    → ((is_empty_list xs && is_empty_list ys) ≡ false) ↔ ((xs ≢ []) ⊎ (ys ≢ []))
either_nonempty [] [] =
    ((λ e. cc e), (λ h. elim h [ inl n ↦ absurd (n refl) | inr n ↦ absurd (n refl) ]))
either_nonempty [] (y ∷ ys) = ((λ _. inr (λ e. cc e)), (λ _. refl))
either_nonempty (x ∷ xs) ys = ((λ _. inl (λ e. cc e)), (λ _. refl))

nonempty_iff : (s : LabelSelector) → (is_empty_label_selector (some s) ≡ false) ↔ SelectsSome s
unfolding is_empty_label_selector
nonempty_iff s = either_nonempty s.match_labels s.match_expressions

module _ (num : Numbers) (cl : Cluster num) where
  open num use {Quantity, sign}

  pub quota_errors_iff :
      (q : Quantity) (p : String) → (quota_errors num cl q p ≡ []) ↔ (pos 0 <ℤ sign q)
  quota_errors_iff q p = ground arith

  pub window_errors_iff : (w : ℤ) (p : String) → (window_errors num cl w p ≡ []) ↔ (pos 0 <ℤ w)
  window_errors_iff w p = ground arith

  pub grace_errors_iff : (g : ℤ) (p : String) → (grace_errors num cl g p ≡ []) ↔ (pos 0 ≤ℤ g)
  grace_errors_iff g p = ground arith

  parse_errors_iff :
      (s : LabelSelector) (p : String) (r : Result Selector)
      → (parse_errors num cl s p r ≡ []) ↔ IsOk r
  parse_errors_iff s p (ok f) = ((λ _. tt), (λ _. refl))
  parse_errors_iff s p (err e) = ((λ h. cc h), (λ h. absurd h))

  pub selector_errors_iff :
      (s : LabelSelector) (p : String)
      → (selector_errors num cl s p ≡ []) ↔ (SelectsSome s × IsOk (cl.label_selector_as_selector s))
  unfolding is_empty_label_selector
  selector_errors_iff s p = elim (Bool-cases (is_empty_label_selector (some s))) [
    | inl e ↦ rw e ((λ h. cc h), (λ h. cc (e, (nonempty_iff s).1 h.0)))
    | inr e ↦
        let parsed = parse_errors_iff s p (cl.label_selector_as_selector s) in
        rw e ((λ h. ((nonempty_iff s).0 e, parsed.0 h)), (λ h. parsed.1 h.1))
  ]

  -- `validateSpec` reports no error exactly if the spec is valid, at whatever path it is reported.
  validate_spec_iff :
      (spec : GpuWorkloadBudgetSpec Quantity) (path : String)
      → (validate_spec num cl spec path ≡ []) ↔ IsValidSpec num cl spec
  unfolding validate_spec
  validate_spec_iff spec path =
      let quota = quota_errors_iff spec.quota.gpu_hours _ in
      let window = window_errors_iff spec.quota.window_hours _ in
      let action = action_errors_iff spec.enforcement.action _ in
      let grace = grace_errors_iff spec.enforcement.grace_period_seconds _ in
      let selector = selector_errors_iff spec.selector _ in
      let all = five_nil_iff _ _ _ _ _ in
      (
        (λ h.
            let (q, w, a, g, s) = all.0 h in
            record {
              quota_positive = quota.0 q;
              window_positive = window.0 w;
              action_known = action.0 a;
              grace_not_negative = grace.0 g;
              selector_scopes = (selector.0 s).0;
              selector_parses = (selector.0 s).1;
            }),
        (λ v. all.1 (
          quota.1 v.quota_positive,
          window.1 v.window_positive,
          action.1 v.action_known,
          grace.1 v.grace_not_negative,
          selector.1 (v.selector_scopes, v.selector_parses),
        )),
      )

  to_invalid_err_iff :
      (obj : GpuWorkloadBudget Quantity) (errs : List FieldError)
      → (to_invalid_err num cl obj errs ≡ none) ↔ (errs ≡ [])
  unfolding to_invalid_err
  to_invalid_err_iff obj [] = ((λ _. refl), (λ _. refl))
  to_invalid_err_iff obj (e ∷ errs) = ((λ h. cc h), (λ h. cc h))

  -- A create is admitted exactly if the spec is valid, an update is judged by the new object alone
  -- as a create of it would be, and a delete is always admitted.
  pub validate_create_iff :
      (obj old : GpuWorkloadBudget Quantity)
      → ((validate_create num cl obj ≡ none) ↔ IsValidSpec num cl obj.spec)
        × ((validate_update num cl old obj ≡ none) ↔ IsValidSpec num cl obj.spec)
        × (validate_delete num cl obj ≡ none)
  unfolding validate_create validate_update validate_delete
  validate_create_iff obj old =
      let errs = validate_spec num cl obj.spec "spec" in
      let outer = to_invalid_err_iff obj errs in
      let inner = validate_spec_iff obj.spec "spec" in
      let judged : (to_invalid_err num cl obj errs ≡ none) ↔ IsValidSpec num cl obj.spec =
        ((λ h. inner.0 (outer.0 h)), (λ v. outer.1 (inner.1 v))) in
      (judged, judged, refl)
