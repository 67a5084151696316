-- ===== src/Controller/Failing/Tests.antt =====
-- A round whose first patch is refused.
use gpu_k8s_operator.Prelude.{◌≡◌, refl, true, [], err, api_status, other_reason}
use gpu_k8s_operator.Numbers.Fixed.{fixed}
use gpu_k8s_operator.Cluster.{Cluster}
use gpu_k8s_operator.Enforcement.Effects.{is_err}
use gpu_k8s_operator.Controller.Status.{write_status}
use gpu_k8s_operator.Controller.Reconciler.{
  reconcile, reconcile_found, reconcile_live, ensure_finalizer, reconcile_selector, reconcile_pods,
}
use gpu_k8s_operator.Controller.Failing.{EndsRefused}
use gpu_k8s_operator.Controller.Failing.Rounds.{reconcile-FailsLast}
use gpu_k8s_operator.Samples.{cluster}

-- A server that refuses every patch of a status.
abbrev refusing : Cluster fixed
refusing = record cluster { patch_budget = λ h old new. err (api_status other_reason "refused") }

-- The round returns an error.
round_fails : is_err (reconcile fixed refusing "ml" "team-budget" []).1 ≡ true
unfolding reconcile reconcile_found reconcile_live ensure_finalizer reconcile_selector
    reconcile_pods write_status
round_fails = refl

reconcile-FailsLast_example :
    let (h, r) = reconcile fixed refusing "ml" "team-budget" [] in EndsRefused fixed refusing [] h r
reconcile-FailsLast_example = reconcile-FailsLast fixed refusing "ml" "team-budget" []
