-- ===== src/Controller/InPlace/Tests.antt =====
-- The patches of a budget whose conditions are changed in place.
use gpu_k8s_operator.Prelude.{ℤ, true, inl, arith, pos}
use gpu_k8s_operator.Accounting.{Result as AccResult}
use gpu_k8s_operator.Numbers.Fixed.{fixed}
use gpu_k8s_operator.Api.Copies.Laws.{budgets}
use gpu_k8s_operator.Controller.Status.{with_status, with_degraded}
use gpu_k8s_operator.Controller.Enforcing.{with_enforced}
use gpu_k8s_operator.Controller.InPlace.{with_status_at, with_degraded_at, with_enforced_at}
use gpu_k8s_operator.Controller.InPlace.Calls.{IsOwner}
use gpu_k8s_operator.Controller.InPlace.Refinement.{IsPatch, patches_lem}
use gpu_k8s_operator.Samples.{cluster, ten_hours, two_gpus}
use gpu_k8s_operator.Samples.Objects.{
  libraries, libraries-AreDeep, set_at, set_at-IsInPlace, stored, budget_object,
}

owner :
    IsOwner fixed cluster libraries libraries-AreDeep set_at inl set_at-IsInPlace budget_object
      stored
owner = record {
  allocated = (omega arith, (omega arith, tt));
  own = (((λ e. omega (arith, e)), tt), tt);
}

abbrev counted : AccResult ℤ
counted = record { consumed = two_gpus; remaining = pos 0; tracked_pods = 1; over = true }

patches_lem_example :
    let old = (budgets libraries).value stored budget_object in
    IsPatch libraries
      (with_status_at fixed cluster libraries set_at inl ten_hours budget_object counted ten_hours
        stored)
      old
      (with_status fixed cluster ten_hours old counted ten_hours)
    × IsPatch libraries
        (with_degraded_at fixed cluster libraries set_at inl ten_hours budget_object
          "ListPodsFailed" "" stored)
        old
        (with_degraded fixed cluster ten_hours old "ListPodsFailed" "")
    × IsPatch libraries
        (with_enforced_at fixed cluster libraries set_at inl budget_object ten_hours stored)
        old
        (with_enforced fixed cluster old ten_hours)
patches_lem_example =
    patches_lem fixed cluster libraries libraries-AreDeep set_at inl set_at-IsInPlace budget_object
      stored owner ten_hours counted ten_hours "ListPodsFailed" ""
