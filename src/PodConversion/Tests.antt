-- ===== src/PodConversion/Tests.antt =====
-- The theorems on the conversion of pods, applied to concrete pods.
use gpu_k8s_operator.Prelude.{◌+ℤ◌, ◌*ℤ◌, ◌≡◌, refl, none, some}
use gpu_k8s_operator.Numbers.Fixed.{fixed}
use gpu_k8s_operator.PodConversion.{
  earliest_container_start, pod_end, pod_to_accounting, gpu_request_total, sum_requests,
  observe_statuses, observe, latest_finish,
}
use gpu_k8s_operator.PodConversion.Instants.{starts, finishes}
use gpu_k8s_operator.PodConversion.Laws.{
  StartsAt, EndsAt, IsTerminal, earliest_container_start_lem, pod_end_lem,
}
use gpu_k8s_operator.PodConversion.Converted.{IsConverted, pod_to_accounting_lem}
use gpu_k8s_operator.Samples.{done_pod, seven_hours, eight_hours, acc_run}

done_pod_end : pod_end fixed done_pod ≡ some eight_hours
unfolding pod_end latest_finish
done_pod_end = refl

earliest_container_start_lem_example :
    StartsAt
      (starts done_pod.container_statuses)
      done_pod.start_time
      (earliest_container_start fixed done_pod)
earliest_container_start_lem_example = earliest_container_start_lem fixed done_pod

pod_end_lem_example :
    (IsTerminal "Succeeded"
      → EndsAt
          (finishes done_pod.container_statuses)
          done_pod.deletion_timestamp
          (pod_end fixed done_pod))
    × (¬ IsTerminal "Succeeded" → pod_end fixed done_pod ≡ none)
pod_end_lem_example = pod_end_lem fixed done_pod

-- The conversion yields a pod.
done_pod_converted :
    pod_to_accounting fixed done_pod "nvidia.com/gpu"
    ≡ some (record (acc_run seven_hours (some eight_hours)) { id = "done" })
unfolding ◌+ℤ◌ ◌*ℤ◌ pod_to_accounting gpu_request_total sum_requests earliest_container_start
    observe_statuses observe pod_end latest_finish
done_pod_converted = refl

pod_to_accounting_lem_example :
    IsConverted fixed done_pod "nvidia.com/gpu" (pod_to_accounting fixed done_pod "nvidia.com/gpu")
pod_to_accounting_lem_example = pod_to_accounting_lem fixed done_pod "nvidia.com/gpu"
