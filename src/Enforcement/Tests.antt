-- ===== src/Enforcement/Tests.antt =====
-- The theorems on the enforcers, applied to a concrete pod and server.
use gpu_k8s_operator.Prelude.{◌≡◌, ◌≢◌, true, none, [], ◌↔◌, ok}
use gpu_k8s_operator.Numbers.Fixed.{fixed}
use gpu_k8s_operator.Enforcement.{evictor, enforce, eviction_of}
use gpu_k8s_operator.Enforcement.Effects.{Adds, acted, is_err, enforce-Adds}
use gpu_k8s_operator.Enforcement.Outcomes.{IsHard, evict_lem}
use gpu_k8s_operator.Samples.{cluster, budget, old_pod, ten_hours}

enforce-Adds_example :
    Adds fixed cluster budget old_pod ten_hours evictor []
      (enforce fixed cluster evictor budget old_pod ten_hours []).0
      (enforce fixed cluster evictor budget old_pod ten_hours []).1
enforce-Adds_example = enforce-Adds fixed cluster budget old_pod ten_hours evictor []

evict_lem_example :
    let (h', r) = enforce fixed cluster evictor budget old_pod ten_hours [] in
    let a = cluster.evict [] "ml" (eviction_of fixed cluster budget old_pod) in
    ((acted r ≡ true) ↔ ((old_pod.deletion_timestamp ≡ none) × (a ≡ ok tt)))
    × ((is_err r ≡ true)
        ↔ ((old_pod.deletion_timestamp ≡ none) × IsHard fixed cluster budget old_pod a))
    × (old_pod.deletion_timestamp ≢ none → h' ≡ [])
evict_lem_example = evict_lem fixed cluster budget old_pod ten_hours []
