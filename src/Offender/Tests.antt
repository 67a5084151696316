-- ===== src/Offender/Tests.antt =====
-- The choice of the pod to enforce against, on a concrete list of pods.
use gpu_k8s_operator.Prelude.{IsIn, ◌≡◌, ◌∙◌, sym, List, [], ◌∷◌, inl, inr, ℤ, arith}
use gpu_k8s_operator.Numbers.Fixed.{fixed, fixed-IsOrdered}
use gpu_k8s_operator.Offender.{pick_worst_offender}
use gpu_k8s_operator.Offender.Worst.{IsWorst, CandidatesNum, pick_worst_offender-IsWorst}
use gpu_k8s_operator.Kube.{Pod}
use gpu_k8s_operator.Offender.Order.{pick_worst_offender_any_order}
use gpu_k8s_operator.Samples.{pods, young_pod, old_pod, one_hour, ten_hours}

pods_num : CandidatesNum fixed "nvidia.com/gpu" one_hour ten_hours pods
pods_num = ((λ k c. ground arith), ((λ k c. ground arith), ((λ k c. ground arith), tt)))

pick_worst_offender-IsWorst_example :
    IsWorst fixed "nvidia.com/gpu" one_hour ten_hours pods
      (pick_worst_offender fixed pods "nvidia.com/gpu" one_hour ten_hours)
pick_worst_offender-IsWorst_example =
    pick_worst_offender-IsWorst fixed "nvidia.com/gpu" one_hour ten_hours fixed-IsOrdered pods
      pods_num

abbrev two_pods : List (Pod ℤ)
two_pods = young_pod ∷ old_pod ∷ []

swap_two : {A : Type 0} (x y a : A) → IsIn a (x ∷ y ∷ []) → IsIn a (y ∷ x ∷ [])
swap_two x y a (inl e) = inr (inl e)
swap_two x y a (inr (inl e)) = inl e
swap_two x y a (inr (inr n)) = absurd n

two_unique : (p q : Pod ℤ) → IsIn p two_pods → IsIn q two_pods → p.name ≡ q.name → p ≡ q
two_unique p q (inl a) (inl b) e = sym a ∙ b
two_unique p q (inl a) (inr (inl b)) e = cc
two_unique p q (inr (inl a)) (inl b) e = cc
two_unique p q (inr (inl a)) (inr (inl b)) e = sym a ∙ b
two_unique p q (inl a) (inr (inr n)) e = absurd n
two_unique p q (inr (inl a)) (inr (inr n)) e = absurd n
two_unique p q (inr (inr n)) m e = absurd n

pick_worst_offender_any_order_example :
    pick_worst_offender fixed two_pods "nvidia.com/gpu" one_hour ten_hours
    ≡ pick_worst_offender fixed (old_pod ∷ young_pod ∷ []) "nvidia.com/gpu" one_hour ten_hours
pick_worst_offender_any_order_example =
    pick_worst_offender_any_order fixed "nvidia.com/gpu" one_hour ten_hours fixed-IsOrdered two_pods
      (old_pod ∷ young_pod ∷ []) (λ a. (swap_two young_pod old_pod a, swap_two old_pod young_pod a))
      two_unique ((λ k c. ground arith), ((λ k c. ground arith), tt))
