-- ===== src/PodConversion/Instants.antt =====
-- The two loops over container statuses: the earliest start and the latest finish.
use gpu_k8s_operator.Prelude.{
  ◌≡◌, refl, sym, Bool, true, false, Option, none, some, List, [], ◌∷◌, ◌⊎◌, inl, inr, arith, ◌≤ℤ◌,
  ltb_ℤ, ◌∙◌, Any, All, if◌then◌else◌, Bool-cases,
}
use gpu_k8s_operator.GoTime.{Time, is_zero}
use gpu_k8s_operator.Kube.{ContainerStateRunning, ContainerStateTerminated, ContainerStatus}
use gpu_k8s_operator.PodConversion.{
  observe, observe_running, observe_terminated, observe_statuses, later_finish, latest_finish,
}

-- The instants that the statuses show, the zero time left out.
abbrev pub shown : Time → List Time → List Time
shown t ts = if is_zero t then ts else t ∷ ts

abbrev pub shown_running : Option ContainerStateRunning → List Time → List Time
shown_running none ts = ts
shown_running (some r) ts = shown r.started_at ts

abbrev pub shown_start : Option ContainerStateTerminated → List Time → List Time
shown_start none ts = ts
shown_start (some t) ts = shown t.started_at ts

abbrev pub shown_finish : Option ContainerStateTerminated → List Time → List Time
shown_finish none ts = ts
shown_finish (some t) ts = shown t.finished_at ts

-- Every start of a container that is known: of its present run, of one that ended, of the last one.
abbrev pub starts : List ContainerStatus → List Time
starts [] = []
starts (s ∷ ss) =
    shown_running s.state.running
      (shown_start s.state.terminated (shown_start s.last_termination_state.terminated (starts ss)))

abbrev pub finishes : List ContainerStatus → List Time
finishes [] = []
finishes (s ∷ ss) = shown_finish s.state.terminated (finishes ss)

-- The least and the greatest element of a list with one element more.
abbrev pub minimum : Time → List Time → Time
minimum a [] = a
minimum a (t ∷ ts) = minimum (if ltb_ℤ t a then t else a) ts

abbrev pub maximum : Time → List Time → Time
maximum a [] = a
maximum a (t ∷ ts) = maximum (if ltb_ℤ a t then t else a) ts

abbrev pub first_minimum : Option Time → List Time → Option Time
first_minimum none [] = none
first_minimum none (t ∷ ts) = some (minimum t ts)
first_minimum (some a) ts = some (minimum a ts)

abbrev pub first_maximum : Option Time → List Time → Option Time
first_maximum none [] = none
first_maximum none (t ∷ ts) = some (maximum t ts)
first_maximum (some a) ts = some (maximum a ts)

minimum_step :
    (a t : Time) (ts : List Time) (b : Bool)
    → first_minimum (if b then some t else some a) ts ≡ some (minimum (if b then t else a) ts)
minimum_step a t ts true = refl
minimum_step a t ts false = refl

maximum_step :
    (a t : Time) (ts : List Time) (b : Bool)
    → first_maximum (if b then some t else some a) ts ≡ some (maximum (if b then t else a) ts)
maximum_step a t ts true = refl
maximum_step a t ts false = refl

-- One more observation.
observe-shown :
    (a : Option Time) (t : Time) (ts : List Time)
    → first_minimum (observe a t) ts ≡ first_minimum a (shown t ts)
unfolding observe
observe-shown none t ts = elim (Bool-cases (is_zero t)) [ inl e ↦ rw e | inr e ↦ rw e ]
observe-shown (some a) t ts = elim (Bool-cases (is_zero t)) [
  | inl e ↦ rw e
  | inr e ↦ rw e (minimum_step a t ts (ltb_ℤ t a))
]

observe_running_shown :
    (a : Option Time) (r : Option ContainerStateRunning) (ts : List Time)
    → first_minimum (observe_running a r) ts ≡ first_minimum a (shown_running r ts)
observe_running_shown a none ts = refl
observe_running_shown a (some r) ts = observe-shown a r.started_at ts

observe_terminated_shown :
    (a : Option Time) (r : Option ContainerStateTerminated) (ts : List Time)
    → first_minimum (observe_terminated a r) ts ≡ first_minimum a (shown_start r ts)
observe_terminated_shown a none ts = refl
observe_terminated_shown a (some r) ts = observe-shown a r.started_at ts

pub observe_statuses-eq :
    (a : Option Time) (ss : List ContainerStatus)
    → observe_statuses a ss ≡ first_minimum a (starts ss)
unfolding observe_statuses
observe_statuses-eq none [] = refl
observe_statuses-eq (some a) [] = refl
observe_statuses-eq a (s ∷ ss) =
    observe_statuses-eq
      (observe_terminated
        (observe_terminated (observe_running a s.state.running) s.state.terminated)
        s.last_termination_state.terminated)
      ss
    ∙ observe_terminated_shown _ s.last_termination_state.terminated (starts ss)
    ∙ observe_terminated_shown _ s.state.terminated _
    ∙ observe_running_shown a s.state.running _

later_finish_shown :
    (a : Option Time) (f : Option ContainerStateTerminated) (ts : List Time)
    → first_maximum (later_finish a f) ts ≡ first_maximum a (shown_finish f ts)
later_finish_shown a none ts = refl
later_finish_shown none (some f) ts = elim (Bool-cases (is_zero f.finished_at)) [
  | inl e ↦ rw e
  | inr e ↦ rw e
]
later_finish_shown (some a) (some f) ts = elim (Bool-cases (is_zero f.finished_at)) [
  | inl e ↦ rw e
  | inr e ↦ rw e (maximum_step a f.finished_at ts (ltb_ℤ a f.finished_at))
]

pub latest_finish-eq :
    (a : Option Time) (ss : List ContainerStatus)
    → latest_finish a ss ≡ first_maximum a (finishes ss)
unfolding latest_finish
latest_finish-eq none [] = refl
latest_finish-eq (some a) [] = refl
latest_finish-eq a (s ∷ ss) =
    latest_finish-eq (later_finish a s.state.terminated) ss
    ∙ later_finish_shown a s.state.terminated (finishes ss)

-- The minimum is one of the elements, and below each of them; so for the maximum.
abbrev pub IsLeast : Time → List Time → Type 0
IsLeast t ts = Any (λ u. u ≡ t) ts × All (λ u. t ≤ℤ u) ts

abbrev pub IsGreatest : Time → List Time → Type 0
IsGreatest t ts = Any (λ u. u ≡ t) ts × All (λ u. u ≤ℤ t) ts

if-cases : (b : Bool) (t a : Time) → ((if b then t else a) ≡ t) ⊎ ((if b then t else a) ≡ a)
if-cases true t a = inl refl
if-cases false t a = inr refl

minimum-le : (a : Time) (ts : List Time) → minimum a ts ≤ℤ a
minimum-le a [] = omega arith
minimum-le a (t ∷ ts) = ground (arith, minimum-le (if ltb_ℤ t a then t else a) ts)

minimum-All : (a : Time) (ts : List Time) → All (λ u. minimum a ts ≤ℤ u) ts
minimum-All a [] = tt
minimum-All a (t ∷ ts) = (
  ground (arith, minimum-le (if ltb_ℤ t a then t else a) ts),
  minimum-All (if ltb_ℤ t a then t else a) ts,
)

minimum-Any : (a : Time) (ts : List Time) → (minimum a ts ≡ a) ⊎ Any (λ u. u ≡ minimum a ts) ts
minimum-Any a [] = inl refl
minimum-Any a (t ∷ ts) = elim (minimum-Any (if ltb_ℤ t a then t else a) ts) [
  | inl q ↦ elim (if-cases (ltb_ℤ t a) t a) [
    | inl e ↦ inr (inl (sym (q ∙ e)))
    | inr e ↦ inl (q ∙ e)
  ]
  | inr m ↦ inr (inr m)
]

pub minimum-IsLeast : (a : Time) (ts : List Time) → IsLeast (minimum a ts) (a ∷ ts)
minimum-IsLeast a ts = (
  elim (minimum-Any a ts) [ inl q ↦ inl (sym q) | inr m ↦ inr m ],
  (minimum-le a ts, minimum-All a ts),
)

maximum-ge : (a : Time) (ts : List Time) → a ≤ℤ maximum a ts
maximum-ge a [] = omega arith
maximum-ge a (t ∷ ts) = ground (arith, maximum-ge (if ltb_ℤ a t then t else a) ts)

maximum-All : (a : Time) (ts : List Time) → All (λ u. u ≤ℤ maximum a ts) ts
maximum-All a [] = tt
maximum-All a (t ∷ ts) = (
  ground (arith, maximum-ge (if ltb_ℤ a t then t else a) ts),
  maximum-All (if ltb_ℤ a t then t else a) ts,
)

maximum-Any : (a : Time) (ts : List Time) → (maximum a ts ≡ a) ⊎ Any (λ u. u ≡ maximum a ts) ts
maximum-Any a [] = inl refl
maximum-Any a (t ∷ ts) = elim (maximum-Any (if ltb_ℤ a t then t else a) ts) [
  | inl q ↦ elim (if-cases (ltb_ℤ a t) t a) [
    | inl e ↦ inr (inl (sym (q ∙ e)))
    | inr e ↦ inl (q ∙ e)
  ]
  | inr m ↦ inr (inr m)
]

pub maximum-IsGreatest : (a : Time) (ts : List Time) → IsGreatest (maximum a ts) (a ∷ ts)
maximum-IsGreatest a ts = (
  elim (maximum-Any a ts) [ inl q ↦ inl (sym q) | inr m ↦ inr m ],
  (maximum-ge a ts, maximum-All a ts),
)
