-- ===== src/Controller/Status/Transition.antt =====
-- What `meta.SetStatusCondition` documents: the condition that it leaves, and when its transition
-- time moves.
use text.Mathlib.Text.{◌==◌ as str_eq}
use text.Mathlib.TextEquality.{eq_iff}
use gpu_k8s_operator.Prelude.{
  ◌≡◌, ◌≢◌, ◌∙◌, refl, ap, false, String, Option, none, some, List, str_ne, if◌then◌else◌,
}
use gpu_k8s_operator.GoTime.{Time, is_zero}
use gpu_k8s_operator.Numbers.{Numbers}
use gpu_k8s_operator.Kube.{Condition}
use gpu_k8s_operator.Cluster.{Cluster}

-- The condition that `meta.SetStatusCondition` leaves: the transition time moves only with the
-- status, and a time that is not set is the present.
abbrev pub stamp_of : Time → Condition → Time
stamp_of wall c = if is_zero c.last_transition_time then wall else c.last_transition_time

abbrev pub transition : Time → Option Condition → Condition → Condition
transition wall none c = record c { last_transition_time = stamp_of wall c }
transition wall (some old) c = record c {
  last_transition_time =
      if str_eq old.status c.status then old.last_transition_time else stamp_of wall c;
}

pub transition_status :
    (wall : Time) (o : Option Condition) (c : Condition) → (transition wall o c).status ≡ c.status
transition_status wall none c = refl
transition_status wall (some old) c = refl

pub transition_kept :
    (wall : Time) (o : Option Condition) (c old : Condition)
    → o ≡ some old
    → old.status ≡ c.status
    → (transition wall o c).last_transition_time ≡ old.last_transition_time
transition_kept wall o c old e same =
    ap (λ u. (transition wall u c).last_transition_time) e
    ∙ rw ((eq_iff old.status c.status).1 same)

pub transition_new :
    (wall : Time) (o : Option Condition) (c old : Condition)
    → o ≡ some old
    → old.status ≢ c.status
    → is_zero c.last_transition_time ≡ false
    → (transition wall o c).last_transition_time ≡ c.last_transition_time
transition_new wall o c old e differ set =
    ap (λ u. (transition wall u c).last_transition_time) e
    ∙ rw (str_ne old.status c.status differ) (rw set refl)

pub transition_first :
    (wall : Time) (o : Option Condition) (c : Condition)
    → o ≡ none
    → is_zero c.last_transition_time ≡ false
    → (transition wall o c).last_transition_time ≡ c.last_transition_time
transition_first wall o c e set = ap (λ u. (transition wall u c).last_transition_time) e ∙ rw set

-- What `meta.SetStatusCondition` and `meta.FindStatusCondition` document.
pub record KeepsConditions (num : Numbers) (cl : Cluster num) : Type 0 where
  pub find_set :
      (wall : Time) (cs : List Condition) (c : Condition) (t : String)
      → cl.find_status_condition (cl.set_status_condition wall cs c) t ≡ (
          if str_eq c.type t
          then some (transition wall (cl.find_status_condition cs c.type) c)
          else cl.find_status_condition cs t)
