-- ===== src/Kube/Maps.antt =====
-- The law of maps: what is found after one key is set.
use text.Mathlib.Text.{◌==◌ as str_eq}
use text.Mathlib.TextEquality.{eq_iff}
use gpu_k8s_operator.Prelude.{
  ◌≡◌, ◌≢◌, ◌∙◌, str_ne, refl, String, some, List, [], ◌∷◌, arith, if◌then◌else◌,
}
use gpu_k8s_operator.Kube.{lookup, insert}

pub lookup-insert {ℓ} :
    {V : Type ℓ} (k j : String) (v : V) (m : List (String × V))
    → lookup j (insert k v m) ≡ (if str_eq k j then some v else lookup j m)
lookup-insert k j v [] = refl
lookup-insert k j v ((i, w) ∷ m) =
    ground (arith, eq_iff k j, eq_iff i k, eq_iff i j, lookup-insert k j v m)

pub lookup-insert_ne {ℓ} :
    {V : Type ℓ} (k j : String) (v : V) (m : List (String × V))
    → k ≢ j
    → lookup j (insert k v m) ≡ lookup j m
lookup-insert_ne k j v m h = lookup-insert k j v m ∙ rw (str_ne k j h)
