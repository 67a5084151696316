-- ===== src/Generator/Tests.antt =====
-- The generator with its default options, on a concrete platform.
use mathlib.Core.Path.{subst}
use gpu_k8s_operator.Prelude.{
  ◌≡◌, ◌≢◌, String, ◌↔◌, Bool-cases, inr, refl, sym, ap, false, none, some, [], ◌∷◌, ℤ, pos, ok,
  inl, IsIn, if◌then◌else◌, ◌*ℤ◌, wrap_int64,
}
use text.Mathlib.Text.{◌==◌ as str_eq}
use gpu_k8s_operator.Numbers.{fzero}
use gpu_k8s_operator.Numbers.Fixed.{fixed, fixed-IsOrdered, fixed_div, fixed_to_int, rescale}
use gpu_k8s_operator.Accounting.{Pod as AccPod}
use gpu_k8s_operator.Kube.{Pod, lookup}
use gpu_k8s_operator.PodConversion.{
  pod_to_accounting, earliest_container_start, observe_statuses, observe,
}
use gpu_k8s_operator.Generator.Label.{parse_label, cut, join, IsPlain, parse_label_iff}
use gpu_k8s_operator.Generator.{
  Options, WorkerPod, Platform, default_options, build_pod, run, interval_from_rate,
  load_kubeconfig, managed_by,
}
use gpu_k8s_operator.Generator.Launches.{Asked, IsRun, run-IsRun, IsWilling, all_launched}
use gpu_k8s_operator.Generator.Tracked.{created-tracked}
use gpu_k8s_operator.Samples.{running_since, seven_hours}

-- A platform that creates every pod, each of which asks for one GPU.
abbrev platform : Platform fixed
platform = record {
  Config = Unit;
  Clientset = Unit;
  parse_quantity = λ s. ok (pos 1000);
  build_config_from_flags = λ path. ok tt;
  client_config = ok tt;
  in_cluster_config = ok tt;
  new_for_config = λ cfg. ok tt;
  ctx_done = λ made. none;
  create = λ cs made ns p. ok tt;
  fdiv = fixed_div;
  format_index = λ n. "0000";
  format_seconds = λ d. "30";
}

platform-IsWilling : IsWilling fixed platform
unfolding load_kubeconfig
platform-IsWilling = record {
  configures = λ override.
      (tt, elim (Bool-cases (str_eq override "")) [ inl e ↦ rw e refl | inr e ↦ rw e refl ]);
  connects = λ cfg. (tt, refl);
  waits = λ made. refl;
  creates = λ cs made ns p. refl;
}

abbrev options : Options ℤ
options = default_options fixed platform

asked : Asked fixed platform options
unfolding parse_label cut ◌*ℤ◌
asked = record {
  key = "app";
  value = "gwb-bench-worker";
  gpu_qty = pos 1000;
  labelled = refl;
  parsed = refl;
  rate = refl;
  count = refl;
}

run-IsRun_example : IsRun fixed platform options (run fixed platform options)
run-IsRun_example = run-IsRun fixed platform options

-- The last pod created, and the same pod once it runs.
abbrev last : WorkerPod ℤ
last = build_pod fixed platform options "app" "gwb-bench-worker" (pos 1000) 9

abbrev running : Pod ℤ
running = record last.pod {
  uid = "uid-9";
  phase = "Running";
  container_statuses = running_since seven_hours ∷ [];
}

last_made : IsIn last (run fixed platform options).0
unfolding interval_from_rate ◌*ℤ◌ fixed_div fixed_to_int rescale wrap_int64 asked
last_made =
    subst (IsIn last)
      (sym (ap (λ r. r.0) (all_launched fixed platform platform-IsWilling options asked refl)))
      (inl refl)

created-tracked_example :
    (a : Asked fixed platform options) × (lookup a.key running.labels
      ≡ some (if str_eq managed_by a.key then "gwb-workload" else a.value))
    × (((acc : AccPod ℤ) × (pod_to_accounting fixed running "nvidia.com/gpu" ≡ some acc)) ↔ (
        ("nvidia.com/gpu" ≡ options.gpu_resource)
        × (fixed.fle
              (fixed.fadd (fzero fixed) (fixed.as_approximate_float64 a.gpu_qty))
              (fzero fixed)
            ≡ false)))
unfolding build_pod earliest_container_start observe_statuses observe
created-tracked_example =
    created-tracked fixed platform options last running "nvidia.com/gpu" seven_hours fixed-IsOrdered
      last_made refl refl refl

abbrev app : String
app = "app"

abbrev bench : String
bench = "bench"

parse_label_iff_example :
    (parse_label "app=bench" ≡ some (app, bench))
    ↔ (("app=bench" ≡ join app bench) × IsPlain app × (app ≢ "") × (bench ≢ ""))
parse_label_iff_example = parse_label_iff "app=bench" app bench
