-- ===== src/Generator.antt =====
-- test/workload-generator/main.go: the command that launches the pods of a bench run. The Kubernetes
-- client, its configuration, `resource.ParseQuantity`, the context and the formats of numbers are the
-- platform's. What is printed is left out; parsing the flags is the library's, with these defaults.
pub mod Label
pub mod Launches
pub mod Tracked
pub mod Tests
use Prim.Native.String.{◌++◌ as append_text}
use text.Mathlib.Text.{◌==◌ as str_eq}
use gpu_k8s_operator.Prelude.{
  ℕ, zero, suc, ◌==◌, String, Option, none, some, List, [], ◌∷◌, ℤ, pos, pos_part, leb_ℤ, Result,
  ok, err, Error, if◌then◌else◌,
}
use gpu_k8s_operator.GoTime.{Duration}
use gpu_k8s_operator.Numbers.{Numbers, fzero}
use gpu_k8s_operator.Kube.{Pod, insert}
use gpu_k8s_operator.Generator.Label.{parse_label}

-- `options`
pub record Options (F : Type 0) : Type 0 where
  pub namespace : String
  pub label : String
  pub count : ℤ
  pub rate_per_sec : F
  pub runtime : Duration
  pub gpus : String
  pub gpu_resource : String
  pub image : String
  pub prefix : String
  pub kubeconfig : String

-- The pod of `buildPod`: what Kube holds of it, and the rest of its spec.
pub record WorkerPod (Q : Type 0) : Type 0 where
  pub pod : Pod Q
  pub restart_policy : String
  pub termination_grace_period_seconds : ℤ
  pub container_name : String
  pub image : String
  pub command : List String

-- The errors of `run`.
pub data RunError (F : Type 0) : Type 0 where
  label_error : String → RunError F
  quantity_error : Error → RunError F
  rate_error : F → RunError F
  count_error : ℤ → RunError F
  kubeconfig_error : Error → RunError F
  clientset_error : Error → RunError F
  context_error : Error → RunError F
  create_error : String → Error → RunError F

-- How `run` ends: without error, with an error, or in a panic of the ticker, whose interval must be
-- above 0.
pub data Exit (F : Type 0) : Type 0 where
  done : Exit F
  failed : RunError F → Exit F
  panicked : Exit F

-- What is not code of the repository. The pods created so far, newest first, stand for the time.
pub record Platform (num : Numbers) : Type 1 where
  pub Config : Type 0
  pub Clientset : Type 0
  pub parse_quantity : String → Result num.Quantity
  pub build_config_from_flags : String → Result Config
  pub client_config : Result Config
  pub in_cluster_config : Result Config
  pub new_for_config : Config → Result Clientset
  -- the error of the context, if it is done before the next tick
  pub ctx_done : List (WorkerPod num.Quantity) → Option Error
  pub create :
      Clientset
      → List (WorkerPod num.Quantity)
      → String
      → WorkerPod num.Quantity
      → Result (Unit {0})
  -- the quotient of floats, and the formats "%04d" and "%d" of `int(d.Seconds())`
  pub fdiv : num.Float → num.Float → num.Float
  pub format_index : ℕ → String
  pub format_seconds : Duration → String

abbrev pub managed_by : String
managed_by = "app.kubernetes.io/managed-by"

module _ (num : Numbers) (pf : Platform num) where
  open num use {Float, Quantity, of_int, fle, to_int64}

  -- The defaults of `parseFlags`.
  abbrev pub default_options : Options Float
  default_options = record {
    namespace = "default";
    label = "app=gwb-bench-worker";
    count = pos 10;
    rate_per_sec = of_int (pos 1);
    runtime = pos 30_000_000_000;
    gpus = "1";
    gpu_resource = "nvidia.com/gpu";
    image = "busybox:1.36";
    prefix = "bench-";
    kubeconfig = "";
  }

  unfoldable pub build_pod : Options Float → String → String → Quantity → ℕ → WorkerPod Quantity
  build_pod o label_key label_val gpu_qty idx = record {
    pod = record {
      uid = "";
      namespace = o.namespace;
      name = append_text o.prefix (pf.format_index idx);
      labels = insert managed_by "gwb-workload" ((label_key, label_val) ∷ []);
      annotations = [];
      deletion_timestamp = none;
      containers = record { requests = (o.gpu_resource, gpu_qty) ∷ [] } ∷ [];
      phase = "";
      container_statuses = [];
      start_time = none;
    };
    restart_policy = "Never";
    termination_grace_period_seconds = pos 1;
    container_name = "worker";
    image = o.image;
    command = "sh" ∷ "-c" ∷ append_text "sleep " (pf.format_seconds o.runtime) ∷ [];
  }

  unfoldable pub interval_from_rate : Float → Duration
  interval_from_rate rps = to_int64 (pf.fdiv (of_int (pos 1_000_000_000)) rps)

  -- `loadKubeconfig`
  abbrev pub config_or : Result pf.Config → Result pf.Config → Result pf.Config
  config_or (ok cfg) fallback = ok cfg
  config_or (err e) fallback = fallback

  unfoldable pub load_kubeconfig : String → Result pf.Config
  load_kubeconfig override =
      if str_eq override ""
      then config_or pf.client_config pf.in_cluster_config
      else pf.build_config_from_flags override

  -- The `select` before the pod `i`; the first is not waited for.
  abbrev pub wait_before : ℕ → List (WorkerPod Quantity) → Option Error
  wait_before i made = if i == 0 then none else pf.ctx_done made

  -- The loop goes on with `rest` unless the creation fails, and unless the context is done.
  abbrev pub after_create :
      List (WorkerPod Quantity)
      → String
      → List (WorkerPod Quantity) × Exit Float
      → Result (Unit {0})
      → List (WorkerPod Quantity) × Exit Float
  after_create made name rest (err e) = (made, failed (create_error name e))
  after_create made name rest (ok created) = rest

  abbrev pub after_wait :
      List (WorkerPod Quantity)
      → List (WorkerPod Quantity) × Exit Float
      → Option Error
      → List (WorkerPod Quantity) × Exit Float
  after_wait made rest (some e) = (made, failed (context_error e))
  after_wait made rest none = rest

  -- The loop, from the pod `i` on with `n` pods left and these created; the namespace of a call is
  -- that of its pod, the options' namespace.
  unfoldable pub launch :
      pf.Clientset
      → (ℕ → WorkerPod Quantity)
      → ℕ
      → ℕ
      → List (WorkerPod Quantity)
      → List (WorkerPod Quantity) × Exit Float
  launch cs pod_of zero i made = (made, done)
  launch cs pod_of (suc n) i made =
      let rest = launch cs pod_of n (suc i) (pod_of i ∷ made) in
      after_wait made
        (after_create made (pod_of i).pod.name rest
          (pf.create cs made (pod_of i).pod.namespace (pod_of i)))
        (wait_before i made)

  -- The steps of `run`, each with the answer to the one before it.
  abbrev pub launch_all :
      Options Float
      → (ℕ → WorkerPod Quantity)
      → Result pf.Clientset
      → List (WorkerPod Quantity) × Exit Float
  launch_all o pod_of (err e) = ([], failed (clientset_error e))
  launch_all o pod_of (ok cs) =
      if leb_ℤ (interval_from_rate o.rate_per_sec) (pos 0)
      then ([], panicked)
      else launch cs pod_of (pos_part o.count) 0 []

  abbrev pub connect :
      Options Float
      → (ℕ → WorkerPod Quantity)
      → Result pf.Config
      → List (WorkerPod Quantity) × Exit Float
  connect o pod_of (err e) = ([], failed (kubeconfig_error e))
  connect o pod_of (ok cfg) = launch_all o pod_of (pf.new_for_config cfg)

  abbrev pub with_quantity :
      Options Float → String → String → Result Quantity → List (WorkerPod Quantity) × Exit Float
  with_quantity o label_key label_val (err e) = ([], failed (quantity_error e))
  with_quantity o label_key label_val (ok gpu_qty) =
      if fle o.rate_per_sec (fzero num)
      then ([], failed (rate_error o.rate_per_sec))
      else if leb_ℤ o.count (pos 0)
      then ([], failed (count_error o.count))
      else connect o (build_pod o label_key label_val gpu_qty) (load_kubeconfig o.kubeconfig)

  abbrev pub with_label :
      Options Float → Option (String × String) → List (WorkerPod Quantity) × Exit Float
  with_label o none = ([], failed (label_error o.label))
  with_label o (some (label_key, label_val)) =
      with_quantity o label_key label_val (pf.parse_quantity o.gpus)

  unfoldable pub run : Options Float → List (WorkerPod Quantity) × Exit Float
  run o = with_label o (parse_label o.label)
