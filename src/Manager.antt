-- ===== src/Manager.antt =====
-- cmd/main.go: the options that the operator starts with, and the steps of its start. The flag
-- package, the certificate watchers, the manager and the typed client are the platform's: a step
-- fails or not as the platform says, from the steps made so far. Logging is left out.
pub mod Start
pub mod Tests
use text.Mathlib.Text.{◌==◌ as str_eq}
use gpu_k8s_operator.Prelude.{
  Bool, true, false, String, Option, none, some, List, [], ◌∷◌, not, if◌then◌else◌, ℕ,
}

-- The flags; the defaults are those of `flag.StringVar` and `flag.BoolVar`.
pub record Flags : Type 0 where
  pub metrics_addr : String
  pub probe_addr : String
  pub enable_leader_election : Bool
  pub secure_metrics : Bool
  pub webhook_cert_path : String
  pub webhook_cert_name : String
  pub webhook_cert_key : String
  pub metrics_cert_path : String
  pub metrics_cert_name : String
  pub metrics_cert_key : String
  pub enable_http2 : Bool

abbrev pub default_flags : Flags
default_flags = record {
  metrics_addr = "0";
  probe_addr = ":8081";
  enable_leader_election = false;
  secure_metrics = true;
  webhook_cert_path = "";
  webhook_cert_name = "tls.crt";
  webhook_cert_key = "tls.key";
  metrics_cert_path = "";
  metrics_cert_name = "tls.crt";
  metrics_cert_key = "tls.key";
  enable_http2 = false;
}

-- `tls.Config`, of which the operator sets one field.
pub record TlsConfig : Type 0 where
  pub next_protos : List String

-- `disableHTTP2`
abbrev pub disable_http2 : TlsConfig → TlsConfig
disable_http2 c = record c { next_protos = "http/1.1" ∷ [] }

unfoldable pub tls_opts : Flags → List (TlsConfig → TlsConfig)
tls_opts flags = if not flags.enable_http2 then disable_http2 ∷ [] else []

-- Where a server finds its certificate; a server with no directory keeps its own defaults.
pub record Certificate : Type 0 where
  pub dir : String
  pub name : String
  pub key : String

abbrev pub certificate : String → String → String → Option Certificate
certificate path name key =
    if str_eq path "" then none else some (record { dir = path; name = name; key = key })

-- `webhook.Options`
pub record WebhookOptions : Type 0 where
  pub tls : List (TlsConfig → TlsConfig)
  pub cert : Option Certificate

unfoldable pub webhook_options : Flags → WebhookOptions
unfolding tls_opts
webhook_options flags = record {
  tls = tls_opts flags;
  cert = certificate flags.webhook_cert_path flags.webhook_cert_name flags.webhook_cert_key;
}

-- `filters.WithAuthenticationAndAuthorization`, or no filter.
pub data Filter : Type 0 where
  no_filter with_authentication_and_authorization : Filter

-- `metricsserver.Options`
pub record MetricsOptions : Type 0 where
  pub bind_address : String
  pub secure_serving : Bool
  pub tls : List (TlsConfig → TlsConfig)
  pub filter_provider : Filter
  pub cert : Option Certificate

unfoldable pub metrics_options : Flags → MetricsOptions
unfolding tls_opts
metrics_options flags = record {
  bind_address = flags.metrics_addr;
  secure_serving = flags.secure_metrics;
  tls = tls_opts flags;
  filter_provider =
      if flags.secure_metrics then with_authentication_and_authorization else no_filter;
  cert = certificate flags.metrics_cert_path flags.metrics_cert_name flags.metrics_cert_key;
}

-- `ctrl.Options`
pub record ManagerOptions : Type 0 where
  pub metrics : MetricsOptions
  pub webhook : WebhookOptions
  pub health_probe_bind_address : String
  pub leader_election : Bool
  pub leader_election_id : String

unfoldable pub manager_options : Flags → ManagerOptions
unfolding metrics_options webhook_options
manager_options flags = record {
  metrics = metrics_options flags;
  webhook = webhook_options flags;
  health_probe_bind_address = flags.probe_addr;
  leader_election = flags.enable_leader_election;
  leader_election_id = "a0ba3ea1.zxuhan.dev";
}

-- The steps of the start that can fail: the two types of objects that `init` registers, then those
-- of `main`; `get_config` is `ctrl.GetConfigOrDie`, which exits by itself.
pub data Step : Type 0 where
  add_client_types add_api_types get_config : Step
  new_manager : ManagerOptions → Step
  new_clientset setup_controller setup_webhook add_healthz add_readyz start : Step

-- Whether a step fails, from the steps before it, the newest first.
abbrev pub Platform : Type 0
Platform = List Step → Step → Bool

-- The steps made, and the exit code once there is one; a program that returns exits with 0.
abbrev pub Setup : Type 0
Setup = List Step → List Step × ℕ

-- `if err := step; err != nil { os.Exit(1) }`, with what follows it.
abbrev pub try : Platform → Step → Setup → Setup
try platform s rest h = if platform h s then (s ∷ h, 1) else rest (s ∷ h)

abbrev pub exit_normally : Setup
exit_normally h = (h, 0)

-- `main`, from the parsed flags and the variable ENABLE_WEBHOOKS, empty if it is not set.
unfoldable pub main : Platform → Flags → String → Setup
unfolding manager_options
main platform flags enable_webhooks =
    let finish =
      try platform add_healthz (try platform add_readyz (try platform start exit_normally)) in
    try platform get_config (
      try platform (new_manager (manager_options flags)) (
        try platform new_clientset (
          try platform setup_controller (
            if not (str_eq enable_webhooks "false")
            then try platform setup_webhook finish
            else finish))))

-- `utilruntime.Must(step)`: an error panics, and the program ends with 2.
abbrev pub must : Platform → Step → Setup → Setup
must platform s rest h = if platform h s then (s ∷ h, 2) else rest (s ∷ h)

-- `init`, which runs before `main`.
abbrev pub init : Platform → Setup → Setup
init platform rest = must platform add_client_types (must platform add_api_types rest)

unfoldable pub program : Platform → Flags → String → Setup
unfolding main
program platform flags enable_webhooks = init platform (main platform flags enable_webhooks)
