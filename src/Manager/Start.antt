-- ===== src/Manager/Start.antt =====
-- What the operator starts with, and in which order.
use text.Mathlib.Text.{◌==◌ as str_eq}
use gpu_k8s_operator.Prelude.{
  ◌≡◌, refl, true, String, List, [], ◌∷◌, ◌++◌, if◌then◌else◌, ℕ, ◌↔◌, inl, inr, arith, Bool-cases,
}
use gpu_k8s_operator.Manager.{
  program, Flags, TlsConfig, manager_options, with_authentication_and_authorization, Step,
  add_client_types, add_api_types, get_config, new_manager, new_clientset, setup_controller,
  setup_webhook, add_healthz, add_readyz, start, Platform, main,
}

-- A TLS configuration after a server's options.
abbrev pub configured : List (TlsConfig → TlsConfig) → TlsConfig → TlsConfig
configured [] c = c
configured (f ∷ fs) c = configured fs (f c)

-- Unless HTTP/2 is enabled, both servers offer HTTP/1.1 alone, whatever the TLS configuration was;
-- if it is enabled, it is left alone; and the metrics server authorizes its readers exactly if it
-- serves securely.
pub main_tls :
    (flags : Flags) (c : TlsConfig)
    → let opts = manager_options flags in
      let expected = if flags.enable_http2 then c else record c { next_protos = "http/1.1" ∷ [] } in
      (configured opts.webhook.tls c ≡ expected)
      × (configured opts.metrics.tls c ≡ expected)
      × ((opts.metrics.filter_provider ≡ with_authentication_and_authorization)
          ↔ (opts.metrics.secure_serving ≡ true))
unfolding manager_options
main_tls flags c = elim (Bool-cases flags.enable_http2) [
  | inl e ↦ rw e (refl, refl, ground arith)
  | inr e ↦ rw e (refl, refl, ground arith)
]

-- The steps that a start without failure makes, in order.
abbrev pub plan : Flags → String → List Step
plan flags enable_webhooks =
    add_client_types
    ∷ add_api_types
    ∷ get_config
    ∷ new_manager (manager_options flags)
    ∷ new_clientset
    ∷ setup_controller
    ∷ ((if str_eq enable_webhooks "false" then [] else setup_webhook ∷ [])
        ++ add_healthz ∷ add_readyz ∷ start ∷ [])

-- What the program ends with when a step fails: a failed registration panics.
abbrev pub exit_code : Step → ℕ
exit_code add_client_types = 2
exit_code add_api_types = 2
exit_code s = 1

-- The steps in order, up to and with the first that fails; the code is 0 if none fails.
abbrev pub run_plan : Platform → List Step → List Step → List Step × ℕ
run_plan platform [] h = (h, 0)
run_plan platform (s ∷ ss) h =
    let rest = run_plan platform ss (s ∷ h) in if platform h s then (s ∷ h, exit_code s) else rest

-- The program makes the planned steps in order, the webhook only where it is not turned off, up to
-- and with the first that fails: it then ends with 2 if that is a registration of `init` and with 1
-- otherwise, and with 0 if none fails.
pub program-eq-run_plan :
    (platform : Platform) (flags : Flags) (enable_webhooks : String) (h : List Step)
    → program platform flags enable_webhooks h ≡ run_plan platform (plan flags enable_webhooks) h
unfolding program main
program-eq-run_plan platform flags enable_webhooks h =
    elim (Bool-cases (str_eq enable_webhooks "false")) [ inl e ↦ rw e refl | inr e ↦ rw e refl ]
