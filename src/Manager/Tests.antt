-- ===== src/Manager/Tests.antt =====
-- The start of the operator with the flags of its deployment and a server that does not answer.
use gpu_k8s_operator.Prelude.{if◌then◌else◌, ◌≡◌, refl, true, false, [], ◌∷◌, ◌↔◌}
use gpu_k8s_operator.Manager.{
  Flags, default_flags, TlsConfig, manager_options, with_authentication_and_authorization, Platform,
  start, main, program,
}
use gpu_k8s_operator.Manager.Start.{configured, main_tls, plan, run_plan, program-eq-run_plan}

abbrev deployed_flags : Flags
deployed_flags = record default_flags { metrics_addr = ":8443"; webhook_cert_path = "/certs" }

abbrev http2 : TlsConfig
http2 = record { next_protos = "h2" ∷ "http/1.1" ∷ [] }

-- Only the last step fails.
abbrev no_start : Platform
no_start h start = true
no_start h s = false

main_tls_example :
    let opts = manager_options deployed_flags in
    let expected =
      if deployed_flags.enable_http2
      then http2
      else record http2 { next_protos = "http/1.1" ∷ [] } in
    (configured opts.webhook.tls http2 ≡ expected)
    × (configured opts.metrics.tls http2 ≡ expected)
    × ((opts.metrics.filter_provider ≡ with_authentication_and_authorization)
        ↔ (opts.metrics.secure_serving ≡ true))
main_tls_example = main_tls deployed_flags http2

program-eq-run_plan_example :
    program no_start deployed_flags "" [] ≡ run_plan no_start (plan deployed_flags "") []
program-eq-run_plan_example = program-eq-run_plan no_start deployed_flags "" []

-- All steps were made, and the exit code is 1.
no_start_fails : (program no_start deployed_flags "" []).1 ≡ 1
unfolding program main
no_start_fails = refl
