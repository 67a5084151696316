-- ===== src/Bench/Report/Codes.antt =====
-- The exit codes of the bench command.
use text.Mathlib.Text.{◌==◌ as str_eq}
use text.Mathlib.TextEquality.{eq_iff}
use gpu_k8s_operator.Prelude.{
  ◌≡◌, ◌≢◌, ◌↔◌, refl, Bool, false, ◌||◌, String, Option, none, some, List, [], ◌∷◌, inl, inr,
  Bool-cases, str_ne, arith,
}
use gpu_k8s_operator.Numbers.{Numbers}
use gpu_k8s_operator.Bench.Report.{ReportError, Outside, exit_of, report_cmd, bench_main}

-- No subcommand, or one that the command does not know.
abbrev pub IsMisused : List String → Type 0
IsMisused [] = Unit
IsMisused (command ∷ args) =
    (command ≢ "report") × (command ≢ "-h") × (command ≢ "--help") × (command ≢ "help")

module _ (num : Numbers) (out : Outside num) where
  open num use {Float}

  -- The command is "report", and its report fails.
  abbrev pub FailsReport : List String → Type 0
  FailsReport [] = ⊥
  FailsReport (command ∷ args) = (command ≡ "report") × ((report_cmd num out args []).1 ≢ none)

  exit_of_iff : (o : Option (ReportError Float)) → (exit_of num out o ≡ 1) ↔ (o ≢ none)
  exit_of_iff none = ((λ e. absurd (omega (arith, e))), (λ n. absurd (n refl)))
  exit_of_iff (some e) = ((λ _ w. cc w), (λ _. refl))

  exit_of_ne : (o : Option (ReportError Float)) → exit_of num out o ≢ 2
  exit_of_ne none e = omega (arith, e)
  exit_of_ne (some x) e = omega (arith, e)

  asks_help : String → Bool
  asks_help c = str_eq c "-h" || str_eq c "--help" || str_eq c "help"

  no_help : (c : String) → (asks_help c ≡ false) ↔ ((c ≢ "-h") × (c ≢ "--help") × (c ≢ "help"))
  unfolding asks_help
  no_help c = (
    (λ h. (
      (λ w. ground (arith, (eq_iff c "-h").1 w)),
      (λ w. ground (arith, (eq_iff c "--help").1 w)),
      (λ w. ground (arith, (eq_iff c "help").1 w)),
    )),
    (λ (a, b, d). ground (arith, str_ne c "-h" a, str_ne c "--help" b, str_ne c "help" d)),
  )

  -- The command ends with 2 exactly if its subcommand is missing or unknown, and with 1 exactly if a
  -- report fails.
  pub bench_main_iff :
      (args : List String)
      → ((bench_main num out args ≡ 2) ↔ IsMisused args)
        × ((bench_main num out args ≡ 1) ↔ FailsReport args)
  unfolding bench_main asks_help
  bench_main_iff [] =
      (((λ _. tt), (λ _. refl)), ((λ e. absurd (omega (arith, e))), (λ f. absurd f)))
  bench_main_iff (command ∷ args) = elim (Bool-cases (str_eq command "report")) [
    | inl e ↦
        let named : command ≡ "report" = (eq_iff command "report").0 e in
        let r = (report_cmd num out args []).1 in
        rw e (
          ((λ two. absurd (exit_of_ne r two)), (λ m. absurd (m.0 named))),
          ((λ one. (named, (exit_of_iff r).0 one)), (λ f. (exit_of_iff r).1 f.1)),
        )
    | inr e ↦
        let apart : command ≢ "report" = λ w. cc (e, (eq_iff command "report").1 w) in
        elim (Bool-cases (asks_help command)) [
          | inl h ↦
              rw (e, h)
                (
                  (
                    (λ two. absurd (omega (arith, two))),
                    (λ (n, a, b, d). cc (h, (no_help command).1 (a, b, d))),
                  ),
                  ((λ one. absurd (omega (arith, one))), (λ f. absurd (apart f.0))),
                )
          | inr h ↦
              let (a, b, d) = (no_help command).0 h in
              rw (e, h)
                (
                  ((λ _. (apart, a, b, d)), (λ m. refl)),
                  ((λ one. absurd (omega (arith, one))), (λ f. absurd (apart f.0))),
                )
        ]
  ]
