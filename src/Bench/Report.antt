-- ===== src/Bench/Report.antt =====
-- test/bench/cmd/gwb-bench/main.go: the command that scores a bench run from a saved status. Files,
-- JSON, the clock, the parsing of flags and quantities, and the formats of what is written are the
-- platform's: an output carries the value that is written, not its text.
pub mod Outputs
pub mod Codes
pub mod Tests
use text.Mathlib.Text.{◌==◌ as str_eq}
use gpu_k8s_operator.Prelude.{
  ℕ, ◌||◌, String, Option, none, some, List, [], ◌∷◌, ℤ, pos, leb_ℤ, Result, ok, err, Error,
  wrapped, if◌then◌else◌,
}
use gpu_k8s_operator.GoTime.{Duration}
use gpu_k8s_operator.Numbers.{Numbers, fzero}
use gpu_k8s_operator.Kube.{lookup}
use gpu_k8s_operator.Cluster.{wrap_result}
use gpu_k8s_operator.Bench.{Scenario, ScenarioError, validate, accuracy_ratio, expected_gpu_hours}

-- `reportFlags`
pub record ReportFlags (F : Type 0) : Type 0 where
  pub count : ℤ
  pub rate : F
  pub runtime : Duration
  pub gpus : F
  pub elapsed : Duration
  pub status_json : String
  pub out_dir : String
  pub label : String

-- The errors of `reportFlags.validate`, by the flag that is at fault.
pub data FlagError : Type 0 where
  count_flag rate_flag runtime_flag gpus_flag elapsed_flag status_json_flag out_dir_flag : FlagError

-- The fields that `readReported` looks for in a status; a field that is not there is none.
pub record StatusDocument : Type 0 where
  pub consumed_gpu_hours : Option String
  pub tracked_pods : Option ℤ

-- `result`
pub record Score (F : Type 0) : Type 0 where
  pub scenario : Scenario F
  pub elapsed_seconds : F
  pub reported_gpu_hours : F
  pub expected_gpu_hours : F
  pub delta_gpu_hours : F
  pub accuracy_ratio : F
  pub tracked_pods : ℤ
  pub label : String
  pub generated_at : String

-- What `reportCmd` leaves outside the process, with the paths.
pub data Output (F : Type 0) : Type 0 where
  mkdir_all : String → Output F
  write_results_json : String → Score F → Output F
  write_summary_md : String → Score F → Output F
  print_line : Score F → Output F

-- The errors of `reportCmd`.
pub data ReportError (F : Type 0) : Type 0 where
  bad_arguments : Error → ReportError F
  bad_flag : FlagError → ReportError F
  invalid_scenario : ScenarioError F → ReportError F
  read_status : Error → ReportError F
  output_error : Error → ReportError F

-- What is not code of the repository; an output fails or not from those made so far, newest first.
pub record Outside (num : Numbers) : Type 0 where
  pub parse : List String → Result (ReportFlags num.Float)
  pub read_file : String → Result String
  pub unmarshal_object : String → Result (List (String × String))
  pub unmarshal_status : String → Result StatusDocument
  pub parse_quantity : String → Result num.Quantity
  pub fdiv : num.Float → num.Float → num.Float
  pub seconds : Duration → num.Float
  pub now_rfc3339 : String
  pub path_join : String → String → String
  pub refuses : List (Output num.Float) → Output num.Float → Option Error

-- The outputs tried, and the error if there is one.
abbrev pub Report : Type 0 → Type 0
Report F = List (Output F) → List (Output F) × Option (ReportError F)

-- `if err := output; err != nil { return err }`, with what follows it.
abbrev pub go_on :
    {F : Type 0}
    → List (Output F)
    → Report F
    → Option Error
    → List (Output F) × Option (ReportError F)
go_on made rest (some e) = (made, some (output_error e))
go_on made rest none = rest made

module _ (num : Numbers) (out : Outside num) where
  open num use {Float, Quantity, fle, fsub, as_approximate_float64}

  -- `reportFlags.validate`
  unfoldable pub validate_flags : ReportFlags Float → Option FlagError
  validate_flags f =
      if leb_ℤ f.count (pos 0)
      then some count_flag
      else if fle f.rate (fzero num)
      then some rate_flag
      else if leb_ℤ f.runtime (pos 0)
      then some runtime_flag
      else if fle f.gpus (fzero num)
      then some gpus_flag
      else if leb_ℤ f.elapsed (pos 0)
      then some elapsed_flag
      else if str_eq f.status_json ""
      then some status_json_flag
      else if str_eq f.out_dir ""
      then some out_dir_flag
      else none

  abbrev pub or_raw : Option String → String → String
  or_raw none raw = raw
  or_raw (some blob) raw = blob

  abbrev pub tracked_of : Option ℤ → ℤ
  tracked_of none = pos 0
  tracked_of (some n) = n

  abbrev pub hours_of : Option String → Result Float
  hours_of none = ok (fzero num)
  hours_of (some text) = elim (out.parse_quantity text) [
    | ok q ↦ ok (as_approximate_float64 q)
    | err e ↦ err (wrapped "parse consumedGpuHours" e)
  ]

  abbrev pub read_fields : Result StatusDocument → Result (Float × ℤ)
  read_fields (err e) = err (wrapped "parse status" e)
  read_fields (ok status) = elim (hours_of status.consumed_gpu_hours) [
    | ok hours ↦ ok (hours, tracked_of status.tracked_pods)
    | err e ↦ err e
  ]

  abbrev pub read_object : String → Result (List (String × String)) → Result (Float × ℤ)
  read_object raw (err e) = err (wrapped "parse JSON" e)
  read_object raw (ok fields) =
      read_fields (out.unmarshal_status (or_raw (lookup "status" fields) raw))

  abbrev pub read_document : Result String → Result (Float × ℤ)
  read_document (err e) = err e
  read_document (ok raw) = read_object raw (out.unmarshal_object raw)

  unfoldable pub read_reported : String → Result (Float × ℤ)
  read_reported path = read_document (out.read_file path)

  abbrev pub scenario_of : ReportFlags Float → Scenario Float
  scenario_of f = record { count = f.count; rate = f.rate; runtime = f.runtime; gpus = f.gpus }

  unfoldable pub score_of : ReportFlags Float → Float → ℤ → Score Float
  score_of f reported tracked =
      let expected = expected_gpu_hours num out.fdiv out.seconds (scenario_of f) f.elapsed in
      record {
        scenario = scenario_of f;
        elapsed_seconds = out.seconds f.elapsed;
        reported_gpu_hours = reported;
        expected_gpu_hours = expected;
        delta_gpu_hours = fsub reported expected;
        accuracy_ratio = accuracy_ratio num out.fdiv reported expected;
        tracked_pods = tracked;
        label = f.label;
        generated_at = out.now_rfc3339;
      }

  -- One output; it is recorded also where it fails.
  abbrev pub output : Output Float → Report Float → Report Float
  output o rest made = go_on (o ∷ made) rest (out.refuses made o)

  abbrev pub finish : Report Float
  finish made = (made, none)

  abbrev pub write_score : ReportFlags Float → Score Float → Report Float
  write_score f score = output (mkdir_all f.out_dir) (
      output (write_results_json (out.path_join f.out_dir "results.json") score) (
        output (write_summary_md (out.path_join f.out_dir "SUMMARY.md") score)
          (output (print_line score) finish)))

  abbrev pub with_reported : ReportFlags Float → Result (Float × ℤ) → Report Float
  with_reported f (err e) made = (made, some (read_status (wrapped "read status" e)))
  with_reported f (ok (reported, tracked)) made = write_score f (score_of f reported tracked) made

  abbrev pub with_scenario : ReportFlags Float → Option (ScenarioError Float) → Report Float
  with_scenario f (some e) made = (made, some (invalid_scenario e))
  with_scenario f none made = with_reported f (read_reported f.status_json) made

  abbrev pub with_flags : ReportFlags Float → Option FlagError → Report Float
  with_flags f (some e) made = (made, some (bad_flag e))
  with_flags f none made = with_scenario f (validate num (scenario_of f)) made

  abbrev pub with_arguments : Result (ReportFlags Float) → Report Float
  with_arguments (err e) made = (made, some (bad_arguments e))
  with_arguments (ok f) made = with_flags f (validate_flags f) made

  unfoldable pub report_cmd : List String → Report Float
  report_cmd args = with_arguments (out.parse args)

  abbrev pub exit_of : Option (ReportError Float) → ℕ
  exit_of none = 0
  exit_of (some e) = 1

  -- `main`, on the arguments after the program's name: the exit code.
  unfoldable pub bench_main : List String → ℕ
  unfolding report_cmd
  bench_main [] = 2
  bench_main (command ∷ args) =
      let reported = exit_of (report_cmd args []).1 in
      if str_eq command "report"
      then reported
      else if str_eq command "-h" || str_eq command "--help" || str_eq command "help"
      then 0
      else 2
