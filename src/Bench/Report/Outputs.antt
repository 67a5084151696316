-- ===== src/Bench/Report/Outputs.antt =====
-- What the report command writes, and when.
use gpu_k8s_operator.Prelude.{
  ◌≡◌, refl, String, Option, none, some, List, [], ◌∷◌, ℤ, ◌⊎◌, inl, inr, Result, ok, err, arith,
}
use gpu_k8s_operator.Numbers.{Numbers}
use gpu_k8s_operator.Bench.{validate}
use gpu_k8s_operator.Bench.Report.{
  ReportFlags, FlagError, Score, Output, mkdir_all, write_results_json, write_summary_md,
  print_line, ReportError, bad_arguments, bad_flag, read_status, Outside, Report, go_on,
  validate_flags, read_reported, scenario_of, score_of, with_reported, with_flags, with_arguments,
  report_cmd,
}

module _ (num : Numbers) (out : Outside num) where
  open num use {Float}

  -- Flags that pass make a scenario that passes.
  pub flags_valid :
      (f : ReportFlags Float)
      → validate_flags num out f ≡ none
      → validate num (scenario_of num out f) ≡ none
  unfolding validate_flags validate
  flags_valid f h = ground arith

  -- The outputs in order, up to and with the first that fails.
  abbrev pub run_outputs : List (Output Float) → Report Float
  run_outputs [] made = (made, none)
  run_outputs (o ∷ os) made = go_on (o ∷ made) (run_outputs os) (out.refuses made o)

  -- The directory, the two files and the line of one score.
  abbrev pub plan : ReportFlags Float → Score Float → List (Output Float)
  plan f score =
      mkdir_all f.out_dir
      ∷ write_results_json (out.path_join f.out_dir "results.json") score
      ∷ write_summary_md (out.path_join f.out_dir "SUMMARY.md") score
      ∷ print_line score
      ∷ []

  -- The errors before any output.
  abbrev pub IsEarly : Option (ReportError Float) → Type 0
  IsEarly (some (bad_arguments e)) = Unit
  IsEarly (some (bad_flag e)) = Unit
  IsEarly (some (read_status e)) = Unit
  IsEarly _ = ⊥

  -- The flags pass, the status is read, and the score is that of the two.
  pub record IsScored (args : List String) (f : ReportFlags Float) (score : Score Float)
      : Type 0 where
    pub reported : Float
    pub tracked : ℤ
    pub parsed : out.parse args ≡ ok f
    pub passes : validate_flags num out f ≡ none
    pub valid : validate num (scenario_of num out f) ≡ none
    pub reads : read_reported num out f.status_json ≡ ok (reported, tracked)
    pub scored : score ≡ score_of num out f reported tracked

  abbrev pub IsReport :
      List String → List (Output Float) → List (Output Float) × Option (ReportError Float) → Type 0
  IsReport args made r =
      ((r.0 ≡ made) × IsEarly r.1)
      ⊎ ((f : ReportFlags Float) × (score : Score Float) × IsScored args f score
          × (r ≡ run_outputs (plan f score) made))

  reported-IsReport :
      (args : List String) (made : List (Output Float)) (f : ReportFlags Float)
      (r : Result (Float × ℤ))
      → out.parse args ≡ ok f
      → validate_flags num out f ≡ none
      → read_reported num out f.status_json ≡ r
      → IsReport args made (with_reported num out f r made)
  reported-IsReport args made f (err e) p v r = inl (refl, tt)
  reported-IsReport args made f (ok (reported, tracked)) p v r =
      let score = score_of num out f reported tracked in
      inr (
        f,
        score,
        record {
          reported = reported;
          tracked = tracked;
          parsed = p;
          passes = v;
          valid = flags_valid f v;
          reads = r;
          scored = refl;
        },
        refl,
      )

  flags-IsReport :
      (args : List String) (made : List (Output Float)) (f : ReportFlags Float)
      (o : Option FlagError)
      → out.parse args ≡ ok f
      → validate_flags num out f ≡ o
      → IsReport args made (with_flags num out f o made)
  flags-IsReport args made f (some e) p v = inl (refl, tt)
  flags-IsReport args made f none p v =
      let valid = flags_valid f v in
      rw valid (reported-IsReport args made f (read_reported num out f.status_json) p v refl)

  arguments-IsReport :
      (args : List String) (made : List (Output Float)) (r : Result (ReportFlags Float))
      → out.parse args ≡ r
      → IsReport args made (with_arguments num out r made)
  arguments-IsReport args made (err e) p = inl (refl, tt)
  arguments-IsReport args made (ok f) p =
      flags-IsReport args made f (validate_flags num out f) p refl

  -- The report command either makes no output and blames the arguments, a flag or the status, or
  -- the flags pass and are a valid scenario, the status was read, and the outputs are the
  -- directory, results.json, SUMMARY.md and the line, in this order up to and with the first that
  -- fails, all of the one score of the scenario and the reading; the error for an invalid scenario
  -- does not occur.
  pub report_cmd-IsReport :
      (args : List String) (made : List (Output Float))
      → IsReport args made (report_cmd num out args made)
  unfolding report_cmd
  report_cmd-IsReport args made = arguments-IsReport args made (out.parse args) refl
