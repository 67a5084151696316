-- ===== src/Bench/Report/Tests.antt =====
-- The report of a run of ten pods, from a status that shows five GPU-hours.
use gpu_k8s_operator.Prelude.{none, some, [], ◌∷◌, ℤ, pos, ok}
use gpu_k8s_operator.Numbers.Fixed.{fixed, fixed_div}
use gpu_k8s_operator.Bench.Report.{ReportFlags, Outside, report_cmd}
use gpu_k8s_operator.Bench.Report.Outputs.{IsReport, report_cmd-IsReport}

abbrev flags : ReportFlags ℤ
flags = record {
  count = pos 10;
  rate = pos 600_000_000_000;
  runtime = pos 1_800_000_000_000;
  gpus = pos 3_600_000_000_000;
  elapsed = pos 3_600_000_000_000;
  status_json = "status.json";
  out_dir = "out";
  label = "";
}

abbrev outside : Outside fixed
outside = record {
  parse = λ args. ok flags;
  read_file = λ path. ok "{}";
  unmarshal_object = λ raw. ok (("status", "{}") ∷ []);
  unmarshal_status =
      λ raw. ok (record { consumed_gpu_hours = some "5"; tracked_pods = some (pos 10) });
  parse_quantity = λ text. ok (pos 5000);
  fdiv = fixed_div;
  seconds = λ d. d;
  now_rfc3339 = "2026-01-01T00:00:00Z";
  path_join = λ dir file. file;
  refuses = λ made o. none;
}

report_cmd-IsReport_example :
    IsReport fixed outside
      ("--count" ∷ "10" ∷ [])
      []
      (report_cmd fixed outside ("--count" ∷ "10" ∷ []) [])
report_cmd-IsReport_example = report_cmd-IsReport fixed outside ("--count" ∷ "10" ∷ []) []
