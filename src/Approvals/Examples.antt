-- ===== src/Approvals/Examples.antt =====
-- Approval requests and analyses at concrete inputs.
use asterim.Prelude.{
  ◌+◌, ◌≤◌, ◌≡◌, refl, String, Bool, true, false, ◌&&◌, some, none, List, [], ◌∷◌, Map, one, get,
  put, delete, str_eq, strip_prefix, trim, trim_start, trim_end,
}
use asterim.Approvals.Requests.{
  ApprovalRow, pending, Request, Manager, new_manager, request_approval, respond, time_out,
  cancel_approval, cancel_each, cancel_approvals_for_thread, ids_where, is_of_thread, update_status,
  recovery_notices, recover_pending_approvals,
}
use asterim.Approvals.Settling.{
  ManagerEvent, requests, responds, times_out, cancels_thread, recovers, run, step, asks_in,
  answers_in, approvals_in, waits,
}
use asterim.Approvals.Once.{run-answers, run-approvals, approving}
use asterim.Approvals.Recorded.{run-rows}
use asterim.Approvals.Rows.{is_open, is_approved, row_status}
use asterim.Approvals.Thread.{cancel_approvals_for_thread-pending, unless}
use asterim.Approvals.Security.{
  Pattern, rm_root, walks_up, runs, critical, PolicyVerdict, Analysis, evaluate_command_security,
  judge_command, is_critical, check_critical, check_high, check_traversal, check_project,
  check_medium, contains,
}
use asterim.Approvals.Tools.{evaluate_tool_security, SecurityMode}
use asterim.Approvals.Tightens.{Tightens}
use asterim.Approvals.Governed.{
  policy_verdict, evaluate_command_security-load, evaluate_command_security-Applies,
}
use asterim.Fleet.Config.{
  medium as fleet_medium, PolicyConfig, default_config, RawConfig, undefined, text,
  normalize_policy_config, normalize_string_array,
}
use asterim.Fleet.Policy.{FileStamp, FileFields, FileContent, fields, no_json, World, load}
use asterim.Fleet.Questions.{Refusal}
use asterim.Fleet.FailClosed.{is_trusted}
use asterim.Approvals.Risk.{evaluate_command_security-policy}

abbrev of_thread : String → Request
of_thread thread = record {
  project_id = "p";
  description = "d";
  command = "ls";
  thread_id = some thread;
}

-- Three requests: one approved twice over, one that times out, one whose thread ends.
abbrev busy_day : List ManagerEvent
busy_day =
    requests true "a" (of_thread "t1")
    ∷ requests true "b" (of_thread "t2")
    ∷ responds true "a" true
    ∷ responds true "a" false
    ∷ requests true "c" (of_thread "t2")
    ∷ times_out true "b"
    ∷ recovers true
    ∷ cancels_thread (λ id. true) "t2"
    ∷ []

busy_day_answers : answers_in "a" (run busy_day new_manager).log ≡ 1
unfolding run step request_approval respond time_out cancel_approvals_for_thread cancel_each
    cancel_approval ids_where recover_pending_approvals recovery_notices update_status get put
    delete str_eq
busy_day_answers = refl

run-answers_example :
    (answers_in "b" (run busy_day new_manager).log + waits "b" (run busy_day new_manager)
      ≡ asks_in "b" (run busy_day new_manager).log)
    × (asks_in "b" (run busy_day new_manager).log ≤ 1)
unfolding run step request_approval respond time_out cancel_approvals_for_thread cancel_each
    cancel_approval ids_where recover_pending_approvals recovery_notices update_status get put
    delete str_eq
run-answers_example =
    run-answers busy_day (refl, (refl, (tt, (tt, (refl, (tt, (tt, (tt, tt)))))))) "b"

run-approvals_example : approvals_in "a" (run busy_day new_manager).log ≤ 0 + approving "a" busy_day
run-approvals_example = run-approvals "a" busy_day new_manager

-- A request of an earlier process, still pending.
abbrev left_over : Map ApprovalRow
left_over =
    ("z", record { project_id = "p"; description = ""; command = "ls"; status = pending }) ∷ []

run-rows_example :
    let s = run busy_day (record new_manager { rows = left_over }) in
    (one (is_open (row_status "a" s)) ≡ waits "a" s)
    × (one (is_approved (row_status "a" s)) ≡ approvals_in "a" s.log)
unfolding run step request_approval respond time_out cancel_approvals_for_thread cancel_each
    cancel_approval ids_where recover_pending_approvals recovery_notices update_status get put
    delete str_eq
run-rows_example =
    run-rows left_over busy_day
      (refl, (refl, (refl, (refl, (refl, (refl, (tt, ((λ id. refl), tt))))))))
      (refl, (refl, (tt, (tt, (refl, (tt, (tt, (tt, tt)))))))) "a" refl

abbrev two_waiting : Manager
two_waiting = record new_manager {
  pending_approvals =
      ("a", record { thread_id = some "t1" }) ∷ ("b", record { thread_id = none }) ∷ [];
}

cancel_approvals_for_thread-pending_example :
    get "b" (cancel_approvals_for_thread (λ id. false) "t1" two_waiting).0.pending_approvals
    ≡ unless (is_of_thread "t1") (some (record { thread_id = none }))
unfolding get str_eq
cancel_approvals_for_thread-pending_example =
    cancel_approvals_for_thread-pending (λ id. false) "t1" "b" two_waiting (refl, (refl, tt))

-- Two of the patterns, by a part of what they match.
abbrev sample_matches : Pattern → String → Bool
sample_matches rm_root s = str_eq s "rm -rf /"
sample_matches walks_up s = str_eq s "{../x}"
sample_matches runs s = str_eq s "run_command"
sample_matches _ s = false

abbrev sample_source : Pattern → String
sample_source p = "rm"

abbrev is_some_text : String → Bool
is_some_text s = true

abbrev same_case : String → String
same_case s = s

abbrev forbids : PolicyVerdict
forbids = record {
  allowed = false;
  violation_reason = some "no";
  is_managed = true;
  requires_approval = λ r. true;
}

abbrev permits : PolicyVerdict
permits = record {
  allowed = true;
  violation_reason = none;
  is_managed = false;
  requires_approval = λ r. false;
}

evaluate_command_security-policy_example :
    Tightens (judge_command same_case sample_matches sample_source "npm install x" none) (
      evaluate_command_security same_case sample_matches sample_source forbids "npm install x" none)
    × (is_critical
            (evaluate_command_security same_case sample_matches sample_source forbids
              "npm install x" none).risk_level
          && (evaluate_command_security same_case sample_matches sample_source forbids
              "npm install x" none).requires_explicit_human_approval
        ≡ true)
evaluate_command_security-policy_example =
    evaluate_command_security-policy same_case sample_matches sample_source forbids "npm install x"
      none

abbrev read_up : SecurityMode → Analysis
read_up mode =
    evaluate_tool_security same_case sample_matches sample_source permits "mcp__fs__read"
      (some "{../x}") none mode

abbrev read_line : Analysis
read_line =
    evaluate_command_security same_case sample_matches sample_source permits "read {../x}" none

abbrev stamp : FileStamp
stamp = record { mtime_ms = 1; size = 2 }

abbrev medium_rules : RawConfig
medium_rules = record {
  raw_allowed_models = undefined;
  raw_banned_command_patterns = undefined;
  raw_enforce_sovereign_mode = undefined;
  raw_require_approval_risk_level = text "medium";
}

abbrev medium_config : PolicyConfig
medium_config = record default_config { require_approval_risk_level = fleet_medium }

abbrev medium_file : FileFields
medium_file = record {
  file_id = none;
  file_name = none;
  file_description = none;
  file_config = medium_rules;
}

abbrev governed_by : FileContent → World
governed_by content = record {
  file_stamp = some stamp;
  file_exists = true;
  file_content = content;
  table = none;
}

abbrev no_message : Refusal → String
no_message r = "refused"

-- A file that is no JSON, and a command that nothing else speaks against.
evaluate_command_security-load_example :
    ((evaluate_command_security same_case sample_matches sample_source
        (policy_verdict no_message str_eq
          (load same_case is_some_text 5 (governed_by no_json))
          "ls")
        "ls"
        none).risk_level
      ≡ critical)
    × ((evaluate_command_security same_case sample_matches sample_source
          (policy_verdict no_message str_eq
            (load same_case is_some_text 5 (governed_by no_json))
            "ls")
          "ls"
          none).requires_explicit_human_approval
        ≡ true)
unfolding is_trusted
evaluate_command_security-load_example =
    evaluate_command_security-load same_case sample_matches sample_source no_message str_eq
      is_some_text 5 (governed_by no_json) stamp "ls" none refl refl

-- An installation is of medium risk.
evaluate_command_security-Applies_example :
    (evaluate_command_security same_case sample_matches sample_source
      (policy_verdict no_message str_eq
        (load same_case is_some_text 5 (governed_by (fields medium_file)))
        "npm install x")
      "npm install x"
      none).requires_explicit_human_approval
    ≡ true
unfolding normalize_policy_config normalize_string_array judge_command check_critical check_high
    check_traversal check_project check_medium contains strip_prefix trim trim_start trim_end str_eq
evaluate_command_security-Applies_example =
    evaluate_command_security-Applies same_case sample_matches sample_source no_message str_eq
      is_some_text 5 (governed_by (fields medium_file)) stamp medium_file medium_config
      "npm install x" none refl refl refl refl refl
