-- ===== src/Approvals/Tools.antt =====
-- `evaluateToolSecurity`. The serialised arguments are an argument, since `JSON.stringify` makes them.
use Prim.Native.Char.{code}
use Prim.Native.String.{[] as nil, ◌∷◌ as cons, ◌++◌ as joined_with}
use asterim.Prelude.{
  String, Bool, true, false, ◌||◌, ◌&&◌, Option, none, some, List, [], ◌∷◌, ◌++◌, if◌then◌else◌,
  ltb, leb, ◌==◌, get_or, unique, is_empty, is_space, strip_prefix,
}
use asterim.Approvals.Security.{
  Risk, low, medium, high, critical, rank, Pattern, runs, destroys, modifies, reaches, reads,
  walks_up, protected_place, credentials, Analysis, PolicyVerdict, is_critical, warn,
  evaluate_command_security,
}

-- The bare tool name, without the `mcp__<server>__` namespace: what stands behind the first `__` once
-- `mcp__` is gone, or the whole name.
unfoldable pub behind_first : Bool → String → String
behind_first was_dash nil = ""
behind_first was_dash (cons c s) =
    let next = behind_first (code c == b'_') s in if was_dash && (code c == b'_') then s else next

abbrev pub or_whole : String → String → String
or_whole name tail = if is_empty tail then name else tail

unfoldable pub bare_name : String → String
unfolding behind_first strip_prefix
bare_name name = or_whole name (behind_first false (get_or (strip_prefix "mcp__" name) name))

-- `replace(/[-\s]+/g, '_')`: `in_run` says that the last character was one of them.
unfoldable pub underscored : Bool → String → String
underscored in_run nil = nil
underscored in_run (cons c s) =
    let after_gap = underscored true s in
    let after_char = underscored false s in
    if is_space c || (code c == b'-')
    then if in_run then after_gap else joined_with "_" after_gap
    else cons c after_char

pub data SecurityMode : Type 0 where
  strict standard permissive : SecurityMode

pub record ToolPolicy : Type 0 where
  pub pattern : Pattern
  pub risk : Risk
  pub warning : String

-- `TOOL_NAME_POLICY`.
abbrev pub tool_name_policy : List ToolPolicy
tool_name_policy =
    (record {
      pattern = runs;
      risk = critical;
      warning = "The tool runs commands on this machine.";
    })
    ∷ (record {
      pattern = destroys;
      risk = high;
      warning = "The tool destroys data that may not be recoverable.";
    })
    ∷ (record {
      pattern = modifies;
      risk = high;
      warning = "The tool modifies state outside the conversation.";
    })
    ∷ (record {
      pattern = reaches;
      risk = high;
      warning = "The tool reaches an external network service.";
    })
    ∷ (record { pattern = reads; risk = low; warning = "" })
    ∷ []

-- `SENSITIVE_VALUE_PATTERNS`.
abbrev pub sensitive_value_patterns : List (Pattern × String)
sensitive_value_patterns =
    (walks_up, "An argument walks up out of its directory.")
    ∷ (protected_place, "An argument names a protected system location.")
    ∷ (credentials, "An argument names credentials.")
    ∷ []

abbrev pub is_medium : Risk → Bool
is_medium medium = true
is_medium _ = false

-- The name's verdict: the risk, the warnings, and whether some policy matched.
pub record NameVerdict : Type 0 where
  pub risk : Risk
  pub warnings : List String
  pub matched : Bool

abbrev pub apply_name_policy : ToolPolicy → NameVerdict → NameVerdict
apply_name_policy p v = record {
  risk = if ltb (rank v.risk) (rank p.risk) || is_medium v.risk then p.risk else v.risk;
  warnings = if is_empty p.warning then v.warnings else v.warnings ++ p.warning ∷ [];
  matched = true;
}

abbrev pub higher : Risk → Risk → Risk
higher found risk = if ltb (rank risk) (rank found) then found else risk

abbrev pub needs_human : SecurityMode → Risk → Bool
needs_human strict risk = ltb 0 (rank risk)
needs_human standard risk = leb 2 (rank risk)
needs_human permissive risk = false

abbrev pub explicit_approval : SecurityMode → Bool → Bool → Risk → Bool
explicit_approval permissive by_command traversal risk = false
explicit_approval mode by_command traversal risk = by_command || traversal || needs_human mode risk

abbrev pub unproven : String → NameVerdict → NameVerdict
unproven bare v = if v.matched then v else record v {
  warnings =
      v.warnings
      ++ joined_with "'"
          (joined_with bare "' does not describe what it does; treating it as unproven.")
        ∷ [];
}

-- The serialised arguments; `none` when `JSON.stringify` throws.
abbrev pub uninspected : Option String → NameVerdict → NameVerdict
uninspected (some args) v = v
uninspected none v = record v {
  risk = if ltb 2 (rank v.risk) then v.risk else high;
  warnings = v.warnings ++ "The arguments could not be inspected." ∷ [];
}

unfoldable pub decide_tool : SecurityMode → Analysis → Analysis
unfolding unique
decide_tool mode a = record a {
  warnings = unique a.warnings;
  requires_explicit_human_approval =
      explicit_approval mode a.requires_explicit_human_approval a.is_path_traversal a.risk_level;
}

module _ (lower : String → String) (matches : Pattern → String → Bool) where
  -- The loop over `TOOL_NAME_POLICY`, which ends at a critical match.
  unfoldable pub judge_name : List ToolPolicy → String → NameVerdict → NameVerdict
  judge_name [] name v = v
  judge_name (p ∷ ps) name v =
      let missed = judge_name ps name v in
      let found = judge_name ps name (apply_name_policy p v) in
      if matches p.pattern name
      then if is_critical p.risk then apply_name_policy p v else found
      else missed

  -- The loop over `SENSITIVE_VALUE_PATTERNS`.
  unfoldable pub check_values : List (Pattern × String) → String → Analysis → Analysis
  check_values [] args a = a
  check_values ((p, w) ∷ ps) args a =
      let missed = check_values ps args a in
      let found = check_values ps args (
        warn w (record a {
          risk_level = if ltb (rank a.risk_level) 2 then high else a.risk_level;
          is_path_traversal = true;
        })) in
      if matches p args then found else missed

  unfoldable pub name_verdict : String → Option String → NameVerdict
  unfolding bare_name underscored judge_name
  name_verdict tool_name serialised =
      let bare = bare_name tool_name in
      uninspected serialised (
        unproven bare (
          judge_name tool_name_policy (underscored false (lower bare))
            (record { risk = medium; warnings = []; matched = false })))

  -- The analysis but for the last line; `command` is `evaluateCommandSecurity` of the name and the
  -- arguments.
  unfoldable pub merge_tool : NameVerdict → Analysis → String → Analysis
  unfolding check_values
  merge_tool v command args = check_values sensitive_value_patterns args (record {
    risk_level = higher command.risk_level v.risk;
    is_path_traversal = command.is_path_traversal;
    warnings = v.warnings ++ command.warnings;
    requires_explicit_human_approval = command.requires_explicit_human_approval;
  })

  unfoldable pub evaluate_tool_security :
      (Pattern → String)
      → PolicyVerdict
      → String
      → Option String
      → Option String
      → SecurityMode
      → Analysis
  unfolding name_verdict merge_tool decide_tool evaluate_command_security bare_name
  evaluate_tool_security source policy tool_name serialised project_path mode =
      let args = get_or serialised "" in
      let command =
        evaluate_command_security lower matches source policy
          (joined_with (bare_name tool_name) (joined_with " " args)) project_path in
      decide_tool mode (merge_tool (name_verdict tool_name serialised) command args)
