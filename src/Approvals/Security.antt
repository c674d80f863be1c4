-- ===== src/Approvals/Security.antt =====
-- `evaluateCommandSecurity`. The regular expressions are named by
-- `Pattern`; what they match (`matches`) and `toLowerCase` (`lower`) are parameters. The verdict of
-- the fleet policy is an argument.
use Prim.Native.String.{[] as nil, ◌∷◌ as cons, ◌++◌ as joined_with}
use asterim.Prelude.{
  ℕ, String, Bool, true, false, not, ◌||◌, ◌&&◌, Option, none, some, List, [], ◌∷◌, ◌++◌,
  if◌then◌else◌, trim, get_or, is_some, is_empty, strip_prefix,
}

pub data Risk : Type 0 where
  low medium high critical : Risk

-- `RISK_ORDER`.
abbrev pub rank : Risk → ℕ
rank low = 0
rank medium = 1
rank high = 2
rank critical = 3

pub data Pattern : Type 0 where
  rm_root mkfs dd chmod_root fork_bomb shutdown reboot piped_download : Pattern
  runs destroys modifies reaches reads : Pattern
  walks_up protected_place credentials : Pattern

pub record Analysis : Type 0 where
  pub risk_level : Risk
  pub is_path_traversal : Bool
  pub warnings : List String
  pub requires_explicit_human_approval : Bool

abbrev pub no_findings : Analysis
no_findings = record {
  risk_level = low;
  is_path_traversal = false;
  warnings = [];
  requires_explicit_human_approval = false;
}

-- What the fleet policy says: `validateCommand`, `isManaged` and `requiresApproval`.
pub record PolicyVerdict : Type 0 where
  pub allowed : Bool
  pub violation_reason : Option String
  pub is_managed : Bool
  pub requires_approval : Risk → Bool

-- `text.includes(part)`.
unfoldable pub contains : String → String → Bool
contains nil part = is_empty part
contains (cons c s) part =
    let rest = contains s part in is_some (strip_prefix part (cons c s)) || rest

abbrev pub is_critical : Risk → Bool
is_critical critical = true
is_critical _ = false

abbrev pub is_low : Risk → Bool
is_low low = true
is_low _ = false

-- `if (riskLevel !== 'critical') riskLevel = 'high'`.
abbrev pub at_least_high : Risk → Risk
at_least_high critical = critical
at_least_high _ = high

abbrev pub warn : String → Analysis → Analysis
warn w a = record a { warnings = a.warnings ++ w ∷ [] }

abbrev pub critical_patterns : List Pattern
critical_patterns =
    rm_root ∷ mkfs ∷ dd ∷ chmod_root ∷ fork_bomb ∷ shutdown ∷ reboot ∷ piped_download ∷ []

-- 2. High risk commands.
unfoldable pub check_high : String → Analysis → Analysis
check_high cmd a =
    if is_critical a.risk_level
    then a
    else if contains cmd "git reset --hard"
        || contains cmd "git push --force"
        || contains cmd "git push -f"
    then warn "Potentially destructive Git operation (hard reset or force push)."
        (record a { risk_level = high; requires_explicit_human_approval = true })
    else if contains cmd "rm -rf" || contains cmd "rm -r"
    then warn "Recursive file deletion requested." (record a { risk_level = high })
    else if contains cmd "drop database" || contains cmd "drop table"
    then warn "Database drop statement detected."
        (record a { risk_level = high; requires_explicit_human_approval = true })
    else a

-- 3. The path traversal guard.
unfoldable pub check_traversal : String → Analysis → Analysis
check_traversal cmd a =
    if contains cmd "../.." || contains cmd "/etc/" || contains cmd "/var/root"
    then record {
      risk_level = at_least_high a.risk_level;
      is_path_traversal = true;
      warnings =
          a.warnings ++ "Path traversal attempt detected outside active workspace bounds." ∷ [];
      requires_explicit_human_approval = true;
    }
    else a

abbrev pub leave_project : Analysis → Analysis
leave_project a = record a {
  risk_level = at_least_high a.risk_level;
  is_path_traversal = true;
  warnings = a.warnings ++ "Navigation outside project root path detected." ∷ [];
}

-- 4. Medium risk commands.
unfoldable pub check_medium : String → Analysis → Analysis
check_medium cmd a =
    if is_low a.risk_level
      && (contains cmd "npm install"
          || contains cmd "pnpm add"
          || contains cmd "pip install"
          || contains cmd "cargo add")
    then record a { risk_level = medium }
    else a

-- 5. Fleet governance.
unfoldable pub apply_policy : PolicyVerdict → Analysis → Analysis
apply_policy v a =
    if not v.allowed
    then record {
      risk_level = critical;
      is_path_traversal = a.is_path_traversal;
      warnings =
          a.warnings
          ++ get_or v.violation_reason "The command is forbidden by the active fleet policy." ∷ [];
      requires_explicit_human_approval = true;
    }
    else if v.is_managed && v.requires_approval a.risk_level
    then record a { requires_explicit_human_approval = true }
    else a

module _ (lower : String → String) (matches : Pattern → String → Bool)
    (source : Pattern → String) where
  -- 1. The first critical pattern that matches.
  unfoldable pub check_critical : List Pattern → String → Analysis → Analysis
  check_critical [] cmd a = a
  check_critical (p ∷ ps) cmd a =
      let rest = check_critical ps cmd a in
      if matches p cmd
      then warn
          (joined_with "Critical destructive system command detected matching pattern: " (source p))
          (record a { risk_level = critical; requires_explicit_human_approval = true })
      else rest

  -- `cd` to a place outside the project, where there is one with a path.
  unfoldable pub check_project : Option String → String → Analysis → Analysis
  unfolding contains
  check_project none cmd a = a
  check_project (some path) cmd a =
      if not (is_empty path)
        && (contains cmd "cd /" || contains cmd "cd ~")
        && not (contains cmd (lower path))
      then leave_project a
      else a

  -- The heuristics, before the fleet policy.
  unfoldable pub judge_command : String → Option String → Analysis
  unfolding check_critical check_high check_traversal check_project check_medium trim
  judge_command command project_path =
      let cmd = trim (lower command) in
      check_medium cmd (
        check_project project_path cmd
          (check_traversal cmd (check_high cmd (check_critical critical_patterns cmd no_findings))))

  unfoldable pub evaluate_command_security : PolicyVerdict → String → Option String → Analysis
  unfolding judge_command apply_policy
  evaluate_command_security v command project_path =
      apply_policy v (judge_command command project_path)
