-- ===== src/Fleet/Questions.antt =====
-- What is asked of the policy in force. Each question resolves it and then decides on it.
use Prim.Native.Char.{code}
use Prim.Native.String.{[] as nil, ◌∷◌ as cons}
use asterim.Prelude.{
  String, Bool, true, false, not, ◌&&◌, ◌||◌, Option, none, some, List, [], ◌∷◌, if◌then◌else◌, leb,
  ◌==◌, str_eq, trim, is_some, is_empty, any, strip_prefix,
}
use asterim.Fleet.Config.{FleetRiskLevel, low, risk_order}
use asterim.Fleet.Policy.{default_source, PolicyFailure, ResolvedPolicy}

-- `none` is allowed; otherwise why not.
pub data Refusal : Type 0 where
  policy_failure : PolicyFailure → Refusal
  no_model off_the_list : Refusal
  forbidden_by : String → Refusal

-- What stands before a final `*`, if there is one.
unfoldable pub before_star : String → Option String
before_star nil = none
before_star (cons c nil) = if code c == b'*' then some nil else none
before_star (cons c s) = elim (before_star s) [ none ↦ none | some t ↦ some (cons c t) ]

unfoldable pub is_managed : ResolvedPolicy → Bool
is_managed r = elim r.policy.source [ default_source ↦ false | _ ↦ true ]

unfoldable pub is_sovereign_mode_forced : ResolvedPolicy → Bool
is_sovereign_mode_forced r = not (is_some r.failure) && r.policy.config.enforce_sovereign_mode

abbrev pub threshold_of : Option PolicyFailure → FleetRiskLevel → FleetRiskLevel
threshold_of none level = level
threshold_of (some f) level = low

unfoldable pub requires_approval : ResolvedPolicy → FleetRiskLevel → Bool
requires_approval r level =
    leb (risk_order (threshold_of r.failure r.policy.config.require_approval_risk_level))
      (risk_order level)

module _ (matches : String → String → Bool) where
  -- The first pattern that matches.
  unfoldable pub matching : List String → String → Option String
  matching [] command = none
  matching (p ∷ ps) command =
      let rest = matching ps command in if matches p command then some p else rest

  abbrev pub forbidden : Option String → Option Refusal
  forbidden none = none
  forbidden (some p) = some (forbidden_by p)

  unfoldable pub check_command : ResolvedPolicy → String → Option PolicyFailure → Option Refusal
  unfolding matching trim
  check_command r command (some f) = some (policy_failure f)
  check_command r command none =
      if is_empty (trim command) then none else forbidden (matching r.patterns command)

  unfoldable pub validate_command : ResolvedPolicy → String → Option Refusal
  unfolding check_command
  validate_command r command = check_command r command r.failure

module _ (lower : String → String) where
  abbrev pub is_star_match : String → String → Option String → Bool
  is_star_match candidate rule none = str_eq (lower candidate) (lower rule)
  is_star_match candidate rule (some family) =
      is_some (strip_prefix (lower family) (lower candidate))

  unfoldable pub matches_allow_entry : String → String → Bool
  unfolding before_star trim
  matches_allow_entry candidate entry =
      let rule = trim entry in str_eq rule "*" || is_star_match candidate rule (before_star rule)

  unfoldable pub check_model : ResolvedPolicy → String → Option PolicyFailure → Option Refusal
  unfolding matches_allow_entry trim
  check_model r model (some f) = some (policy_failure f)
  check_model r model none =
      let candidate = trim model in
      if is_empty candidate
      then some no_model
      else if any (matches_allow_entry candidate) r.policy.config.allowed_models
      then none
      else some off_the_list

  unfoldable pub validate_model : ResolvedPolicy → String → Option Refusal
  unfolding check_model
  validate_model r model = check_model r model r.failure
