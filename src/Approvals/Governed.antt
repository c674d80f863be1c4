-- ===== src/Approvals/Governed.antt =====
-- The command analysis under the fleet policy in force: the seam between `evaluateCommandSecurity` and
-- `FleetPolicyService`. The text of a refusal is the parameter `message`.
use asterim.Prelude.{
  ℕ, ◌≡◌, refl, ◌∙◌, inl, inr, String, Bool, true, false, not, Option, none, some, leb, Bool-cases,
  is_some, all,
}
use asterim.Approvals.Security.{
  Risk, low, medium, high, critical, Pattern, PolicyVerdict, judge_command, apply_policy,
  evaluate_command_security,
}
use asterim.Fleet.Config.{
  low as fleet_low, medium as fleet_medium, high as fleet_high, critical as fleet_critical,
  PolicyConfig, FleetRiskLevel, risk_order, ok, normalize_policy_config,
}
use asterim.Fleet.Policy.{
  ResolvedPolicy, FileStamp, FileFields, fields, World, load, load_from_file, compile, compile_from,
  file_policy, first_bad,
}
use asterim.Fleet.Questions.{Refusal, validate_command, is_managed, requires_approval}
use asterim.Fleet.FailClosed.{is_trusted, load-Refuses, load-Applies}

-- The two vocabularies of risk are one in the source.
abbrev pub fleet_risk : Risk → FleetRiskLevel
fleet_risk low = fleet_low
fleet_risk medium = fleet_medium
fleet_risk high = fleet_high
fleet_risk critical = fleet_critical

abbrev pub reason_of : (Refusal → String) → Option Refusal → Option String
reason_of message none = none
reason_of message (some r) = some (message r)

-- What `evaluateCommandSecurity` asks of the policy in force.
abbrev pub policy_verdict :
    (Refusal → String) → (String → String → Bool) → ResolvedPolicy → String → PolicyVerdict
policy_verdict message test r command = record {
  allowed = not (is_some (validate_command test r command));
  violation_reason = reason_of message (validate_command test r command);
  is_managed = is_managed r;
  requires_approval = λ risk. requires_approval r (fleet_risk risk);
}

module _ (lower : String → String) (matches : Pattern → String → Bool) (source : Pattern → String)
    (message : Refusal → String) (test : String → String → Bool) (compiles : String → Bool) where
  refused-critical :
      (r : ResolvedPolicy) (command : String) (path : Option String)
      → is_some (validate_command test r command) ≡ true
      → ((evaluate_command_security lower matches source
            (policy_verdict message test r command)
            command
            path).risk_level
          ≡ critical)
        × ((evaluate_command_security lower matches source
              (policy_verdict message test r command)
              command
              path).requires_explicit_human_approval
            ≡ true)
  unfolding evaluate_command_security apply_policy
  refused-critical r command path e = rw e (refl, refl)

  -- While a policy file is there that cannot be trusted, every command is critical and needs a human,
  -- however harmless it looks.
  pub evaluate_command_security-load :
      (now : ℕ) (w : World) (stamp : FileStamp) (command : String) (path : Option String)
      → w.file_stamp ≡ some stamp
      → is_trusted lower compiles w.file_content ≡ false
      → ((evaluate_command_security lower matches source
            (policy_verdict message test (load lower compiles now w) command)
            command
            path).risk_level
          ≡ critical)
        × ((evaluate_command_security lower matches source
              (policy_verdict message test (load lower compiles now w) command)
              command
              path).requires_explicit_human_approval
            ≡ true)
  evaluate_command_security-load now w stamp command path there bad =
      refused-critical (load lower compiles now w) command path
        ((load-Refuses lower test compiles now w stamp there bad).0 command)

  file_managed :
      (now : ℕ) (w : World) (stamp : FileStamp) (f : FileFields) (config : PolicyConfig)
      → w.file_stamp ≡ some stamp
      → w.file_content ≡ fields f
      → normalize_policy_config lower f.file_config ≡ ok config
      → is_managed (load lower compiles now w) ≡ true
  unfolding load load_from_file compile is_managed
  file_managed now w stamp f config there content rules =
      rw (there, content, rules) (either (first_bad compiles config.banned_command_patterns))
    where
      either : (o : Option String) → is_managed (compile_from (file_policy now f config) o) ≡ true
      either none = refl
      either (some p) = refl

  -- Under a policy file that can be trusted, a command needs a human when its risk, as the heuristics
  -- judge it, reaches the level that the file names, whatever the heuristics think of approval.
  pub evaluate_command_security-Applies :
      (now : ℕ) (w : World) (stamp : FileStamp) (f : FileFields) (config : PolicyConfig)
      (command : String) (path : Option String)
      → w.file_stamp ≡ some stamp
      → w.file_content ≡ fields f
      → normalize_policy_config lower f.file_config ≡ ok config
      → all compiles config.banned_command_patterns ≡ true
      → leb
          (risk_order config.require_approval_risk_level)
          (risk_order (fleet_risk (judge_command lower matches source command path).risk_level))
        ≡ true
      → (evaluate_command_security lower matches source
          (policy_verdict message test (load lower compiles now w) command)
          command
          path).requires_explicit_human_approval
        ≡ true
  unfolding evaluate_command_security apply_policy
  evaluate_command_security-Applies now w stamp f config command path there content rules good
        reached =
      let r : ResolvedPolicy = load lower compiles now w in
      let managed = file_managed now w stamp f config there content rules in
      let level = fleet_risk (judge_command lower matches source command path).risk_level in
      let asked : requires_approval r level ≡ true =
        (load-Applies lower test compiles now w stamp f config there content rules good).2 level
        ∙ reached in
      elim (Bool-cases (is_some (validate_command test r command))) [
        | inl e ↦ rw e refl
        | inr e ↦ rw (e, managed, asked) refl
      ]
