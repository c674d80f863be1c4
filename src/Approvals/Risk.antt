-- ===== src/Approvals/Risk.antt =====
-- What the analyses of commands and tool calls guarantee.
use asterim.Prelude.{
  ◌≤◌, ◌≡◌, refl, ap, arith, inl, inr, String, Bool, true, false, not, ◌||◌, ◌&&◌, Option, none,
  some, List, [], ◌∷◌, ◌++◌, Bool-cases, trim, any, is_empty, get_or,
}
use Prim.Native.String.{◌++◌ as joined_with}
use asterim.Approvals.Security.{
  Risk, low, medium, high, critical, rank, Pattern, Analysis, PolicyVerdict, no_findings,
  is_critical, contains, critical_patterns, check_critical, check_high, check_traversal,
  check_project, check_medium, judge_command, apply_policy, evaluate_command_security,
}
use asterim.Approvals.Tools.{SecurityMode, strict, NameVerdict, bare_name, higher}
use asterim.Approvals.Tightens.{
  Tightens, tightens, implies_refl, implies_anyway, implies_apply, same_analysis,
  rank-at_least_high, check_high-Tightens, check_traversal-Tightens, check_medium-Tightens,
  apply_policy-Tightens,
}

abbrev pub is_strict : SecurityMode → Bool
is_strict strict = true
is_strict _ = false

Critical : Analysis → Type 0
Critical a = (a.risk_level ≡ critical) × (a.requires_explicit_human_approval ≡ true)

top_rank : (r : Risk) → 3 ≤ rank r → r ≡ critical
top_rank low h = absurd (omega arith)
top_rank medium h = absurd (omega arith)
top_rank high h = absurd (omega arith)
top_rank critical h = refl

Tightens-Critical : (a b : Analysis) → Tightens a b → Critical a → Critical b
unfolding Critical
Tightens-Critical a b (tightens r t h xs e) (risk, asks) =
    (top_rank b.risk_level (omega (arith, ap rank risk, r)), implies_apply _ _ h asks)

module _ (lower : String → String) (matches : Pattern → String → Bool)
    (source : Pattern → String) where
  check_project-Tightens :
      (path : Option String) (cmd : String) (a : Analysis)
      → Tightens a (check_project lower matches source path cmd a)
  unfolding check_project
  check_project-Tightens none cmd a = same_analysis a
  check_project-Tightens (some path) cmd a =
      elim (Bool-cases (
        not (is_empty path)
        && (contains cmd "cd /" || contains cmd "cd ~")
        && not (contains cmd (lower path)))) [
          | inl e ↦ rw e (
              tightens (rank-at_least_high a.risk_level).0 (implies_anyway _) (implies_refl _) _
                refl)
          | inr e ↦ rw e (same_analysis a)
        ]

  check_critical-Critical :
      (ps : List Pattern) (cmd : String) (a : Analysis)
      → any (λ p. matches p cmd) ps ≡ true
      → Critical (check_critical lower matches source ps cmd a)
  unfolding check_critical Critical
  check_critical-Critical [] cmd a h = absurd (cc)
  check_critical-Critical (p ∷ ps) cmd a h = elim (Bool-cases (matches p cmd)) [
    | inl e ↦ rw e (refl, refl)
    | inr e ↦ rw e (check_critical-Critical ps cmd a (rw e at h))
  ]

  -- A fleet policy only adds scrutiny: with any policy the risk is at least what the heuristics say,
  -- no flag is cleared, no warning is lost, and a command that the policy forbids is critical and
  -- needs a human.
  pub evaluate_command_security-policy :
      (v : PolicyVerdict) (command : String) (path : Option String)
      → Tightens
          (judge_command lower matches source command path)
          (evaluate_command_security lower matches source v command path)
        × (v.allowed
              || (is_critical
                    (evaluate_command_security lower matches source v command path).risk_level
                  && (evaluate_command_security lower matches source v command
                      path).requires_explicit_human_approval)
            ≡ true)
  unfolding evaluate_command_security apply_policy
  evaluate_command_security-policy v command path = (
    apply_policy-Tightens v (judge_command lower matches source command path),
    (elim (Bool-cases v.allowed) [ inl e ↦ rw e refl | inr e ↦ rw e refl ]),
  )

  -- A command that a critical pattern matches, lower case and trimmed, is critical and needs a human
  -- whatever else it says, whatever the project and whatever the policy.
  pub evaluate_command_security-critical :
      (v : PolicyVerdict) (command : String) (path : Option String)
      → any (λ p. matches p (trim (lower command))) critical_patterns ≡ true
      → ((evaluate_command_security lower matches source v command path).risk_level ≡ critical)
        × ((evaluate_command_security lower matches source v command
              path).requires_explicit_human_approval
            ≡ true)
  unfolding evaluate_command_security judge_command Critical
  evaluate_command_security-critical v command path h =
      let cmd = trim (lower command) in
      let a1 : Analysis = check_critical lower matches source critical_patterns cmd no_findings in
      let a2 : Analysis = check_high cmd a1 in
      let a3 : Analysis = check_traversal cmd a2 in
      let a4 : Analysis = check_project lower matches source path cmd a3 in
      let a5 : Analysis = check_medium cmd a4 in
      Tightens-Critical a5 _ (apply_policy-Tightens v a5) (
        Tightens-Critical a4 a5 (check_medium-Tightens cmd a4) (
          Tightens-Critical a3 a4 (check_project-Tightens path cmd a3) (
            Tightens-Critical a2 a3 (check_traversal-Tightens cmd a2) (
              Tightens-Critical a1 a2 (check_high-Tightens cmd a1)
                (check_critical-Critical critical_patterns cmd no_findings h)))))

  joint : NameVerdict → Analysis → Analysis
  joint v c = record {
    risk_level = higher c.risk_level v.risk;
    is_path_traversal = c.is_path_traversal;
    warnings = v.warnings ++ c.warnings;
    requires_explicit_human_approval = c.requires_explicit_human_approval;
  }

  abbrev pub tool_line : String → Option String → String
  tool_line tool serialised = joined_with (bare_name tool) (joined_with " " (get_or serialised ""))
