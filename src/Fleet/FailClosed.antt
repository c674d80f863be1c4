-- ===== src/Fleet/FailClosed.antt =====
-- A policy that cannot be trusted refuses, and one that can is applied as written.
use asterim.Prelude.{
  ℕ, ◌≡◌, refl, ap, ◌∙◌, inl, inr, String, Bool, true, false, not, ◌&&◌, ◌||◌, Option, none, some,
  List, [], ◌∷◌, leb, Bool-cases, Option-cases, is_some, is_empty, trim, all, any,
}
use asterim.Fleet.Config.{
  FleetRiskLevel, low, medium, high, critical, risk_order, PolicyConfig, Result, ok, threw,
  normalize_policy_config,
}
use asterim.Fleet.Policy.{
  FleetPolicy, PolicyFailure, ResolvedPolicy, FileStamp, FileFields, FileContent, cannot_read,
  no_json, no_object, fields, World, first_bad, compile, compile_from, file_policy, locked_down,
  load_fields, load_from_file, load,
}
use asterim.Fleet.Questions.{
  requires_approval, matching, check_command, forbidden, validate_command, validate_model,
  check_model, matches_allow_entry,
}

-- What makes a policy file one that can be trusted.
abbrev pub is_sound : (String → Bool) → Result PolicyConfig → Bool
is_sound compiles (threw e) = false
is_sound compiles (ok config) = all compiles config.banned_command_patterns

unfoldable pub is_trusted : (String → String) → (String → Bool) → FileContent → Bool
is_trusted lower compiles (fields f) =
    is_sound compiles (normalize_policy_config lower f.file_config)
is_trusted lower compiles _ = false

first_bad-all :
    (compiles : String → Bool) (ps : List String)
    → is_some (first_bad compiles ps) ≡ not (all compiles ps)
unfolding first_bad
first_bad-all compiles [] = refl
first_bad-all compiles (p ∷ ps) = elim (Bool-cases (compiles p)) [
  | inl e ↦ rw e (first_bad-all compiles ps)
  | inr e ↦ rw e refl
]

compile-failure :
    (compiles : String → Bool) (p : FleetPolicy)
    → is_some (compile compiles p).failure ≡ not (all compiles p.config.banned_command_patterns)
unfolding compile
compile-failure compiles p =
    go (first_bad compiles p.config.banned_command_patterns)
    ∙ first_bad-all compiles p.config.banned_command_patterns
  where
    go : (o : Option String) → is_some (compile_from p o).failure ≡ is_some o
    go none = refl
    go (some q) = refl

load_from_file-failure :
    (lower : String → String) (compiles : String → Bool) (now : ℕ) (content : FileContent)
    → is_some (load_from_file lower compiles now content).failure
      ≡ not (is_trusted lower compiles content)
unfolding load_from_file is_trusted locked_down
load_from_file-failure lower compiles now cannot_read = refl
load_from_file-failure lower compiles now no_json = refl
load_from_file-failure lower compiles now no_object = refl
load_from_file-failure lower compiles now (fields f) =
    go (normalize_policy_config lower f.file_config)
  where
    go :
        (r : Result PolicyConfig)
        → is_some (load_fields lower compiles now f r).failure ≡ not (is_sound compiles r)
    go (threw e) = refl
    go (ok config) = compile-failure compiles (file_policy now f config)

requires_all : (level : FleetRiskLevel) → leb 0 (risk_order level) ≡ true
requires_all low = refl
requires_all medium = refl
requires_all high = refl
requires_all critical = refl

module _ (lower : String → String) (matches : String → String → Bool) where
  -- Every gated question about `r` is answered "no".
  abbrev pub Refuses : ResolvedPolicy → Type 0
  Refuses r =
      ((command : String) → is_some (validate_command matches r command) ≡ true)
      × ((model : String) → is_some (validate_model lower r model) ≡ true)
      × ((level : FleetRiskLevel) → requires_approval r level ≡ true)

  failure-Refuses : (r : ResolvedPolicy) (f : PolicyFailure) → r.failure ≡ some f → Refuses r
  unfolding validate_command validate_model requires_approval check_command check_model
  failure-Refuses r f e =
      (λ command. rw e refl, λ model. rw e refl, λ level. rw e (requires_all level))

  -- A policy file that is there but cannot be read, is no JSON object, states a rule of the wrong kind,
  -- or bans a pattern that does not compile, refuses every command and every model and requires
  -- approval at every risk level, whatever the table says.
  pub load-Refuses :
      (compiles : String → Bool) (now : ℕ) (w : World) (stamp : FileStamp)
      → w.file_stamp ≡ some stamp
      → is_trusted lower compiles w.file_content ≡ false
      → Refuses (load lower compiles now w)
  unfolding load
  load-Refuses compiles now w stamp there bad =
      let r : ResolvedPolicy = load_from_file lower compiles now w.file_content in
      let failed : is_some r.failure ≡ true =
        load_from_file-failure lower compiles now w.file_content ∙ ap not bad in
      elim (Option-cases r.failure) [
        | inl e ↦ absurd (cc)
        | inr (f, e) ↦ rw there (failure-Refuses r f e)
      ]

matching-any :
    (matches : String → String → Bool) (ps : List String) (command : String)
    → is_some (matching matches ps command) ≡ any (λ p. matches p command) ps
unfolding matching
matching-any matches [] command = refl
matching-any matches (p ∷ ps) command = elim (Bool-cases (matches p command)) [
  | inl e ↦ rw e refl
  | inr e ↦ rw e (matching-any matches ps command)
]

pub first_bad-none :
    (compiles : String → Bool) (ps : List String)
    → all compiles ps ≡ true
    → first_bad compiles ps ≡ none
first_bad-none compiles ps h =
    let found : is_some (first_bad compiles ps) ≡ false = first_bad-all compiles ps ∙ ap not h in
    elim (Option-cases (first_bad compiles ps)) [ inl e ↦ e | inr (p, e) ↦ absurd (cc) ]

-- The rules of `config` are applied as they are written.
abbrev pub Applies :
    (String → String) → (String → String → Bool) → PolicyConfig → ResolvedPolicy → Type 0
Applies lower matches config r =
    ((command : String)
      → is_some (validate_command matches r command)
        ≡ not (is_empty (trim command))
          && any (λ p. matches p command) config.banned_command_patterns)
    × ((model : String)
        → is_some (validate_model lower r model)
          ≡ is_empty (trim model)
            || not (any (matches_allow_entry lower (trim model)) config.allowed_models))
    × ((level : FleetRiskLevel)
        → requires_approval r level
          ≡ leb (risk_order config.require_approval_risk_level) (risk_order level))

pub compile-Applies :
    (lower : String → String) (matches : String → String → Bool) (compiles : String → Bool)
    (p : FleetPolicy)
    → all compiles p.config.banned_command_patterns ≡ true
    → Applies lower matches p.config (compile compiles p)
unfolding compile validate_command validate_model requires_approval check_command check_model
compile-Applies lower matches compiles p h =
    rw (first_bad-none compiles p.config.banned_command_patterns h) (
      (λ command. elim (Bool-cases (is_empty (trim command))) [
        | inl e ↦ rw e refl
        | inr e ↦
            rw e (forbidden_some _ ∙ matching-any matches p.config.banned_command_patterns command)
      ]),
      (λ model. elim (Bool-cases (is_empty (trim model))) [
        | inl e ↦ rw e refl
        | inr e ↦
            rw e
              (elim (Bool-cases
                (any (matches_allow_entry lower (trim model)) p.config.allowed_models)) [
                  | inl a ↦ rw a refl
                  | inr a ↦ rw a refl
                ])
      ]),
      (λ level. refl),
    )
  where
    forbidden_some : (o : Option String) → is_some (forbidden matches o) ≡ is_some o
    forbidden_some none = refl
    forbidden_some (some q) = refl

-- A policy file that can be trusted is in force whatever the table says, and its rules are applied as
-- written: a command is refused when it is not blank and a banned pattern matches it, a model when it
-- is blank or no entry of the allowlist admits it, and approval is required from its risk level on.
pub load-Applies :
    (lower : String → String) (matches : String → String → Bool) (compiles : String → Bool)
    (now : ℕ) (w : World) (stamp : FileStamp) (f : FileFields) (config : PolicyConfig)
    → w.file_stamp ≡ some stamp
    → w.file_content ≡ fields f
    → normalize_policy_config lower f.file_config ≡ ok config
    → all compiles config.banned_command_patterns ≡ true
    → Applies lower matches config (load lower compiles now w)
unfolding load load_from_file
load-Applies lower matches compiles now w stamp f config there content rules good =
    rw (there, content, rules)
      (compile-Applies lower matches compiles (file_policy now f config) good)
