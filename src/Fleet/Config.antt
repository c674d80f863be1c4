-- ===== src/Fleet/Config.antt =====
-- The rules of a policy and `normalizePolicyConfig`, which narrows an untrusted object to them or
-- throws. `toLowerCase` is the parameter `lower`.
use asterim.Prelude.{
  ℕ, String, Bool, false, Option, none, some, List, [], ◌∷◌, if◌then◌else◌, str_eq, trim,
}

pub data FleetRiskLevel : Type 0 where
  low medium high critical : FleetRiskLevel

-- `RISK_ORDER`.
abbrev pub risk_order : FleetRiskLevel → ℕ
risk_order low = 0
risk_order medium = 1
risk_order high = 2
risk_order critical = 3

-- `FleetPolicyConfig`.
pub record PolicyConfig : Type 0 where
  pub allowed_models : List String
  pub banned_command_patterns : List String
  pub enforce_sovereign_mode : Bool
  pub require_approval_risk_level : FleetRiskLevel

abbrev pub default_config : PolicyConfig
default_config = record {
  allowed_models = "*" ∷ [];
  banned_command_patterns = [];
  enforce_sovereign_mode = false;
  require_approval_risk_level = high;
}

-- A value of the untrusted object. An entry of an array is `none` when it is no string.
pub data JsonValue : Type 0 where
  undefined null other : JsonValue
  boolean : Bool → JsonValue
  text : String → JsonValue
  array : List (Option String) → JsonValue

pub data ConfigError : Type 0 where
  not_an_array not_only_strings not_a_boolean not_a_string unknown_risk : ConfigError

pub data Result {ℓ} (A : Type ℓ) : Type ℓ where
  ok : A → Result A
  threw : ConfigError → Result A

module _ {ℓ κ} {A : Type ℓ} {B : Type κ} where
  abbrev pub then_do : Result A → (A → Result B) → Result B
  then_do (threw e) f = threw e
  then_do (ok a) f = f a

abbrev pub with_entry : Option String → Result (List String) → Result (List String)
with_entry none rest = threw not_only_strings
with_entry (some s) (ok rest) = ok (s ∷ rest)
with_entry (some s) (threw e) = threw e

unfoldable pub only_strings : List (Option String) → Result (List String)
only_strings [] = ok []
only_strings (e ∷ es) = with_entry e (only_strings es)

unfoldable pub normalize_string_array : JsonValue → List String → Result (List String)
unfolding only_strings
normalize_string_array undefined fallback = ok fallback
normalize_string_array null fallback = ok fallback
normalize_string_array (array es) fallback = only_strings es
normalize_string_array _ fallback = threw not_an_array

abbrev pub read_sovereign : JsonValue → Result Bool
read_sovereign undefined = ok default_config.enforce_sovereign_mode
read_sovereign (boolean b) = ok b
read_sovereign _ = threw not_a_boolean

-- `RISK_LEVELS.includes(lowered)`, and which one it is.
abbrev pub risk_named : String → Option FleetRiskLevel
risk_named s =
    if str_eq s "low"
    then some low
    else if str_eq s "medium"
    then some medium
    else if str_eq s "high"
    then some high
    else if str_eq s "critical"
    then some critical
    else none

abbrev pub known_risk : Option FleetRiskLevel → Result FleetRiskLevel
known_risk none = threw unknown_risk
known_risk (some r) = ok r

-- The fields that `normalizePolicyConfig` reads.
pub record RawConfig : Type 0 where
  pub raw_allowed_models : JsonValue
  pub raw_banned_command_patterns : JsonValue
  pub raw_enforce_sovereign_mode : JsonValue
  pub raw_require_approval_risk_level : JsonValue

module _ (lower : String → String) where
  abbrev pub read_risk : JsonValue → Result FleetRiskLevel
  read_risk undefined = ok default_config.require_approval_risk_level
  read_risk (text s) = known_risk (risk_named (lower (trim s)))
  read_risk _ = threw not_a_string

  unfoldable pub normalize_policy_config : RawConfig → Result PolicyConfig
  unfolding normalize_string_array
  normalize_policy_config r =
      then_do (normalize_string_array r.raw_allowed_models default_config.allowed_models) (λ models.
        then_do
          (normalize_string_array r.raw_banned_command_patterns
            default_config.banned_command_patterns)
          (λ banned. then_do (read_sovereign r.raw_enforce_sovereign_mode) (λ sovereign.
            then_do (read_risk r.raw_require_approval_risk_level) (λ risk. ok (record {
              allowed_models = models;
              banned_command_patterns = banned;
              enforce_sovereign_mode = sovereign;
              require_approval_risk_level = risk;
            })))))
