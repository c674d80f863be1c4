-- ===== src/Fleet/Updates.antt =====
-- `updatePolicy`.
use asterim.Prelude.{
  ℕ, String, Bool, true, false, Option, none, some, List, [], ◌∷◌, map, if◌then◌else◌, str_eq,
  get_or,
}
use asterim.Fleet.Config.{
  FleetRiskLevel, low, medium, high, critical, PolicyConfig, JsonValue, text, boolean, array,
  ConfigError, Result, ok, threw, RawConfig, normalize_policy_config,
}
use asterim.Fleet.Policy.{
  FleetPolicy, PolicySource, database_source, ResolvedPolicy, PolicyRow, World, Cache, no_cache,
  first_bad, load_from_database, resolve,
}

-- The input of `updatePolicy`; `none` is a field that is `undefined` or `null`. A description may be
-- set to `null`.
pub record PolicyInput : Type 0 where
  pub new_allowed_models : Option JsonValue
  pub new_banned_command_patterns : Option JsonValue
  pub new_enforce_sovereign_mode : Option JsonValue
  pub new_require_approval_risk_level : Option JsonValue
  pub new_name : Option String
  pub new_description : Option (Option String)

pub data UpdateError : Type 0 where
  policy_file_enforced : UpdateError
  invalid_policy : ConfigError → UpdateError
  invalid_pattern : String → UpdateError
  database_failed : UpdateError

pub data Updated : Type 0 where
  refused : UpdateError → Updated
  stored : World → ResolvedPolicy → Cache → Updated

abbrev pub risk_text : FleetRiskLevel → String
risk_text low = "low"
risk_text medium = "medium"
risk_text high = "high"
risk_text critical = "critical"

-- `toUpperCase` of it.
abbrev pub upper_text : FleetRiskLevel → String
upper_text low = "LOW"
upper_text medium = "MEDIUM"
upper_text high = "HIGH"
upper_text critical = "CRITICAL"

-- `JSON.parse(JSON.stringify(texts))`.
abbrev pub json_texts : List String → JsonValue
json_texts texts = array (map (λ s. some s) texts)

-- `ON CONFLICT(id) DO UPDATE SET` keeps the time of creation.
unfoldable pub upsert : PolicyRow → List PolicyRow → List PolicyRow
upsert r [] = r ∷ []
upsert r (s ∷ rs) =
    let rest = upsert r rs in
    if str_eq s.row_id r.row_id
    then (record r { row_created_at = s.row_created_at }) ∷ rs
    else s ∷ rest

abbrev pub is_stored : PolicySource → Bool
is_stored database_source = true
is_stored _ = false

abbrev pub new_row : ℕ → PolicyInput → FleetPolicy → PolicyConfig → PolicyRow
new_row now input current config =
    let kept = is_stored current.source in
    record {
      row_id = if kept then current.id else "fleet_policy_active";
      row_name = get_or input.new_name (if kept then current.name else "Fleet policy");
      row_description = get_or input.new_description (if kept then current.description else none);
      row_is_active = true;
      allowed_models_json = some (json_texts config.allowed_models);
      banned_commands_json = some (json_texts config.banned_command_patterns);
      row_enforce_sovereign_mode = config.enforce_sovereign_mode;
      row_require_approval_risk_level = upper_text config.require_approval_risk_level;
      row_created_at = if kept then current.created_at else now;
      row_updated_at = now;
    }

-- The input over the current rules.
abbrev pub merged_config : PolicyInput → PolicyConfig → RawConfig
merged_config input current = record {
  raw_allowed_models = get_or input.new_allowed_models (json_texts current.allowed_models);
  raw_banned_command_patterns =
      get_or input.new_banned_command_patterns (json_texts current.banned_command_patterns);
  raw_enforce_sovereign_mode =
      get_or input.new_enforce_sovereign_mode (boolean current.enforce_sovereign_mode);
  raw_require_approval_risk_level =
      get_or input.new_require_approval_risk_level
        (text (risk_text current.require_approval_risk_level));
}

abbrev pub answer_update : World → ResolvedPolicy × Cache → Updated
answer_update w (r, c) = stored w r c

module _ (lower : String → String) (compiles : String → Bool) where
  -- The write, `invalidate` and `getActivePolicy`.
  unfoldable pub store_row : ℕ → World → PolicyRow → Option (List PolicyRow) → Updated
  unfolding upsert resolve
  store_row now w row none = refused database_failed
  store_row now w row (some rows) =
      let written : World = record w { table = some (upsert row rows) } in
      answer_update written (resolve lower compiles now written no_cache)

  unfoldable pub store_config :
      ℕ → World → PolicyInput → FleetPolicy → PolicyConfig → Option String → Updated
  unfolding store_row
  store_config now w input current config (some p) = refused (invalid_pattern p)
  store_config now w input current config none =
      store_row now w (new_row now input current config) w.table

  unfoldable pub check_config :
      ℕ → World → PolicyInput → FleetPolicy → Result PolicyConfig → Updated
  unfolding store_config first_bad
  check_config now w input current (threw e) = refused (invalid_policy e)
  check_config now w input current (ok config) =
      store_config now w input current config (first_bad compiles config.banned_command_patterns)

  unfoldable pub update_policy : ℕ → World → PolicyInput → Updated
  unfolding check_config load_from_database normalize_policy_config
  update_policy now w input =
      if w.file_exists
      then refused policy_file_enforced
      else let current = (load_from_database lower compiles w.table).policy in
        check_config now w input current
          (normalize_policy_config lower (merged_config input current.config))
