-- ===== src/Fleet/Policy.antt =====
-- `FleetPolicyService`: where the policy comes from, its cache, the questions that are asked of it
-- and `updatePolicy`. The file and the table are the state of a `World`; whether a pattern compiles
-- (`compiles`) and what it matches (`matches`) are parameters. A column of JSON is what `JSON.parse`
-- makes of it, `none` if it throws.
use asterim.Prelude.{
  ℕ, String, Bool, true, false, not, ◌&&◌, Option, none, some, List, [], ◌∷◌, if◌then◌else◌, ltb,
  ◌==◌, is_some, is_empty,
}
use asterim.Fleet.Config.{
  PolicyConfig, default_config, JsonValue, text, boolean, ConfigError, Result, ok, threw, RawConfig,
  normalize_policy_config,
}

pub data PolicySource : Type 0 where
  file_source database_source default_source : PolicySource

pub record FleetPolicy : Type 0 where
  pub id : String
  pub name : String
  pub description : Option String
  pub is_active : Bool
  pub created_at : ℕ
  pub updated_at : ℕ
  pub source : PolicySource
  pub config : PolicyConfig

pub data PolicyFailure : Type 0 where
  unreadable_file invalid_json not_an_object : PolicyFailure
  invalid_file : ConfigError → PolicyFailure
  malformed_row : PolicyFailure
  bad_pattern : String → PolicyFailure

-- The patterns are kept by their sources.
pub record ResolvedPolicy : Type 0 where
  pub policy : FleetPolicy
  pub patterns : List String
  pub failure : Option PolicyFailure

pub record FileStamp : Type 0 where
  pub mtime_ms : ℕ
  pub size : ℕ

-- The object in the policy file.
pub record FileFields : Type 0 where
  pub file_id : Option String
  pub file_name : Option String
  pub file_description : Option String
  pub file_config : RawConfig

pub data FileContent : Type 0 where
  cannot_read no_json no_object : FileContent
  fields : FileFields → FileContent

pub record PolicyRow : Type 0 where
  pub row_id : String
  pub row_name : String
  pub row_description : Option String
  pub row_is_active : Bool
  pub allowed_models_json : Option JsonValue
  pub banned_commands_json : Option JsonValue
  pub row_enforce_sovereign_mode : Bool
  pub row_require_approval_risk_level : String
  pub row_created_at : ℕ
  pub row_updated_at : ℕ

pub record World : Type 0 where
  pub file_stamp : Option FileStamp
  pub file_exists : Bool
  pub file_content : FileContent
  -- `none`: the table cannot be read.
  pub table : Option (List PolicyRow)

pub record Cache : Type 0 where
  pub cached : Option ResolvedPolicy
  pub cached_file_stamp : Option FileStamp
  pub cached_from_file : Bool

-- `invalidate`, and the state of a new service.
abbrev pub no_cache : Cache
no_cache = record { cached = none; cached_file_stamp = none; cached_from_file = false }

abbrev pub default_policy : FleetPolicy
default_policy = record {
  id = "fleet_policy_default";
  name = "Unmanaged";
  description = some "No fleet policy is configured on this installation.";
  is_active = false;
  created_at = 0;
  updated_at = 0;
  source = default_source;
  config = default_config;
}

unfoldable pub locked_down : PolicySource → PolicyFailure → ResolvedPolicy
locked_down source failure = record {
  policy = record default_policy { source = source; is_active = true; name = "Unreadable policy" };
  patterns = [];
  failure = some failure;
}

-- A text that is there and not empty, or else a default.
abbrev pub named : Option String → String → String
named none default = default
named (some s) default = if is_empty s then default else s

-- The newer of two rows, the first if they are of one time.
abbrev pub newer : PolicyRow → Option PolicyRow → PolicyRow
newer r none = r
newer r (some s) = if ltb r.row_updated_at s.row_updated_at then s else r

-- `WHERE is_active = 1 ORDER BY updated_at DESC LIMIT 1`.
unfoldable pub select_active : List PolicyRow → Option PolicyRow
select_active [] = none
select_active (r ∷ rs) =
    let rest = select_active rs in if r.row_is_active then some (newer r rest) else rest

abbrev pub same_stamp : Option FileStamp → Option FileStamp → Bool
same_stamp none none = true
same_stamp (some a) (some b) = (a.mtime_ms == b.mtime_ms) && (a.size == b.size)
same_stamp _ _ = false

abbrev pub same_flag : Bool → Bool → Bool
same_flag true b = b
same_flag false b = not b

abbrev pub compile_from : FleetPolicy → Option String → ResolvedPolicy
compile_from policy none = record {
  policy = policy;
  patterns = policy.config.banned_command_patterns;
  failure = none;
}
compile_from policy (some p) = record {
  policy = policy;
  patterns = [];
  failure = some (bad_pattern p);
}

abbrev pub file_policy : ℕ → FileFields → PolicyConfig → FleetPolicy
file_policy now f config = record {
  id = named f.file_id "fleet_policy_file";
  name = named f.file_name "Fleet policy (file)";
  description = f.file_description;
  is_active = true;
  created_at = now;
  updated_at = now;
  source = file_source;
  config = config;
}

abbrev pub row_policy : PolicyRow → PolicyConfig → FleetPolicy
row_policy r config = record {
  id = r.row_id;
  name = r.row_name;
  description = r.row_description;
  is_active = true;
  created_at = r.row_created_at;
  updated_at = r.row_updated_at;
  source = database_source;
  config = config;
}

abbrev pub remember : World → ResolvedPolicy → ResolvedPolicy × Cache
remember w r = (
  r,
  record {
    cached = some r;
    cached_file_stamp = w.file_stamp;
    cached_from_file = is_some w.file_stamp;
  },
)

module _ (compiles : String → Bool) where
  -- The loop of `compile` stops at the first pattern that does not compile.
  unfoldable pub first_bad : List String → Option String
  first_bad [] = none
  first_bad (p ∷ ps) = let rest = first_bad ps in if compiles p then rest else some p

  unfoldable pub compile : FleetPolicy → ResolvedPolicy
  unfolding first_bad
  compile policy = compile_from policy (first_bad policy.config.banned_command_patterns)

module _ (lower : String → String) (compiles : String → Bool) where
  abbrev pub load_fields : ℕ → FileFields → Result PolicyConfig → ResolvedPolicy
  load_fields now f (threw e) = locked_down file_source (invalid_file e)
  load_fields now f (ok config) = compile compiles (file_policy now f config)

  unfoldable pub load_from_file : ℕ → FileContent → ResolvedPolicy
  unfolding locked_down compile normalize_policy_config
  load_from_file now cannot_read = locked_down file_source unreadable_file
  load_from_file now no_json = locked_down file_source invalid_json
  load_from_file now no_object = locked_down file_source not_an_object
  load_from_file now (fields f) = load_fields now f (normalize_policy_config lower f.file_config)

  abbrev pub row_config :
      PolicyRow → Option JsonValue → Option JsonValue → Option (Result PolicyConfig)
  row_config r (some models) (some banned) = some (
      normalize_policy_config lower (record {
        raw_allowed_models = models;
        raw_banned_command_patterns = banned;
        raw_enforce_sovereign_mode = boolean r.row_enforce_sovereign_mode;
        raw_require_approval_risk_level = text r.row_require_approval_risk_level;
      }))
  row_config r _ _ = none

  abbrev pub load_row : PolicyRow → Option (Result PolicyConfig) → ResolvedPolicy
  load_row r (some (ok config)) = compile compiles (row_policy r config)
  load_row r (some (threw e)) = locked_down database_source malformed_row
  load_row r none = locked_down database_source malformed_row

  abbrev pub load_selected : Option PolicyRow → ResolvedPolicy
  load_selected none = compile compiles default_policy
  load_selected (some r) = load_row r (row_config r r.allowed_models_json r.banned_commands_json)

  unfoldable pub load_from_database : Option (List PolicyRow) → ResolvedPolicy
  unfolding locked_down compile normalize_policy_config select_active
  load_from_database none = compile compiles default_policy
  load_from_database (some rows) = load_selected (select_active rows)

  -- What `resolve` loads when its cache is of no use.
  unfoldable pub load : ℕ → World → ResolvedPolicy
  unfolding load_from_file load_from_database
  load now w =
      if is_some w.file_stamp then load_from_file now w.file_content else load_from_database w.table

  unfoldable pub resolve_from : ℕ → World → Cache → Option ResolvedPolicy → ResolvedPolicy × Cache
  unfolding load
  resolve_from now w c none = remember w (load now w)
  resolve_from now w c (some r) =
      if same_stamp w.file_stamp c.cached_file_stamp
        && same_flag c.cached_from_file (is_some w.file_stamp)
      then (r, c)
      else remember w (load now w)

  unfoldable pub resolve : ℕ → World → Cache → ResolvedPolicy × Cache
  unfolding resolve_from
  resolve now w c = resolve_from now w c c.cached
