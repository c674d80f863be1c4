-- ===== src/Fleet/Examples.antt =====
-- Fleet policies at concrete inputs.
use asterim.Prelude.{
  ℕ, ◌≡◌, refl, String, Bool, true, false, not, some, none, Option, List, [], ◌∷◌, if◌then◌else◌,
  str_eq, strip_prefix, trim, trim_start, trim_end, is_some,
}
use asterim.Fleet.Config.{
  critical, PolicyConfig, undefined, text, array, RawConfig, ok, normalize_policy_config,
  normalize_string_array, only_strings,
}
use asterim.Fleet.Policy.{
  World, Cache, no_cache, FileStamp, FileFields, FileContent, fields, no_json, ResolvedPolicy, load,
  load_from_database, compile, first_bad, select_active, resolve,
}
use asterim.Fleet.Updates.{PolicyInput, update_policy, stored}
use asterim.Fleet.FailClosed.{is_trusted, Refuses, Applies, load-Refuses}
use asterim.Fleet.Caching.{PolicyEvent, asks, updates, edits, policy_run, policy_run-resolve}
use asterim.Fleet.Stored.{LowersNames, update_policy-load}

-- `toLowerCase` on the words used here.
abbrev lower_words : String → String
lower_words s =
    if str_eq s "LOW"
    then "low"
    else if str_eq s "MEDIUM"
    then "medium"
    else if str_eq s "HIGH"
    then "high"
    else if str_eq s "CRITICAL"
    then "critical"
    else s

abbrev no_bracket : String → Bool
no_bracket s = not (str_eq s "(")

abbrev starts_with : String → String → Bool
starts_with p s = is_some (strip_prefix p s)

abbrev stamp : FileStamp
stamp = record { mtime_ms = 1; size = 2 }

abbrev rules : RawConfig
rules = record {
  raw_allowed_models = array (some "claude-*" ∷ []);
  raw_banned_command_patterns = array (some "curl" ∷ []);
  raw_enforce_sovereign_mode = undefined;
  raw_require_approval_risk_level = text " critical";
}

abbrev narrowed : PolicyConfig
narrowed = record {
  allowed_models = "claude-*" ∷ [];
  banned_command_patterns = "curl" ∷ [];
  enforce_sovereign_mode = false;
  require_approval_risk_level = critical;
}

abbrev rule_file : FileFields
rule_file = record {
  file_id = none;
  file_name = none;
  file_description = none;
  file_config = rules;
}

abbrev world_of : FileContent → World
world_of content = record {
  file_stamp = some stamp;
  file_exists = true;
  file_content = content;
  table = none;
}

rules-narrowed : normalize_policy_config lower_words rules ≡ ok narrowed
unfolding normalize_policy_config normalize_string_array only_strings trim trim_start trim_end
    str_eq
rules-narrowed = refl

load-Refuses_example :
    Refuses lower_words starts_with (load lower_words no_bracket 5 (world_of no_json))
unfolding is_trusted
load-Refuses_example =
    load-Refuses lower_words starts_with no_bracket 5 (world_of no_json) stamp refl refl

-- No file, and an empty table.
abbrev file_removed : World
file_removed = record {
  file_stamp = none;
  file_exists = false;
  file_content = no_json;
  table = some [];
}

abbrev rules_and_table : World
rules_and_table = record (world_of (fields rule_file)) { table = some [] }

-- The rules, whenever there is a file.
abbrev file_at : Option FileStamp → FileContent
file_at none = no_json
file_at (some at) = fields rule_file

lower_words-LowersNames : LowersNames lower_words
unfolding str_eq
lower_words-LowersNames = record {
  lowers_low = refl;
  lowers_medium = refl;
  lowers_high = refl;
  lowers_critical = refl;
}

abbrev ban_curl : PolicyInput
ban_curl = record {
  new_allowed_models = some (array (some "claude-*" ∷ []));
  new_banned_command_patterns = some (array (some "curl" ∷ []));
  new_enforce_sovereign_mode = none;
  new_require_approval_risk_level = some (text "CRITICAL");
  new_name = none;
  new_description = none;
}

update_policy-load_example :
    (written : World) × (r : ResolvedPolicy) × (c : Cache) × (update_policy lower_words no_bracket 7
        file_removed ban_curl
      ≡ stored written r c)
    × (load lower_words no_bracket 7 written ≡ r)
    × Applies lower_words starts_with narrowed r
unfolding normalize_policy_config normalize_string_array only_strings trim trim_start trim_end
    str_eq load_from_database compile first_bad select_active
update_policy-load_example =
    update_policy-load lower_words no_bracket starts_with 7 file_removed ban_curl [] narrowed
      lower_words-LowersNames refl refl refl tt refl refl

-- Asked, the file removed, asked again, the rules written to the table, and the file put back.
abbrev file_history : List (PolicyEvent lower_words no_bracket)
file_history =
    asks 5
    ∷ edits none false no_json
    ∷ asks 6
    ∷ updates 7 ban_curl
    ∷ edits (some stamp) true (fields rule_file)
    ∷ []

policy_run-resolve_example :
    let s = policy_run lower_words no_bracket file_history (rules_and_table, no_cache) in
    (loaded_at : ℕ) × ((resolve lower_words no_bracket 9 s.0 s.1).0
      ≡ load lower_words no_bracket loaded_at s.0)
policy_run-resolve_example =
    policy_run-resolve lower_words no_bracket file_at file_history rules_and_table 9 refl
      (refl, (refl, tt))
