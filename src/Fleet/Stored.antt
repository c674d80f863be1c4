-- ===== src/Fleet/Stored.antt =====
-- What `updatePolicy` stores is what is in force afterwards.
use asterim.Prelude.{
  ℕ, ◌<◌, ◌≡◌, refl, ap, ◌∙◌, arith, inl, inr, String, Bool, true, false, Option, none, some, List,
  [], ◌∷◌, map, if◌then◌else◌, ltb, Bool-cases, all, All, trim, trim_start, trim_end, str_eq,
}
use asterim.Fleet.Config.{
  FleetRiskLevel, low, medium, high, critical, PolicyConfig, ok, RawConfig, boolean, text,
  only_strings, normalize_string_array, normalize_policy_config, risk_named, known_risk,
}
use asterim.Fleet.Policy.{
  FleetPolicy, ResolvedPolicy, PolicyRow, World, Cache, newer, select_active, compile, row_policy,
  load_row, load_selected, load_from_database, load, resolve, resolve_from, remember,
}
use asterim.Fleet.FailClosed.{first_bad-none, Applies, compile-Applies}
use asterim.Fleet.Updates.{
  PolicyInput, stored, refused, policy_file_enforced, json_texts, upper_text, new_row,
  merged_config, upsert, answer_update, store_row, store_config, check_config, update_policy,
}

-- `toLowerCase` on the four names, as the table spells them.
pub record LowersNames (lower : String → String) : Type 0 where
  pub lowers_low : lower "LOW" ≡ "low"
  pub lowers_medium : lower "MEDIUM" ≡ "medium"
  pub lowers_high : lower "HIGH" ≡ "high"
  pub lowers_critical : lower "CRITICAL" ≡ "critical"

only_strings-map : (xs : List String) → only_strings (map (λ s. some s) xs) ≡ ok xs
unfolding only_strings
only_strings-map [] = refl
only_strings-map (x ∷ xs) = rw (only_strings-map xs) refl

reread_risk :
    (lower : String → String) (r : FleetRiskLevel)
    → LowersNames lower
    → known_risk (risk_named (lower (trim (upper_text r)))) ≡ ok r
unfolding trim trim_start trim_end str_eq
reread_risk lower low h = rw h.lowers_low refl
reread_risk lower medium h = rw h.lowers_medium refl
reread_risk lower high h = rw h.lowers_high refl
reread_risk lower critical h = rw h.lowers_critical refl

-- The columns of a row read back as the rules that were written.
abbrev raw_columns : PolicyConfig → RawConfig
raw_columns c = record {
  raw_allowed_models = json_texts c.allowed_models;
  raw_banned_command_patterns = json_texts c.banned_command_patterns;
  raw_enforce_sovereign_mode = boolean c.enforce_sovereign_mode;
  raw_require_approval_risk_level = text (upper_text c.require_approval_risk_level);
}

normalize-columns :
    (lower : String → String) (c : PolicyConfig)
    → LowersNames lower
    → normalize_policy_config lower (raw_columns c) ≡ ok c
unfolding normalize_policy_config normalize_string_array
normalize-columns lower c h =
    rw
      (
        only_strings-map c.allowed_models,
        only_strings-map c.banned_command_patterns,
        reread_risk lower c.require_approval_risk_level h,
      )
      refl

abbrev Older : PolicyRow → PolicyRow → Type 0
Older r s = s.row_updated_at < r.row_updated_at

abbrev NoneNewer : PolicyRow → Option PolicyRow → Type 0
NoneNewer r none = Unit
NoneNewer r (some s) = s.row_updated_at < r.row_updated_at

newer-NoneNewer :
    (r q : PolicyRow) (o : Option PolicyRow)
    → Older r q
    → NoneNewer r o
    → NoneNewer r (some (newer q o))
newer-NoneNewer r q none older h = older
newer-NoneNewer r q (some s) older h = elim (Bool-cases (ltb q.row_updated_at s.row_updated_at)) [
  | inl e ↦ rw e h
  | inr e ↦ rw e older
]

select-NoneNewer :
    (r : PolicyRow) (rs : List PolicyRow) → All (Older r) rs → NoneNewer r (select_active rs)
unfolding select_active
select-NoneNewer r [] h = tt
select-NoneNewer r (q ∷ rs) (older, h) =
    either q.row_is_active (some (newer q (select_active rs))) (select_active rs)
      (newer-NoneNewer r q (select_active rs) older (select-NoneNewer r rs h))
      (select-NoneNewer r rs h)
  where
    either :
        (b : Bool) (x y : Option PolicyRow)
        → NoneNewer r x
        → NoneNewer r y
        → NoneNewer r (if b then x else y)
    either true x y hx hy = hx
    either false x y hx hy = hy

if_true : (b : Bool) (x y : Option PolicyRow) → b ≡ true → (if b then x else y) ≡ x
if_true true x y h = refl
if_true false x y h = absurd (cc)

newer_itself :
    (r s : PolicyRow) (o : Option PolicyRow)
    → r.row_updated_at ≡ s.row_updated_at
    → NoneNewer r o
    → newer s o ≡ s
newer_itself r s none same h = refl
newer_itself r s (some q) same h =
    let late : ltb s.row_updated_at q.row_updated_at ≡ false = ground arith in rw late refl

select-upsert :
    (r : PolicyRow) (rs : List PolicyRow)
    → r.row_is_active ≡ true
    → All (Older r) rs
    → (created : ℕ) × (select_active (upsert r rs) ≡ some (record r { row_created_at = created }))
unfolding select_active upsert
select-upsert r [] active h = (r.row_created_at, rw active refl)
select-upsert r (q ∷ rs) active (older, h) = elim (Bool-cases (str_eq q.row_id r.row_id)) [
  | inl e ↦
      let s : PolicyRow = record r { row_created_at = q.row_created_at } in
      (
        q.row_created_at,
        rw e (
            if_true r.row_is_active (some (newer s (select_active rs))) (select_active rs) active
            ∙ ap (λ x. some x)
                (newer_itself r s (select_active rs) refl (select-NoneNewer r rs h))),
      )
  | inr e ↦
      let (created, found) = select-upsert r rs active h in
      let s : PolicyRow = record r { row_created_at = created } in
      (
        created,
        elim (Bool-cases q.row_is_active) [
          | inl a ↦
              let early : ltb q.row_updated_at r.row_updated_at ≡ true = ground arith in
              rw e (
                if_true q.row_is_active (some (newer q (select_active (upsert r rs))))
                  (select_active (upsert r rs)) a
                ∙ (ap (λ o. some (newer q o)) found ∙ rw early refl))
          | inr a ↦ rw (e, a) found
        ],
      )
]

-- A row written from rules reads back as those rules.
load_selected-row :
    (lower : String → String) (compiles : String → Bool) (r : PolicyRow) (c : PolicyConfig)
    → normalize_policy_config lower (raw_columns c) ≡ ok c
    → load_selected lower compiles (
        some (record r {
          allowed_models_json = some (json_texts c.allowed_models);
          banned_commands_json = some (json_texts c.banned_command_patterns);
          row_enforce_sovereign_mode = c.enforce_sovereign_mode;
          row_require_approval_risk_level = upper_text c.require_approval_risk_level;
        }))
      ≡ compile compiles (row_policy r c)
load_selected-row lower compiles r c back = ap (λ x. load_row lower compiles r (some x)) back

-- A policy that `updatePolicy` accepts is the one in force afterwards: while no policy file is there
-- and no row of the table is from the future, the input's rules over the current ones, if they are
-- well-formed and every banned pattern compiles, are stored, and what is then resolved, in the same
-- call and from the table afterwards, has no failure and applies exactly these rules.
pub update_policy-load :
    (lower : String → String) (compiles : String → Bool) (matches : String → String → Bool)
    (now : ℕ) (w : World) (input : PolicyInput) (rows : List PolicyRow) (config : PolicyConfig)
    → LowersNames lower
    → w.file_stamp ≡ none
    → w.file_exists ≡ false
    → w.table ≡ some rows
    → All (λ s. s.row_updated_at < now) rows
    → normalize_policy_config lower
        (merged_config input (load_from_database lower compiles w.table).policy.config)
      ≡ ok config
    → all compiles config.banned_command_patterns ≡ true
    → (written : World) × (r : ResolvedPolicy) × (c : Cache) × (update_policy lower compiles now w
          input
        ≡ stored written r c)
      × (load lower compiles now written ≡ r)
      × Applies lower matches config r
unfolding update_policy check_config store_config store_row resolve resolve_from load
    load_from_database
update_policy-load lower compiles matches now w input rows config names no_stamp no_file table older
      rules good =
    (
      written,
      r,
      (remember written r).1,
      accepted,
      loaded,
      compile-Applies lower matches compiles (row_policy saved config) good,
    )
  where
    current : FleetPolicy
    current = (load_from_database lower compiles w.table).policy

    row : PolicyRow
    row = new_row now input current config

    written : World
    written = record w { table = some (upsert row rows) }

    found :
        (created : ℕ) × (select_active (upsert row rows)
          ≡ some (record row { row_created_at = created }))
    found = select-upsert row rows refl older

    saved : PolicyRow
    saved = record row { row_created_at = found.0 }

    r : ResolvedPolicy
    r = compile compiles (row_policy saved config)

    loaded : load lower compiles now written ≡ r
    loaded = rw no_stamp (
        ap (load_selected lower compiles) found.1
        ∙ load_selected-row lower compiles saved config (normalize-columns lower config names))

    accepted : update_policy lower compiles now w input ≡ stored written r (remember written r).1
    accepted =
        ap
          (λ b.
            if b
            then refused policy_file_enforced
            else check_config lower compiles now w input current
                (normalize_policy_config lower (merged_config input current.config)))
          no_file
        ∙ (ap (check_config lower compiles now w input current) rules
            ∙ (ap (store_config lower compiles now w input current config)
                  (first_bad-none compiles config.banned_command_patterns good)
                ∙ (ap (store_row lower compiles now w row) table
                    ∙ ap (λ x. answer_update written (remember written x)) loaded)))
