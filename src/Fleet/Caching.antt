-- ===== src/Fleet/Caching.antt =====
-- The cache of the fleet policy.
use asterim.Prelude.{
  ℕ, ◌≡◌, refl, sym, ap, ◌∙◌, arith, inl, inr, String, Bool, true, false, ◌&&◌, Option, none, some,
  List, [], ◌∷◌, if◌then◌else◌, Bool-cases, is_some,
}
use asterim.Fleet.Config.{PolicyConfig, Result, ok, threw, normalize_policy_config}
use asterim.Fleet.Policy.{
  FileStamp, FileContent, FleetPolicy, PolicyRow, World, Cache, no_cache, same_stamp, same_flag,
  first_bad, load_from_database, load, resolve_from, resolve,
}
use asterim.Fleet.Updates.{
  PolicyInput, Updated, refused, policy_file_enforced, stored, new_row, merged_config, upsert,
  store_row, store_config, check_config, update_policy,
}

both_fields : (a b : FileStamp) → a.mtime_ms ≡ b.mtime_ms → a.size ≡ b.size → a ≡ b
both_fields a b m z = λ i. record { mtime_ms = m i; size = z i }

stamps_agree : (a b : Option FileStamp) → same_stamp a b ≡ true → a ≡ b
stamps_agree none none h = refl
stamps_agree (some a) (some b) h = ap (λ x. some x) (both_fields a b (ground arith) (ground arith))
stamps_agree none (some b) h = absurd (cc)
stamps_agree (some a) none h = absurd (cc)

and_left : (a b : Bool) → a && b ≡ true → a ≡ true
and_left true b h = refl
and_left false b h = absurd (cc)

module _ (lower : String → String) (compiles : String → Bool) where
  -- What can happen to the cache: a question is asked at some time, an administrator writes the policy,
  -- and the file changes, to be read as given.
  pub data PolicyEvent : Type 0 where
    asks : ℕ → PolicyEvent
    updates : ℕ → PolicyInput → PolicyEvent
    edits : Option FileStamp → Bool → FileContent → PolicyEvent

  abbrev pub after_update : World × Cache → Updated → World × Cache
  after_update s (refused e) = s
  after_update s (stored w r c) = (w, c)

  unfoldable pub policy_step : PolicyEvent → World × Cache → World × Cache
  unfolding resolve update_policy
  policy_step (asks now) (w, c) = (w, (resolve lower compiles now w c).1)
  policy_step (updates now input) (w, c) =
      after_update (w, c) (update_policy lower compiles now w input)
  policy_step (edits stamp exists content) (w, c) =
      (record w { file_stamp = stamp; file_exists = exists; file_content = content }, c)

  unfoldable pub policy_run : List PolicyEvent → World × Cache → World × Cache
  unfolding policy_step
  policy_run [] s = s
  policy_run (e ∷ es) s = policy_run es (policy_step e s)

  module _ (content_of : Option FileStamp → FileContent) where
    -- Every change of the file leaves it with the content that goes with its time and size.
    abbrev pub Stamped : List PolicyEvent → Type 0
    Stamped [] = Unit
    Stamped (asks now ∷ es) = Stamped es
    Stamped (updates now input ∷ es) = Stamped es
    Stamped (edits stamp exists content ∷ es) = (content ≡ content_of stamp) × Stamped es

    -- What the cache holds was loaded at some time from a file with its content, and from the table as
    -- it is.
    data Fits (w : World) (c : Cache) : Type 0 where
      forgotten : c.cached ≡ none → Fits w c
      loaded :
          (now : ℕ) (v : World)
          → c.cached ≡ some (load lower compiles now v)
          → c.cached_file_stamp ≡ v.file_stamp
          → v.file_content ≡ content_of v.file_stamp
          → v.table ≡ w.table
          → Fits w c

    load_alike :
        (now : ℕ) (v w : World)
        → v.file_stamp ≡ w.file_stamp
        → v.file_content ≡ w.file_content
        → v.table ≡ w.table
        → load lower compiles now v ≡ load lower compiles now w
    unfolding load
    load_alike now v w stamp content table = rw (stamp, content, table) refl

    resolve-Fits :
        (now : ℕ) (w : World) (c : Cache)
        → w.file_content ≡ content_of w.file_stamp
        → Fits w c
        → (loaded_at : ℕ) × ((resolve lower compiles now w c).0 ≡ load lower compiles loaded_at w)
          × Fits w (resolve lower compiles now w c).1
    unfolding resolve resolve_from
    resolve-Fits now w c own (forgotten e) = rw e (now, refl, loaded now w refl refl own refl)
    resolve-Fits now w c own (loaded past v e stamp content table) =
        rw e
          (elim (Bool-cases (
            same_stamp w.file_stamp c.cached_file_stamp
            && same_flag c.cached_from_file (is_some w.file_stamp))) [
              | inr miss ↦ rw miss (now, refl, loaded now w refl refl own refl)
              | inl hit ↦
                  let agreed : v.file_stamp ≡ w.file_stamp =
                    sym
                      (stamps_agree w.file_stamp c.cached_file_stamp (and_left _ _ hit) ∙ stamp) in
                  let same = content ∙ ap content_of agreed ∙ sym own in
                  rw hit (
                    past,
                    load_alike past v w agreed same table,
                    loaded past v refl stamp content table,
                  )
            ])

    -- An update leaves the file alone, and a cache that fits.
    Updates : World → Updated → Type 0
    Updates w (refused e) = Unit
    Updates w (stored w' r c) =
        (w'.file_stamp ≡ w.file_stamp) × (w'.file_content ≡ w.file_content) × Fits w' c

    store_row-Updates :
        (now : ℕ) (w : World) (row : PolicyRow) (table : Option (List PolicyRow))
        → w.file_content ≡ content_of w.file_stamp
        → Updates w (store_row lower compiles now w row table)
    unfolding store_row Updates
    store_row-Updates now w row none own = tt
    store_row-Updates now w row (some rows) own =
        let w' : World = record w { table = some (upsert row rows) } in
        (refl, refl, (resolve-Fits now w' no_cache own (forgotten refl)).2)

    update_policy-Updates :
        (now : ℕ) (w : World) (input : PolicyInput)
        → w.file_content ≡ content_of w.file_stamp
        → Updates w (update_policy lower compiles now w input)
    unfolding update_policy check_config store_config Updates
    update_policy-Updates now w input own = guarded w.file_exists
      where
        written :
            (current : FleetPolicy) (config : PolicyConfig) (bad : Option String)
            → Updates w (store_config lower compiles now w input current config bad)
        written current config (some p) = tt
        written current config none =
            store_row-Updates now w (new_row now input current config) w.table own

        checked :
            (current : FleetPolicy) (r : Result PolicyConfig)
            → Updates w (check_config lower compiles now w input current r)
        checked current (threw e) = tt
        checked current (ok config) =
            written current config (first_bad compiles config.banned_command_patterns)

        current : FleetPolicy
        current = (load_from_database lower compiles w.table).policy

        guarded :
            (b : Bool)
            → Updates w (
                if b
                then refused policy_file_enforced
                else check_config lower compiles now w input current
                    (normalize_policy_config lower (merged_config input current.config)))
        guarded true = tt
        guarded false =
            checked current (normalize_policy_config lower (merged_config input current.config))

    abbrev Sound : World × Cache → Type 0
    Sound s = (s.0.file_content ≡ content_of s.0.file_stamp) × Fits s.0 s.1

    after_update-Sound :
        (s : World × Cache) (u : Updated) → Updates s.0 u → Sound s → Sound (after_update s u)
    unfolding Updates
    after_update-Sound s (refused e) up h = h
    after_update-Sound s (stored w r c) (stamp, content, fits) (own, old) =
        (content ∙ own ∙ ap content_of (sym stamp), fits)

    Fits-edited : (w w' : World) (c : Cache) → w.table ≡ w'.table → Fits w c → Fits w' c
    Fits-edited w w' c same (forgotten e) = forgotten e
    Fits-edited w w' c same (loaded now v e stamp content table) =
        loaded now v e stamp content (table ∙ same)

    policy_run-Sound :
        (es : List PolicyEvent) (s : World × Cache) → Stamped es → Sound s → Sound (policy_run es s)
    unfolding policy_run policy_step
    policy_run-Sound [] s st h = h
    policy_run-Sound (asks now ∷ es) (w, c) st (own, fits) =
        policy_run-Sound es _ st (own, (resolve-Fits now w c own fits).2)
    policy_run-Sound (updates now input ∷ es) (w, c) st h = policy_run-Sound es _ st (
        after_update-Sound (w, c) (update_policy lower compiles now w input)
          (update_policy-Updates now w input h.0) h)
    policy_run-Sound (edits stamp exists content ∷ es) (w, c) (goes, st) (own, fits) =
        policy_run-Sound es _ st (
          goes,
          Fits-edited w
              (record w { file_stamp = stamp; file_exists = exists; file_content = content }) c refl
              fits,
        )

    -- The cache never serves a policy that is no longer in force: after any questions, any updates
    -- through the service and any changes of the file, a question is answered with what a load of the
    -- present file or table gives, at some time. The service starts with an empty cache; only its
    -- updates change the table; the time and size of the file determine its content.
    pub policy_run-resolve :
        (es : List PolicyEvent) (w : World) (now : ℕ)
        → w.file_content ≡ content_of w.file_stamp
        → Stamped es
        → let s = policy_run es (w, no_cache) in
          (loaded_at : ℕ) × ((resolve lower compiles now s.0 s.1).0
            ≡ load lower compiles loaded_at s.0)
    policy_run-resolve es w now own st =
        let s = policy_run es (w, no_cache) in
        let (right, fits) = policy_run-Sound es (w, no_cache) st (own, forgotten refl) in
        let (at, same, _) = resolve-Fits now s.0 s.1 right fits in (at, same)
