-- ===== src/Migrations/Examples.antt =====
-- Migrations of a database that remembers its statements.
use asterim.Prelude.{
  ℕ, ◌≡◌, refl, String, true, false, none, some, List, [], ◌∷◌, ◌++◌, if◌then◌else◌, str_eq, any,
  join, trim, trim_start, trim_end, collapse,
}
use asterim.Migrations.{
  MigrationDefinition, MigrationRecord, Database, Sqlite, MigrationAnswer, rejected,
  checksum_mismatch, migration_failed, migrated, new_engine, canonical_content, join_lines,
  run_migrations,
}
use asterim.Migrations.Rerun.{Leaves, run_migrations-Leaves, run_migrations_again}

abbrev sqlite : Sqlite (List String)
sqlite = record {
  exec = λ sql x. if str_eq sql "broken" then none else some (x ++ sql ∷ []);
  column_exists = λ c x. any (str_eq c.column) x;
  begins = λ x. true;
  commits = λ x. true;
  has_pre_migration_schema = λ x. any (str_eq "users") x;
  create_snapshot = λ x. some none;
}

abbrev migration : ℕ → String → MigrationDefinition (List String)
migration version sql = record {
  version = version;
  name = "m";
  sql = sql;
  columns = none;
  post_sql = none;
  prepare = none;
}

abbrev clock : ℕ → ℕ
clock v = 7

abbrev same_text : String → String
same_text s = s

abbrev row : ℕ → String → MigrationRecord
row version checksum = record { version = version; name = "m"; checksum = checksum; applied_at = 7 }

abbrev run :
    List (MigrationDefinition (List String))
    → Database (List String)
    → Database (List String) × MigrationAnswer
run ds x = run_migrations same_text clock sqlite ds x

abbrev fresh : Database (List String)
fresh = record { content = []; schema_migrations = [] }

abbrev two : List (MigrationDefinition (List String))
two = migration 1 "one" ∷ migration 2 "two" ∷ []

abbrev done : Database (List String)
done = record { content = "one" ∷ "two" ∷ []; schema_migrations = row 1 "one" ∷ row 2 "two" ∷ [] }

engine_sorts : new_engine (migration 2 "two" ∷ migration 1 "one" ∷ []) ≡ some two
unfolding new_engine
engine_sorts = refl

spaces_collapse : canonical_content (migration 1 " a\n   b ") ≡ "a b"
unfolding canonical_content join_lines join collapse trim trim_start trim_end
spaces_collapse = refl

two_run : run two fresh ≡ (done, migrated (row 1 "one" ∷ row 2 "two" ∷ []) none false)
unfolding run_migrations canonical_content join_lines join collapse trim trim_start trim_end str_eq
two_run = refl

-- The third migration fails behind its first statement, and only the first two are there.
third_failed :
    run
      (migration 1 "one"
        ∷ migration 2 "two"
        ∷ record (migration 3 "three") { post_sql = some "broken" }
        ∷ [])
      fresh
    ≡ (done, migration_failed 3)
unfolding run_migrations canonical_content join_lines join collapse trim trim_start trim_end str_eq
third_failed = refl

edited_rejected :
    run (migration 1 "one" ∷ migration 2 "other" ∷ []) done ≡ (done, rejected (checksum_mismatch 2))
unfolding run_migrations canonical_content join_lines join collapse trim trim_start trim_end str_eq
edited_rejected = refl

run_migrations-Leaves_example : Leaves same_text clock sqlite two fresh (run two fresh)
run_migrations-Leaves_example =
    run_migrations-Leaves same_text clock sqlite (migration 2 "two" ∷ migration 1 "one" ∷ []) two
      fresh engine_sorts

run_migrations_again_example : run two done ≡ (done, migrated [] none false)
run_migrations_again_example =
    run_migrations_again same_text clock sqlite (migration 2 "two" ∷ migration 1 "one" ∷ []) two
      fresh done (row 1 "one" ∷ row 2 "two" ∷ []) none false engine_sorts two_run
