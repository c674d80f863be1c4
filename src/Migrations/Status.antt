-- ===== src/Migrations/Status.antt =====
-- `getStatus`.
use asterim.Prelude.{ℕ, max, String, List, [], ◌∷◌, map}
use asterim.Migrations.{
  MigrationDefinition, MigrationRecord, Database, pending, get_applied_migrations,
}

pub record MigrationStatus : Type 0 where
  pub current_version : ℕ
  pub latest_version : ℕ
  pub applied : List MigrationRecord
  pub pending : List (ℕ × String)

unfoldable pub highest_record : List MigrationRecord → ℕ
highest_record [] = 0
highest_record (r ∷ rs) = max r.version (highest_record rs)

module _ {D : Type 0} where
  unfoldable pub highest_definition : ℕ → List (MigrationDefinition D) → ℕ
  highest_definition latest [] = latest
  highest_definition latest (d ∷ ds) = max d.version (highest_definition latest ds)

  -- `getStatus`, where `latest` is the version of the build.
  unfoldable pub get_status : ℕ → List (MigrationDefinition D) → Database D → MigrationStatus
  unfolding get_applied_migrations highest_record highest_definition
  get_status latest ds x = record {
    current_version = highest_record (get_applied_migrations x.schema_migrations);
    latest_version = highest_definition latest ds;
    applied = get_applied_migrations x.schema_migrations;
    pending = map (λ d. (d.version, d.name)) (pending x.schema_migrations ds);
  }
