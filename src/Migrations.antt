-- ===== src/Migrations.antt =====
-- The migration engine (apps/server/src/services/MigrationEngine.ts).
pub mod Tables
pub mod Rerun
pub mod Status
mod Examples
use asterim.Prelude.{
  ℕ, zero, suc, ◌+◌, ◌==◌, max, String, [], ◌∷◌, collapse, Bool, true, false, not, ◌&&◌, Option,
  none, some, List, ◌++◌, map, if◌then◌else◌, leb, any, keep, is_empty, trim, join, str_eq, get_or,
}
use mathlib.Core.Option

-- A statement that throws ends what follows it.
infixl 5 ◌>>=◌
abbrev pub ◌>>=◌ {ℓ κ} : {A : Type ℓ} {B : Type κ} → Option A → (A → Option B) → Option B
none >>= f = none
some a >>= f = f a

pub record ColumnAddition : Type 0 where
  pub table : String
  pub column : String
  pub definition : String

-- `D` is what the database holds besides the table `schema_migrations`.
pub record MigrationDefinition (D : Type 0) : Type 0 where
  pub version : ℕ
  pub name : String
  pub sql : String
  pub columns : Option (List ColumnAddition)
  pub post_sql : Option String
  pub prepare : Option (D → Option D)

pub record MigrationRecord : Type 0 where
  pub version : ℕ
  pub name : String
  pub checksum : String
  pub applied_at : ℕ

pub record Database (D : Type 0) : Type 0 where
  pub content : D
  pub schema_migrations : List MigrationRecord

-- The statements that the engine runs, `none` if they throw, and its questions.
pub record Sqlite (D : Type 0) : Type 0 where
  pub exec : String → D → Option D
  pub column_exists : ColumnAddition → D → Bool
  pub begins : D → Bool
  pub commits : D → Bool
  pub has_pre_migration_schema : D → Bool
  pub create_snapshot : D → Option (Option String)

-- `sort((a, b) => a.version - b.version)`, which is stable.
module _ {A : Type 0} (version : A → ℕ) where
  unfoldable pub insert_by : A → List A → List A
  insert_by x [] = x ∷ []
  insert_by x (y ∷ ys) =
      let rest = insert_by x ys in if leb (version x) (version y) then x ∷ y ∷ ys else y ∷ rest

  unfoldable pub sort_by : List A → List A
  unfolding insert_by
  sort_by [] = []
  sort_by (x ∷ xs) = insert_by x (sort_by xs)

unfoldable pub join_lines : List String → String
unfolding join
join_lines [] = ""
join_lines (l ∷ []) = l
join_lines (l ∷ m ∷ ls) = join l (join "\n" (join_lines (m ∷ ls)))

abbrev pub alter_table : ColumnAddition → String
alter_table c =
    join "ALTER TABLE "
      (join c.table (join " ADD COLUMN " (join c.column (join " " (join c.definition ";")))))

-- What the error of `verifyChecksums` names.
pub data HistoryError : Type 0 where
  unknown_version : ℕ → HistoryError
  checksum_mismatch : ℕ → HistoryError

pub data MigrationAnswer : Type 0 where
  rejected : HistoryError → MigrationAnswer
  snapshot_failed : MigrationAnswer
  migration_failed : ℕ → MigrationAnswer
  migrated : List MigrationRecord → Option String → Bool → MigrationAnswer

module _ {D : Type 0} where
  abbrev pub has_version : ℕ → List (MigrationDefinition D) → Bool
  has_version v ds = any (λ d. d.version == v) ds

  -- The constructor: `none` if two definitions share a version.
  unfoldable pub all_new : List (MigrationDefinition D) → List ℕ → Bool
  all_new [] seen = true
  all_new (d ∷ ds) seen =
      not (any (λ v. v == d.version) seen) && all_new ds (seen ++ d.version ∷ [])

  unfoldable pub new_engine : List (MigrationDefinition D) → Option (List (MigrationDefinition D))
  unfolding sort_by all_new
  new_engine ds =
      let sorted = sort_by (λ d. d.version) ds in if all_new sorted [] then some sorted else none

  unfoldable pub canonical_content : MigrationDefinition D → String
  unfolding join_lines collapse trim
  canonical_content d = trim (
      collapse
        (join_lines (d.sql ∷ map alter_table (get_or d.columns []) ++ get_or d.post_sql "" ∷ [])))

  -- `new Map(available.map(...)).get(version)`: of two definitions with one version the last.
  unfoldable pub by_version : ℕ → List (MigrationDefinition D) → Option (MigrationDefinition D)
  by_version v [] = none
  by_version v (d ∷ ds) = elim (by_version v ds) [
    | some e ↦ some e
    | none ↦ if d.version == v then some d else none
  ]

  abbrev pub is_applied : List MigrationRecord → MigrationDefinition D → Bool
  is_applied rs d = any (λ r. r.version == d.version) rs

  abbrev pub pending :
      List MigrationRecord → List (MigrationDefinition D) → List (MigrationDefinition D)
  pending rs ds = keep (λ d. not (is_applied rs d)) ds

unfoldable pub get_applied_migrations : List MigrationRecord → List MigrationRecord
unfolding sort_by
get_applied_migrations rs = sort_by (λ r. r.version) rs

module _ {D : Type 0} (sha256 : String → String) (now : ℕ → ℕ) (db : Sqlite D) where
  abbrev pub compute_checksum : MigrationDefinition D → String
  compute_checksum d = sha256 (canonical_content d)

  abbrev pub verify_found : MigrationRecord → Option (MigrationDefinition D) → Option HistoryError
  verify_found r none = some (unknown_version r.version)
  verify_found r (some d) =
      if str_eq (compute_checksum d) r.checksum then none else some (checksum_mismatch r.version)

  abbrev pub first_error : Option HistoryError → Option HistoryError → Option HistoryError
  first_error none rest = rest
  first_error (some e) rest = some e

  -- `none` means that the history and the definitions agree.
  unfoldable pub verify_checksums :
      List MigrationRecord → List (MigrationDefinition D) → Option HistoryError
  unfolding canonical_content by_version
  verify_checksums [] ds = none
  verify_checksums (r ∷ rs) ds =
      first_error (verify_found r (by_version r.version ds)) (verify_checksums rs ds)

  abbrev pub run_prepare : Option (D → Option D) → D → Option D
  run_prepare none x = some x
  run_prepare (some f) x = f x

  abbrev pub run_sql : String → D → Option D
  run_sql sql x = if is_empty (trim sql) then some x else db.exec sql x

  unfoldable pub add_columns : List ColumnAddition → D → Option D
  add_columns [] x = some x
  add_columns (c ∷ cs) x = do
    y ← if db.column_exists c x then some x else db.exec (alter_table c) x
    add_columns cs y

  -- The row of `schema_migrations`, whose version is its primary key, and `COMMIT`.
  abbrev pub commit_row :
      Bool → Bool → MigrationRecord → List MigrationRecord → D → Option (Database D)
  commit_row true commits r rs y = none
  commit_row false false r rs y = none
  commit_row false true r rs y = some (record { content = y; schema_migrations = rs ++ r ∷ [] })

  -- The statements between `BEGIN` and `COMMIT`. One that throws ends them without a result, and the
  -- database is then as it was before `BEGIN`: that the `ROLLBACK` of the `catch` works is assumed.
  abbrev pub run_statements :
      MigrationDefinition D → MigrationRecord → Database D → Option (Database D)
  run_statements d r x = do
    y₁ ← run_prepare d.prepare x.content
    y₂ ← run_sql d.sql y₁
    y₃ ← add_columns (get_or d.columns []) y₂
    y₄ ← run_sql (get_or d.post_sql "") y₃
    commit_row (is_applied x.schema_migrations d) (db.commits y₄) r x.schema_migrations y₄

  abbrev pub record_of : MigrationDefinition D → MigrationRecord
  record_of d = record {
    version = d.version;
    name = d.name;
    checksum = compute_checksum d;
    applied_at = now d.version;
  }

  -- `none` means that it threw, with the database as it was.
  unfoldable pub apply_migration : MigrationDefinition D → Database D → Option (Database D)
  unfolding trim add_columns
  apply_migration d x = if db.begins x.content then run_statements d (record_of d) x else none

  abbrev pub apply_next :
      (Database D → Database D × Option ℕ)
      → MigrationDefinition D
      → Database D
      → Option (Database D)
      → Database D × Option ℕ
  apply_next again d x none = (x, some d.version)
  apply_next again d x (some y) = again y

  -- The loop over the pending migrations: the database after it, and the one that failed.
  unfoldable pub apply_each : List (MigrationDefinition D) → Database D → Database D × Option ℕ
  unfolding apply_migration
  apply_each [] x = (x, none)
  apply_each (d ∷ ds) x = apply_next (apply_each ds) d x (apply_migration d x)

  abbrev pub is_nil : List MigrationRecord → Bool
  is_nil [] = true
  is_nil (r ∷ rs) = false

  abbrev pub answer_applied :
      List (MigrationDefinition D)
      → Option String
      → Bool
      → Database D × Option ℕ
      → Database D × MigrationAnswer
  answer_applied ds snapshot adopted (y, some v) = (y, migration_failed v)
  answer_applied ds snapshot adopted (y, none) = (y, migrated (map record_of ds) snapshot adopted)

  abbrev pub run_snapshotted :
      List (MigrationDefinition D)
      → Database D
      → Option (Option String)
      → Database D × MigrationAnswer
  run_snapshotted ds x none = (x, snapshot_failed)
  run_snapshotted ds x (some snapshot) =
      answer_applied ds snapshot
        (is_nil x.schema_migrations && db.has_pre_migration_schema x.content) (apply_each ds x)

  abbrev pub run_pending : List (MigrationDefinition D) → Database D → Database D × MigrationAnswer
  run_pending [] x = (x, migrated [] none false)
  run_pending (d ∷ ds) x = run_snapshotted (d ∷ ds) x (db.create_snapshot x.content)

  abbrev pub run_verified :
      Option HistoryError → List (MigrationDefinition D) → Database D → Database D × MigrationAnswer
  run_verified (some e) ds x = (x, rejected e)
  run_verified none ds x = run_pending (pending x.schema_migrations ds) x

  unfoldable pub run_migrations :
      List (MigrationDefinition D) → Database D → Database D × MigrationAnswer
  unfolding get_applied_migrations verify_checksums apply_each
  run_migrations ds x =
      run_verified (verify_checksums (get_applied_migrations x.schema_migrations) ds) ds x
