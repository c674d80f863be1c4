-- ===== src/Migrations/Rerun.antt =====
-- What a run of the migrations leaves behind.
use asterim.Prelude.{
  ℕ, ◌≡◌, refl, sym, ap, ◌∙◌, subst, arith, inl, inr, String, Bool, true, false, not, ◌&&◌, ◌||◌,
  Option, none, some, List, [], ◌∷◌, ◌++◌, ◌==◌, map, if◌then◌else◌, str_eq_refl, keep, Bool-cases,
  All, All-append, All-mono, get_or,
}
use asterim.Migrations.{
  MigrationDefinition, MigrationRecord, Database, Sqlite, HistoryError, MigrationAnswer, rejected,
  snapshot_failed, migration_failed, migrated, sort_by, all_new, new_engine, by_version, is_applied,
  pending, get_applied_migrations, compute_checksum, verify_found, verify_checksums, record_of,
  apply_migration, apply_each, is_nil, answer_applied, run_snapshotted, run_pending, run_verified,
  run_migrations,
}
use asterim.Migrations.Tables.{
  sort_by-All, All-sort_by, IsDistinct, all_new-IsDistinct, by_version-own, Fits,
  verify_checksums-All, verify_checksums-none, Ended, apply_each-Ended,
}

pub new_engine-IsDistinct :
    {D : Type 0} (ds defs : List (MigrationDefinition D))
    → new_engine ds ≡ some defs
    → IsDistinct defs
unfolding new_engine
new_engine-IsDistinct ds defs e = checked (all_new (sort_by (λ d. d.version) ds) []) refl e
  where
    checked :
        (b : Bool)
        → all_new (sort_by (λ d. d.version) ds) [] ≡ b
        → (if b then some (sort_by (λ d. d.version) ds) else none) ≡ some defs
        → IsDistinct defs
    checked true new k =
        subst IsDistinct (ap (λ o. get_or o defs) k)
          (all_new-IsDistinct (sort_by (λ d. d.version) ds) [] new).0
    checked false new k = absurd (cc)

module _ {D : Type 0} (sha256 : String → String) (now : ℕ → ℕ) (db : Sqlite D)
    (ds : List (MigrationDefinition D)) where
  -- The history fits the definitions, and nothing is pending.
  abbrev pub IsCurrent : Database D → Type 0
  IsCurrent x =
      All (Fits sha256 now db ds) x.schema_migrations × (pending x.schema_migrations ds ≡ [])

  -- The database is as the migrations before the failed one left it.
  abbrev pub FailedAt : Database D → Database D → ℕ → Type 0
  FailedAt x y v =
      (before : List (MigrationDefinition D)) × (d : MigrationDefinition D) × (after : List
        (MigrationDefinition D))
      × (pending x.schema_migrations ds ≡ before ++ d ∷ after)
      × (d.version ≡ v)
      × (apply_each sha256 now db before x ≡ (y, none))
      × (apply_migration sha256 now db d y ≡ none)

  -- What each answer says of the database after the run.
  abbrev pub Leaves : Database D → Database D × MigrationAnswer → Type 0
  Leaves x (y, migrated rs snapshot adopted) = IsCurrent y
  Leaves x (y, migration_failed v) = FailedAt x y v
  Leaves x (y, snapshot_failed) = y ≡ x
  Leaves x (y, rejected e) = y ≡ x

  module _ (distinct : IsDistinct ds) where
    record-Fits :
        (es : List (MigrationDefinition D))
        → All (λ d. by_version d.version ds ≡ some d) es
        → All (Fits sha256 now db ds) (map (record_of sha256 now db) es)
    record-Fits [] h = tt
    record-Fits (d ∷ es) (found, h) = (
      ap (verify_found sha256 now db (record_of sha256 now db d)) found
          ∙ rw (str_eq_refl (compute_checksum sha256 now db d)) refl,
      record-Fits es h,
    )

    kept :
        (P : MigrationDefinition D → Type 0) (p : MigrationDefinition D → Bool)
        (es : List (MigrationDefinition D))
        → All P es
        → All P (keep p es)
    kept P p [] h = tt
    kept P p (d ∷ es) (first, h) = elim (Bool-cases (p d)) [
      | inl e ↦ rw e (first, kept P p es h)
      | inr e ↦ rw e (kept P p es h)
    ]

    applied-append :
        (xs ys : List MigrationRecord) (d : MigrationDefinition D)
        → is_applied (xs ++ ys) d ≡ is_applied xs d || is_applied ys d
    applied-append [] ys d = refl
    applied-append (x ∷ xs) ys d = ground (arith, applied-append xs ys d)

    none_pending :
        (rs : List MigrationRecord) (es : List (MigrationDefinition D))
        → All (λ d. is_applied rs d ≡ true) es
        → pending rs es ≡ []
    none_pending rs [] h = refl
    none_pending rs (d ∷ es) (first, h) = rw first (none_pending rs es h)

    -- Every definition is applied before or by the run.
    all_applied :
        (rs : List MigrationRecord) (es : List (MigrationDefinition D))
        → All (λ d. is_applied (rs ++ map (record_of sha256 now db) (pending rs es)) d ≡ true) es
    all_applied rs [] = tt
    all_applied rs (d ∷ es) = elim (Bool-cases (is_applied rs d)) [
      | inl e ↦
          let own : is_applied (rs ++ map (record_of sha256 now db) (pending rs es)) d ≡ true =
            applied-append rs (map (record_of sha256 now db) (pending rs es)) d ∙ rw e refl in
          let same : pending rs (d ∷ es) ≡ pending rs es = rw e refl in
          subst (Covers (d ∷ es)) (sym same) (own, all_applied rs es)
      | inr e ↦
          let new : List MigrationRecord = map (record_of sha256 now db) (pending rs es) in
          let longer : pending rs (d ∷ es) ≡ d ∷ pending rs es = rw e refl in
          subst (Covers (d ∷ es)) (sym longer) (
            applied-append rs (record_of sha256 now db d ∷ new) d
                ∙ rw e (same_version d.version (is_applied new d)),
            All-mono (λ f. is_applied (rs ++ new) f ≡ true)
                (λ f. is_applied (rs ++ record_of sha256 now db d ∷ new) f ≡ true) es
                (λ f h.
                  more f (is_applied rs f) (is_applied new f) refl refl
                    (sym (applied-append rs new f) ∙ h))
                (all_applied rs es),
          )
    ]
      where
        Covers : List (MigrationDefinition D) → List (MigrationDefinition D) → Type 0
        Covers fs ps = All (λ f. is_applied (rs ++ map (record_of sha256 now db) ps) f ≡ true) fs

        same_version : (n : ℕ) (b : Bool) → (n == n) || b ≡ true
        same_version n b = ground arith

        or_true : (b : Bool) → b || true ≡ true
        or_true true = refl
        or_true false = refl

        more :
            (f : MigrationDefinition D) (a b : Bool)
            → is_applied rs f ≡ a
            → is_applied (map (record_of sha256 now db) (pending rs es)) f ≡ b
            → a || b ≡ true
            → is_applied
                (rs ++ record_of sha256 now db d ∷ map (record_of sha256 now db) (pending rs es))
                f
              ≡ true
        more f true b e₁ e₂ k = applied-append rs _ f ∙ rw e₁ refl
        more f false true e₁ e₂ k =
            applied-append rs _ f ∙ rw (e₁, e₂) (or_true (d.version == f.version))
        more f false false e₁ e₂ k = absurd (cc)

    applied-Leaves :
        (x : Database D) (snapshot : Option String) (adopted : Bool) (r : Database D × Option ℕ)
        → All (Fits sha256 now db ds) x.schema_migrations
        → Ended sha256 now db (pending x.schema_migrations ds) x r
        → Leaves x
            (answer_applied sha256 now db (pending x.schema_migrations ds) snapshot adopted r)
    applied-Leaves x snapshot adopted (y, some v) fits h = h
    applied-Leaves x snapshot adopted (y, none) fits h =
        let new : List MigrationRecord =
          map (record_of sha256 now db) (pending x.schema_migrations ds) in
        (
          subst (All (Fits sha256 now db ds)) (sym h) (
              All-append (Fits sha256 now db ds) x.schema_migrations new fits (
                record-Fits (pending x.schema_migrations ds) (
                  kept (λ d. by_version d.version ds ≡ some d)
                    (λ d. not (is_applied x.schema_migrations d)) ds
                    (by_version-own ds distinct)))),
          subst (λ rs. pending rs ds ≡ []) (sym h)
              (none_pending (x.schema_migrations ++ new) ds (all_applied x.schema_migrations ds)),
        )

    pending-Leaves :
        (x : Database D) (es : List (MigrationDefinition D))
        → es ≡ pending x.schema_migrations ds
        → All (Fits sha256 now db ds) x.schema_migrations
        → Leaves x (run_pending sha256 now db es x)
    pending-Leaves x [] e fits = (fits, sym e)
    pending-Leaves x (d ∷ es) e fits = snapshotted (db.create_snapshot x.content)
      where
        snapshotted :
            (o : Option (Option String)) → Leaves x (run_snapshotted sha256 now db (d ∷ es) x o)
        snapshotted none = refl
        snapshotted (some snapshot) =
            let adopted : Bool =
              is_nil sha256 now db x.schema_migrations && db.has_pre_migration_schema x.content in
            subst
              (λ fs.
                Leaves x (
                  answer_applied sha256 now db fs snapshot adopted (apply_each sha256 now db fs x)))
              (sym e)
              (applied-Leaves x snapshot adopted
                (apply_each sha256 now db (pending x.schema_migrations ds) x) fits
                (apply_each-Ended sha256 now db (pending x.schema_migrations ds) x))

    run-Leaves : (x : Database D) → Leaves x (run_migrations sha256 now db ds x)
    unfolding run_migrations get_applied_migrations
    run-Leaves x =
        verified (verify_checksums sha256 now db (get_applied_migrations x.schema_migrations) ds)
          refl
      where
        verified :
            (o : Option HistoryError)
            → verify_checksums sha256 now db (get_applied_migrations x.schema_migrations) ds ≡ o
            → Leaves x (run_verified sha256 now db o ds x)
        verified (some e) k = refl
        verified none k = pending-Leaves x (pending x.schema_migrations ds) refl (
            All-sort_by (λ r. r.version) (Fits sha256 now db ds) x.schema_migrations
              (verify_checksums-All sha256 now db (get_applied_migrations x.schema_migrations) ds
                k))

-- However the migrations of an engine end: when the history is rejected or no snapshot could be
-- taken, the database is as it was; when a migration fails, it is as the pending ones before that
-- left it, without anything of the failed one; and when they succeed, every applied row has the
-- version and the checksum of a definition, and no definition is left to apply.
pub run_migrations-Leaves :
    {D : Type 0} (sha256 : String → String) (now : ℕ → ℕ) (db : Sqlite D)
    (given defs : List (MigrationDefinition D)) (x : Database D)
    → new_engine given ≡ some defs
    → Leaves sha256 now db defs x (run_migrations sha256 now db defs x)
run_migrations-Leaves sha256 now db given defs x e =
    run-Leaves sha256 now db defs (new_engine-IsDistinct given defs e) x

-- After a run that succeeded, a second one is accepted, applies nothing, takes no snapshot, and leaves
-- the database as it is.
pub run_migrations_again :
    {D : Type 0} (sha256 : String → String) (now : ℕ → ℕ) (db : Sqlite D)
    (given defs : List (MigrationDefinition D)) (x y : Database D) (rs : List MigrationRecord)
    (snapshot : Option String) (adopted : Bool)
    → new_engine given ≡ some defs
    → run_migrations sha256 now db defs x ≡ (y, migrated rs snapshot adopted)
    → run_migrations sha256 now db defs y ≡ (y, migrated [] none false)
unfolding run_migrations get_applied_migrations
run_migrations_again sha256 now db given defs x y rs snapshot adopted e ran =
    let (fits, done) =
      subst (Leaves sha256 now db defs x) ran
        (run_migrations-Leaves sha256 now db given defs x e) in
    let verified =
      verify_checksums-none sha256 now db (get_applied_migrations y.schema_migrations) defs
        (sort_by-All (λ r. r.version) (Fits sha256 now db defs) y.schema_migrations fits) in
    ap (λ o. run_verified sha256 now db o defs y) verified
    ∙ ap (λ ds. run_pending sha256 now db ds y) done
