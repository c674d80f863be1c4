-- ===== src/Migrations/Tables.antt =====
-- What the history says of the definitions, and what the loop over the pending ones adds to it.
use asterim.Prelude.{
  ℕ, ◌≡◌, refl, sym, ap, ◌∙◌, arith, inl, inr, String, Bool, true, false, Option, none, some, List,
  [], ◌∷◌, ◌++◌, ◌==◌, map, append-nil, append_assoc, leb, any, Bool-cases, All, get_or,
}
use asterim.Migrations.{
  MigrationDefinition, MigrationRecord, Database, Sqlite, HistoryError, ◌>>=◌, insert_by, sort_by,
  has_version, all_new, by_version, is_applied, verify_found, verify_checksums, first_error,
  run_prepare, run_sql, add_columns, commit_row, run_statements, record_of, apply_migration,
  apply_next, apply_each,
}

module _ {A : Type 0} (version : A → ℕ) (P : A → Type 0) where
  insert_by-All : (x : A) (ys : List A) → P x → All P ys → All P (insert_by version x ys)
  unfolding insert_by
  insert_by-All x [] p h = (p, tt)
  insert_by-All x (y ∷ ys) p (q, h) = elim (Bool-cases (leb (version x) (version y))) [
    | inl e ↦ rw e (p, (q, h))
    | inr e ↦ rw e (q, insert_by-All x ys p h)
  ]

  All-insert_by : (x : A) (ys : List A) → All P (insert_by version x ys) → P x × All P ys
  unfolding insert_by
  All-insert_by x [] (p, h) = (p, tt)
  All-insert_by x (y ∷ ys) h = elim (Bool-cases (leb (version x) (version y))) [
    | inl e ↦ rw e at h
    | inr e ↦
        let both : P y × All P (insert_by version x ys) = rw e at h in
        let (p, rest) = All-insert_by x ys both.1 in (p, (both.0, rest))
  ]

  pub sort_by-All : (xs : List A) → All P xs → All P (sort_by version xs)
  unfolding sort_by
  sort_by-All [] h = tt
  sort_by-All (x ∷ xs) (p, h) = insert_by-All x (sort_by version xs) p (sort_by-All xs h)

  pub All-sort_by : (xs : List A) → All P (sort_by version xs) → All P xs
  unfolding sort_by
  All-sort_by [] h = tt
  All-sort_by (x ∷ xs) h =
      let (p, rest) = All-insert_by x (sort_by version xs) h in (p, All-sort_by xs rest)

module _ {D : Type 0} where
  -- No two definitions share a version.
  abbrev pub IsDistinct : List (MigrationDefinition D) → Type 0
  IsDistinct [] = Unit
  IsDistinct (d ∷ ds) = (has_version d.version ds ≡ false) × IsDistinct ds

  seen_apart :
      (d : MigrationDefinition D) (ds : List (MigrationDefinition D)) (seen : List ℕ)
      → All (λ e. any (λ v. v == e.version) (seen ++ d.version ∷ []) ≡ false) ds
      → (has_version d.version ds ≡ false) × All (λ e. any (λ v. v == e.version) seen ≡ false) ds
  seen_apart d [] seen h = (refl, tt)
  seen_apart d (e ∷ es) seen (first, h) =
      let (apart, rest) = seen_apart d es seen h in
      let (old, new) = both seen first in (rw (new, apart) refl, (old, rest))
    where
      both :
          (vs : List ℕ)
          → any (λ v. v == e.version) (vs ++ d.version ∷ []) ≡ false
          → (any (λ v. v == e.version) vs ≡ false) × ((e.version == d.version) ≡ false)
      both [] k = (refl, ground arith)
      both (v ∷ vs) k = elim (Bool-cases (v == e.version)) [
        | inl hit ↦ absurd (let b : true ≡ false = rw hit at k in cc)
        | inr miss ↦ let (o, n) = both vs (rw miss at k) in (rw miss o, n)
      ]

  pub all_new-IsDistinct :
      (ds : List (MigrationDefinition D)) (seen : List ℕ)
      → all_new ds seen ≡ true
      → IsDistinct ds × All (λ e. any (λ v. v == e.version) seen ≡ false) ds
  unfolding all_new
  all_new-IsDistinct [] seen h = (tt, tt)
  all_new-IsDistinct (d ∷ ds) seen h = elim (Bool-cases (any (λ v. v == d.version) seen)) [
    | inl old ↦ absurd (let b : false ≡ true = rw old at h in cc)
    | inr new ↦
        let (distinct, apart) = all_new-IsDistinct ds (seen ++ d.version ∷ []) (rw new at h) in
        let (own, rest) = seen_apart d ds seen apart in ((own, distinct), (new, rest))
  ]

  by_version-none :
      (v : ℕ) (ds : List (MigrationDefinition D))
      → has_version v ds ≡ false
      → by_version v ds ≡ none
  unfolding by_version
  by_version-none v [] h = refl
  by_version-none v (d ∷ ds) h = elim (Bool-cases (d.version == v)) [
    | inl hit ↦ absurd (let b : true ≡ false = rw hit at h in cc)
    | inr miss ↦ rw (by_version-none v ds (rw miss at h), miss) refl
  ]

  -- A definition is found under its version.
  pub by_version-own :
      (ds : List (MigrationDefinition D))
      → IsDistinct ds
      → All (λ d. by_version d.version ds ≡ some d) ds
  unfolding by_version
  by_version-own [] h = tt
  by_version-own (d ∷ ds) (apart, h) = (
    rw (by_version-none d.version ds apart, same_version d.version) refl,
    later ds (by_version-own ds h),
  )
    where
      same_version : (n : ℕ) → (n == n) ≡ true
      same_version n = ground arith

      later :
          (es : List (MigrationDefinition D))
          → All (λ e. by_version e.version ds ≡ some e) es
          → All (λ e. by_version e.version (d ∷ ds) ≡ some e) es
      later [] k = tt
      later (e ∷ es) (found, k) = (rw found refl, later es k)

bind_some :
    {A : Type 0} {B : Type 0} (m : Option A) (f : A → Option B) (b : B)
    → (m >>= f) ≡ some b
    → (a : A) × (m ≡ some a) × (f a ≡ some b)
bind_some none f b e = absurd (cc)
bind_some (some a) f b e = (a, refl, e)

module _ {D : Type 0} (sha256 : String → String) (now : ℕ → ℕ) (db : Sqlite D) where
  abbrev pub Fits : List (MigrationDefinition D) → MigrationRecord → Type 0
  Fits ds r = verify_found sha256 now db r (by_version r.version ds) ≡ none

  pub verify_checksums-All :
      (rs : List MigrationRecord) (ds : List (MigrationDefinition D))
      → verify_checksums sha256 now db rs ds ≡ none
      → All (Fits ds) rs
  unfolding verify_checksums
  verify_checksums-All [] ds h = tt
  verify_checksums-All (r ∷ rs) ds h =
      split (λ k. verify_checksums-All rs ds k)
        (verify_found sha256 now db r (by_version r.version ds)) refl h
    where
      split :
          (verify_checksums sha256 now db rs ds ≡ none → All (Fits ds) rs)
          → (o : Option HistoryError) → verify_found sha256 now db r (by_version r.version ds) ≡ o
          → first_error sha256 now db o (verify_checksums sha256 now db rs ds) ≡ none
          → Fits ds r × All (Fits ds) rs
      split rest none e k = (e, rest k)
      split rest (some bad) e k = absurd (cc)

  pub verify_checksums-none :
      (rs : List MigrationRecord) (ds : List (MigrationDefinition D))
      → All (Fits ds) rs
      → verify_checksums sha256 now db rs ds ≡ none
  unfolding verify_checksums
  verify_checksums-none [] ds h = refl
  verify_checksums-none (r ∷ rs) ds (fits, h) =
      ap (λ o. first_error sha256 now db o (verify_checksums sha256 now db rs ds)) fits
      ∙ verify_checksums-none rs ds h

  -- A migration that is applied adds its own row, and only that.
  apply_migration-records :
      (d : MigrationDefinition D) (x y : Database D)
      → apply_migration sha256 now db d x ≡ some y
      → y.schema_migrations ≡ x.schema_migrations ++ record_of sha256 now db d ∷ []
  unfolding apply_migration
  apply_migration-records d x y e = elim (Bool-cases (db.begins x.content)) [
    | inr locked ↦ absurd (let b : none ≡ some y = rw locked at e in cc)
    | inl begun ↦
        let ran : run_statements sha256 now db d (record_of sha256 now db d) x ≡ some y =
          rw begun at e in
        let (y₁, e₁, r₁) =
          bind_some (run_prepare sha256 now db d.prepare x.content) after_1 y ran in
        let (y₂, e₂, r₂) = bind_some (run_sql sha256 now db d.sql y₁) after_2 y r₁ in
        let (y₃, e₃, r₃) =
          bind_some (add_columns sha256 now db (get_or d.columns []) y₂) after_3 y r₂ in
        let (y₄, e₄, r₄) =
          bind_some (run_sql sha256 now db (get_or d.post_sql "") y₃) after_4 y r₃ in
        inserted y₄ (is_applied x.schema_migrations d) (db.commits y₄) r₄
  ]
    where
      after_4 : D → Option (Database D)
      after_4 z =
          commit_row sha256 now db (is_applied x.schema_migrations d) (db.commits z)
            (record_of sha256 now db d) x.schema_migrations z

      after_3 : D → Option (Database D)
      after_3 z = run_sql sha256 now db (get_or d.post_sql "") z >>= after_4

      after_2 : D → Option (Database D)
      after_2 z = add_columns sha256 now db (get_or d.columns []) z >>= after_3

      after_1 : D → Option (Database D)
      after_1 z = run_sql sha256 now db d.sql z >>= after_2

      inserted :
          (z : D) (a b : Bool)
          → commit_row sha256 now db a b (record_of sha256 now db d) x.schema_migrations z ≡ some y
          → y.schema_migrations ≡ x.schema_migrations ++ record_of sha256 now db d ∷ []
      inserted z true b k = absurd (cc)
      inserted z false false k = absurd (cc)
      inserted z false true k = sym (ap (λ o. (get_or o x).schema_migrations) k)

  -- How the loop ends: all are applied, or all before the one that failed.
  abbrev pub Ended : List (MigrationDefinition D) → Database D → Database D × Option ℕ → Type 0
  Ended ds x (y, none) =
      y.schema_migrations ≡ x.schema_migrations ++ map (record_of sha256 now db) ds
  Ended ds x (y, some v) =
      (before : List (MigrationDefinition D)) × (d : MigrationDefinition D) × (after : List
        (MigrationDefinition D))
      × (ds ≡ before ++ d ∷ after)
      × (d.version ≡ v)
      × (apply_each sha256 now db before x ≡ (y, none))
      × (apply_migration sha256 now db d y ≡ none)

  Ended-next :
      (d : MigrationDefinition D) (ds : List (MigrationDefinition D)) (x y : Database D)
      (r : Database D × Option ℕ)
      → apply_migration sha256 now db d x ≡ some y
      → Ended ds y r
      → Ended (d ∷ ds) x r
  unfolding apply_each
  Ended-next d ds x y (z, none) e h =
      h
      ∙ (ap (λ k. k ++ map (record_of sha256 now db) ds) (apply_migration-records d x y e)
          ∙ append_assoc x.schema_migrations (record_of sha256 now db d ∷ [])
              (map (record_of sha256 now db) ds))
  Ended-next d ds x y (z, some v) e (before, f, after, same, version, ran, failed) = (
    d ∷ before,
    f,
    after,
    ap (λ k. d ∷ k) same,
    version,
    ap (apply_next sha256 now db (apply_each sha256 now db before) d x) e ∙ ran,
    failed,
  )

  pub apply_each-Ended :
      (ds : List (MigrationDefinition D)) (x : Database D)
      → Ended ds x (apply_each sha256 now db ds x)
  unfolding apply_each
  apply_each-Ended [] x = sym (append-nil x.schema_migrations)
  apply_each-Ended (d ∷ ds) x =
      by_attempt (λ y. apply_each-Ended ds y) (apply_migration sha256 now db d x) refl
    where
      by_attempt :
          ((y : Database D) → Ended ds y (apply_each sha256 now db ds y))
          → (o : Option (Database D)) → apply_migration sha256 now db d x ≡ o
          → Ended (d ∷ ds) x (apply_next sha256 now db (apply_each sha256 now db ds) d x o)
      by_attempt rest none e = ([], d, ds, refl, refl, refl, e)
      by_attempt rest (some y) e = Ended-next d ds x y (apply_each sha256 now db ds y) e (rest y)
