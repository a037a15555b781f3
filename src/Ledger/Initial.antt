-- ===== src/Ledger/Initial.antt =====
-- `initialize`: what it returns is trusted, and it is idempotent.
use kraken_knight.Base.{
  ℕ, String, ◌≡◌, refl, sym, ◌∙◌, subst, inl, inr, true, not, Option, some, ◌++◌, arith, ◌==◌,
  Bool-cases, ok, raise_if, bind-cases, text_eq, Strings,
}
use kraken_knight.Ledger.Json.{Codec}
use kraken_knight.Ledger.Rows.{Database}
use kraken_knight.Ledger.Schema.{
  expected_v2_sql, expected_v3_sql, schema_version_3, verify_integrity, has_orphan,
  verify_v2_schema, verify_schema, require_initialized,
}
use kraken_knight.Ledger.Trust.{IsTrusted}
use kraken_knight.Ledger.Store.{
  create_missing, is_migratable, opened, verify_before_migration, migrate, verify_current,
  initialize,
}

module _ (strings : Strings) (codec : Codec) where
  -- the tests of a file at the current version
  record IsCurrent (mode : String) (old db : Database) : Type 0 where
    version : db.schema_version ≡ schema_version_3
    verified : verify_schema strings codec db ≡ ok tt
    whole : verify_integrity strings db ≡ ok tt
    journal : db.journal_mode ≡ old.journal_mode
    decisions_kept : db.decisions ≡ old.decisions
    intents_kept : db.intents ≡ old.intents
    snapshots_kept : db.snapshots ≡ old.snapshots

  version_is_3 : (n : ℕ) → (n == schema_version_3) ≡ true → n ≡ schema_version_3
  version_is_3 n h = ground (arith, h)

  verify_current-IsCurrent :
      (mode : String) (old db : Database)
      → old.schema_version ≡ schema_version_3
      → verify_current strings codec old ≡ ok db
      → IsCurrent mode old db
  unfolding verify_current
  verify_current-IsCurrent mode old db v h =
      let (one, e, rest) = bind-cases (verify_schema strings codec old) _ db h in
      let (two, f, last) = bind-cases (verify_integrity strings old) _ db rest in
      let same : old ≡ db = cc in
      subst (IsCurrent mode old) same (record {
        version = v;
        verified = e;
        whole = f;
        journal = refl;
        decisions_kept = refl;
        intents_kept = refl;
        snapshots_kept = refl;
      })

  -- the tests do not read the version
  verify_schema-version :
      (db : Database) (n : ℕ)
      → verify_schema strings codec (record db { schema_version = n })
        ≡ verify_schema strings codec db
  unfolding verify_schema verify_v2_schema has_orphan
  verify_schema-version db n = refl

  verify_integrity-version :
      (db : Database) (n : ℕ)
      → verify_integrity strings (record db { schema_version = n }) ≡ verify_integrity strings db
  unfolding verify_integrity
  verify_integrity-version db n = refl

  migrate-IsCurrent :
      (mode : String) (old db : Database)
      → migrate strings codec old ≡ ok db
      → IsCurrent mode old db
  unfolding migrate
  migrate-IsCurrent mode old db h =
      let created = record old {
        objects = create_missing old.objects (expected_v2_sql ++ expected_v3_sql);
      } in
      let (zeroth, d, after) = bind-cases (verify_before_migration strings codec old) _ db h in
      let (one, e, rest) = bind-cases (verify_schema strings codec created) _ db after in
      let (two, f, last) = bind-cases (verify_integrity strings created) _ db rest in
      let same : record created { schema_version = schema_version_3 } ≡ db = cc in
      subst (IsCurrent mode old) same (record {
        version = refl;
        verified = verify_schema-version created schema_version_3 ∙ e;
        whole = verify_integrity-version created schema_version_3 ∙ f;
        journal = refl;
        decisions_kept = refl;
        intents_kept = refl;
        snapshots_kept = refl;
      })

  initialize-IsCurrent :
      (mode : String) (file : Option Database) (db : Database)
      → initialize strings codec mode file ≡ ok db
      → IsCurrent mode (opened mode file) db
        × (text_eq (strings.lower (opened mode file).journal_mode) "wal" ≡ true)
  unfolding initialize
  initialize-IsCurrent mode file db h =
      let old = opened mode file in
      let (one, e, rest) =
        bind-cases (raise_if (not (is_migratable old.schema_version)) _) _ db h in
      let (two, f, last) =
        bind-cases (raise_if (not (text_eq (strings.lower old.journal_mode) "wal")) _) _ db rest in
      let wal : text_eq (strings.lower old.journal_mode) "wal" ≡ true = ground (arith, f) in
      elim (Bool-cases (old.schema_version == schema_version_3)) [
        | inl three ↦ (
          verify_current-IsCurrent mode old db (version_is_3 old.schema_version three)
              (ground (arith, three, last)),
          wal,
        )
        | inr below ↦ (migrate-IsCurrent mode old db (ground (arith, below, last)), wal)
      ]

  verify_current-same :
      (db : Database)
      → verify_schema strings codec db ≡ ok tt
      → verify_integrity strings db ≡ ok tt
      → verify_current strings codec db ≡ ok db
  unfolding verify_current
  verify_current-same db verified whole = ground (arith, verified, whole)

  initialize-same :
      (mode : String) (db : Database)
      → db.schema_version ≡ schema_version_3
      → text_eq (strings.lower db.journal_mode) "wal" ≡ true
      → verify_current strings codec db ≡ ok db
      → initialize strings codec mode (some db) ≡ ok db
  unfolding initialize
  initialize-same mode db version wal current =
      let three : (db.schema_version == schema_version_3) ≡ true =
        subst (λ n. (n == schema_version_3) ≡ true) (sym version) refl in
      let migratable : is_migratable db.schema_version ≡ true =
        subst (λ n. is_migratable n ≡ true) (sym version) refl in
      rw (migratable, wal, three) current

  IsCurrent-IsTrusted :
      (db : Database)
      → db.schema_version ≡ schema_version_3
      → verify_schema strings codec db ≡ ok tt
      → IsTrusted strings codec db
  unfolding require_initialized
  IsCurrent-IsTrusted db version verified = ground (arith, version, verified)

  -- What `initialize` returns passes the test that every other call begins with, passes
  -- `initialize` again unchanged, and holds the rows that the file had, none if there was no file.
  pub initialize-IsTrusted :
      (mode : String) (file : Option Database) (db : Database)
      → initialize strings codec mode file ≡ ok db
      → IsTrusted strings codec db
        × (initialize strings codec mode (some db) ≡ ok db)
        × (db.decisions ≡ (opened mode file).decisions)
        × (db.intents ≡ (opened mode file).intents)
        × (db.snapshots ≡ (opened mode file).snapshots)
  initialize-IsTrusted mode file db h =
      let (c, wal) = initialize-IsCurrent mode file db h in
      (
        IsCurrent-IsTrusted db c.version c.verified,
        initialize-same mode db c.version
            (subst (λ m. text_eq (strings.lower m) "wal" ≡ true) (sym c.journal) wal)
            (verify_current-same db c.verified c.whole),
        c.decisions_kept,
        c.intents_kept,
        c.snapshots_kept,
      )
