-- ===== src/Ledger/Store.antt =====
-- `initialize`, and the two methods that read.
use text.Mathlib.Text.{is_lt}
use Prim.Native.String.{compare}
use kraken_knight.Base.{
  ℕ, String, Bool, true, ◌&&◌, ◌||◌, not, Option, none, some, List, [], ◌∷◌, ◌++◌, ◌==◌,
  if◌then◌else◌, length, ledger_error, Result, ok, ◌>>=◌, ◌>>◌, raise_if, text_eq, one_of,
  text_join, Strings,
}
use kraken_knight.Ledger.Json.{Codec}
use kraken_knight.Ledger.Rows.{Decision, Snapshot, Database}
use kraken_knight.Ledger.Schema.{
  expected_v2_sql, expected_v3_sql, schema_version_3, has_object, verify_integrity,
  verify_v2_schema, verify_schema, unsupported, require_initialized,
}
use kraken_knight.Ledger.Reports.{require_nonempty}

-- The file that SQLite creates, with the mode that it takes when it is asked for WAL.
abbrev pub empty_file : String → Database
empty_file mode = record {
  schema_version = 0;
  objects = [];
  quick_check = "ok";
  journal_mode = mode;
  decisions = [];
  intents = [];
  snapshots = [];
}

-- `CREATE ... IF NOT EXISTS` of each object
abbrev pub create_missing : List (String × String) → List (String × String) → List (String × String)
create_missing objects [] = objects
create_missing objects (o ∷ rest) =
    create_missing (if has_object objects o then objects else objects ++ o ∷ []) rest

abbrev pub is_migratable : ℕ → Bool
is_migratable version = version == 0 || version == 2 || version == schema_version_3

-- `ORDER BY a DESC, b DESC LIMIT 1`; of equal rows SQLite may give either, here the first
abbrev pub latest_row {ℓ} : {A : Type ℓ} → (A → String) → (A → String) → List A → Option A
latest_row a b [] = none
latest_row a b (x ∷ xs) = elim (latest_row a b xs) [
  | none ↦ some x
  | some y ↦
      if is_lt (compare (a x) (a y)) || (text_eq (a x) (a y) && is_lt (compare (b x) (b y)))
      then some y
      else some x
]

-- The summary of `status`; of the two latest rows it shows some of the columns.
pub record Summary : Type 0 where
  pub integrity : String
  pub journal_mode : Option String
  pub schema_version : Option ℕ
  pub decision_count : ℕ
  pub intent_count : ℕ
  pub reconciliation_count : ℕ
  pub latest_decision : Option Decision
  pub latest_reconciliation : Option Snapshot

-- the file when there is none
abbrev pub opened : String → Option Database → Database
opened mode none = empty_file mode
opened mode (some db) = db

module _ (strings : Strings) (codec : Codec) where
  -- the test before the script, of a version below 3
  unfoldable pub verify_before_migration : Database → Result (Unit {0})
  verify_before_migration db =
      if db.schema_version == 2
      then verify_v2_schema strings true db
      else raise_if (not (length db.objects == 0))
          (ledger_error "unversioned ledger contains unexpected schema objects")

  unfoldable pub migrate : Database → Result Database
  unfolding verify_before_migration
  migrate db = do
    verify_before_migration db
    let created = record db {
      objects = create_missing db.objects (expected_v2_sql ++ expected_v3_sql);
    }
    verify_schema strings codec created
    verify_integrity strings created
    ok (record created { schema_version = schema_version_3 })

  unfoldable pub verify_current : Database → Result Database
  verify_current db = do verify_schema strings codec db; verify_integrity strings db; ok db

  -- `initialize`; an exception leaves the tables as they were
  unfoldable pub initialize : String → Option Database → Result Database
  unfolding migrate verify_current
  initialize mode file = do
    let db = opened mode file
    raise_if (not (is_migratable db.schema_version)) (
        ledger_error (
          text_join "unsupported ledger schema version "
            (text_join (strings.of_ℕ db.schema_version) "; expected 3")))
    raise_if (not (text_eq (strings.lower db.journal_mode) "wal"))
        (ledger_error "SQLite did not enable WAL journal mode")
    if db.schema_version == schema_version_3 then verify_current db else migrate db

  unfoldable pub status : Option Database → Result Summary
  status none = ok (record {
    integrity = "not_initialized";
    journal_mode = none;
    schema_version = none;
    decision_count = 0;
    intent_count = 0;
    reconciliation_count = 0;
    latest_decision = none;
    latest_reconciliation = none;
  })
  status (some db) = do
    raise_if (not (db.schema_version == schema_version_3)) (unsupported strings db.schema_version)
    verify_schema strings codec db
    verify_integrity strings db
    ok (record {
      integrity = "ok";
      journal_mode = some (strings.lower db.journal_mode);
      schema_version = some db.schema_version;
      decision_count = length db.decisions;
      intent_count = length db.intents;
      reconciliation_count = length db.snapshots;
      latest_decision =
          latest_row (λ (r : Decision). r.strategy_date) (λ r. r.recorded_at_utc) db.decisions;
      latest_reconciliation =
          latest_row (λ (r : Snapshot). r.observed_at_utc) (λ r. r.recorded_at_utc) db.snapshots;
    })

  -- `SELECT DISTINCT account_binding_hash`
  unfoldable pub bindings_of : String → List Snapshot → List String
  bindings_of account [] = []
  bindings_of account (r ∷ rows) =
      let rest = bindings_of account rows in
      if text_eq r.account_id account
        && r.account_binding_verified == 1
        && not (one_of r.account_binding_hash rest)
      then r.account_binding_hash ∷ rest
      else rest

  unfoldable pub reconciliation_binding_hashes : Option Database → String → Result (List String)
  unfolding bindings_of
  reconciliation_binding_hashes file account = do
    db ← require_initialized strings codec file
    require_nonempty strings account "account_id"
    ok (bindings_of account db.snapshots)
