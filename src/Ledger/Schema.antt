-- ===== src/Ledger/Schema.antt =====
-- The schema: the objects that a file must hold, as SQLite keeps their SQL, and the tests of it.
-- Texts of SQL are only compared with their white space collapsed, so they stand on one line here.
use kraken_knight.Base.{
  ℕ, String, Bool, true, false, ◌||◌, not, Option, none, some, List, [], ◌∷◌, ◌++◌, ◌==◌,
  if◌then◌else◌, is_none, any, Error, ledger_error, Result, ok, err, ◌>>◌, raise_if, text_eq,
  text_join, Strings,
}
use kraken_knight.Ledger.Json.{Codec}
use kraken_knight.Ledger.Rows.{Intent, Database, has_decision}
use kraken_knight.Ledger.Reports.{verify_reconciliation_rows}

abbrev lines : List String → String
lines [] = ""
lines (s ∷ rest) = text_join s (lines rest)

abbrev pub expected_v2_sql : List (String × String)
expected_v2_sql =
    (
      "daily_decisions",
      lines (
          "CREATE TABLE daily_decisions ( decision_id TEXT PRIMARY KEY, account_id TEXT "
          ∷ "NOT NULL, strategy_id TEXT NOT NULL, strategy_date TEXT NOT NULL, "
          ∷ "configuration_hash TEXT NOT NULL, input_data_hash TEXT NOT NULL, run_mode TEXT "
          ∷ "NOT NULL CHECK ( run_mode IN ('backtest', 'paper', 'shadow', 'validate', "
          ∷ "'live') ), pair TEXT NOT NULL, outcome TEXT NOT NULL, code_version TEXT NOT "
          ∷ "NULL, details_json TEXT NOT NULL, recorded_at_utc TEXT NOT NULL, UNIQUE "
          ∷ "(account_id, strategy_id, strategy_date) )" ∷ []),
    )
    ∷ (
      "daily_decisions_by_date",
      lines (
          "CREATE INDEX daily_decisions_by_date ON daily_decisions(strategy_date, "
          ∷ "strategy_id, account_id)" ∷ []),
    )
    ∷ (
      "daily_decisions_no_delete",
      lines (
          "CREATE TRIGGER daily_decisions_no_delete BEFORE DELETE ON daily_decisions "
          ∷ "BEGIN SELECT RAISE(ABORT, 'daily_decisions is immutable'); END" ∷ []),
    )
    ∷ (
      "daily_decisions_no_update",
      lines (
          "CREATE TRIGGER daily_decisions_no_update BEFORE UPDATE ON daily_decisions "
          ∷ "BEGIN SELECT RAISE(ABORT, 'daily_decisions is immutable'); END" ∷ []),
    )
    ∷ (
      "order_intents",
      lines (
          "CREATE TABLE order_intents ( intent_id TEXT PRIMARY KEY, client_order_id TEXT "
          ∷ "NOT NULL UNIQUE, decision_id TEXT NOT NULL REFERENCES "
          ∷ "daily_decisions(decision_id), intent_index INTEGER NOT NULL CHECK "
          ∷ "(intent_index = 0), side TEXT NOT NULL CHECK (side IN ('buy', 'sell')), "
          ∷ "order_type TEXT NOT NULL, quantity TEXT NOT NULL, limit_price TEXT, "
          ∷ "time_in_force TEXT NOT NULL, post_only INTEGER NOT NULL CHECK (post_only IN "
          ∷ "(0, 1)), details_json TEXT NOT NULL, recorded_at_utc TEXT NOT NULL, UNIQUE "
          ∷ "(decision_id) )" ∷ []),
    )
    ∷ (
      "order_intents_by_decision",
      lines (
          "CREATE INDEX order_intents_by_decision ON order_intents(decision_id, " ∷ "intent_index)"
          ∷ []),
    )
    ∷ (
      "order_intents_no_delete",
      lines (
          "CREATE TRIGGER order_intents_no_delete BEFORE DELETE ON order_intents BEGIN "
          ∷ "SELECT RAISE(ABORT, 'order_intents is immutable'); END" ∷ []),
    )
    ∷ (
      "order_intents_no_update",
      lines (
          "CREATE TRIGGER order_intents_no_update BEFORE UPDATE ON order_intents BEGIN "
          ∷ "SELECT RAISE(ABORT, 'order_intents is immutable'); END" ∷ []),
    )
    ∷ []

abbrev pub expected_v3_sql : List (String × String)
expected_v3_sql =
    (
      "reconciliation_snapshots",
      lines (
          "CREATE TABLE reconciliation_snapshots ( snapshot_id TEXT PRIMARY KEY, "
          ∷ "account_id TEXT NOT NULL, pair TEXT NOT NULL, observed_at_utc TEXT NOT NULL, "
          ∷ "status TEXT NOT NULL CHECK ( status IN ('CLEAN', 'DISARMED', 'UNRESOLVED') ), "
          ∷ "account_binding_hash TEXT NOT NULL, account_binding_verified INTEGER NOT NULL "
          ∷ "CHECK ( account_binding_verified IN (0, 1) ), source_data_hash TEXT NOT NULL, "
          ∷ "report_json TEXT NOT NULL, exchange_writes INTEGER NOT NULL CHECK "
          ∷ "(exchange_writes = 0), recorded_at_utc TEXT NOT NULL, UNIQUE (account_id, "
          ∷ "observed_at_utc) )" ∷ []),
    )
    ∷ (
      "reconciliation_snapshots_by_time",
      lines (
          "CREATE INDEX reconciliation_snapshots_by_time ON "
          ∷ "reconciliation_snapshots(observed_at_utc, account_id)" ∷ []),
    )
    ∷ (
      "reconciliation_snapshots_no_delete",
      lines (
          "CREATE TRIGGER reconciliation_snapshots_no_delete BEFORE DELETE ON "
          ∷ "reconciliation_snapshots BEGIN SELECT RAISE(ABORT, 'reconciliation_snapshots "
          ∷ "is immutable'); END" ∷ []),
    )
    ∷ (
      "reconciliation_snapshots_no_update",
      lines (
          "CREATE TRIGGER reconciliation_snapshots_no_update BEFORE UPDATE ON "
          ∷ "reconciliation_snapshots BEGIN SELECT RAISE(ABORT, 'reconciliation_snapshots "
          ∷ "is immutable'); END" ∷ []),
    )
    ∷ []

abbrev pub schema_version_3 : ℕ
schema_version_3 = 3

-- `mapping.get(name)` and `name in mapping`
abbrev pub find_object : String → List (String × String) → Option String
find_object name [] = none
find_object name ((n, sql) ∷ rest) = if text_eq n name then some sql else find_object name rest

abbrev pub has_object : List (String × String) → String × String → Bool
has_object objects (name, sql) = not (is_none (find_object name objects))

-- `set(objects) != set(expected)`, of names
unfoldable pub verify_object_names :
    List (String × String) → List (String × String) → Result (Unit {0})
verify_object_names objects expected =
    raise_if
      (any (λ o. not (has_object expected o)) objects
        || any (λ o. not (has_object objects o)) expected)
      (ledger_error "ledger schema contains missing or unexpected objects")

unfoldable pub verify_integrity : Strings → Database → Result (Unit {0})
verify_integrity strings db =
    raise_if (not (text_eq (strings.lower db.quick_check) "ok"))
      (ledger_error "ledger failed SQLite integrity verification")

-- `PRAGMA foreign_key_check` returns a row
unfoldable pub has_orphan : Database → Bool
has_orphan db = any (λ (i : Intent). not (has_decision i.decision_id db.decisions)) db.intents

module _ (strings : Strings) where
  unfoldable pub normalized_sql : String → String
  normalized_sql value = strings.lower (strings.collapse value)

  unfoldable pub differs : Option String → String → Bool
  unfolding normalized_sql
  differs none expected = true
  differs (some actual) expected = not (text_eq (normalized_sql actual) (normalized_sql expected))

  unfoldable pub verify_exact_objects :
      List (String × String) → List (String × String) → Result (Unit {0})
  unfolding differs
  verify_exact_objects objects [] = ok tt
  verify_exact_objects objects ((name, sql) ∷ rest) =
      raise_if (differs (find_object name objects) sql)
        (ledger_error (text_join "ledger schema object " (text_join name " is incompatible")))
      >> verify_exact_objects objects rest

  unfoldable pub verify_v2_schema : Bool → Database → Result (Unit {0})
  unfolding verify_object_names has_orphan verify_exact_objects
  verify_v2_schema exact db = do
    verify_exact_objects db.objects expected_v2_sql
    if exact then verify_object_names db.objects expected_v2_sql else ok tt
    raise_if (has_orphan db) (ledger_error "ledger schema has a foreign-key integrity failure")

  unfoldable pub verify_schema : Codec → Database → Result (Unit {0})
  unfolding verify_v2_schema verify_object_names verify_exact_objects
  verify_schema codec db = do
    verify_v2_schema false db
    verify_exact_objects db.objects expected_v3_sql
    verify_object_names db.objects (expected_v2_sql ++ expected_v3_sql)
    verify_reconciliation_rows strings codec db.snapshots

  unfoldable pub unsupported : ℕ → Error
  unsupported version = ledger_error (
      text_join "ledger schema version "
        (text_join (strings.of_ℕ version) " requires initialization/migration to version 3"))

  -- `_require_initialized`: the file, when it is there and trusted
  unfoldable pub require_initialized : Codec → Option Database → Result Database
  unfolding verify_schema unsupported
  require_initialized codec none = err (ledger_error "ledger is not initialized")
  require_initialized codec (some db) = do
    raise_if (not (db.schema_version == schema_version_3)) (unsupported db.schema_version)
    verify_schema codec db
    ok db
