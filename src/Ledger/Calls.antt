-- ===== src/Ledger/Calls.antt =====
-- The appending methods that returned, taken apart: the file was trusted, the row was built, and
-- it went into its table.
use kraken_knight.Base.{
  ℕ, String, ◌≡◌, subst, not, some, List, arith, ledger_error, Result, ok, ◌>>=◌, raise_if,
  bind-cases, Strings,
}
use kraken_knight.Ledger.Tables.{write_once}
use kraken_knight.Ledger.Json.{Codec}
use kraken_knight.Ledger.Rows.{
  Decision, Intent, Snapshot, Database, decision_table, intent_table, snapshot_table, has_decision,
}
use kraken_knight.Ledger.Schema.{require_initialized}
use kraken_knight.Ledger.Appends.{
  DecisionRequest, IntentRequest, SnapshotRequest, decision_row, insert_decision,
  append_daily_decision, intent_row, insert_intent, append_order_intent, snapshot_row,
  insert_snapshot, append_reconciliation_snapshot,
}

module _ (strings : Strings) (codec : Codec) where
  -- What is inserted, and where: the three methods' last statement.
  abbrev pub known : Database → Intent → Result (Unit {0})
  known db row =
      raise_if (not (has_decision row.decision_id db.decisions))
        (ledger_error "order intent references an unknown decision")

  pub insert_decision-cases :
      (now : ℕ) (db db' : Database) (row : Decision) (id : String)
      → insert_decision strings codec now db row ≡ ok (db', id)
      → (rows : List Decision) × (write_once decision_table (ok tt) row db.decisions ≡ ok rows)
        × (db' ≡ record db { decisions = rows })
        × (id ≡ row.decision_id)
  unfolding insert_decision
  insert_decision-cases now db db' row id h =
      let (rows, e, g) =
        bind-cases (write_once decision_table (ok tt) row db.decisions) _ (db', id) h in
      (rows, e, cc, cc)

  pub insert_intent-cases :
      (now : ℕ) (db db' : Database) (row : Intent) (id : String)
      → insert_intent strings codec now db row ≡ ok (db', id)
      → (rows : List Intent) × (write_once intent_table (known db row) row db.intents ≡ ok rows)
        × (db' ≡ record db { intents = rows })
        × (id ≡ row.intent_id)
  unfolding insert_intent
  insert_intent-cases now db db' row id h =
      let (rows, e, g) =
        bind-cases (write_once intent_table (known db row) row db.intents) _ (db', id) h in
      (rows, e, cc, cc)

  pub insert_snapshot-cases :
      (now : ℕ) (db db' : Database) (row : Snapshot) (id : String)
      → insert_snapshot strings codec now db row ≡ ok (db', id)
      → (rows : List Snapshot) × (write_once snapshot_table (ok tt) row db.snapshots ≡ ok rows)
        × (db' ≡ record db { snapshots = rows })
        × (id ≡ row.snapshot_id)
  unfolding insert_snapshot
  insert_snapshot-cases now db db' row id h =
      let (rows, e, g) =
        bind-cases (write_once snapshot_table (ok tt) row db.snapshots) _ (db', id) h in
      (rows, e, cc, cc)

  -- The file that passed the test is the file that was handed in.
  pub require_initialized-same :
      (db db' : Database) → require_initialized strings codec (some db) ≡ ok db' → db' ≡ db
  unfolding require_initialized
  require_initialized-same db db' h = ground (arith, h)

  appended :
      {A : Type 0} (row : Result A) (insert : Database → A → Result (Database × String))
      (db db' : Database) (id : String)
      → (require_initialized strings codec (some db) >>= λ d. row >>= λ r. insert d r)
        ≡ ok (db', id)
      → (require_initialized strings codec (some db) ≡ ok db)
        × ((r : A) × (row ≡ ok r) × (insert db r ≡ ok (db', id)))
  appended row insert db db' id h =
      let (d, e, g) = bind-cases (require_initialized strings codec (some db)) _ (db', id) h in
      let (r, f, inserted) = bind-cases row (λ r. insert d r) (db', id) g in
      let same = require_initialized-same db d e in
      (
        subst (λ x. require_initialized strings codec (some db) ≡ ok x) same e,
        (r, f, subst (λ x. insert x r ≡ ok (db', id)) same inserted),
      )

  pub append_daily_decision-cases :
      (now : ℕ) (db db' : Database) (q : DecisionRequest) (id : String)
      → append_daily_decision strings codec now (some db) q ≡ ok (db', id)
      → (require_initialized strings codec (some db) ≡ ok db)
        × ((row : Decision) × (decision_row strings codec now q ≡ ok row)
            × (insert_decision strings codec now db row ≡ ok (db', id)))
  unfolding append_daily_decision
  append_daily_decision-cases now db db' q id h =
      appended (decision_row strings codec now q) (insert_decision strings codec now) db db' id h

  pub append_order_intent-cases :
      (now : ℕ) (db db' : Database) (q : IntentRequest) (id : String)
      → append_order_intent strings codec now (some db) q ≡ ok (db', id)
      → (require_initialized strings codec (some db) ≡ ok db)
        × ((row : Intent) × (intent_row strings codec now q ≡ ok row)
            × (insert_intent strings codec now db row ≡ ok (db', id)))
  unfolding append_order_intent
  append_order_intent-cases now db db' q id h =
      appended (intent_row strings codec now q) (insert_intent strings codec now) db db' id h

  pub append_reconciliation_snapshot-cases :
      (now : ℕ) (db db' : Database) (q : SnapshotRequest) (id : String)
      → append_reconciliation_snapshot strings codec now (some db) q ≡ ok (db', id)
      → (require_initialized strings codec (some db) ≡ ok db)
        × ((row : Snapshot) × (snapshot_row strings codec now q ≡ ok row)
            × (insert_snapshot strings codec now db row ≡ ok (db', id)))
  unfolding append_reconciliation_snapshot
  append_reconciliation_snapshot-cases now db db' q id h =
      appended (snapshot_row strings codec now q) (insert_snapshot strings codec now) db db' id h
