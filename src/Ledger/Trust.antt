-- ===== src/Ledger/Trust.antt =====
-- A file stays trusted: what an appending call leaves passes the test of the next call.
use kraken_knight.Base.{
  ℕ, String, ◌≡◌, refl, sym, ap, subst, false, Option, none, some, arith, ledger_conflict, ok, err,
  Strings,
}
use kraken_knight.Domain.{Datetime}
use kraken_knight.Ledger.Json.{Codec, utc_timestamp}
use kraken_knight.Ledger.Rows.{
  Decision, Intent, Database, decision_table, intent_table, snapshot_table,
}
use kraken_knight.Ledger.Reports.{verify_reconciliation_rows}
use kraken_knight.Ledger.Schema.{has_orphan, verify_v2_schema, verify_schema, require_initialized}
use kraken_knight.Ledger.Constraints.{decision-referenced, intent-referenced}
use kraken_knight.Ledger.Calls.{
  known, insert_decision-cases, insert_intent-cases, append_daily_decision-cases,
  append_order_intent-cases,
}
use kraken_knight.Ledger.Appends.{
  DecisionRequest, IntentRequest, safe_json, decision_identity, decision_row, insert_decision,
  append_daily_decision, intent_identity, intent_row, insert_intent, append_order_intent,
}
use kraken_knight.Ledger.Refinement.{
  put_once, IsScoped, view, write_once-put_once, write_once-different, write_once-retry,
}

decision_table-IsScoped : IsScoped decision_table
decision_table-IsScoped a b h = ground (arith, h)

intent_table-IsScoped : IsScoped intent_table
intent_table-IsScoped a b h = ground (arith, h)

snapshot_table-IsScoped : IsScoped snapshot_table
snapshot_table-IsScoped a b h = ground (arith, h)

module _ (strings : Strings) (codec : Codec) where
  abbrev pub IsTrusted : Database → Type 0
  IsTrusted db = require_initialized strings codec (some db) ≡ ok db

  pub IsTrusted-rows :
      (db : Database) → IsTrusted db → verify_reconciliation_rows strings codec db.snapshots ≡ ok tt
  unfolding require_initialized verify_schema
  IsTrusted-rows db h = ground (arith, h)

  pub IsTrusted-referenced : (db : Database) → IsTrusted db → has_orphan db ≡ false
  unfolding require_initialized verify_schema verify_v2_schema
  IsTrusted-referenced db h = ground (arith, h)

  pub IsTrusted-transfer :
      (db db' : Database)
      → db'.schema_version ≡ db.schema_version
      → db'.objects ≡ db.objects
      → has_orphan db' ≡ false
      → verify_reconciliation_rows strings codec db'.snapshots ≡ ok tt
      → IsTrusted db
      → IsTrusted db'
  unfolding require_initialized verify_schema verify_v2_schema
  IsTrusted-transfer db db' version objects orphan rows h = ground (arith, h)

  decision-IsTrusted :
      (now : ℕ) (db db' : Database) (row : Decision) (id : String)
      → insert_decision strings codec now db row ≡ ok (db', id)
      → IsTrusted db
      → IsTrusted db'
  unfolding has_orphan
  decision-IsTrusted now db db' row id h trusted =
      let (rows, e, same, named) = insert_decision-cases strings codec now db db' row id h in
      subst IsTrusted (sym same) (
        IsTrusted-transfer db (record db { decisions = rows }) refl refl
          (decision-referenced strings codec db row rows e (IsTrusted-referenced db trusted))
          (IsTrusted-rows db trusted) trusted)

  intent-IsTrusted :
      (now : ℕ) (db db' : Database) (row : Intent) (id : String)
      → insert_intent strings codec now db row ≡ ok (db', id)
      → IsTrusted db
      → IsTrusted db'
  unfolding has_orphan
  intent-IsTrusted now db db' row id h trusted =
      let (rows, e, same, named) = insert_intent-cases strings codec now db db' row id h in
      subst IsTrusted (sym same) (
        IsTrusted-transfer db (record db { intents = rows }) refl refl
          (intent-referenced strings codec db row rows e (IsTrusted-referenced db trusted))
          (IsTrusted-rows db trusted) trusted)

  -- the row of the same request at another time
  decision_row-again :
      (now later : ℕ) (q : DecisionRequest) (at : Option Datetime) (stamp : String) (row : Decision)
      → utc_timestamp codec later at ≡ ok stamp
      → decision_row strings codec now q ≡ ok row
      → decision_row strings codec later (record q { recorded_at = at })
        ≡ ok (record row { recorded_at_utc = stamp })
  unfolding decision_row decision_identity safe_json
  decision_row-again now later q at stamp row e h = ground (arith, e, h)

  intent_row-again :
      (now later : ℕ) (q : IntentRequest) (at : Option Datetime) (stamp : String) (row : Intent)
      → utc_timestamp codec later at ≡ ok stamp
      → intent_row strings codec now q ≡ ok row
      → intent_row strings codec later (record q { recorded_at = at })
        ≡ ok (record row { recorded_at_utc = stamp })
  unfolding intent_row intent_identity safe_json
  intent_row-again now later q at stamp row e h = ground (arith, e, h)

  -- A decision that was appended can be appended again, at any later time and with any time of
  -- recording: the call returns the same identifier and leaves the file as it is.
  pub append_daily_decision-retry :
      (now later : ℕ) (db db' : Database) (q : DecisionRequest) (id : String) (at : Option Datetime)
      (stamp : String)
      → append_daily_decision strings codec now (some db) q ≡ ok (db', id)
      → utc_timestamp codec later at ≡ ok stamp
      → append_daily_decision strings codec later (some db') (record q { recorded_at = at })
        ≡ ok (db', id)
  unfolding append_daily_decision insert_decision
  append_daily_decision-retry now later db db' q id at stamp h e =
      let (trusted, (row, built, inserted)) =
        append_daily_decision-cases strings codec now db db' q id h in
      let (rows, w, same, named) = insert_decision-cases strings codec now db db' row id inserted in
      let trusted' = decision-IsTrusted now db db' row id inserted trusted in
      let built' = decision_row-again now later q at stamp row e built in
      let stored : db'.decisions ≡ rows = ap (λ (d : Database). d.decisions) same in
      let again =
        write_once-retry decision_table decision_table-IsScoped (ok tt) (ok tt) row
          (record row { recorded_at_utc = stamp }) db.decisions rows refl refl w in
      ground (arith, trusted', built', again, stored, same, named)

  -- The same of an order intent.
  append_order_intent-retry :
      (now later : ℕ) (db db' : Database) (q : IntentRequest) (id : String) (at : Option Datetime)
      (stamp : String)
      → append_order_intent strings codec now (some db) q ≡ ok (db', id)
      → utc_timestamp codec later at ≡ ok stamp
      → append_order_intent strings codec later (some db') (record q { recorded_at = at })
        ≡ ok (db', id)
  unfolding append_order_intent insert_intent
  append_order_intent-retry now later db db' q id at stamp h e =
      let (trusted, (row, built, inserted)) =
        append_order_intent-cases strings codec now db db' q id h in
      let (rows, w, same, named) = insert_intent-cases strings codec now db db' row id inserted in
      let trusted' = intent-IsTrusted now db db' row id inserted trusted in
      let built' = intent_row-again now later q at stamp row e built in
      let stored : db'.intents ≡ rows = ap (λ (d : Database). d.intents) same in
      let again =
        write_once-retry intent_table intent_table-IsScoped (known strings codec db row)
          (known strings codec db' row) row (record row { recorded_at_utc = stamp }) db.intents rows
          refl refl w in
      ground (arith, trusted', built', again, stored, same, named)

  -- The table of decisions refines a map that is written once. The map sends an account, a strategy
  -- and a date to the immutable columns. When the call returns, the file's map after it is the
  -- one before it with the request's columns put at the request's key.
  pub append_daily_decision_refines :
      (now : ℕ) (db db' : Database) (q : DecisionRequest) (id : String)
      → append_daily_decision strings codec now (some db) q ≡ ok (db', id)
      → (row : Decision) × (decision_row strings codec now q ≡ ok row)
        × (put_once
              (view decision_table db.decisions)
              (decision_table.scope row)
              (decision_table.content row)
            ≡ some (view decision_table db'.decisions))
  append_daily_decision_refines now db db' q id h =
      let (trusted, (row, built, inserted)) =
        append_daily_decision-cases strings codec now db db' q id h in
      let (rows, w, same, named) = insert_decision-cases strings codec now db db' row id inserted in
      let refined =
        write_once-put_once decision_table decision_table-IsScoped (ok tt) row db.decisions rows
          w in
      (
        row,
        built,
        subst
            (λ (d : Database).
              put_once (view decision_table db.decisions) (decision_table.scope row)
                (decision_table.content row)
              ≡ some (view decision_table d.decisions))
            (sym same) refined,
      )

  -- An order intent that passes its checks is refused with a conflict if its decision already has
  -- an intent that differs from it in an immutable column, the identifiers included.
  pub append_order_intent_conflict :
      (now : ℕ) (db : Database) (q : IntentRequest) (row : Intent)
      → IsTrusted db
      → intent_row strings codec now q ≡ ok row
      → put_once (view intent_table db.intents) (intent_table.scope row) (intent_table.content row)
        ≡ none
      → append_order_intent strings codec now (some db) q
        ≡ err
            (ledger_conflict "a different immutable order intent already exists for this decision")
  unfolding append_order_intent insert_intent
  append_order_intent_conflict now db q row trusted built refused =
      let different =
        write_once-different intent_table intent_table-IsScoped (known strings codec db row) row
          db.intents refused in
      ground (arith, trusted, built, different)
