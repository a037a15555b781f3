-- ===== src/Ledger/Appends.antt =====
-- The three appending methods: their checks, the deterministic identities, and one insertion.
use kraken_knight.Base.{
  ℕ, zero, suc, String, Bool, ◌&&◌, not, Option, none, some, [], ◌∷◌, ◌==◌, if◌then◌else◌,
  value_error, ledger_error, Result, ok, err, ◌>>=◌, ◌>>◌, raise_if, text_eq, one_of, text_join,
  Strings,
}
use kraken_knight.Decimals.{Decimal, of_ℕ, le}
use kraken_knight.Domain.{Number, to_decimal, Datetime}
use kraken_knight.Ledger.Json.{
  Json, boolean, number, text, object, Fields, end, Codec, entry, canonical_json, sha256_json,
  utc_timestamp, assert_safe_details,
}
use kraken_knight.Ledger.Tables.{write_once}
use kraken_knight.Ledger.Rows.{
  RunMode, run_mode_text, Decision, Intent, Snapshot, Database, decision_table, intent_table,
  snapshot_table, has_decision,
}
use kraken_knight.Ledger.Reports.{
  reconciliation_statuses, verify_reconciliation_report, snapshot_identity, require_nonempty,
  require_sha256,
}
use kraken_knight.Ledger.Schema.{require_initialized}

-- The keyword arguments of `append_daily_decision`; a date is counted in days.
pub record DecisionRequest : Type 0 where
  pub account_id : String
  pub strategy_id : String
  pub strategy_date : ℕ
  pub configuration_hash : String
  pub input_data_hash : String
  pub run_mode : RunMode
  pub pair : String
  pub outcome : String
  pub code_version : String
  pub details : Option Fields
  pub recorded_at : Option Datetime

-- Those of `append_order_intent`; the index is a natural number.
pub record IntentRequest : Type 0 where
  pub decision_id : String
  pub intent_index : ℕ
  pub side : String
  pub order_type : String
  pub quantity : Number
  pub limit_price : Option Number
  pub time_in_force : String
  pub post_only : Bool
  pub details : Option Fields
  pub recorded_at : Option Datetime

-- Those of `append_reconciliation_snapshot`.
pub record SnapshotRequest : Type 0 where
  pub account_id : String
  pub pair : String
  pub observed_at : Datetime
  pub status : String
  pub account_binding_hash : String
  pub account_binding_verified : Bool
  pub source_data_hash : String
  pub report : Fields
  pub exchange_writes : Bool
  pub recorded_at : Option Datetime

-- `text[:n]`
abbrev pub take_text : ℕ → String → String
take_text zero s = ""
take_text (suc n) String.[] = ""
take_text (suc n) (String.◌∷◌ c s) = String.◌∷◌ c (take_text n s)

abbrev pub fields_or_empty : Option Fields → Fields
fields_or_empty none = end
fields_or_empty (some fields) = fields

abbrev int_of_bool : Bool → ℕ
int_of_bool b = if b then 1 else 0

-- `to_decimal(value, field=name)`, which must be above zero
unfoldable pub positive : Number → String → Result Decimal
positive value name = do
  d ← to_decimal value name
  raise_if (le d (of_ℕ 0)) (value_error (text_join name " must be greater than zero"))
  ok d

unfoldable pub required_price : Option Number → Result Decimal
unfolding positive
required_price none = err (value_error "limit_price is required for a bounded limit order")
required_price (some price) = positive price "limit_price"

module _ (strings : Strings) (codec : Codec) (now : ℕ) where
  -- `_assert_safe_details` and `canonical_json_bytes` of the details
  unfoldable pub safe_json : Option Fields → Result String
  safe_json details = do
    assert_safe_details strings (object (fields_or_empty details)) "details"
    canonical_json codec (object (fields_or_empty details))

  unfoldable pub decision_identity : DecisionRequest → Json
  decision_identity q = object (
      entry "account_id" (text q.account_id) (
        entry "configuration_hash" (text (strings.lower q.configuration_hash)) (
          entry "input_data_hash" (text (strings.lower q.input_data_hash)) (
            entry "pair" (text q.pair) (
              entry "run_mode" (text (run_mode_text q.run_mode)) (
                entry "strategy_date" (text (codec.date_text q.strategy_date))
                  (entry "strategy_id" (text q.strategy_id) end)))))))

  -- the checks of `append_daily_decision` and the row that it inserts
  unfoldable pub decision_row : DecisionRequest → Result Decision
  unfolding safe_json decision_identity
  decision_row q = do
    require_nonempty strings q.account_id "account_id"
    require_nonempty strings q.strategy_id "strategy_id"
    require_sha256 strings q.configuration_hash "configuration_hash"
    require_sha256 strings q.input_data_hash "input_data_hash"
    require_nonempty strings q.pair "pair"
    require_nonempty strings q.outcome "outcome"
    require_nonempty strings q.code_version "code_version"
    details ← safe_json q.details
    digest ← sha256_json codec (decision_identity q)
    recorded ← utc_timestamp codec now q.recorded_at
    ok (record {
      decision_id = text_join "decision_" digest;
      account_id = q.account_id;
      strategy_id = q.strategy_id;
      strategy_date = codec.date_text q.strategy_date;
      configuration_hash = strings.lower q.configuration_hash;
      input_data_hash = strings.lower q.input_data_hash;
      run_mode = run_mode_text q.run_mode;
      pair = q.pair;
      outcome = q.outcome;
      code_version = q.code_version;
      details_json = details;
      recorded_at_utc = recorded;
    })

  -- A row as the database takes it, and its identifier.
  unfoldable pub insert_decision : Database → Decision → Result (Database × String)
  insert_decision db row = do
    rows ← write_once decision_table (ok tt) row db.decisions
    ok (record db { decisions = rows }, row.decision_id)

  unfoldable pub append_daily_decision :
      Option Database → DecisionRequest → Result (Database × String)
  unfolding decision_row insert_decision
  append_daily_decision file q = do
    db ← require_initialized strings codec file
    row ← decision_row q
    insert_decision db row

  unfoldable pub intent_identity :
      IntentRequest → (price quantity : Decimal) (order_type side tif : String) → Json
  intent_identity q price quantity order_type side tif = object (
      entry "decision_id" (text q.decision_id) (
        entry "intent_index" (number (of_ℕ q.intent_index)) (
          entry "limit_price" (text (codec.decimal_text price)) (
            entry "order_type" (text order_type) (
              entry "post_only" (boolean q.post_only) (
                entry "quantity" (text (codec.decimal_text quantity))
                  (entry "side" (text side) (entry "time_in_force" (text tif) end))))))))

  unfoldable pub intent_row : IntentRequest → Result Intent
  unfolding safe_json intent_identity positive required_price
  intent_row q = do
    require_nonempty strings q.decision_id "decision_id"
    raise_if (not (q.intent_index == 0))
        (value_error "V1 permits exactly one economic intent at index 0")
    let side = strings.lower (strings.strip q.side)
    raise_if (not (one_of side ("buy" ∷ "sell" ∷ []))) (value_error "side must be buy or sell")
    require_nonempty strings q.order_type "order_type"
    let order_type = strings.lower (strings.strip q.order_type)
    raise_if (not (text_eq order_type "limit"))
        (value_error "V1 order intents must use bounded limit orders")
    quantity ← positive q.quantity "quantity"
    price ← required_price q.limit_price
    require_nonempty strings q.time_in_force "time_in_force"
    let tif = strings.upper (strings.strip q.time_in_force)
    raise_if (not (one_of tif ("GTC" ∷ "IOC" ∷ [])))
        (value_error "time_in_force must be GTC or IOC")
    raise_if (q.post_only && not (text_eq tif "GTC"))
        (value_error "post-only order intents must use GTC")
    details ← safe_json q.details
    digest ← sha256_json codec (intent_identity q price quantity order_type side tif)
    recorded ← utc_timestamp codec now q.recorded_at
    ok (record {
      intent_id = text_join "intent_" digest;
      client_order_id = text_join "kk" (take_text 16 digest);
      decision_id = q.decision_id;
      intent_index = q.intent_index;
      side = side;
      order_type = order_type;
      quantity = codec.decimal_text quantity;
      limit_price = some (codec.decimal_text price);
      time_in_force = tif;
      post_only = int_of_bool q.post_only;
      details_json = details;
      recorded_at_utc = recorded;
    })

  unfoldable pub insert_intent : Database → Intent → Result (Database × String)
  insert_intent db row = do
    rows ←
        write_once intent_table
          (raise_if (not (has_decision row.decision_id db.decisions))
            (ledger_error "order intent references an unknown decision"))
          row db.intents
    ok (record db { intents = rows }, row.intent_id)

  unfoldable pub append_order_intent : Option Database → IntentRequest → Result (Database × String)
  unfolding intent_row insert_intent
  append_order_intent file q = do
    db ← require_initialized strings codec file
    row ← intent_row q
    insert_intent db row

  unfoldable pub snapshot_row : SnapshotRequest → Result Snapshot
  snapshot_row q = do
    require_nonempty strings q.account_id "account_id"
    require_nonempty strings q.pair "pair"
    let status = strings.upper (strings.strip q.status)
    raise_if (not (one_of status reconciliation_statuses))
        (value_error "status must be one of: CLEAN, DISARMED, UNRESOLVED")
    require_sha256 strings q.account_binding_hash "account_binding_hash"
    require_sha256 strings q.source_data_hash "source_data_hash"
    raise_if q.exchange_writes
        (value_error "reconciliation snapshots cannot record exchange writes")
    observed ← utc_timestamp codec now (some q.observed_at)
    let binding = strings.lower q.account_binding_hash
    let source = strings.lower q.source_data_hash
    assert_safe_details strings (object q.report) "report"
    verify_reconciliation_report codec q.report binding q.account_binding_verified q.account_id
        q.pair source status
    report ← canonical_json codec (object q.report)
    report_hash ← sha256_json codec (object q.report)
    digest ← sha256_json codec (
        snapshot_identity binding q.account_binding_verified q.account_id observed q.pair
          report_hash source status)
    recorded ← utc_timestamp codec now q.recorded_at
    ok (record {
      snapshot_id = text_join "reconciliation_" digest;
      account_id = q.account_id;
      pair = q.pair;
      observed_at_utc = observed;
      status = status;
      account_binding_hash = binding;
      account_binding_verified = int_of_bool q.account_binding_verified;
      source_data_hash = source;
      report_json = report;
      exchange_writes = 0;
      recorded_at_utc = recorded;
    })

  unfoldable pub insert_snapshot : Database → Snapshot → Result (Database × String)
  insert_snapshot db row = do
    rows ← write_once snapshot_table (ok tt) row db.snapshots
    ok (record db { snapshots = rows }, row.snapshot_id)

  unfoldable pub append_reconciliation_snapshot :
      Option Database → SnapshotRequest → Result (Database × String)
  unfolding snapshot_row insert_snapshot
  append_reconciliation_snapshot file q = do
    db ← require_initialized strings codec file
    row ← snapshot_row q
    insert_snapshot db row
