-- ===== src/Ledger/Rows.antt =====
-- The rows of the three tables, with the constraints of their schema and what the appending
-- methods compare; and the database file.
use kraken_knight.Base.{ℕ, String, Bool, Option, none, some, List, [], ◌∷◌, any, text_eq}
use kraken_knight.Ledger.Tables.{Cell, absent, integer, textual, Table}

-- `RunMode` of config.py
pub data RunMode : Type 0 where
  backtest paper shadow validate live : RunMode

abbrev pub run_mode_text : RunMode → String
run_mode_text backtest = "backtest"
run_mode_text paper = "paper"
run_mode_text shadow = "shadow"
run_mode_text validate = "validate"
run_mode_text live = "live"

pub record Decision : Type 0 where
  pub decision_id : String
  pub account_id : String
  pub strategy_id : String
  pub strategy_date : String
  pub configuration_hash : String
  pub input_data_hash : String
  pub run_mode : String
  pub pair : String
  pub outcome : String
  pub code_version : String
  pub details_json : String
  pub recorded_at_utc : String

pub record Intent : Type 0 where
  pub intent_id : String
  pub client_order_id : String
  pub decision_id : String
  pub intent_index : ℕ
  pub side : String
  pub order_type : String
  pub quantity : String
  pub limit_price : Option String
  pub time_in_force : String
  pub post_only : ℕ
  pub details_json : String
  pub recorded_at_utc : String

pub record Snapshot : Type 0 where
  pub snapshot_id : String
  pub account_id : String
  pub pair : String
  pub observed_at_utc : String
  pub status : String
  pub account_binding_hash : String
  pub account_binding_verified : ℕ
  pub source_data_hash : String
  pub report_json : String
  pub exchange_writes : ℕ
  pub recorded_at_utc : String

-- A database file. `quick_check` is what SQLite's own test answers of it, and `journal_mode` the
-- mode that SQLite has or takes on request.
pub record Database : Type 0 where
  pub schema_version : ℕ
  pub objects : List (String × String)
  pub quick_check : String
  pub journal_mode : String
  pub decisions : List Decision
  pub intents : List Intent
  pub snapshots : List Snapshot

abbrev decision_scope : Decision → List Cell
decision_scope r = textual r.account_id ∷ textual r.strategy_id ∷ textual r.strategy_date ∷ []

abbrev pub decision_table : Table Decision
decision_table = record {
  keys = λ r. (textual r.decision_id ∷ []) ∷ decision_scope r ∷ [];
  scope = decision_scope;
  content = λ r.
      textual r.decision_id
      ∷ textual r.configuration_hash
      ∷ textual r.input_data_hash
      ∷ textual r.outcome
      ∷ textual r.code_version
      ∷ textual r.details_json
      ∷ [];
  collision = "deterministic decision identity collision";
  different = "a different immutable decision already exists for this daily scope";
}

abbrev optional : Option String → Cell
optional none = absent
optional (some s) = textual s

abbrev pub intent_table : Table Intent
intent_table = record {
  keys = λ r.
      (textual r.intent_id ∷ [])
      ∷ (textual r.client_order_id ∷ [])
      ∷ (textual r.decision_id ∷ [])
      ∷ [];
  scope = λ r. textual r.decision_id ∷ [];
  content = λ r.
      textual r.intent_id
      ∷ textual r.client_order_id
      ∷ textual r.side
      ∷ textual r.order_type
      ∷ textual r.quantity
      ∷ optional r.limit_price
      ∷ textual r.time_in_force
      ∷ integer r.post_only
      ∷ textual r.details_json
      ∷ [];
  collision = "deterministic order-intent identity collision";
  different = "a different immutable order intent already exists for this decision";
}

abbrev snapshot_scope : Snapshot → List Cell
snapshot_scope r = textual r.account_id ∷ textual r.observed_at_utc ∷ []

abbrev pub snapshot_table : Table Snapshot
snapshot_table = record {
  keys = λ r. (textual r.snapshot_id ∷ []) ∷ snapshot_scope r ∷ [];
  scope = snapshot_scope;
  content = λ r.
      textual r.snapshot_id
      ∷ textual r.pair
      ∷ textual r.status
      ∷ textual r.account_binding_hash
      ∷ integer r.account_binding_verified
      ∷ textual r.source_data_hash
      ∷ textual r.report_json
      ∷ integer r.exchange_writes
      ∷ [];
  collision = "deterministic reconciliation identity collision";
  different = "a different immutable reconciliation already exists for this observation";
}

-- `REFERENCES daily_decisions(decision_id)`
abbrev pub has_decision : String → List Decision → Bool
has_decision id rows = any (λ (d : Decision). text_eq d.decision_id id) rows
