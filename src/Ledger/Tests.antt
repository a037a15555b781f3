-- ===== src/Ledger/Tests.antt =====
-- The ledger on concrete requests, and each theorem applied to them. The codec writes every JSON
-- value as the same text and reads that text as one report, which is what the theorems ask of it.
use kraken_knight.Base.{
  String, ◌≡◌, refl, ◌↔◌, true, false, none, some, [], ◌∷◌, ◌++◌, arith, pos, ledger_conflict, ok,
  err, text_join, Strings,
}
use kraken_knight.Decimals.{of_ℕ, arithmetic}
use kraken_knight.Domain.{finite, to_decimal, zoned, require_utc}
use kraken_knight.Ledger.Trust.{
  IsTrusted, append_daily_decision-retry, append_daily_decision_refines,
  append_order_intent_conflict,
}
use kraken_knight.Ledger.Tables.{write_once}
use kraken_knight.Ledger.Refinement.{put_once, view}
use kraken_knight.Ledger.Constraints.{IsSound}
use kraken_knight.Ledger.Invariant.{
  IsAppended, decided, intended, observed, Reach, here, next, Reach-IsSound, Reach-IsAppended,
}
use kraken_knight.Ledger.Recheck.{
  Reads, verify_row_stored, append_reconciliation_snapshot-IsTrusted,
}
use kraken_knight.Ledger.Secrets.{IsClean, assert_safe_details_iff}
use kraken_knight.Ledger.Initial.{initialize-IsTrusted}
use kraken_knight.Ledger.Json.{
  boolean, text, object, Fields, end, Codec, entry, get, is_text, is_boolean, canonical_json,
  sha256_json, utc_timestamp, is_secret_key, is_secret_value, assert_safe_details,
}
use kraken_knight.Ledger.Rows.{
  paper, Decision, Intent, Snapshot, Database, decision_table, intent_table,
}
use kraken_knight.Ledger.Reports.{
  agrees, verify_evidence, verify_reconciliation_report, snapshot_identity, before_z,
  require_nonempty, require_sha256, verify_row, verify_reconciliation_rows,
}
use kraken_knight.Ledger.Schema.{
  expected_v2_sql, expected_v3_sql, verify_object_names, verify_integrity, has_orphan,
  normalized_sql, differs, verify_exact_objects, verify_v2_schema, verify_schema,
  require_initialized,
}
use kraken_knight.Ledger.Appends.{
  DecisionRequest, IntentRequest, SnapshotRequest, positive, required_price, safe_json,
  decision_identity, decision_row, insert_decision, append_daily_decision, intent_identity,
  intent_row, insert_intent, append_order_intent, snapshot_row, insert_snapshot,
  append_reconciliation_snapshot,
}
use kraken_knight.Ledger.Store.{empty_file, verify_before_migration, migrate, initialize}

-- texts that stay as they are
abbrev plain : Strings
plain = record {
  strip = λ s. s;
  lower = λ s. s;
  upper = λ s. s;
  replace_dashes = λ s. s;
  collapse = λ s. s;
  of_ℕ = λ n. "0";
}

abbrev digest : String
digest = "0123456789abcdef0123456789abcdef0123456789abcdef0123456789abcdef"

abbrev report : Fields
report = entry "account_binding_hash" (text digest) (
    entry "account_binding_verified" (boolean true) (
      entry "account_id" (text "alice") (
        entry "evidence" (object end) (
          entry "exchange_writes" (boolean false) (
            entry "pair" (text "BTC/EUR")
              (entry "source_data_hash" (text digest) (entry "status" (text "CLEAN") end)))))))

abbrev plain_codec : Codec
plain_codec = record {
  dumps = λ v. ok "{}";
  loads = λ s. ok (object report);
  sha256 = λ s. digest;
  date_text = λ n. "2026-01-01";
  instant_text = λ n. "2026-01-01T00:00:00.000000Z";
  parse_instant = λ s. some (zoned (pos 0) 5);
  decimal_text = λ d. "1";
}

abbrev decision_request : DecisionRequest
decision_request = record {
  account_id = "alice";
  strategy_id = "trend";
  strategy_date = 20000;
  configuration_hash = digest;
  input_data_hash = digest;
  run_mode = paper;
  pair = "BTC/EUR";
  outcome = "HOLD";
  code_version = "1";
  details = none;
  recorded_at = none;
}

abbrev intent_request : IntentRequest
intent_request = record {
  decision_id = text_join "decision_" digest;
  intent_index = 0;
  side = "buy";
  order_type = "limit";
  quantity = finite (of_ℕ 1);
  limit_price = some (finite (of_ℕ 100));
  time_in_force = "GTC";
  post_only = true;
  details = none;
  recorded_at = none;
}

abbrev snapshot_request : SnapshotRequest
snapshot_request = record {
  account_id = "alice";
  pair = "BTC/EUR";
  observed_at = zoned (pos 0) 5;
  status = "CLEAN";
  account_binding_hash = digest;
  account_binding_verified = true;
  source_data_hash = digest;
  report = report;
  exchange_writes = false;
  recorded_at = none;
}

abbrev new_file : Database
new_file = record (empty_file "wal") {
  schema_version = 3;
  objects = expected_v2_sql ++ expected_v3_sql;
}

initialized : initialize plain plain_codec "wal" none ≡ ok new_file
unfolding initialize migrate verify_before_migration verify_schema verify_v2_schema
    verify_exact_objects differs normalized_sql verify_object_names has_orphan verify_integrity
    verify_reconciliation_rows
initialized = refl

abbrev stamp : String
stamp = "2026-01-01T00:00:00.000000Z"

abbrev decision_stored : Decision
decision_stored = record {
  decision_id = text_join "decision_" digest;
  account_id = "alice";
  strategy_id = "trend";
  strategy_date = "2026-01-01";
  configuration_hash = digest;
  input_data_hash = digest;
  run_mode = "paper";
  pair = "BTC/EUR";
  outcome = "HOLD";
  code_version = "1";
  details_json = "{}";
  recorded_at_utc = stamp;
}

abbrev intent_stored : Intent
intent_stored = record {
  intent_id = text_join "intent_" digest;
  client_order_id = "kk0123456789abcdef";
  decision_id = text_join "decision_" digest;
  intent_index = 0;
  side = "buy";
  order_type = "limit";
  quantity = "1";
  limit_price = some "1";
  time_in_force = "GTC";
  post_only = 1;
  details_json = "{}";
  recorded_at_utc = stamp;
}

abbrev snapshot_stored : Snapshot
snapshot_stored = record {
  snapshot_id = text_join "reconciliation_" digest;
  account_id = "alice";
  pair = "BTC/EUR";
  observed_at_utc = stamp;
  status = "CLEAN";
  account_binding_hash = digest;
  account_binding_verified = 1;
  source_data_hash = digest;
  report_json = "{}";
  exchange_writes = 0;
  recorded_at_utc = stamp;
}

abbrev decided_file : Database
decided_file = record new_file { decisions = decision_stored ∷ [] }

abbrev intended_file : Database
intended_file = record decided_file { intents = intent_stored ∷ [] }

abbrev observed_file : Database
observed_file = record intended_file { snapshots = snapshot_stored ∷ [] }

new_file-IsTrusted : IsTrusted plain plain_codec new_file
new_file-IsTrusted = (initialize-IsTrusted plain plain_codec "wal" none new_file initialized).0

decided_file-IsTrusted : IsTrusted plain plain_codec decided_file
unfolding require_initialized verify_schema verify_v2_schema verify_exact_objects differs
    normalized_sql verify_object_names has_orphan verify_reconciliation_rows
decided_file-IsTrusted = refl

decision_built : decision_row plain plain_codec 7 decision_request ≡ ok decision_stored
unfolding decision_row safe_json assert_safe_details decision_identity require_nonempty
    require_sha256 sha256_json canonical_json utc_timestamp
decision_built = refl

decision_appended :
    append_daily_decision plain plain_codec 7 (some new_file) decision_request
    ≡ ok (decided_file, text_join "decision_" digest)
unfolding append_daily_decision insert_decision write_once
decision_appended = ground (arith, new_file-IsTrusted, decision_built)

intent_built : intent_row plain plain_codec 7 intent_request ≡ ok intent_stored
unfolding intent_row safe_json assert_safe_details intent_identity require_nonempty positive
    required_price to_decimal sha256_json canonical_json utc_timestamp arithmetic
intent_built = refl

intent_appended :
    append_order_intent plain plain_codec 7 (some decided_file) intent_request
    ≡ ok (intended_file, text_join "intent_" digest)
unfolding append_order_intent insert_intent write_once
intent_appended = ground (arith, decided_file-IsTrusted, intent_built)

snapshot_built : snapshot_row plain plain_codec 7 snapshot_request ≡ ok snapshot_stored
unfolding snapshot_row assert_safe_details is_secret_key is_secret_value require_nonempty
    require_sha256 verify_reconciliation_report verify_evidence agrees is_text is_boolean get
    sha256_json canonical_json utc_timestamp require_utc snapshot_identity
snapshot_built = refl

intended_file-IsTrusted : IsTrusted plain plain_codec intended_file
unfolding require_initialized verify_schema verify_v2_schema verify_exact_objects differs
    normalized_sql verify_object_names has_orphan verify_reconciliation_rows
intended_file-IsTrusted = refl

snapshot_appended :
    append_reconciliation_snapshot plain plain_codec 7 (some intended_file) snapshot_request
    ≡ ok (observed_file, text_join "reconciliation_" digest)
unfolding append_reconciliation_snapshot insert_snapshot write_once
snapshot_appended = ground (arith, intended_file-IsTrusted, snapshot_built)

all_steps : Reach plain plain_codec new_file observed_file
all_steps =
    next
      (next
        (next here (decided 7 decision_request (text_join "decision_" digest) decision_appended))
        (intended 7 intent_request (text_join "intent_" digest) intent_appended))
      (observed 7 snapshot_request (text_join "reconciliation_" digest) snapshot_appended)

new_file-IsSound : IsSound new_file
unfolding has_orphan
new_file-IsSound = record {
  decisions_unique = tt;
  intents_unique = tt;
  snapshots_unique = tt;
  referenced = refl;
  single = refl;
  read_only = refl;
}

Reach-IsSound_example : IsSound observed_file
Reach-IsSound_example = Reach-IsSound plain plain_codec all_steps new_file-IsSound

Reach-IsAppended_example : IsAppended new_file observed_file
Reach-IsAppended_example = Reach-IsAppended plain plain_codec all_steps

initialize-IsTrusted_example :
    IsTrusted plain plain_codec new_file
    × (initialize plain plain_codec "wal" (some new_file) ≡ ok new_file)
    × (new_file.decisions ≡ [])
    × (new_file.intents ≡ [])
    × (new_file.snapshots ≡ [])
initialize-IsTrusted_example =
    initialize-IsTrusted plain plain_codec "wal" none new_file initialized

-- a later clock, and a time of recording that is given
again : utc_timestamp plain_codec 9 (some (zoned (pos 0) 8)) ≡ ok stamp
unfolding utc_timestamp require_utc
again = refl

append_daily_decision-retry_example :
    append_daily_decision plain plain_codec 9
      (some decided_file)
      (record decision_request { recorded_at = some (zoned (pos 0) 8) })
    ≡ ok (decided_file, text_join "decision_" digest)
append_daily_decision-retry_example =
    append_daily_decision-retry plain plain_codec 7 9 new_file decided_file decision_request
      (text_join "decision_" digest) (some (zoned (pos 0) 8)) stamp decision_appended again

append_daily_decision_refines_example :
    (row : Decision) × (decision_row plain plain_codec 7 decision_request ≡ ok row)
    × (put_once (view decision_table []) (decision_table.scope row) (decision_table.content row)
        ≡ some (view decision_table (decision_stored ∷ [])))
append_daily_decision_refines_example =
    append_daily_decision_refines plain plain_codec 7 new_file decided_file decision_request
      (text_join "decision_" digest) decision_appended

-- a sale where the decision has its purchase
sale_built :
    intent_row plain plain_codec 7 (record intent_request { side = "sell" })
    ≡ ok (record intent_stored { side = "sell" })
unfolding intent_row safe_json assert_safe_details intent_identity require_nonempty positive
    required_price to_decimal sha256_json canonical_json utc_timestamp arithmetic
sale_built = refl

sale_refused :
    put_once
      (view intent_table (intent_stored ∷ []))
      (intent_table.scope (record intent_stored { side = "sell" }))
      (intent_table.content (record intent_stored { side = "sell" }))
    ≡ none
unfolding put_once
sale_refused = refl

append_order_intent_conflict_example :
    append_order_intent plain plain_codec 7
      (some intended_file)
      (record intent_request { side = "sell" })
    ≡ err (ledger_conflict "a different immutable order intent already exists for this decision")
append_order_intent_conflict_example =
    append_order_intent_conflict plain plain_codec 7 intended_file
      (record intent_request { side = "sell" }) (record intent_stored { side = "sell" })
      intended_file-IsTrusted sale_built sale_refused

plain-Reads : Reads plain plain_codec
unfolding before_z
plain-Reads = record {
  lower_idem = λ s. refl;
  instant_front = λ t. "2026-01-01T00:00:00.000000";
  instant_before_z = λ t. refl;
  instant_back = λ t. 5;
  instant_parsed = λ t. refl;
  instant_same = λ t. refl;
}

verify_row_stored_example : verify_row plain plain_codec snapshot_stored ≡ ok tt
verify_row_stored_example =
    verify_row_stored plain plain_codec plain-Reads 7 snapshot_request snapshot_stored
      snapshot_built refl

append_reconciliation_snapshot-IsTrusted_example : IsTrusted plain plain_codec observed_file
append_reconciliation_snapshot-IsTrusted_example =
    append_reconciliation_snapshot-IsTrusted plain plain_codec plain-Reads 7 intended_file
      observed_file snapshot_request snapshot_stored (text_join "reconciliation_" digest)
      snapshot_appended snapshot_built refl

assert_safe_details_iff_example :
    (assert_safe_details plain (object (entry "note" (text "a?token=b") end)) "details" ≡ ok tt)
    ↔ IsClean plain (object (entry "note" (text "a?token=b") end))
assert_safe_details_iff_example =
    assert_safe_details_iff plain (object (entry "note" (text "a?token=b") end)) "details"
