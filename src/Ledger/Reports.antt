-- ===== src/Ledger/Reports.antt =====
-- What a reconciliation snapshot must say, when it is appended and whenever the file is opened.
use Prim.Native.Char.{code}
use mathlib.Core.Option
use kraken_knight.Base.{
  ℕ, String, Bool, true, false, ◌&&◌, ◌||◌, not, Option, none, some, List, [], ◌∷◌, leb, ◌==◌,
  if◌then◌else◌, length, Error, type_error, value_error, ledger_error, Result, ok, err, ◌>>=◌, ◌>>◌,
  raise_if, text_eq, one_of, text_join, Strings, codes,
}
use kraken_knight.Domain.{Datetime}
use kraken_knight.Ledger.Json.{
  Json, boolean, text, object, Fields, end, Codec, entry, get, is_text, is_boolean, canonical_json,
  sha256_json, utc_timestamp, assert_safe_details,
}
use kraken_knight.Ledger.Rows.{Snapshot}

abbrev pub reconciliation_statuses : List String
reconciliation_statuses = "CLEAN" ∷ "DISARMED" ∷ "UNRESOLVED" ∷ []

abbrev is_hexadecimal : ℕ → Bool
is_hexadecimal c = (leb b'0' c && leb c b'9') || (leb b'a' c && leb c b'f')

abbrev all_hexadecimal : List ℕ → Bool
all_hexadecimal [] = true
all_hexadecimal (c ∷ cs) = is_hexadecimal c && all_hexadecimal cs

-- `_verify_reconciliation_report`: the report repeats the columns of its row, and the digest of its
-- evidence is the source hash
unfoldable pub agrees :
    (report : Fields) (binding : String) (verified : Bool) (account pair source status : String)
    → Bool
agrees report binding verified account pair source status =
    is_text (get "account_binding_hash" report) binding
    && is_boolean (get "account_binding_verified" report) verified
    && is_text (get "account_id" report) account
    && is_boolean (get "exchange_writes" report) false
    && is_text (get "pair" report) pair
    && is_text (get "source_data_hash" report) source
    && is_text (get "status" report) status

unfoldable pub verify_evidence : Codec → Option Json → String → Result (Unit {0})
verify_evidence codec (some (object evidence)) source = do
  digest ← sha256_json codec (object evidence)
  raise_if (not (text_eq digest source))
      (value_error "reconciliation source hash does not match its evidence")
verify_evidence codec v source =
    err (value_error "reconciliation source hash does not match its evidence")

unfoldable pub verify_reconciliation_report :
    Codec
    → (report : Fields) (binding : String) (verified : Bool) (account pair source status : String)
    → Result (Unit {0})
verify_reconciliation_report codec report binding verified account pair source status = do
  raise_if (not (agrees report binding verified account pair source status))
      (value_error "reconciliation report disagrees with its immutable columns")
  verify_evidence codec (get "evidence" report) source

-- The identity that a snapshot's identifier is the digest of.
unfoldable pub snapshot_identity :
    (binding : String) (verified : Bool) (account observed pair report_hash source status : String)
    → Json
snapshot_identity binding verified account observed pair report_hash source status = object (
    entry "account_binding_hash" (text binding) (
      entry "account_binding_verified" (boolean verified) (
        entry "account_id" (text account) (
          entry "observed_at_utc" (text observed) (
            entry "pair" (text pair) (
              entry "report_hash" (text report_hash)
                (entry "source_data_hash" (text source) (entry "status" (text status) end))))))))

-- `value[:-1]` of a value that ends in `Z`
unfoldable pub before_z : String → Option String
before_z String.[] = none
before_z (String.◌∷◌ c String.[]) = if code c == b'Z' then some "" else none
before_z (String.◌∷◌ c (String.◌∷◌ d s)) =
    let front = before_z (String.◌∷◌ d s) in Option.map (λ t. String.◌∷◌ c t) front

unfoldable pub verify_parsed : Codec → Option Datetime → String → Error → Result String
verify_parsed codec none value wrong = err wrong
verify_parsed codec (some parsed) value wrong = do
  again ← utc_timestamp codec 0 (some parsed)
  raise_if (not (text_eq again value)) wrong
  ok value

-- `_verify_stored_utc_timestamp`
unfoldable pub verify_stored_utc_timestamp : Codec → String → String → Result String
unfolding verify_parsed
verify_stored_utc_timestamp codec value field =
    let wrong = value_error (text_join field " is not a canonical UTC timestamp") in
    elim (before_z value) [
      | none ↦ err wrong
      | some front ↦
          verify_parsed codec (codec.parse_instant (text_join front "+00:00")) value wrong
    ]

module _ (strings : Strings) where
  -- `_require_nonempty`
  unfoldable pub require_nonempty : String → String → Result (Unit {0})
  require_nonempty value field =
      raise_if (text_eq (strings.strip value) "") (value_error (text_join field " cannot be empty"))

  -- `_require_sha256`
  unfoldable pub require_sha256 : String → String → Result (Unit {0})
  require_sha256 value field =
      let digest = codes (strings.lower value) in
      raise_if (not (length digest == 64) || not (all_hexadecimal digest))
        (value_error (text_join field " must be a 64-character hexadecimal SHA-256 digest"))

  -- One round of `_verify_reconciliation_rows`, up to the `except` that follows.
  unfoldable pub verify_decoded : Codec → Snapshot → Json → String → Result (Unit {0})
  verify_decoded codec row (object decoded) observed = do
    canonical ← canonical_json codec (object decoded)
    raise_if (not (text_eq canonical row.report_json))
        (value_error "stored reconciliation report is not canonical")
    assert_safe_details strings (object decoded) "report"
    let verified = row.account_binding_verified == 1
    verify_reconciliation_report codec decoded row.account_binding_hash verified row.account_id
        row.pair row.source_data_hash row.status
    report_hash ← sha256_json codec (object decoded)
    digest ← sha256_json codec (
        snapshot_identity row.account_binding_hash verified row.account_id observed row.pair
          report_hash row.source_data_hash row.status)
    raise_if (not (text_eq row.snapshot_id (text_join "reconciliation_" digest)))
        (value_error "stored reconciliation identity is invalid")
  verify_decoded codec row v observed =
      err (value_error "stored reconciliation report is not an object")

  unfoldable pub verify_row : Codec → Snapshot → Result (Unit {0})
  unfolding verify_decoded
  verify_row codec row = do
    require_nonempty row.account_id "account_id"
    require_nonempty row.pair "pair"
    raise_if (not (one_of row.status reconciliation_statuses))
        (value_error "stored reconciliation status is invalid")
    require_sha256 row.account_binding_hash "account_binding_hash"
    require_sha256 row.source_data_hash "source_data_hash"
    raise_if (not (text_eq row.account_binding_hash (strings.lower row.account_binding_hash)))
        (value_error "stored account binding hash is not canonical")
    raise_if (not (text_eq row.source_data_hash (strings.lower row.source_data_hash)))
        (value_error "stored source data hash is not canonical")
    raise_if (not (leb row.account_binding_verified 1))
        (value_error "stored account binding verification is invalid")
    raise_if (not (row.exchange_writes == 0))
        (value_error "stored reconciliation records an exchange write")
    observed ← verify_stored_utc_timestamp codec row.observed_at_utc "observed_at_utc"
    recorded ← verify_stored_utc_timestamp codec row.recorded_at_utc "recorded_at_utc"
    decoded ← codec.loads row.report_json
    verify_decoded codec row decoded observed

  -- `except (json.JSONDecodeError, TypeError, ValueError)`
  unfoldable pub as_integrity_failure : Result (Unit {0}) → Result (Unit {0})
  as_integrity_failure (err (value_error message)) =
      err (ledger_error "stored reconciliation snapshot failed integrity checks")
  as_integrity_failure (err (type_error message)) =
      err (ledger_error "stored reconciliation snapshot failed integrity checks")
  as_integrity_failure call = call

  unfoldable pub verify_reconciliation_rows : Codec → List Snapshot → Result (Unit {0})
  unfolding verify_row as_integrity_failure
  verify_reconciliation_rows codec [] = ok tt
  verify_reconciliation_rows codec (row ∷ rows) =
      as_integrity_failure (verify_row codec row) >> verify_reconciliation_rows codec rows
