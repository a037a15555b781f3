-- ===== src/Ledger/Recheck.antt =====
-- Opening a file again: a stored snapshot passes the test of the stored rows, and a file that was
-- initialized is trusted.
use kraken_knight.Base.{
  ℕ, zero, suc, String, ◌≡◌, refl, sym, subst, inl, inr, Option, none, some, List, [], ◌∷◌, ◌++◌,
  arith, pos, negsuc, ok, bind-cases, text_eq_refl, text_join, Strings,
}
use kraken_knight.Domain.{Datetime, naive, zoned, require_utc}
use kraken_knight.Ledger.Json.{object, Codec, utc_timestamp}
use kraken_knight.Ledger.Rows.{Snapshot, Database, snapshot_table}
use kraken_knight.Ledger.Reports.{
  verify_reconciliation_report, before_z, verify_parsed, verify_stored_utc_timestamp,
  require_sha256, verify_decoded, verify_row, as_integrity_failure, verify_reconciliation_rows,
}
use kraken_knight.Ledger.Schema.{has_orphan}
use kraken_knight.Ledger.WriteOnce.{write_once-cases}
use kraken_knight.Ledger.Calls.{insert_snapshot-cases, append_reconciliation_snapshot-cases}
use kraken_knight.Ledger.Trust.{IsTrusted, IsTrusted-rows, IsTrusted-referenced, IsTrusted-transfer}
use kraken_knight.Ledger.Appends.{SnapshotRequest, snapshot_row, append_reconciliation_snapshot}

-- What the recheck relies on of Python: lower case is lower case already, and `isoformat` of a
-- UTC instant is read back by `fromisoformat`.
pub record Reads (strings : Strings) (codec : Codec) : Type 0 where
  pub lower_idem : (s : String) → strings.lower (strings.lower s) ≡ strings.lower s
  pub instant_front : ℕ → String
  pub instant_before_z : (t : ℕ) → before_z (codec.instant_text t) ≡ some (instant_front t)
  -- the instant that is read back, which has the same text
  pub instant_back : ℕ → ℕ
  pub instant_parsed :
      (t : ℕ)
      → codec.parse_instant (text_join (instant_front t) "+00:00")
        ≡ some (zoned (pos 0) (instant_back t))
  pub instant_same : (t : ℕ) → codec.instant_text (instant_back t) ≡ codec.instant_text t

module _ (strings : Strings) (codec : Codec) (reads : Reads strings codec) where
  utc_timestamp-text :
      (now : ℕ) (at : Option Datetime) (s : String)
      → utc_timestamp codec now at ≡ ok s
      → (t : ℕ) × (s ≡ codec.instant_text t)
  unfolding utc_timestamp require_utc
  utc_timestamp-text now none s h = (now, ground (arith, h))
  utc_timestamp-text now (some (naive t)) s h = cc
  utc_timestamp-text now (some (zoned (pos zero) t)) s h = (t, ground (arith, h))
  utc_timestamp-text now (some (zoned (pos (suc n)) t)) s h = cc
  utc_timestamp-text now (some (zoned (negsuc n) t)) s h = cc

  stored_reads :
      (now : ℕ) (at : Option Datetime) (s name : String)
      → utc_timestamp codec now at ≡ ok s
      → verify_stored_utc_timestamp codec s name ≡ ok s
  unfolding verify_stored_utc_timestamp verify_parsed utc_timestamp require_utc
  stored_reads now at s name h =
      let (t, e) = utc_timestamp-text now at s h in
      subst (λ x. verify_stored_utc_timestamp codec x name ≡ ok x) (sym e)
        (ground (
          arith,
          reads.instant_before_z t,
          reads.instant_parsed t,
          reads.instant_same t,
          text_eq_refl (codec.instant_text t),
        ))

  decoded_passes :
      (now : ℕ) (q : SnapshotRequest) (row : Snapshot)
      → snapshot_row strings codec now q ≡ ok row
      → verify_decoded strings codec row (object q.report) row.observed_at_utc ≡ ok tt
  unfolding snapshot_row verify_decoded verify_reconciliation_report
  decoded_passes now q row h =
      ground (arith, h, text_eq_refl row.report_json, text_eq_refl row.snapshot_id)

  -- A snapshot that the ledger takes passes the integrity test of stored rows whenever the file is
  -- opened again, if its canonical text reads back as the report.
  pub verify_row_stored :
      (now : ℕ) (q : SnapshotRequest) (row : Snapshot)
      → snapshot_row strings codec now q ≡ ok row
      → codec.loads row.report_json ≡ ok (object q.report)
      → verify_row strings codec row ≡ ok tt
  unfolding snapshot_row verify_row require_sha256
  verify_row_stored now q row h decoded =
      let observed : utc_timestamp codec now (some q.observed_at) ≡ ok row.observed_at_utc =
        ground (arith, h) in
      let recorded : utc_timestamp codec now q.recorded_at ≡ ok row.recorded_at_utc =
        ground (arith, h) in
      let passes = decoded_passes now q row h in
      ground (
        arith,
        h,
        decoded,
        passes,
        stored_reads now (some q.observed_at) row.observed_at_utc "observed_at_utc" observed,
        stored_reads now q.recorded_at row.recorded_at_utc "recorded_at_utc" recorded,
        reads.lower_idem q.account_binding_hash,
        reads.lower_idem q.source_data_hash,
        text_eq_refl row.account_binding_hash,
        text_eq_refl row.source_data_hash,
      )

  rows_snoc :
      (rows : List Snapshot) (row : Snapshot)
      → verify_reconciliation_rows strings codec rows ≡ ok tt
      → verify_row strings codec row ≡ ok tt
      → verify_reconciliation_rows strings codec (rows ++ row ∷ []) ≡ ok tt
  unfolding verify_reconciliation_rows as_integrity_failure
  rows_snoc [] row h e = ground (arith, e)
  rows_snoc (r ∷ rows) row h e =
      let (done, first, rest) =
        bind-cases (as_integrity_failure strings (verify_row strings codec r)) _ tt h in
      let more = rows_snoc rows row rest e in ground (arith, first, more)

  -- After a reconciliation snapshot was appended, the file still passes the test that each call
  -- begins with, the recheck of every stored snapshot included, if the canonical text of the new
  -- report reads back as the report.
  pub append_reconciliation_snapshot-IsTrusted :
      (now : ℕ) (db db' : Database) (q : SnapshotRequest) (row : Snapshot) (id : String)
      → append_reconciliation_snapshot strings codec now (some db) q ≡ ok (db', id)
      → snapshot_row strings codec now q ≡ ok row
      → codec.loads row.report_json ≡ ok (object q.report)
      → IsTrusted strings codec db'
  unfolding has_orphan
  append_reconciliation_snapshot-IsTrusted now db db' q row id h built decoded =
      let (trusted, (row', built', inserted)) =
        append_reconciliation_snapshot-cases strings codec now db db' q id h in
      let (rows, w, same, named) =
        insert_snapshot-cases strings codec now db db' row' id inserted in
      let row_same : row' ≡ row = cc in
      let checked = verify_row_stored now q row built decoded in
      let old = IsTrusted-rows strings codec db trusted in
      let passes : verify_reconciliation_rows strings codec rows ≡ ok tt =
        elim (write_once-cases snapshot_table (ok tt) row' db.snapshots rows w) [
          | inl (went_in, passed) ↦
              subst (λ r. verify_reconciliation_rows strings codec r ≡ ok tt) (sym went_in.extended)
                (rows_snoc db.snapshots row' old
                  (subst (λ r. verify_row strings codec r ≡ ok tt) (sym row_same) checked))
          | inr retried ↦
              subst (λ r. verify_reconciliation_rows strings codec r ≡ ok tt) (sym retried.kept) old
        ] in
      subst (IsTrusted strings codec) (sym same) (
        IsTrusted-transfer strings codec db (record db { snapshots = rows }) refl refl
          (IsTrusted-referenced strings codec db trusted) passes trusted)
