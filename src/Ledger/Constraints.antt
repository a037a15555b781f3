-- ===== src/Ledger/Constraints.antt =====
-- The constraints of the schema, and that an insertion keeps them.
use kraken_knight.Base.{
  ℕ, String, ◌≡◌, refl, sym, subst, inl, inr, Bool, false, not, List, [], ◌∷◌, ◌++◌, arith, ◌==◌,
  any, Result, ok, raise_if-eq-ok, text_eq, Strings,
}
use kraken_knight.Ledger.Json.{Codec}
use kraken_knight.Ledger.Rows.{
  Decision, Intent, Snapshot, Database, decision_table, intent_table, snapshot_table, has_decision,
}
use kraken_knight.Ledger.Schema.{has_orphan}
use kraken_knight.Ledger.WriteOnce.{any_append, IsUnique, write_once-cases, write_once-IsUnique}
use kraken_knight.Ledger.Calls.{
  known, insert_decision-cases, insert_intent-cases, insert_snapshot-cases,
}
use kraken_knight.Ledger.Tables.{Table, write_once}
use kraken_knight.Ledger.Appends.{
  IntentRequest, SnapshotRequest, insert_decision, intent_row, insert_intent, snapshot_row,
  insert_snapshot,
}

abbrev pub is_write : Snapshot → Bool
is_write r = not (r.exchange_writes == 0)

abbrev pub is_indexed : Intent → Bool
is_indexed i = not (i.intent_index == 0)

-- The constraints of the schema: unique keys, intents of known decisions at index 0, snapshots
-- that record no exchange write.
pub record IsSound (db : Database) : Type 0 where
  pub decisions_unique : IsUnique decision_table db.decisions
  pub intents_unique : IsUnique intent_table db.intents
  pub snapshots_unique : IsUnique snapshot_table db.snapshots
  pub referenced : has_orphan db ≡ false
  pub single : any is_indexed db.intents ≡ false
  pub read_only : any is_write db.snapshots ≡ false

any_snoc-false {ℓ} :
    {A : Type ℓ} (p : A → Bool) (xs : List A) (y : A)
    → any p xs ≡ false
    → p y ≡ false
    → any p (xs ++ y ∷ []) ≡ false
any_snoc-false p xs y h e = ground (arith, any_append p xs y)

-- A test that holds of no row and not of the new one holds of none after the insertion.
write_once-any :
    {A : Type 0} (t : Table A) (p : A → Bool) (reference : Result (Unit {0})) (new : A)
    (rows rows' : List A)
    → write_once t reference new rows ≡ ok rows'
    → any p rows ≡ false
    → p new ≡ false
    → any p rows' ≡ false
write_once-any t p reference new rows rows' h old fresh =
    elim (write_once-cases t reference new rows rows' h) [
      | inl (inserted, passed) ↦
          subst (λ r. any p r ≡ false) (sym inserted.extended) (any_snoc-false p rows new old fresh)
      | inr retried ↦ subst (λ r. any p r ≡ false) (sym retried.kept) old
    ]

-- More decisions make no orphan.
pub any_mono {ℓ} :
    {A : Type ℓ} (p q : A → Bool) (xs : List A)
    → ((x : A) → p x ≡ false → q x ≡ false)
    → any p xs ≡ false
    → any q xs ≡ false
any_mono p q [] h e = refl
any_mono p q (x ∷ xs) h e =
    let rest : any p xs ≡ false = ground (arith, e) in
    ground (arith, e, h x, any_mono p q xs h rest)

abbrev pub is_orphan : List Decision → Intent → Bool
is_orphan decisions i = not (has_decision i.decision_id decisions)

pub is_orphan-snoc :
    (decisions : List Decision) (d : Decision) (i : Intent)
    → is_orphan decisions i ≡ false
    → is_orphan (decisions ++ d ∷ []) i ≡ false
is_orphan-snoc decisions d i h =
    ground (arith, any_append (λ (x : Decision). text_eq x.decision_id i.decision_id) decisions d)

module _ (strings : Strings) (codec : Codec) where
  pub snapshot_row_read_only :
      (now : ℕ) (q : SnapshotRequest) (r : Snapshot)
      → snapshot_row strings codec now q ≡ ok r
      → is_write r ≡ false
  unfolding snapshot_row
  snapshot_row_read_only now q r e = ground (arith, e)

  pub intent_row_single :
      (now : ℕ) (q : IntentRequest) (r : Intent)
      → intent_row strings codec now q ≡ ok r
      → is_indexed r ≡ false
  unfolding intent_row
  intent_row_single now q r e = ground (arith, e)

  pub decision-referenced :
      (db : Database) (row : Decision) (rows : List Decision)
      → write_once decision_table (ok tt) row db.decisions ≡ ok rows
      → any (is_orphan db.decisions) db.intents ≡ false
      → any (is_orphan rows) db.intents ≡ false
  decision-referenced db row rows e old =
      elim (write_once-cases decision_table (ok tt) row db.decisions rows e) [
        | inl (inserted, passed) ↦
            subst (λ r. any (is_orphan r) db.intents ≡ false) (sym inserted.extended)
              (any_mono (is_orphan db.decisions) (is_orphan (db.decisions ++ row ∷ [])) db.intents
                (is_orphan-snoc db.decisions row) old)
        | inr retried ↦ subst (λ r. any (is_orphan r) db.intents ≡ false) (sym retried.kept) old
      ]

  pub decision-IsSound :
      (now : ℕ) (db db' : Database) (row : Decision) (id : String)
      → insert_decision strings codec now db row ≡ ok (db', id)
      → IsSound db
      → IsSound db'
  unfolding has_orphan
  decision-IsSound now db db' row id h sound =
      let (rows, e, same, named) = insert_decision-cases strings codec now db db' row id h in
      subst IsSound (sym same) (record {
        decisions_unique =
            write_once-IsUnique decision_table (ok tt) row db.decisions rows e
              sound.decisions_unique;
        intents_unique = sound.intents_unique;
        snapshots_unique = sound.snapshots_unique;
        referenced = decision-referenced db row rows e sound.referenced;
        single = sound.single;
        read_only = sound.read_only;
      })

  -- an intent that went in names a decision; a retry left the table as it was
  pub intent-referenced :
      (db : Database) (row : Intent) (rows : List Intent)
      → write_once intent_table (known strings codec db row) row db.intents ≡ ok rows
      → any (is_orphan db.decisions) db.intents ≡ false
      → any (is_orphan db.decisions) rows ≡ false
  intent-referenced db row rows e old =
      elim (write_once-cases intent_table (known strings codec db row) row db.intents rows e) [
        | inl (inserted, passed) ↦
            subst (λ r. any (is_orphan db.decisions) r ≡ false) (sym inserted.extended)
              (any_snoc-false (is_orphan db.decisions) db.intents row old
                (raise_if-eq-ok (is_orphan db.decisions row) _ passed))
        | inr retried ↦ subst (λ r. any (is_orphan db.decisions) r ≡ false) (sym retried.kept) old
      ]

  pub intent-IsSound :
      (now : ℕ) (db db' : Database) (row : Intent) (id : String)
      → is_indexed row ≡ false
      → insert_intent strings codec now db row ≡ ok (db', id)
      → IsSound db
      → IsSound db'
  unfolding has_orphan
  intent-IsSound now db db' row id indexed h sound =
      let (rows, e, same, named) = insert_intent-cases strings codec now db db' row id h in
      let reference = known strings codec db row in
      subst IsSound (sym same) (record {
        decisions_unique = sound.decisions_unique;
        intents_unique =
            write_once-IsUnique intent_table reference row db.intents rows e sound.intents_unique;
        snapshots_unique = sound.snapshots_unique;
        referenced = intent-referenced db row rows e sound.referenced;
        single =
            write_once-any intent_table is_indexed reference row db.intents rows e sound.single
              indexed;
        read_only = sound.read_only;
      })

  pub snapshot-IsSound :
      (now : ℕ) (db db' : Database) (row : Snapshot) (id : String)
      → is_write row ≡ false
      → insert_snapshot strings codec now db row ≡ ok (db', id)
      → IsSound db
      → IsSound db'
  unfolding has_orphan
  snapshot-IsSound now db db' row id written h sound =
      let (rows, e, same, named) = insert_snapshot-cases strings codec now db db' row id h in
      subst IsSound (sym same) (record {
        decisions_unique = sound.decisions_unique;
        intents_unique = sound.intents_unique;
        snapshots_unique =
            write_once-IsUnique snapshot_table (ok tt) row db.snapshots rows e
              sound.snapshots_unique;
        referenced = sound.referenced;
        single = sound.single;
        read_only =
            write_once-any snapshot_table is_write (ok tt) row db.snapshots rows e sound.read_only
              written;
      })
