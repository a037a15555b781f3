-- ===== src/Ledger/Invariant.antt =====
-- Sequences of appending calls: what every file that they lead to keeps.
use kraken_knight.Base.{
  ℕ, String, ◌≡◌, refl, sym, ap, ◌∙◌, subst, inl, inr, some, List, [], ◌∷◌, ◌++◌, Result, ok,
  Strings,
}
use kraken_knight.Ledger.Tables.{Table, write_once}
use kraken_knight.Ledger.Json.{Codec}
use kraken_knight.Ledger.Rows.{Database, decision_table, intent_table, snapshot_table}
use kraken_knight.Ledger.WriteOnce.{write_once-cases}
use kraken_knight.Ledger.Constraints.{
  IsSound, snapshot_row_read_only, intent_row_single, decision-IsSound, intent-IsSound,
  snapshot-IsSound,
}
use kraken_knight.Ledger.Calls.{
  known, insert_decision-cases, insert_intent-cases, insert_snapshot-cases,
  append_daily_decision-cases, append_order_intent-cases, append_reconciliation_snapshot-cases,
}
use kraken_knight.Ledger.Appends.{
  DecisionRequest, IntentRequest, SnapshotRequest, append_daily_decision, append_order_intent,
  append_reconciliation_snapshot,
}

-- The rows of the first table stand unchanged at the front of the second.
abbrev pub IsExtended {ℓ} : {A : Type ℓ} → List A → List A → Type ℓ
IsExtended {A = A} old new = (more : List A) × (new ≡ old ++ more)

append_nil {ℓ} : {A : Type ℓ} (xs : List A) → xs ++ [] ≡ xs
append_nil [] = refl
append_nil (x ∷ xs) = ap (λ l. x ∷ l) (append_nil xs)

append_assoc {ℓ} : {A : Type ℓ} (xs ys zs : List A) → (xs ++ ys) ++ zs ≡ xs ++ (ys ++ zs)
append_assoc [] ys zs = refl
append_assoc (x ∷ xs) ys zs = ap (λ l. x ∷ l) (append_assoc xs ys zs)

IsExtended-refl {ℓ} : {A : Type ℓ} (xs : List A) → IsExtended xs xs
IsExtended-refl xs = ([], sym (append_nil xs))

IsExtended-trans {ℓ} :
    {A : Type ℓ} (xs ys zs : List A) → IsExtended xs ys → IsExtended ys zs → IsExtended xs zs
IsExtended-trans xs ys zs (a, e) (b, f) = (a ++ b, f ∙ ap (λ l. l ++ b) e ∙ append_assoc xs a b)

write_once-IsExtended :
    {A : Type 0} (t : Table A) (reference : Result (Unit {0})) (new : A) (rows rows' : List A)
    → write_once t reference new rows ≡ ok rows'
    → IsExtended rows rows'
write_once-IsExtended t reference new rows rows' h =
    elim (write_once-cases t reference new rows rows' h) [
      | inl (inserted, passed) ↦ (new ∷ [], inserted.extended)
      | inr retried ↦ subst (IsExtended rows) (sym retried.kept) (IsExtended-refl rows)
    ]

pub record IsAppended (db db' : Database) : Type 0 where
  pub decisions_extended : IsExtended db.decisions db'.decisions
  pub intents_extended : IsExtended db.intents db'.intents
  pub snapshots_extended : IsExtended db.snapshots db'.snapshots
  pub version_kept : db'.schema_version ≡ db.schema_version
  pub objects_kept : db'.objects ≡ db.objects

IsAppended-refl : (db : Database) → IsAppended db db
IsAppended-refl db = record {
  decisions_extended = IsExtended-refl db.decisions;
  intents_extended = IsExtended-refl db.intents;
  snapshots_extended = IsExtended-refl db.snapshots;
  version_kept = refl;
  objects_kept = refl;
}

IsAppended-trans : (a b c : Database) → IsAppended a b → IsAppended b c → IsAppended a c
IsAppended-trans a b c f g = record {
  decisions_extended =
      IsExtended-trans a.decisions b.decisions c.decisions f.decisions_extended
        g.decisions_extended;
  intents_extended =
      IsExtended-trans a.intents b.intents c.intents f.intents_extended g.intents_extended;
  snapshots_extended =
      IsExtended-trans a.snapshots b.snapshots c.snapshots f.snapshots_extended
        g.snapshots_extended;
  version_kept = g.version_kept ∙ f.version_kept;
  objects_kept = g.objects_kept ∙ f.objects_kept;
}

module _ (strings : Strings) (codec : Codec) where
  -- A file after one of the appending methods returned, at some reading of the clock.
  pub data Step (db db' : Database) : Type 0 where
    decided :
        (now : ℕ) (q : DecisionRequest) (id : String)
        → append_daily_decision strings codec now (some db) q ≡ ok (db', id)
        → Step db db'
    intended :
        (now : ℕ) (q : IntentRequest) (id : String)
        → append_order_intent strings codec now (some db) q ≡ ok (db', id)
        → Step db db'
    observed :
        (now : ℕ) (q : SnapshotRequest) (id : String)
        → append_reconciliation_snapshot strings codec now (some db) q ≡ ok (db', id)
        → Step db db'

  pub data Reach (start : Database) : Database → Type 0 where
    here : Reach start start
    next : {db db' : Database} → Reach start db → Step db db' → Reach start db'

  Step-IsSound : {db db' : Database} → Step db db' → IsSound db → IsSound db'
  Step-IsSound {db} {db'} (decided now q id h) sound =
      let (trusted, (row, built, inserted)) =
        append_daily_decision-cases strings codec now db db' q id h in
      decision-IsSound strings codec now db db' row id inserted sound
  Step-IsSound {db} {db'} (intended now q id h) sound =
      let (trusted, (row, built, inserted)) =
        append_order_intent-cases strings codec now db db' q id h in
      intent-IsSound strings codec now db db' row id
        (intent_row_single strings codec now q row built) inserted sound
  Step-IsSound {db} {db'} (observed now q id h) sound =
      let (trusted, (row, built, inserted)) =
        append_reconciliation_snapshot-cases strings codec now db db' q id h in
      snapshot-IsSound strings codec now db db' row id
        (snapshot_row_read_only strings codec now q row built) inserted sound

  -- From a file that keeps the constraints of its schema, any sequence of appending calls, each
  -- with any arguments, leads to a file that keeps them: no two rows of a table agree on the
  -- columns of one of its unique constraints, every intent names a stored decision and has index
  -- 0, and no snapshot records an exchange write.
  pub Reach-IsSound : {start db : Database} → Reach start db → IsSound start → IsSound db
  Reach-IsSound here sound = sound
  Reach-IsSound (next r s) sound = Step-IsSound s (Reach-IsSound r sound)

  Step-IsAppended : {db db' : Database} → Step db db' → IsAppended db db'
  Step-IsAppended {db} {db'} (decided now q id h) =
      let (trusted, (row, built, inserted)) =
        append_daily_decision-cases strings codec now db db' q id h in
      let (rows, e, same, named) = insert_decision-cases strings codec now db db' row id inserted in
      subst (IsAppended db) (sym same) (record {
        decisions_extended = write_once-IsExtended decision_table (ok tt) row db.decisions rows e;
        intents_extended = IsExtended-refl db.intents;
        snapshots_extended = IsExtended-refl db.snapshots;
        version_kept = refl;
        objects_kept = refl;
      })
  Step-IsAppended {db} {db'} (intended now q id h) =
      let (trusted, (row, built, inserted)) =
        append_order_intent-cases strings codec now db db' q id h in
      let (rows, e, same, named) = insert_intent-cases strings codec now db db' row id inserted in
      subst (IsAppended db) (sym same) (record {
        decisions_extended = IsExtended-refl db.decisions;
        intents_extended =
            write_once-IsExtended intent_table (known strings codec db row) row db.intents rows e;
        snapshots_extended = IsExtended-refl db.snapshots;
        version_kept = refl;
        objects_kept = refl;
      })
  Step-IsAppended {db} {db'} (observed now q id h) =
      let (trusted, (row, built, inserted)) =
        append_reconciliation_snapshot-cases strings codec now db db' q id h in
      let (rows, e, same, named) = insert_snapshot-cases strings codec now db db' row id inserted in
      subst (IsAppended db) (sym same) (record {
        decisions_extended = IsExtended-refl db.decisions;
        intents_extended = IsExtended-refl db.intents;
        snapshots_extended = write_once-IsExtended snapshot_table (ok tt) row db.snapshots rows e;
        version_kept = refl;
        objects_kept = refl;
      })

  -- The ledger is append-only: after any sequence of appending calls each table begins with the
  -- rows that it had, in their order and unchanged, and the schema is the same.
  pub Reach-IsAppended : {start db : Database} → Reach start db → IsAppended start db
  Reach-IsAppended {start} here = IsAppended-refl start
  Reach-IsAppended {start} {db} (next {db = t} r s) =
      IsAppended-trans start t db (Reach-IsAppended r) (Step-IsAppended s)
