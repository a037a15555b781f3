-- ===== src/Ledger.antt =====
-- src/kraken_knight/ledger.py: the append-only SQLite ledger of decisions, order intents and
-- reconciliation snapshots.
--
-- The database file is a value: its version, the schema objects, the answer of SQLite's quick
-- check, and the rows of the three tables. One method is one transaction with at most one
-- insertion, so it either returns the new file or raises and leaves the file as it was. Locks,
-- disk errors and the permissions of the file are not modelled. JSON text, SHA-256 and the texts
-- of dates and instants are a parameter, `Codec`; the methods of `str` are `Strings`.
pub mod Json
pub mod Tables
pub mod Rows
pub mod Reports
pub mod Schema
pub mod Appends
pub mod Store
pub mod WriteOnce
pub mod Refinement
pub mod Calls
pub mod Constraints
pub mod Invariant
pub mod Trust
pub mod Recheck
pub mod Initial
pub mod Secrets
mod Tests
