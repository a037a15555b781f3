-- ===== src/Collection.antt =====
-- src/kraken_knight/reconcile_job.py, and the records of kraken_read.py that it collects: the gates,
-- the merging of pages, the translation to the records of reconciliation.py, the replay of the
-- ledger against the balances, the totals of orders, the fees linked to trades, and what the read
-- key may do.
--
-- The calls of the exchange, their order and the files of hints are not modelled.
pub mod Records
pub mod Gates
pub mod Merge
pub mod Translate
pub mod Replay
pub mod Chains
pub mod Balances
pub mod Merged
pub mod Totals
pub mod Access
pub mod Fees
mod Tests
mod FeeTests
