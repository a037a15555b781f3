-- ===== src/Reconciliation.antt =====
-- src/kraken_knight/reconciliation.py: the pure comparison of an account's balances, orders, trades
-- and fees with one another and with the hints of earlier submissions.
--
-- The list of discrepancies that the source appends to is a list here that every phase returns its
-- part of; the parts are put together in the source's order. A Python set or dictionary is a list.
-- The digests of records are a parameter, `Digests`.
pub mod Codes
pub mod Records
pub mod Balances
pub mod Orders
pub mod Fees
pub mod Hints
pub mod Account
pub mod Report
pub mod Status
pub mod Net
pub mod Clean
pub mod Safety
pub mod Canonical
mod Tests
