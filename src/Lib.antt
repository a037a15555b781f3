-- ===== src/Lib.antt =====
-- A verification library for Kraken Knight, a daily long-or-cash Bitcoin strategy for Kraken with
-- its market data checks, its replay and its risk controls.
--
-- The parts of the program, and the files that model them:
--
-- * Decimals models what the program uses of Python's `decimal`: a sign, a coefficient and an
--   integer exponent, with arithmetic rounded to 28 digits, half to even. The operations run, so
--   the concrete runs in the Tests modules evaluate.
-- * Domain models src/kraken_knight/domain.py: `to_decimal`, `Candle.__post_init__` (make_candle)
--   and `Candle.close_time`.
-- * MarketData models src/kraken_knight/market_data.py: `_parse_decimal`, `_parse_row`, the
--   end of `parse_ohlc_payload` (parse_ohlc_rows), `validate_daily_sequence` and
--   `validate_batch_freshness`, under these names.
-- * Strategy models src/kraken_knight/strategy.py: `StrategyPolicy` (make_policy,
--   minimum_history) and `MomentumTrendStrategy.evaluate` (assess is the outcome, evaluate adds the
--   digests). It reads a window of candles that Domain constructs.
-- * Backtest models src/kraken_knight/backtest.py and src/kraken_knight/risk.py. Types has the
--   records with their constructors' checks; Pricing the execution price and the valuation; Sizing
--   and Execution the function `_execute_rebalance`, from its arguments (Rebalance) to what it
--   returns (Execution); Risk the risk variables of the loop in `run_backtest` (RiskState) and what
--   one candle does to them (assess_risk); Run the loop itself on its daily path (run_backtest, with
--   a Replay for its variables), which calls the strategy, Risk and Execution. The strategy's
--   decision is the signal of a rebalance, and the two switches that Risk computes are among its
--   arguments.
--   References has what surrounds that loop: the test of the candles (validate_backtest_candles),
--   `ExecutionReference` (make_reference), `_index_precise_execution_references`,
--   `_precise_evaluation_start_index` and `_no_fill_reference_decision`.
-- * Kraken models two objects of src/kraken_knight/kraken_read.py, which its client calls before
--   each private request: `MonotonicNonce` (next_nonce) and `KrakenRequestBudget`
--   (consume_private). take_nonces and consume_all are sequences of such calls.
-- * Ledger models src/kraken_knight/ledger.py with the part of provenance.py that it uses. Tables is
--   `INSERT OR IGNORE` with the comparison that follows it (write_once); Rows the three tables and
--   the database file (Database); Json the values that are stored, with `_assert_safe_details`;
--   Reports and Schema the tests of stored rows and of the schema; Appends the methods
--   append_daily_decision, append_order_intent and append_reconciliation_snapshot; Store the method
--   initialize and the two methods that read. A step of the file is one appending call (Step, Reach).
-- * Reconciliation models src/kraken_knight/reconciliation.py: Codes and Records its enumerations
--   and records, Balances, Orders, Fees, Hints and Account the phases of `reconcile_account`, each of
--   which returns the discrepancies that it adds, and Report the report. It reads what Collection
--   translates, and the report is what Ledger stores as a snapshot.
-- * Collection models the pure part of src/kraken_knight/reconcile_job.py: Gates the operational
--   gates, Merge the merging of pages, Translate the passage to the records of Reconciliation,
--   Replay `_ledger_balances_match`, Totals the totals of orders and the funding entries, Fees
--   `_linked_trade_fees`, and Access what the read key may do.
-- * Config models the settings of src/kraken_knight/config.py: their validation and, in Environment,
--   their reading from the environment. Its RunMode is in Ledger, which stores it.
-- * Base has what the parts share: tests on numbers, lists, integers, the result of a call that may
--   raise (Result, whose Error is the exception's class and message), and rules for what a block of
--   such calls ensures (Ensures).
--
-- A `datetime` is a count of microseconds from 0001-01-01 in UTC, so the arithmetic on times is that
-- of natural numbers; Python's upper bound on years is modelled where a timestamp is read. Python's
-- integers are unbounded, and decimals are rounded at the default precision; the exponent limits
-- Emin and Emax of the default context are not modelled, which prices beyond any market would reach.
-- Loops are structural recursion over the list that the code iterates. Only the two `while` loops of
-- `_ledger_balances_match` run on fuel, as many rounds as there are entries, each of which takes an
-- entry away; the end of the fuel is a result of its own (exhausted), and is never reached.
--
-- Parameters: the floating point functions of `math` and `statistics` (Strategy.Types.Floats) and
-- the SHA-256 digests of canonical JSON (Digests, ContentIds); Python's methods on `str` that go by
-- the tables of Unicode (Strings); JSON text and the texts of times (Codec). What a theorem relies
-- on of them is among its hypotheses.
--
-- SQLite is modelled by what its documentation says of the statements of the ledger: an ignored
-- insertion, an immediate foreign key, and the texts of the schema objects. One method is one
-- transaction, so that a call that raises leaves the tables as they were; locks and disk errors
-- are not modelled.
--
-- Not modelled: transport and files; the logging and drawing parts; the sequence of calls of the
-- reconcile job, the daily job and the historical studies. Of `run_backtest` the loop with
-- execution references, the equity curve, the benchmark and the performance metrics are not
-- modelled; the identifier of a risk event is left out, and the text of its action is represented by
-- what it is made of.
pub mod Base
pub mod Decimals
pub mod Domain
pub mod MarketData
pub mod Strategy
pub mod Backtest
pub mod Collection
pub mod Config
pub mod Kraken
pub mod Ledger
pub mod Reconciliation
