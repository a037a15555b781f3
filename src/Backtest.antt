-- ===== src/Backtest.antt =====
-- src/kraken_knight/backtest.py
mod Types
mod Pricing
mod Sizing
mod Execution
mod Risk
mod References
mod Run
pub mod Holdings
pub mod Gates
pub mod Latch
pub mod Rearm
pub mod Rolling
pub mod Schedule
pub mod Soundness
mod Tests
mod RiskTests
mod ScheduleTests
mod RunTests
pub use Types.*
