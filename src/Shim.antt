-- ===== src/Shim.antt =====
-- scripts/ea_shim.py: from a signal to the orders of a MetaTrader 5 terminal.
pub mod Floats
pub mod Terminal
pub mod Params
pub mod Sent
pub mod Sizing
pub mod Orders
pub mod Outcome
pub mod Execute
pub mod Close
pub mod Watched
pub mod Monitor
pub mod Session
pub mod Tests
