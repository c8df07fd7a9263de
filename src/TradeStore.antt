-- ===== src/TradeStore.antt =====
-- scripts/_tradestore.py: the store of signals, orders and settings.
pub mod Db
pub mod Orders
pub mod Signals
pub mod Siblings
pub mod Settings
pub mod Tests
