-- ===== src/Dashboard.antt =====
-- The operator's controls of scripts/trade_dashboard.py.
pub mod DryRun
pub mod SymbolMap
pub mod Http
pub mod Webhook
pub mod Closed
pub mod Pipeline
pub mod Tests
