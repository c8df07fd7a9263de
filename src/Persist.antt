-- ===== src/Persist.antt =====
-- apps/persist/app.py: the worker that stores what passes on the message bus.
pub mod Tables
pub mod Signals
pub mod Fills
pub mod Events
pub mod Handlers
pub mod Tests
