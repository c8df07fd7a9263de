-- ===== src/Wire.antt =====
-- The Signal message in protobuf wire format: apps/persist/app.py and apps/portal-api/app.py.
pub mod Bits
pub mod Varint
pub mod Utf8
pub mod Signal
pub mod Parse
pub mod Portal
pub mod Agreement
pub mod RoundTrip
pub mod Replay
pub mod Tests
