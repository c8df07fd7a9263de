-- ===== src/Portal.antt =====
-- apps/portal-api/app.py: accounts, licenses and the export of the journal.
pub mod Tables
pub mod Licenses
pub mod Csv
pub mod Tests
