-- ===== src/Ledger.antt =====
-- The Ledger engine (engines/ledger): the hot tier of spend windows and holds.
pub mod Hot
