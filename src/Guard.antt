-- ===== src/Guard.antt =====
-- The casper-guard engine (engines/casper-guard): intents, policy evaluation, the decision store,
-- authorization and reconciliation.
pub mod Intent
pub mod Evaluate
pub mod Store
pub mod Authorize
pub mod Reconcile
pub mod Stored
pub mod Settlement
mod Tests
