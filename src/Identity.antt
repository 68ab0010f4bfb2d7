-- ===== src/Identity.antt =====
-- src/engines/identity: who calls, in which org and with which role, and what the members of an org
-- may do to it.
pub mod Roles
pub mod Tables
pub mod Invitations
pub mod Principal
pub mod Handlers
pub mod Members
mod Tests
