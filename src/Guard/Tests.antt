-- ===== src/Guard/Tests.antt =====
-- A small world of the Casper Guard, runs of its operations, and its theorems applied to it.
mod Tables
mod Calls
mod Reconciliations
mod Readers
