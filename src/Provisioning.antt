-- ===== src/Provisioning.antt =====
-- The provisioning engine (engines/provisioning) with the allocation evaluator
-- (engines/enforcement/allocation-eval.ts): one org's budget and its agents' float.
pub mod Book
