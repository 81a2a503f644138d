-- ===== src/Runtime/Onchain.antt =====
-- lib.rs with mod.rs and merkle.rs: who revokes and suspends, by the blocks that a node runs.
