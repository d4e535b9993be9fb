-- ===== src/Tx.antt =====
-- crates/hatp-tx: the transaction manager, its serializable snapshot isolation checks, and the
-- hook through which the engine calls it.
pub mod Types
pub mod Conflict
pub mod Cahill
pub mod Manager
pub mod Hook
