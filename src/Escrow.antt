-- ===== src/Escrow.antt =====
-- apps/backend/src/services/escrowService.ts: the operations that move a booking's money. The
-- provider is called first and the database is written after, in one transaction. What the
-- provider answers and whether the database commits are given by the environment of a request.
pub mod Records
pub mod Operations
pub mod Rulings
pub mod Liabilities
pub mod Reclassification
pub mod Reclassify
pub mod Failures
pub mod Progress
