-- ===== src/Firestore/Tests.antt =====
-- Concrete inputs of the crate's functions.
mod Model
mod Writes
mod Transactions
mod Watch
mod Queries
