-- ===== src/Firestore.antt =====
-- crates/firebase-firestore: one module for each part of the crate that is modelled.
pub mod Error
pub mod Model
pub mod F64
pub mod Value
pub mod Operations
pub mod Snapshot
pub mod Query
pub mod QueryEvaluator
pub mod Datastore
pub mod InMemory
pub mod Reference
pub mod Transaction
pub mod WriteBatch
pub mod Watch
pub mod Tests
