-- ===== src/Firestore/Model.antt =====
-- crates/firebase-firestore/src/model: paths, document keys and timestamps.
pub mod ResourcePath
pub mod FieldPath
pub mod DocumentKey
pub mod Timestamp
