-- ===== src/Storage.antt =====
-- crates/firebase-storage: one module for each part of the crate that is modelled.
pub mod Upload
mod Tests
