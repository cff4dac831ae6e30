-- ===== src/AppCheck.antt =====
-- crates/firebase-app-check/src: the refresher of tokens.
pub mod Refresher
mod Tests
