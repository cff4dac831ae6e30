-- ===== src/Firestore/Watch/TargetState.antt =====
-- `TargetState` of crates/firebase-firestore/src/remote/watch_change_aggregator.rs
use firebase_rs_sdk.Common.{
  ◌-◌, ℕ, Bool, true, false, not, ◌&&◌, Option, none, some, [], if◌then◌else◌,
}
use firebase_rs_sdk.Common.BTreeMap.{BTreeSet}
use firebase_rs_sdk.Firestore.Model.DocumentKey.{DocumentKey, key_ord}
use firebase_rs_sdk.Firestore.Watch.{Token, TargetChange, is_nil}

pub record TargetState : Type 0 where
  pub pending_responses : ℕ
  pub resume_token : Option Token
  pub current : Bool
  pub added : BTreeSet DocumentKey
  pub modified : BTreeSet DocumentKey
  pub removed : BTreeSet DocumentKey
  pub dirty : Bool

abbrev pub new : TargetState
new = record {
  pending_responses = 1;
  resume_token = none;
  current = false;
  added = [];
  modified = [];
  removed = [];
  dirty = false;
}

abbrev pub reset : TargetState → TargetState
reset s = record s { added = []; modified = []; removed = []; current = false; dirty = true }

abbrev pub is_nonempty : Option Token → Bool
is_nonempty none = false
is_nonempty (some token) = not (is_nil token)

abbrev pub update_resume_token : Option Token → TargetState → TargetState
update_resume_token token s =
    if is_nonempty token then record s { resume_token = token; dirty = true } else s

abbrev pub mark_dirty : TargetState → TargetState
mark_dirty s = record s { dirty = true }

-- usize::saturating_sub(1)
abbrev pub answered : TargetState → TargetState
answered s = record s { pending_responses = s.pending_responses - 1 }

abbrev pub has_changes : TargetState → Bool
has_changes s = not (not s.dirty && is_nil s.added && is_nil s.modified && is_nil s.removed)

abbrev pub changes : TargetState → TargetChange
changes s = record {
  resume_token = s.resume_token;
  current = s.current;
  added_documents = s.added;
  modified_documents = s.modified;
  removed_documents = s.removed;
}

-- The changes, if any, and the state that they are taken from.
unfoldable pub take_changes : TargetState → Option TargetChange × TargetState
take_changes s =
    if has_changes s
    then (some (changes s), record s { added = []; modified = []; removed = []; dirty = false })
    else (none, s)
