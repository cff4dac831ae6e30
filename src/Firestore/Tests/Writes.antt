-- ===== src/Firestore/Tests/Writes.antt =====
-- Writes, their encoding and the in-memory datastore at concrete inputs.
use firebase_rs_sdk.Common.{◌≡◌, inl, refl, arith, false, none, some, List, [], ◌∷◌, All, length}
use firebase_rs_sdk.Common.Int.{pos, wrap_i64, ◌+ℤ◌}
use firebase_rs_sdk.Common.Ord.{cmp_list}
use firebase_rs_sdk.Common.Text.{Text, codes, join}
use firebase_rs_sdk.Common.BTreeMap
use firebase_rs_sdk.Firestore.Error.{ok, err, not_found}
use firebase_rs_sdk.Firestore.F64.{F64}
use firebase_rs_sdk.Firestore.Model.FieldPath.{FieldPath}
use firebase_rs_sdk.Firestore.Model.FieldPath
use firebase_rs_sdk.Firestore.Model.DocumentKey.{DocumentKey}
use firebase_rs_sdk.Firestore.Model.ResourcePath.{canonical_string}
use firebase_rs_sdk.Firestore.Model.Timestamp.{Timestamp}
use firebase_rs_sdk.Firestore.Model.Timestamp
use firebase_rs_sdk.Firestore.InMemory.Transforms.{apply_field_transforms}
use firebase_rs_sdk.Firestore.Value.{Value, integer, map, sentinel, Fields, end, field}
use firebase_rs_sdk.Firestore.Value
use firebase_rs_sdk.Firestore.Value.MapValue.{insert, get_from_segments}
use firebase_rs_sdk.Firestore.Operations
use firebase_rs_sdk.Firestore.Operations.Paths.{set_value_at_segments, remove_segments}
use firebase_rs_sdk.Firestore.Operations.Paths.Laws.{set_value_at_segments_lem, remove_segments_lem}
use firebase_rs_sdk.Firestore.Operations.Sanitize.{Found, sanitize_for_write}
use firebase_rs_sdk.Firestore.Operations.Sanitize.Laws.{IsSane, sanitize_for_write-IsSane}
use firebase_rs_sdk.Firestore.Operations.Encode.{EncodedSetData}
use firebase_rs_sdk.Firestore.Datastore.{
  WriteOperation, ConditionalWrite, Precondition, conditional_key, precondition, CommitResult,
}
use firebase_rs_sdk.Firestore.InMemory.{
  new, put, apply_write, commit, commit_conditional, check_precondition,
}
use firebase_rs_sdk.Firestore.InMemory.Laws.{IsConsistent, entry, apply_write-other}
use firebase_rs_sdk.Firestore.InMemory.Commits.{
  commits-IsConsistent, commit_conditional-ok, commit_conditional-not-atomic,
}

abbrev path : List Text
path = codes "address" ∷ codes "city" ∷ []

abbrev one : Value
one = integer (pos 1)

abbrev population : Fields
population = field (codes "population") one end

set_value_at_segments_lem_example :
    (get_from_segments path (set_value_at_segments path one population) ≡ some one)
    × (get_from_segments (codes "population" ∷ []) (set_value_at_segments path one population)
        ≡ get_from_segments (codes "population" ∷ []) population)
set_value_at_segments_lem_example =
    set_value_at_segments_lem (codes "address") (codes "city" ∷ []) (codes "population" ∷ []) one
      population (inl (λ e. ground (arith, e)))

remove_segments_lem_example :
    (get_from_segments path (remove_segments path population) ≡ none)
    × (get_from_segments (codes "population" ∷ []) (remove_segments path population)
        ≡ get_from_segments (codes "population" ∷ []) population)
remove_segments_lem_example =
    remove_segments_lem (codes "address") (codes "city" ∷ []) (codes "population" ∷ []) population
      (inl (λ e. ground (arith, e)))

-- a plain field and a server timestamp
abbrev stamped : Fields
stamped = field (codes "a") one (field (codes "t") (sentinel Value.server_timestamp) end)

abbrev t_path : FieldPath
t_path = record { segments = codes "t" ∷ [] }

abbrev t_found : Found
t_found = record {
  transforms = record { field_path = t_path; operation = Operations.server_timestamp } ∷ [];
  sentinel_paths = t_path ∷ [];
  deleted_paths = [];
}

sanitized : sanitize_for_write stamped ≡ ok (field (codes "a") one end, t_found)
unfolding sanitize_for_write FieldPath.new insert
sanitized = refl

sanitize_for_write-IsSane_example : IsSane (field (codes "a") one end, t_found)
sanitize_for_write-IsSane_example =
    sanitize_for_write-IsSane stamped (field (codes "a") one end, t_found) sanitized

abbrev encoded : EncodedSetData
encoded = record {
  fields = field (codes "a") one end;
  mask = some ((record { segments = codes "a" ∷ [] }) ∷ t_path ∷ []);
  transforms = t_found.transforms;
}

abbrev now : Timestamp
now = record { seconds = pos 1700000000; nanos = pos 0 }

-- stands for the addition of doubles
abbrev add : F64 → F64 → F64
add a b = a

abbrev key : Text → DocumentKey
key id = record { path = record { segments = codes "cities" ∷ id ∷ [] } }

abbrev set_sf : WriteOperation
set_sf = WriteOperation.set (key (codes "sf")) population none []

abbrev writes : List ConditionalWrite
writes =
    ConditionalWrite.write set_sf (Precondition.exists false)
    ∷ ConditionalWrite.verify (key (codes "la")) Precondition.none
    ∷ []

new-IsConsistent : IsConsistent new
unfolding BTreeMap.get
new-IsConsistent k = refl

commits-IsConsistent_example :
    IsConsistent (commit now add (set_sf ∷ []) new).0
    × IsConsistent (commit_conditional now add writes new).0
commits-IsConsistent_example =
    commits-IsConsistent now add (set_sf ∷ []) writes new new-IsConsistent

abbrev results : CommitResult
results = record {
  write_results =
      record { update_time = some (record { seconds = pos 1; nanos = pos 0 }) }
      ∷ record { update_time = none }
      ∷ [];
  commit_time = some (record { seconds = pos 1; nanos = pos 0 });
}

committed : (commit_conditional now add writes new).1 ≡ ok results
unfolding commit_conditional BTreeMap.get apply_field_transforms BTreeMap.insert cmp_list
    canonical_string join Timestamp.new wrap_i64 ◌+ℤ◌
committed = refl

commit_conditional-ok_example :
    All (λ w. check_precondition (conditional_key w) (precondition w) new ≡ ok tt) writes
    × (length results.write_results ≡ length writes)
commit_conditional-ok_example = commit_conditional-ok now add writes new results committed

commit_conditional-not-atomic_example :
    commit_conditional now add
      (ConditionalWrite.write set_sf Precondition.none
        ∷ ConditionalWrite.write
            (WriteOperation.update (key (codes "la")) population [] [])
            Precondition.none
        ∷ [])
      new
    ≡ (put (canonical_string (key (codes "sf")).path) population new, err not_found)
unfolding canonical_string join BTreeMap.get
commit_conditional-not-atomic_example =
    commit_conditional-not-atomic now add (key (codes "sf")) (key (codes "la")) population new
      (λ e. ground (arith, e)) refl

apply_write-other_example :
    entry (codes "cities/la") (put (canonical_string (key (codes "sf")).path) population new)
    ≡ entry (codes "cities/la") new
unfolding apply_write apply_field_transforms canonical_string join
apply_write-other_example =
    apply_write-other now add set_sf new
      (put (canonical_string (key (codes "sf")).path) population new) (codes "cities/la") refl
      (λ e. ground (arith, e))
