-- ===== src/Firestore/QueryEvaluator/Results.antt =====
-- What `apply_query_to_documents` of query_evaluator.rs returns of its candidates.
use mathlib.Core.List.{Perm}
use mathlib.Core.Path.{subst}
use firebase_rs_sdk.Common.{
  ℕ, ◌-◌, ◌≤◌, Ordering, gt, Bool, true, ◌&&◌, Option, Bool-cases, inl, inr, none, some, List, [],
  ◌∷◌, ◌≡◌, ◌≢◌, refl, arith, all, keep, length, All, ltb,
}
use firebase_rs_sdk.Common.Keep.{
  keep-Perm, keep-keep, keep-and, keep-All, keep-kept, take-All, drop-All, length-take, length-drop,
  Pairwise, Part, Part-refl, take-Part, drop-Part, take-Pairwise, drop-Pairwise, keep-Pairwise,
  IsSorted-Pairwise,
}
use firebase_rs_sdk.Common.Ord.{reverse, then_with}
use firebase_rs_sdk.Common.Sort.{sort_by, sort_by-All, sort_by-perm, sort_by-IsSorted}
use firebase_rs_sdk.Firestore.Snapshot.{DocumentSnapshot, exists}
use firebase_rs_sdk.Firestore.Value.Order.{compare_values}
use firebase_rs_sdk.Firestore.Value.Order.Laws.{compare_values_swap}
use firebase_rs_sdk.Firestore.Query.{OrderBy, LimitType, first, last, OrderDirection}
use firebase_rs_sdk.Firestore.Query.Definition.{QueryDefinition}
use firebase_rs_sdk.Firestore.QueryEvaluator.{
  document_satisfies, compare_snapshots, directed, or_null, get_field_value, in_start, in_end,
  cut_first, cut_last, limited, matching, apply_query_to_documents,
}

-- what a document has to meet, in one test
unfoldable pub is_result : QueryDefinition → DocumentSnapshot → Bool
is_result d s = ((exists s && all (document_satisfies s) d.filters) && in_start d s) && in_end d s

-- the results before the limit
abbrev unlimited : QueryDefinition → QueryDefinition
unlimited d = record d { limit = none }

directed-reverse :
    (o : OrderDirection) (c : Ordering) → directed o (reverse c) ≡ reverse (directed o c)
directed-reverse o c = ground arith

then_with-reverse : (a b : Ordering) → then_with (reverse a) (reverse b) ≡ reverse (then_with a b)
then_with-reverse a b = ground arith

pub compare_snapshots_swap :
    (orders : List OrderBy) (a b : DocumentSnapshot)
    → compare_snapshots orders b a ≡ reverse (compare_snapshots orders a b)
unfolding compare_snapshots
compare_snapshots_swap [] a b = refl
compare_snapshots_swap (o ∷ os) a b =
    rw
      (
        compare_values_swap (or_null (get_field_value a o.field))
            (or_null (get_field_value b o.field)),
        directed-reverse o.direction (
            compare_values (or_null (get_field_value a o.field))
              (or_null (get_field_value b o.field))),
        compare_snapshots_swap os a b,
      )
      (then_with-reverse _ _)

matching-keep :
    (d : QueryDefinition) (documents : List DocumentSnapshot)
    → keep (in_end d) (keep (in_start d) (matching d documents)) ≡ keep (is_result d) documents
unfolding matching is_result
matching-keep d documents =
    rw
      (
        keep-keep (λ s. all (document_satisfies s) d.filters) exists documents,
        keep-keep (in_start d) (λ s. exists s && all (document_satisfies s) d.filters) documents,
        keep-keep (in_end d)
            (λ s. (exists s && all (document_satisfies s) d.filters) && in_start d s) documents,
      )
      refl

sorted : QueryDefinition → List DocumentSnapshot → List DocumentSnapshot
sorted d documents =
    keep (in_end d)
      (keep (in_start d) (sort_by (compare_snapshots d.result_order_by) (matching d documents)))

-- Sorting only permutes, so the tests after it keep what they keep of the candidates.
sorted-Perm :
    (d : QueryDefinition) (documents : List DocumentSnapshot)
    → Perm (sorted d documents) (keep (is_result d) documents)
unfolding sorted
sorted-Perm d documents =
    subst (λ l. Perm (sorted d documents) l) (matching-keep d documents)
      (keep-Perm (in_end d) (keep-Perm (in_start d) (sort_by-perm _ _)))

module _ {κ} (P : DocumentSnapshot → Type κ) where
  cut_first-All : (n : ℕ) (docs : List DocumentSnapshot) → All P docs → All P (cut_first n docs)
  unfolding cut_first
  cut_first-All n docs h = elim (Bool-cases (ltb n (length docs))) [
    | inl e ↦ rw e (take-All P n docs h)
    | inr e ↦ rw e h
  ]

  cut_last-All : (n : ℕ) (docs : List DocumentSnapshot) → All P docs → All P (cut_last n docs)
  unfolding cut_last
  cut_last-All n docs h = elim (Bool-cases (ltb n (length docs))) [
    | inl e ↦ rw e (drop-All P (length docs - n) docs h)
    | inr e ↦ rw e h
  ]

  limited-All :
      (limit : Option ℕ) (t : LimitType) (docs : List DocumentSnapshot)
      → All P docs
      → All P (limited limit t docs)
  unfolding limited
  limited-All none _ docs h = h
  limited-All (some n) first docs h = cut_first-All n docs h
  limited-All (some n) last docs h = cut_last-All n docs h

limited-length :
    (n : ℕ) (t : LimitType) (docs : List DocumentSnapshot) → length (limited (some n) t docs) ≤ n
unfolding limited cut_first cut_last
limited-length n first docs = ground (arith, length-take n docs)
limited-length n last docs = ground (arith, length-drop (length docs - n) docs)

limited-Part :
    (limit : Option ℕ) (t : LimitType) (docs : List DocumentSnapshot)
    → Part (limited limit t docs) docs
unfolding limited cut_first cut_last
limited-Part none _ docs = Part-refl docs
limited-Part (some n) first docs = elim (Bool-cases (ltb n (length docs))) [
  | inl e ↦ rw e (take-Part n docs)
  | inr e ↦ rw e (Part-refl docs)
]
limited-Part (some n) last docs = elim (Bool-cases (ltb n (length docs))) [
  | inl e ↦ rw e (drop-Part (length docs - n) docs)
  | inr e ↦ rw e (Part-refl docs)
]

-- the documents that the filters and bounds admit, in some order, with what the limit leaves of them
abbrev pub IsChosen : QueryDefinition → List DocumentSnapshot → List DocumentSnapshot → Type 0
IsChosen d documents results =
    (admitted : List DocumentSnapshot) × Perm admitted (keep (is_result d) documents)
    × Part results admitted

results-All :
    (d : QueryDefinition) (documents : List DocumentSnapshot)
    → All (λ s. is_result d s ≡ true) (apply_query_to_documents d documents)
unfolding apply_query_to_documents sorted is_result matching
results-All d documents =
    limited-All (λ s. is_result d s ≡ true) d.limit d.limit_type (sorted d documents)
      (keep-and (λ s. (exists s && all (document_satisfies s) d.filters) && in_start d s) (in_end d)
        _
        (keep-and (λ s. exists s && all (document_satisfies s) d.filters) (in_start d) _
          (sort_by-All (λ s. (exists s && all (document_satisfies s) d.filters) ≡ true) _ _
            (keep-and exists (λ s. all (document_satisfies s) d.filters) _
              (keep-kept exists documents)))))

-- Every result exists, satisfies all of the definition's filters, and is neither before the start bound
-- nor after the end bound; and, with or without a limit, the results are what is left of the candidates
-- that do so, in some order: each is a candidate, and none comes more often than it is one.
pub apply_query_to_documents-All :
    (d : QueryDefinition) (documents : List DocumentSnapshot)
    → All (λ s. is_result d s ≡ true) (apply_query_to_documents d documents)
      × IsChosen d documents (apply_query_to_documents d documents)
unfolding apply_query_to_documents sorted
apply_query_to_documents-All d documents = (
  results-All d documents,
  (
    sorted d documents,
    sorted-Perm d documents,
    limited-Part d.limit d.limit_type (sorted d documents),
  ),
)

-- With a limit of n, of either limit type, there are at most n results.
pub length-apply_query_to_documents :
    (d : QueryDefinition) (documents : List DocumentSnapshot) (n : ℕ)
    → d.limit ≡ some n
    → length (apply_query_to_documents d documents) ≤ n
unfolding apply_query_to_documents
length-apply_query_to_documents d documents n h = rw h (limited-length n d.limit_type _)

-- Without a limit the results are, up to order, all candidates that exist, satisfy the filters and
-- lie between the bounds, each as often as it is a candidate.
pub apply_query_to_documents-Perm :
    (d : QueryDefinition) (documents : List DocumentSnapshot)
    → d.limit ≡ none
    → Perm (apply_query_to_documents d documents) (keep (is_result d) documents)
unfolding apply_query_to_documents limited sorted is_result
apply_query_to_documents-Perm d documents h = rw h (sorted-Perm d documents)

limited-Pairwise :
    (cmp : DocumentSnapshot → DocumentSnapshot → Ordering) (limit : Option ℕ) (t : LimitType)
    (docs : List DocumentSnapshot)
    → Pairwise cmp docs
    → Pairwise cmp (limited limit t docs)
unfolding limited cut_first cut_last
limited-Pairwise cmp none _ docs h = h
limited-Pairwise cmp (some n) first docs h = ground (arith, take-Pairwise cmp n docs h)
limited-Pairwise cmp (some n) last docs h =
    ground (arith, drop-Pairwise cmp (length docs - n) docs h)

-- The results stand in the definition's result order, no result above a later one, where that order
-- is transitive on the candidates: `P` holds of each of them, and any three documents with `P` are
-- ordered transitively. (The comparison of values is not transitive on every three values, and the
-- source's sort specifies no order then.)
pub apply_query_to_documents-Pairwise {ℓ} :
    (P : DocumentSnapshot → Type ℓ) (d : QueryDefinition) (documents : List DocumentSnapshot)
    → All P documents
    → ((a b c : DocumentSnapshot)
        → P a
        → P b
        → P c
        → compare_snapshots d.result_order_by a b ≢ gt
        → compare_snapshots d.result_order_by b c ≢ gt
        → compare_snapshots d.result_order_by a c ≢ gt)
    → Pairwise (compare_snapshots d.result_order_by) (apply_query_to_documents d documents)
unfolding apply_query_to_documents sorted matching
apply_query_to_documents-Pairwise P d documents h trans =
    limited-Pairwise (compare_snapshots d.result_order_by) d.limit d.limit_type (sorted d documents)
      (keep-Pairwise _ (in_end d) _ (
        keep-Pairwise _ (in_start d) _ (
          IsSorted-Pairwise _ P trans _
            (sort_by-All P _ _ (keep-All P _ _ (keep-All P exists documents h)))
            (sort_by-IsSorted _ (compare_snapshots_swap d.result_order_by) _))))
