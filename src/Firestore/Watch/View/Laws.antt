-- ===== src/Firestore/Watch/View/Laws.antt =====
-- The documents that the views of api/listener.rs hold after an event.
use firebase_rs_sdk.Common.{
  ◌≡◌, ◌∙◌, refl, arith, Bool, true, false, Option, none, some, [], ◌∷◌, unwrap_or, if◌then◌else◌,
}
use firebase_rs_sdk.Common.BTreeMap
use firebase_rs_sdk.Common.BTreeMap.{BTreeMap, BTreeSet, get-insert, get-remove}
use firebase_rs_sdk.Common.Ord.{◌==◌}
use firebase_rs_sdk.Common.Ordered.{IsOrdered, get_below}
use firebase_rs_sdk.Common.Int.{int_ord}
use firebase_rs_sdk.Firestore.Model.DocumentKey.{DocumentKey, key_ord}
use firebase_rs_sdk.Firestore.Watch.{WatchDocument, RemoteEvent}
use firebase_rs_sdk.Firestore.Watch.View.{
  Documents, removed_of, is_reset, update_documents, remove_documents, view_documents,
  view_document,
}

get-update_one :
    (k j : DocumentKey) (u : Option WatchDocument) (docs : Documents)
    → BTreeMap.get k (elim u [ some d ↦ BTreeMap.insert j d docs | none ↦ BTreeMap.remove j docs ])
      ≡ (if k == j then u else BTreeMap.get k docs)
get-update_one k j (some d) docs = get-insert k j d docs
get-update_one k j none docs = get-remove k j docs

get-update_documents :
    (k : DocumentKey) (updates : BTreeMap DocumentKey (Option WatchDocument)) (docs : Documents)
    → IsOrdered updates
    → BTreeMap.get k (update_documents updates docs)
      ≡ unwrap_or (BTreeMap.get k docs) (BTreeMap.get k updates)
unfolding update_documents BTreeMap.get
get-update_documents k [] docs h = refl
get-update_documents k ((j, u) ∷ updates) docs h =
    get-update_documents k updates _ h.1
    ∙ ground (arith, get-update_one k j u docs, key_ord.eq_of_cmp k j, get_below j updates h.0)

get-remove_documents :
    (k : DocumentKey) (removed : BTreeSet DocumentKey) (docs : Documents)
    → BTreeMap.get k (remove_documents removed docs)
      ≡ (if BTreeMap.contains_key k removed then none else BTreeMap.get k docs)
unfolding remove_documents BTreeMap.get
get-remove_documents k [] docs = refl
get-remove_documents k ((j, _) ∷ removed) docs =
    get-remove_documents k removed _ ∙ ground (arith, get-remove k j docs)

kept-reset :
    (k : DocumentKey) (b : Bool) (docs : Documents)
    → BTreeMap.get k (if b then [] else docs) ≡ (if b then none else BTreeMap.get k docs)
unfolding BTreeMap.get
kept-reset k true docs = refl
kept-reset k false docs = refl

-- The two views agree: of each document, the query view holds after an event what the view of that
-- document alone would hold, if the event lists its updates in key order, each key once.
pub get-view_documents :
    (event : RemoteEvent) (docs : Documents) (k : DocumentKey)
    → IsOrdered event.document_updates
    → BTreeMap.get k (view_documents event docs) ≡ view_document event k (BTreeMap.get k docs)
unfolding view_documents view_document
get-view_documents event docs k h =
    rw
      (
        get-remove_documents k (removed_of event)
            (update_documents event.document_updates (if is_reset event then [] else docs)),
        get-update_documents k event.document_updates (if is_reset event then [] else docs) h,
        kept-reset k (is_reset event) docs,
      )
      refl
