-- ===== src/Firestore/Error.antt =====
-- crates/firebase-firestore/src/error.rs, and the two tables that map gRPC status codes to it.
-- Messages are for people and are left out: an error is its code.
use firebase_rs_sdk.Common.{
  ℕ, ◌≡◌, refl, ◌≢◌, ◌↔◌, ◌⊎◌, inl, inr, Bool, true, false, arith, if◌then◌else◌,
}
use firebase_rs_sdk.Common.Ord.{◌==◌, nat_ord}
use firebase_rs_sdk.Common.Text.{Text, codes}

pub data FirestoreErrorCode : Type 0 where
  invalid_argument missing_project_id internal not_found : FirestoreErrorCode
  permission_denied unauthenticated unavailable deadline_exceeded : FirestoreErrorCode
  resource_exhausted aborted failed_precondition already_exists : FirestoreErrorCode

pub data FirestoreResult {ℓ} (A : Type ℓ) : Type ℓ where
  ok : A → FirestoreResult A
  err : FirestoreErrorCode → FirestoreResult A

-- `if b { return Err(e) }`
abbrev pub fail_if : Bool → FirestoreErrorCode → FirestoreResult (Unit {0})
fail_if false code = ok tt
fail_if true code = err code

-- the question mark: an error returns, a value goes on
infixl 5 ◌>>=◌ ◌>>◌
abbrev pub ◌>>=◌ {ℓ κ} :
    {A : Type ℓ} {B : Type κ} → FirestoreResult A → (A → FirestoreResult B) → FirestoreResult B
err code >>= next = err code
ok a >>= next = next a

abbrev pub ◌>>◌ {κ} :
    {A : Type κ} → FirestoreResult (Unit {0}) → FirestoreResult A → FirestoreResult A
check >> next = check >>= λ _. next

as_str : FirestoreErrorCode → Text
as_str invalid_argument = codes "firestore/invalid-argument"
as_str missing_project_id = codes "firestore/missing-project-id"
as_str internal = codes "firestore/internal"
as_str not_found = codes "firestore/not-found"
as_str permission_denied = codes "firestore/permission-denied"
as_str unauthenticated = codes "firestore/unauthenticated"
as_str unavailable = codes "firestore/unavailable"
as_str deadline_exceeded = codes "firestore/deadline-exceeded"
as_str resource_exhausted = codes "firestore/resource-exhausted"
as_str aborted = codes "firestore/aborted"
as_str failed_precondition = codes "firestore/failed-precondition"
as_str already_exists = codes "firestore/already-exists"

-- the table of the gRPC listen stream; a negative `i32` code falls to the default as any other does
unfoldable pub map_status_code : ℕ → FirestoreErrorCode
map_status_code code =
    if code == 3
    then invalid_argument
    else if code == 4
    then deadline_exceeded
    else if code == 5
    then not_found
    else if code == 6
    then already_exists
    else if code == 7
    then permission_denied
    else if code == 8
    then resource_exhausted
    else if code == 9
    then failed_precondition
    else if code == 10
    then aborted
    else if code == 14
    then unavailable
    else if code == 16
    then unauthenticated
    else internal

-- the table of the JSON watch stream
unfoldable pub map_grpc_status : ℕ → FirestoreErrorCode
map_grpc_status code =
    if code == 3
    then invalid_argument
    else if code == 4
    then deadline_exceeded
    else if code == 5
    then not_found
    else if code == 7
    then permission_denied
    else if code == 8
    then resource_exhausted
    else if code == 13
    then internal
    else if code == 14
    then unavailable
    else if code == 16
    then unauthenticated
    else internal

-- The two tables differ at the codes 6 (already exists), 9 (failed precondition) and 10 (aborted),
-- and at no other.
pub status_tables_differ :
    (code : ℕ)
    → (map_grpc_status code ≢ map_status_code code) ↔ ((code ≡ 6) ⊎ ((code ≡ 9) ⊎ (code ≡ 10)))
unfolding map_grpc_status map_status_code
status_tables_differ code = (λ h. ground arith, λ h. ground arith)

-- Inversion of a chain that succeeded: its first call returned some `a`, and the rest succeeded on it.
pub >>=-eq-ok {ℓ κ} :
    {A : Type ℓ} {B : Type κ} (first : FirestoreResult A) (rest : A → FirestoreResult B) {b : B}
    → (first >>= rest) ≡ ok b
    → (value : A) × (first ≡ ok value) × (rest value ≡ ok b)
>>=-eq-ok (err code) rest h = cc
>>=-eq-ok (ok value) rest h = (value, refl, h)

pub ok_inj {ℓ} : {A : Type ℓ} {a b : A} → ok a ≡ ok b → a ≡ b
ok_inj e = cc

-- Either a call succeeds or it fails.
pub result-cases {ℓ} :
    {A : Type ℓ} (m : FirestoreResult A)
    → ((a : A) × (m ≡ ok a)) ⊎ ((e : FirestoreErrorCode) × (m ≡ err e))
result-cases (ok a) = inl (a, refl)
result-cases (err e) = inr (e, refl)

pub err-ne-ok {ℓ} : {A : Type ℓ} {c : FirestoreErrorCode} {a : A} → err c ≡ ok a → ⊥
err-ne-ok e = cc
