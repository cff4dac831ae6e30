-- ===== src/Database/PushId.antt =====
-- crates/firebase-database/src/push_id.rs. The random digits are a parameter.
pub mod Order
use firebase_rs_sdk.Common.{
  ℕ, zero, suc, ◌/◌, ◌%◌, Bool, true, false, Option, none, some, List, [], ◌∷◌, ◌++◌, get_elem?,
  unwrap_or, if◌then◌else◌,
}
use firebase_rs_sdk.Common.Ord.{◌==◌, nat_ord}
use firebase_rs_sdk.Common.Text.{Text, codes}

abbrev pub push_chars : Text
push_chars = codes "-0123456789ABCDEFGHIJKLMNOPQRSTUVWXYZ_abcdefghijklmnopqrstuvwxyz"

pub record PushState : Type 0 where
  pub last_push_time : ℕ
  pub last_rand_chars : List ℕ

-- an index into the table; every digit is below 64
abbrev pub push_char : ℕ → ℕ
push_char i = unwrap_or 0 (get_elem? push_chars i)

unfoldable pub chars : List ℕ → Text
chars [] = []
chars (d ∷ ds) = push_char d ∷ chars ds

-- the loop over the slots from the last to the first: the digits of `now`
unfoldable pub timestamp_digits : ℕ → ℕ → List ℕ
timestamp_digits zero now = []
timestamp_digits (suc n) now = timestamp_digits n (now / 64) ++ now % 64 ∷ []

unfoldable pub all_zero : List ℕ → List ℕ
all_zero [] = []
all_zero (_ ∷ ds) = 0 ∷ all_zero ds

-- The loop from the last digit on: a digit 63 becomes 0 and carries to the one before it; `none`: there
-- is none to carry to.
unfoldable pub carry : List ℕ → Option (List ℕ)
unfolding all_zero
carry [] = none
carry (d ∷ ds) =
    let here = if d == 63 then none else some (suc d ∷ all_zero ds) in
    elim (carry ds) [ some next ↦ some (d ∷ next) | none ↦ here ]

abbrev pub bump : List ℕ → List ℕ
bump ds = unwrap_or (all_zero ds) (carry ds)

unfoldable pub next_push_id : (random : List ℕ) → ℕ → PushState → Text × PushState
unfolding carry chars timestamp_digits
next_push_id random now state =
    let digits = if now == state.last_push_time then bump state.last_rand_chars else random in
    (
      chars (timestamp_digits 8 now ++ digits),
      record { last_push_time = now; last_rand_chars = digits },
    )
