-- ===== src/Storage.antt =====
-- src/core/sqlite_storage.cc: the rules by which a value is stored. The table of the database is a list
-- of rows, one for each id, and SQL's part is that a row is inserted or replaces the one of its id.
-- Whether a value is valid, and its id, come from its signature and keys, and are fields.
pub mod Newer
mod Tests
use boson_native.Prelude.{
  ℕ, ◌+◌, ◌-◌, ◌*◌, ◌%◌, ◌^◌, Bool, true, false, not, ◌&&◌, ◌||◌, Option, none, some, List, [], ◌∷◌,
  if◌then◌else◌,
}
use boson_native.Prelude.Int.{ℤ, pos, int_eq, int_lt, signed64}
use boson_native.Id.{NodeId, id_eq}

pub record Value : Type 0 where
  pub id : NodeId
  pub is_mutable : Bool
  pub is_valid : Bool
  pub has_private_key : Bool
  pub sequence_number : ℤ
  pub content : List ℕ

-- A row of the table.
pub record Row : Type 0 where
  pub value : Value
  pub timestamp : ℕ

abbrev pub max_value_age : ℕ
max_value_age = 120 * 60 * 1000

unfoldable pub get_row : NodeId → List Row → Option Row
get_row id [] = none
get_row id (r ∷ rs) = let rest = get_row id rs in if id_eq r.value.id id then some r else rest

-- The value of a row that is not too old. Both times are bound to the statements as `sqlite3_int64`.
unfoldable pub get_value : ℕ → NodeId → List Row → Option Value
get_value now id rs = elim (get_row id rs) [
  | none ↦ none
  | some r ↦
      let when = (now + 2 ^ 64 - max_value_age) % 2 ^ 64 in
      if int_lt (signed64 r.timestamp) (signed64 when) then none else some r.value
]

-- The row of the value's id is replaced, or one is added.
pub upsert : Row → List Row → List Row
upsert r [] = r ∷ []
upsert r (x ∷ rs) =
    let rest = upsert r rs in if id_eq x.value.id r.value.id then r ∷ rs else x ∷ rest

-- The exceptions that an old mutable value leads to; a negative expected number is none.
unfoldable pub is_refused : Value → ℤ → Value → Bool
is_refused v expected old =
    old.is_mutable
    && (not v.is_mutable
        || (old.has_private_key && not v.has_private_key)
        || int_lt v.sequence_number old.sequence_number
        || (not (int_lt expected (pos 0))
            && not (int_lt old.sequence_number (pos 0))
            && not (int_eq old.sequence_number expected)))

-- `putValue`; an exception is `none`.
pub put_value : ℕ → Value → ℤ → List Row → Option (List Row)
put_value now v expected rs =
    let row : Row = record { value = v; timestamp = now } in
    let stored : Option (List Row) = elim (get_value now v.id rs) [
      | none ↦ some (upsert row rs)
      | some old ↦ if is_refused v expected old then none else some (upsert row rs)
    ] in
    if v.is_mutable && not v.is_valid then none else stored
