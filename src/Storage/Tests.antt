-- ===== src/Storage/Tests.antt =====
-- The theorem on values at a concrete storage.
use boson_native.Prelude.{ℕ, ◌+◌, ◌≤◌, true, false, some, List, [], ◌∷◌, ◌≡◌, refl, arith}
use boson_native.Prelude.Int.{ℤ, pos, negsuc}
use boson_native.Samples.{sample_id, sample_id-IsId}
use boson_native.Id.{compare_to}
use boson_native.Storage.{Value, Row, get_row, get_value}
use boson_native.Storage.Newer.{IsNewer, IsWithin, puts, puts-IsNewer}

abbrev value : ℤ → Value
value seq = record {
  id = sample_id 9;
  is_mutable = true;
  is_valid = true;
  has_private_key = false;
  sequence_number = seq;
  content = 1 ∷ 2 ∷ [];
}

abbrev row : Row
row = record { value = value (pos 3); timestamp = 9000000 }

held : get_row (sample_id 9) (row ∷ []) ≡ some row
unfolding get_row compare_to
held = refl

within : (n : ℕ) → n ≤ 1000 → IsWithin 9000000 (9000000 + n)
within n h = record { from = omega arith; to = omega arith; word = omega arith }

abbrev history : List (ℕ × (Value × ℤ))
history = (9000010, (value (pos 5), negsuc 0)) ∷ (9000020, (value (pos 4), negsuc 0)) ∷ []

puts-IsNewer_example :
    (v : Value) × (get_value 9000030 (sample_id 9) (puts history (row ∷ [])) ≡ some v)
    × IsNewer (value (pos 3)) v
puts-IsNewer_example =
    let id = sample_id-IsId 9 (omega arith) in
    puts-IsNewer history row (row ∷ []) 9000030
      ((within 10 (omega arith), id), ((within 20 (omega arith), id), tt)) (within 30 (omega arith))
      id (id, tt) held refl
