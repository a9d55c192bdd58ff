-- ===== src/Prefix/Bits.antt =====
-- The single bits of the ids that the constructor and `splitBranch` make.
use boson_native.Prelude.{
  ℕ, zero, suc, ◌+◌, ◌-◌, ◌/◌, ◌%◌, ◌^◌, ◌≤◌, ◌<◌, Bool, true, false, not, ◌&&◌, ◌||◌, ltb, ◌==◌,
  List, [], ◌∷◌, drop, get_or, compare-cases, ◌≡◌, ◌≢◌, inl, inr, refl, sym, ap, ◌∙◌, arith,
}
use boson_native.Prelude.Int.{pos}
use boson_native.Prelude.Bits.{all_below, all_below_sound}
use boson_native.Id.{NodeId, IsId, byte, set_byte}
use boson_native.Id.Masks.{over_bytes, over_bytes_sound, low_bits}
use boson_native.Id.BitsEqual.{byte-lt}
use boson_native.Id.BitsCopy.{byte-set_byte, set_byte-length, set_byte-bytes}
use boson_native.Id.Bit.{bit}
use boson_native.Prefix.{zero_id, filled, make, set_bit}
use boson_native.Prefix.Cover.{make-IsCopied}
use boson_native.Prefix.Split.{written, written_lem, digit, set_bit-written}

byte-set_byte_other : (bs : NodeId) (i v m : ℕ) → m ≢ i → byte (set_byte bs i v) m ≡ byte bs m
byte-set_byte_other [] i v m h = refl
byte-set_byte_other (b ∷ bs) zero v zero h = absurd (h refl)
byte-set_byte_other (b ∷ bs) zero v (suc m) h = refl
byte-set_byte_other (b ∷ bs) (suc i) v zero h = refl
byte-set_byte_other (b ∷ bs) (suc i) v (suc m) h = byte-set_byte_other bs i v m (λ e. h (ap suc e))

-- A write of bit `k` leaves bit `s` of the byte.
abbrev leaves : Bool → ℕ → ℕ → ℕ → Bool
leaves high s k b = (s == k) || (written high k b / 2 ^ (7 - s) % 2 == b / 2 ^ (7 - s) % 2)

abbrev leaves_all : Bool → Bool
leaves_all high = all_below 8 (λ s. over_bytes (leaves high s))

leaves_high : leaves_all true ≡ true
unfolding over_bytes all_below
leaves_high = refl

leaves_low : leaves_all false ≡ true
unfolding over_bytes all_below
leaves_low = refl

written-other :
    (high : Bool) (s k b : ℕ)
    → s < 8
    → k < 8
    → b < 256
    → s ≢ k
    → written high k b / 2 ^ (7 - s) % 2 ≡ b / 2 ^ (7 - s) % 2
written-other high s k b hs hk hb apart = chosen high
  where
    found : (high : Bool) → leaves_all high ≡ true → leaves high s k b ≡ true
    found high table =
        over_bytes_sound (leaves high s) k b
          (all_below_sound 8 (λ i. over_bytes (leaves high i)) s table hs) hk hb

    chosen : (high : Bool) → written high k b / 2 ^ (7 - s) % 2 ≡ b / 2 ^ (7 - s) % 2
    chosen true = let t = found true leaves_high in ground (arith, apart)
    chosen false = let t = found false leaves_low in ground (arith, apart)

-- `set_bit` changes no other bit.
pub set_bit-other :
    (high : Bool) (d j : ℕ) (id : NodeId)
    → IsId id
    → d < 256
    → j < 256
    → j ≢ d
    → bit (set_bit high d id) j ≡ bit id j
set_bit-other high d j id h small below apart = elim (compare-cases (j / 8) (d / 8)) [
  | inl less ↦ elsewhere (λ e. absurd (omega arith))
  | inr (inl same) ↦
      let here =
        byte-set_byte id (d / 8) (written high (d % 8) (byte id (d / 8))) (omega (arith, h.size)) in
      let other =
        written-other high (j % 8) (d % 8) (byte id (d / 8)) (omega arith) (omega arith)
          (byte-lt id (d / 8) h) (λ e. apart (omega arith)) in
      rw (set_bit-written high d id, same, here) other
  | inr (inr more) ↦ elsewhere (λ e. absurd (omega arith))
]
  where
    elsewhere : j / 8 ≢ d / 8 → bit (set_bit high d id) j ≡ bit id j
    elsewhere far = rw (
      set_bit-written high d id,
      byte-set_byte_other id (d / 8) (written high (d % 8) (byte id (d / 8))) (j / 8) far,
    )

pub set_bit-digit :
    (high : Bool) (d : ℕ) (id : NodeId) → IsId id → d < 256 → bit (set_bit high d id) d ≡ digit high
set_bit-digit high d id h small =
    let here =
      byte-set_byte id (d / 8) (written high (d % 8) (byte id (d / 8))) (omega (arith, h.size)) in
    let w = written_lem high (d % 8) (byte id (d / 8)) (omega arith) (byte-lt id (d / 8) h) in
    rw (set_bit-written high d id, here) w.value

-- Low bits that are 0 together are 0 one by one.
abbrev cleared : ℕ → ℕ → ℕ → Bool
cleared l k b = not (ltb k l && (b % 2 ^ l == 0)) || (b / 2 ^ k % 2 == 0)

cleared_table : all_below 8 (λ l. over_bytes (cleared l)) ≡ true
unfolding over_bytes all_below
cleared_table = refl

cleared_lem : (l k b : ℕ) → l < 8 → k < l → b < 256 → b % 2 ^ l ≡ 0 → b / 2 ^ k % 2 ≡ 0
cleared_lem l k b hl hk hb e =
    let t : cleared l k b ≡ true =
      over_bytes_sound (cleared l) k b
        (all_below_sound 8 (λ i. over_bytes (cleared i)) l cleared_table hl) (omega arith) hb in
    ground arith

drop-nil : (m : ℕ) → drop {A = ℕ} m [] ≡ []
drop-nil zero = refl
drop-nil (suc m) = refl

get_or-drop :
    (m i : ℕ) (xs ys : List ℕ) → drop m xs ≡ drop m ys → m ≤ i → get_or xs i 0 ≡ get_or ys i 0
get_or-drop zero i xs ys e h = ap (λ l. get_or l i 0) e
get_or-drop (suc m) zero xs ys e h = absurd (omega arith)
get_or-drop (suc m) (suc i) [] [] e h = refl
get_or-drop (suc m) (suc i) [] (y ∷ ys) e h = get_or-drop m i [] ys (drop-nil m ∙ e) (omega arith)
get_or-drop (suc m) (suc i) (x ∷ xs) [] e h =
    get_or-drop m i xs [] (e ∙ sym (drop-nil m)) (omega arith)
get_or-drop (suc m) (suc i) (x ∷ xs) (y ∷ ys) e h = get_or-drop m i xs ys e (omega arith)

pub zero-byte : (n i : ℕ) → get_or (filled 0 n) i 0 ≡ 0
zero-byte zero i = refl
zero-byte (suc n) zero = refl
zero-byte (suc n) (suc i) = zero-byte n i

-- Behind its last bit a made prefix has zeros.
pub make-bit :
    (n j : ℕ) (id : NodeId) → IsId id → n < 256 → n < j → j < 256 → bit (make id (pos n)).id j ≡ 0
make-bit n j id h small after below =
    let c = make-IsCopied n id h small in
    let r = (make id (pos n)).id in
    let zeros = zero-byte 32 (n / 8) in
    let fits = byte-lt r (n / 8) c.is_id in
    elim (compare-cases (j / 8) (n / 8)) [
      | inl less ↦ absurd (omega arith)
      | inr (inl same) ↦
          let none_set : byte r (n / 8) % 2 ^ low_bits n ≡ 0 =
            c.rest ∙ ap (λ (b : ℕ). b % 2 ^ low_bits n) zeros ∙ zero_mod (low_bits n) in
          rw same (
            cleared_lem (low_bits n) (low_bits j) (byte r (n / 8)) (omega arith) (omega arith) fits
              none_set)
      | inr (inr more) ↦
          let gone : byte r (j / 8) ≡ 0 =
            get_or-drop (n / 8 + 1) (j / 8) r zero_id c.tail (omega arith) ∙ zero-byte 32 (j / 8) in
          rw gone (zero_div (low_bits j))
    ]
  where
    zero_mod : (l : ℕ) → 0 % 2 ^ l ≡ 0
    zero_mod l = omega arith

    zero_div : (l : ℕ) → 0 / 2 ^ l % 2 ≡ 0
    zero_div l = omega arith

pub set_bit-IsId :
    (high : Bool) (d : ℕ) (id : NodeId) → IsId id → d < 256 → IsId (set_bit high d id)
set_bit-IsId high d id h small =
    let w = written_lem high (d % 8) (byte id (d / 8)) (omega arith) (byte-lt id (d / 8) h) in
    let v = written high (d % 8) (byte id (d / 8)) in
    rw (set_bit-written high d id) (record {
      size = set_byte-length id (d / 8) v ∙ h.size;
      bytes = set_byte-bytes id (d / 8) v w.fits h.bytes;
    })
