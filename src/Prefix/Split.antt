-- ===== src/Prefix/Split.antt =====
-- The two branches of a prefix part the ids that it covers.
use boson_native.Prelude.{
  ℕ, suc, ◌-◌, ◌/◌, ◌%◌, ◌^◌, ◌<◌, bit_and, bit_or, Bool, true, false, ◌&&◌, ltb, take_agree,
  get_or_agree, compare-cases, ◌==◌, ◌≡◌, ◌↔◌, inl, inr, refl, sym, ap, subst, ◌∙◌, arith,
}
use boson_native.Prelude.Int.{pos}
use boson_native.Prelude.Bits.{all_below}
use boson_native.Id.{NodeId, IsId, byte, set_byte, not_byte}
use boson_native.Id.Masks.{over_bytes, over_bytes_sound, low_bits}
use boson_native.Id.BitsEqual.{SamePrefix, byte-lt, bits_equal_iff}
use boson_native.Id.BitsCopy.{set_byte-length, byte-set_byte, take-set_byte, set_byte-bytes}
use boson_native.Id.Bit.{bit, SamePrefix-suc}
use boson_native.Prefix.Cover.{SamePrefix-trans, SamePrefix-sym, make-IsCopied}
use boson_native.Prefix.{make, is_prefix_of, set_bit, split_branch}

abbrev pub digit : Bool → ℕ
digit true = 1
digit false = 0

-- The byte that `set_bit` writes.
abbrev pub written : Bool → ℕ → ℕ → ℕ
written true k b = bit_or b (0x80 / 2 ^ k)
written false k b = bit_and b (not_byte (0x80 / 2 ^ k))

-- The bit has its value, the byte is a byte, and the bits before are kept.
abbrev well_written : Bool → ℕ → ℕ → Bool
well_written high k b =
    (written high k b / 2 ^ (7 - k) % 2 == digit high)
    && ltb (written high k b) 256
    && (written high k b / 2 ^ (8 - k) == b / 2 ^ (8 - k))

high_table : over_bytes (well_written true) ≡ true
unfolding over_bytes all_below
high_table = refl

low_table : over_bytes (well_written false) ≡ true
unfolding over_bytes all_below
low_table = refl

pub record IsWritten (high : Bool) (k b : ℕ) : Type 0 where
  pub value : written high k b / 2 ^ (7 - k) % 2 ≡ digit high
  pub fits : written high k b < 256
  pub kept : written high k b / 2 ^ (8 - k) ≡ b / 2 ^ (8 - k)

pub written_lem : (high : Bool) (k b : ℕ) → k < 8 → b < 256 → IsWritten high k b
written_lem true k b h l =
    let t : well_written true k b ≡ true =
      over_bytes_sound (well_written true) k b high_table h l in
    record { value = ground arith; fits = ground arith; kept = ground arith }
written_lem false k b h l =
    let t : well_written false k b ≡ true =
      over_bytes_sound (well_written false) k b low_table h l in
    record { value = ground arith; fits = ground arith; kept = ground arith }

-- What `set_bit` makes of an id: the bit has its value, and the bits before are kept.
pub record IsBitSet (high : Bool) (n : ℕ) (id : NodeId) : Type 0 where
  pub is_id : IsId (set_bit high (suc n) id)
  pub value : bit (set_bit high (suc n) id) (suc n) ≡ digit high
  pub kept : SamePrefix n (set_bit high (suc n) id) id

pub set_bit-written :
    (high : Bool) (d : ℕ) (id : NodeId)
    → set_bit high d id ≡ set_byte id (d / 8) (written high (d % 8) (byte id (d / 8)))
set_bit-written true d id = refl
set_bit-written false d id = refl

module _ (high : Bool) (n : ℕ) (id : NodeId) (h : IsId id) (small : suc n < 256) where
  abbrev new_byte : ℕ
  new_byte = written high (suc n % 8) (byte id (suc n / 8))

  abbrev result : NodeId
  result = set_byte id (suc n / 8) new_byte

  facts : IsWritten high (suc n % 8) (byte id (suc n / 8))
  facts =
      written_lem high (suc n % 8) (byte id (suc n / 8)) (omega arith) (byte-lt id (suc n / 8) h)

  new-byte : byte result (suc n / 8) ≡ new_byte
  new-byte = byte-set_byte id (suc n / 8) new_byte (omega (arith, h.size))

  new-partial : byte result (n / 8) / 2 ^ low_bits n ≡ byte id (n / 8) / 2 ^ low_bits n
  new-partial = elim (compare-cases (n / 8) (suc n / 8)) [
    | inl before ↦
        ap (λ (b : ℕ). b / 2 ^ low_bits n)
          (get_or_agree (suc n / 8) (n / 8) result id 0 (take-set_byte id (suc n / 8) new_byte)
            before)
    | inr (inl same) ↦
        let shift : low_bits n ≡ 8 - suc n % 8 = omega arith in
        rw (same, shift) (ap (λ (b : ℕ). b / 2 ^ (8 - suc n % 8)) new-byte ∙ facts.kept)
    | inr (inr after) ↦ absurd (omega arith)
  ]

  pub set_bit-IsBitSet : IsBitSet high n id
  set_bit-IsBitSet =
      subst (λ r. (IsId r) × (bit r (suc n) ≡ digit high) × SamePrefix n r id → IsBitSet high n id)
        (set_bit-written high (suc n) id) (λ r. record { is_id = r.0; value = r.1; kept = r.2 })
        (
          record {
            size = omega (arith, set_byte-length id (suc n / 8) new_byte, h.size);
            bytes = set_byte-bytes id (suc n / 8) new_byte facts.fits h.bytes;
          },
          ap (λ (b : ℕ). b / 2 ^ low_bits (suc n) % 2) new-byte ∙ facts.value,
          record {
            whole =
                take_agree (n / 8) (suc n / 8) result id (take-set_byte id (suc n / 8) new_byte)
                  (omega arith);
            partial = new-partial;
          },
        )

branch-cover :
    (high : Bool) (n : ℕ) (id base x : NodeId)
    → IsId base
    → IsId x
    → suc n < 256
    → SamePrefix n base id
    → SamePrefix (suc n) (set_bit high (suc n) base) x
      ↔ (SamePrefix n id x × (bit x (suc n) ≡ digit high))
branch-cover high n id base x hb hx small agree =
    let w = set_bit-IsBitSet high n base hb small in
    let branch = set_bit high (suc n) base in
    let step = SamePrefix-suc n branch x w.is_id hx small in
    let to_id = SamePrefix-trans n branch base id w.kept agree in
    (
      λ s.
          let r = step.0 s in
          (
            SamePrefix-trans n id branch x (SamePrefix-sym n branch id to_id) r.0,
            sym r.1 ∙ w.value,
          ),
      λ s. step.1 (SamePrefix-trans n branch id x to_id s.0, w.value ∙ sym s.1),
    )

-- The high or low branch of a prefix made of an id and its bits 0 to n covers exactly the ids that
-- the prefix covers and whose bit n + 1 is 1 or 0: of the ids of a prefix that can be split, each is
-- in one branch.
pub split_branch-cover :
    (high : Bool) (n : ℕ) (id x : NodeId)
    → IsId id
    → IsId x
    → suc n < 256
    → (is_prefix_of (split_branch (make id (pos n)) high) x ≡ true)
      ↔ ((is_prefix_of (make id (pos n)) x ≡ true) × (bit x (suc n) ≡ digit high))
unfolding is_prefix_of split_branch make
split_branch-cover high n id x h k small =
    let small' : n < 256 = omega arith in
    let once = make-IsCopied n id h small' in
    let twice = make-IsCopied n (make id (pos n)).id once.is_id small' in
    let base = (make (make id (pos n)).id (pos n)).id in
    let agree = SamePrefix-sym n (make id (pos n)).id base twice.prefix in
    let b = branch-cover high n (make id (pos n)).id base x twice.is_id k small agree in
    let w = set_bit-IsBitSet high n base twice.is_id small in
    let outer = bits_equal_iff (suc n) (set_bit high (suc n) base) x w.is_id k in
    let inner = bits_equal_iff n (make id (pos n)).id x once.is_id k in
    (λ e. let r = b.0 (outer.0 e) in (inner.1 r.0, r.1), λ s. outer.1 (b.1 (inner.0 s.0, s.1)))
