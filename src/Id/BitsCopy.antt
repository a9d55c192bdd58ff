-- ===== src/Id/BitsCopy.antt =====
-- `bitsCopy` replaces the bits 0 to n of the destination by those of the source, and no others.
use boson_native.Prelude.{
  ℕ, zero, suc, ◌+◌, ◌*◌, ◌/◌, ◌%◌, ◌^◌, ◌<◌, bit_and, bit_or, [], ◌∷◌, ◌++◌, length, take, drop,
  All, ◌≡◌, refl, sym, ap, subst, ◌∙◌, arith,
}
use boson_native.Prelude.Int.{pos, negsuc}
use boson_native.Prelude.Bits.{bit_or_fields}
use native.Mathlib.Nat.{
  one-le-pow, mul-add-div_right, div-eq_of_lt, mod-lt, mod-eq_of_lt, mul-add-mod_self_right,
}
use native.Mathlib.Numerals.{add-one}
use boson_native.Id.{NodeId, IsId, byte, set_byte, bits_copy, high_mask, not_byte}
use boson_native.Id.Masks.{high_mask_lem, not_byte_lem, low_bits}
use boson_native.Id.BitsEqual.{SamePrefix, byte-lt}

pub set_byte-length : (bs : NodeId) (i v : ℕ) → length (set_byte bs i v) ≡ length bs
set_byte-length [] i v = refl
set_byte-length (b ∷ bs) zero v = refl
set_byte-length (b ∷ bs) (suc i) v = ap suc (set_byte-length bs i v)

pub byte-set_byte : (bs : NodeId) (i v : ℕ) → i < length bs → byte (set_byte bs i v) i ≡ v
byte-set_byte [] i v h = absurd (omega arith)
byte-set_byte (b ∷ bs) zero v h = refl
byte-set_byte (b ∷ bs) (suc i) v h = byte-set_byte bs i v (omega arith)

pub take-set_byte : (bs : NodeId) (i v : ℕ) → take i (set_byte bs i v) ≡ take i bs
take-set_byte [] i v = refl
take-set_byte (b ∷ bs) zero v = refl
take-set_byte (b ∷ bs) (suc i) v = ap (◌∷◌ b) (take-set_byte bs i v)

drop-set_byte : (bs : NodeId) (i v : ℕ) → drop (suc i) (set_byte bs i v) ≡ drop (suc i) bs
drop-set_byte [] i v = refl
drop-set_byte (b ∷ bs) zero v = refl
drop-set_byte (b ∷ bs) (suc i) v = drop-set_byte bs i v

pub set_byte-bytes :
    (bs : NodeId) (i v : ℕ) → v < 256 → All (λ b. b < 256) bs → All (λ b. b < 256) (set_byte bs i v)
set_byte-bytes [] i v h p = tt
set_byte-bytes (b ∷ bs) zero v h p = (h, p.1)
set_byte-bytes (b ∷ bs) (suc i) v h p = (p.0, set_byte-bytes bs i v h p.1)

-- What `memcpy` of the first `i` bytes leaves in the destination.
record IsSpliced (i : ℕ) (src dest copied : NodeId) : Type 0 where
  size : length copied ≡ length dest
  bytes : All (λ b. b < 256) copied
  front : take i copied ≡ take i src
  here : byte copied i ≡ byte dest i
  back : drop (suc i) copied ≡ drop (suc i) dest

copied-IsSpliced :
    (i : ℕ) (src dest : NodeId)
    → length src ≡ length dest
    → All (λ b. b < 256) src
    → All (λ b. b < 256) dest
    → IsSpliced i src dest (take i src ++ drop i dest)
copied-IsSpliced zero src dest e p q = record {
  size = refl;
  bytes = q;
  front = refl;
  here = refl;
  back = refl;
}
copied-IsSpliced (suc i) [] [] e p q = record {
  size = refl;
  bytes = tt;
  front = refl;
  here = refl;
  back = refl;
}
copied-IsSpliced (suc i) [] (d ∷ dest) e p q = absurd (omega arith)
copied-IsSpliced (suc i) (s ∷ src) [] e p q = absurd (omega arith)
copied-IsSpliced (suc i) (s ∷ src) (d ∷ dest) e p q =
    let rest = copied-IsSpliced i src dest (omega arith) p.1 q.1 in
    record {
      size = ap suc rest.size;
      bytes = (p.0, rest.bytes);
      front = ap (◌∷◌ s) rest.front;
      here = rest.here;
      back = rest.back;
    }

div-fields : (k q r : ℕ) → r < 2 ^ k → (q * 2 ^ k + r) / 2 ^ k ≡ q
div-fields k q r h =
    ground (arith, mul-add-div_right {m = 2 ^ k} (one-le-pow k 2 (omega arith)) q r, div-eq_of_lt h)

mod-fields : (k q r : ℕ) → r < 2 ^ k → (q * 2 ^ k + r) % 2 ^ k ≡ r
mod-fields k q r h = mul-add-mod_self_right q (2 ^ k) r ∙ mod-eq_of_lt h

-- The byte that the two updates compute: leading bits of the source, the others of the destination.
merged_byte :
    (n s d : ℕ)
    → s < 256
    → d < 256
    → bit_or (bit_and d (not_byte (high_mask n))) (bit_and s (high_mask n))
      ≡ s / 2 ^ low_bits n * 2 ^ low_bits n + d % 2 ^ low_bits n
merged_byte n s d hs hd =
    rw (not_byte_lem n d hd, high_mask_lem n s hs)
      (bit_or_fields (low_bits n) (d % 2 ^ low_bits n) (s / 2 ^ low_bits n)
        (mod-lt d (one-le-pow (low_bits n) 2 (omega arith))))

merged-fits : (k s d : ℕ) → k < 8 → s < 256 → s / 2 ^ k * 2 ^ k + d % 2 ^ k < 256
merged-fits zero s d h hs = omega arith
merged-fits (suc zero) s d h hs = omega arith
merged-fits (suc (suc zero)) s d h hs = omega arith
merged-fits (suc (suc (suc zero))) s d h hs = omega arith
merged-fits (suc (suc (suc (suc zero)))) s d h hs = omega arith
merged-fits (suc (suc (suc (suc (suc zero))))) s d h hs = omega arith
merged-fits (suc (suc (suc (suc (suc (suc zero)))))) s d h hs = omega arith
merged-fits (suc (suc (suc (suc (suc (suc (suc zero))))))) s d h hs = omega arith
merged-fits (suc (suc (suc (suc (suc (suc (suc (suc k)))))))) s d h hs = absurd (omega arith)

-- Bits 0 to n are the source's; the bits behind, and the bytes behind, are those of the destination.
pub record IsCopied (n : ℕ) (src dest result : NodeId) : Type 0 where
  pub is_id : IsId result
  pub prefix : SamePrefix n src result
  pub rest : byte result (n / 8) % 2 ^ low_bits n ≡ byte dest (n / 8) % 2 ^ low_bits n
  pub tail : drop (n / 8 + 1) result ≡ drop (n / 8 + 1) dest

module _ (n : ℕ) (src dest : NodeId) (hs : IsId src) (hd : IsId dest) (small : n < 256) where
  abbrev merged : ℕ
  merged = byte src (n / 8) / 2 ^ low_bits n * 2 ^ low_bits n + byte dest (n / 8) % 2 ^ low_bits n

  low-lt : byte dest (n / 8) % 2 ^ low_bits n < 2 ^ low_bits n
  low-lt = mod-lt (byte dest (n / 8)) (one-le-pow (low_bits n) 2 (omega arith))

  abbrev spliced : NodeId
  spliced = take (n / 8) src ++ drop (n / 8) dest

  spliced-IsSpliced : IsSpliced (n / 8) src dest spliced
  spliced-IsSpliced =
      copied-IsSpliced (n / 8) src dest (omega (arith, hs.size, hd.size)) hs.bytes hd.bytes

  abbrev masked : NodeId
  masked = set_byte spliced (n / 8) (bit_and (byte spliced (n / 8)) (not_byte (high_mask n)))

  masked-byte : byte masked (n / 8) ≡ bit_and (byte dest (n / 8)) (not_byte (high_mask n))
  masked-byte =
      byte-set_byte spliced (n / 8) _ (omega (arith, spliced-IsSpliced.size, hd.size))
      ∙ ap (λ b. bit_and b (not_byte (high_mask n))) spliced-IsSpliced.here

  written : bit_or (byte masked (n / 8)) (bit_and (byte src (n / 8)) (high_mask n)) ≡ merged
  written = rw masked-byte (
      merged_byte n (byte src (n / 8)) (byte dest (n / 8)) (byte-lt src (n / 8) hs)
        (byte-lt dest (n / 8) hd))

  masked-length : length masked ≡ 32
  masked-length = omega (arith, set_byte-length spliced (n / 8) _, spliced-IsSpliced.size, hd.size)

  merged-lt : merged < 256
  merged-lt =
      merged-fits (low_bits n) (byte src (n / 8)) (byte dest (n / 8)) (omega arith)
        (byte-lt src (n / 8) hs)

  kept-lt : bit_and (byte spliced (n / 8)) (not_byte (high_mask n)) < 256
  kept-lt =
      let here = byte-lt dest (n / 8) hd in
      rw (spliced-IsSpliced.here, not_byte_lem n (byte dest (n / 8)) here) (omega arith)

  result-IsCopied : IsCopied n src dest (set_byte masked (n / 8) merged)
  result-IsCopied = record {
    is_id = record {
      size = omega (arith, set_byte-length masked (n / 8) merged, masked-length);
      bytes =
          set_byte-bytes masked (n / 8) merged merged-lt
            (set_byte-bytes spliced (n / 8) _ kept-lt spliced-IsSpliced.bytes);
    };
    prefix = record {
      whole = sym (
          take-set_byte masked (n / 8) merged
          ∙ take-set_byte spliced (n / 8) _
          ∙ spliced-IsSpliced.front);
      partial = sym (ap (λ (b : ℕ). b / 2 ^ low_bits n) now ∙ div-fields (low_bits n) _ _ low-lt);
    };
    rest = ap (λ (b : ℕ). b % 2 ^ low_bits n) now ∙ mod-fields (low_bits n) _ _ low-lt;
    tail = rw add-one (
        drop-set_byte masked (n / 8) merged
        ∙ drop-set_byte spliced (n / 8) _
        ∙ spliced-IsSpliced.back);
  }
    where
      now : byte (set_byte masked (n / 8) merged) (n / 8) ≡ merged
      now = byte-set_byte masked (n / 8) merged (omega (arith, masked-length))

-- For ids and a bit index n below 256, the result of `bitsCopy` is an id that agrees with the source
-- on bits 0 to n and with the destination on all bits behind n.
pub bits_copy_lem :
    (n : ℕ) (src dest : NodeId)
    → IsId src
    → IsId dest
    → n < 256
    → IsCopied n src dest (bits_copy src dest (pos n))
unfolding bits_copy
bits_copy_lem n src dest hs hd small =
    subst (λ b. IsCopied n src dest (set_byte (masked n src dest hs hd small) (n / 8) b))
      (sym (written n src dest hs hd small)) (result-IsCopied n src dest hs hd small)

pub bits_copy-negative : (n : ℕ) (src dest : NodeId) → bits_copy src dest (negsuc n) ≡ dest
unfolding bits_copy
bits_copy-negative n src dest = refl
