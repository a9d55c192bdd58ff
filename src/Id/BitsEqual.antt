-- ===== src/Id/BitsEqual.antt =====
-- `bitsEqual` decides that two ids agree on their bits 0 to n.
use boson_native.Prelude.{
  ℕ, ◌*◌, ◌/◌, ◌^◌, ◌<◌, bit_and, bit_xor, true, some, take, All-get_or, get_or_agree, take_agree,
  ◌≡◌, ◌↔◌, refl, sym, ap, ◌∙◌, inl, inr, arith, Option-cases, compare-cases, subst,
}
use boson_native.Prelude.Int.{pos, negsuc}
use boson_native.Prelude.Xor.{bit_xor_shift, bit_xor_self, bit_xor_injective, bit_xor-lt}
use native.Mathlib.Nat.{one-le-pow}
use boson_native.Id.{NodeId, IsId, byte, first_mismatch, bits_equal, high_mask}
use boson_native.Id.Mismatch.{IsMismatch, first_mismatch-none, first_mismatch-some}
use boson_native.Id.Masks.{high_mask_lem, low_bits}

-- The two ids agree on bits 0 to n: on the whole bytes before bit n, and on the byte that holds
-- bit n down to that bit.
pub record SamePrefix (n : ℕ) (a b : NodeId) : Type 0 where
  pub whole : take (n / 8) a ≡ take (n / 8) b
  pub partial : byte a (n / 8) / 2 ^ low_bits n ≡ byte b (n / 8) / 2 ^ low_bits n

pub byte-lt : (a : NodeId) (i : ℕ) → IsId a → byte a i < 256
byte-lt a i h = All-get_or (λ x. x < 256) a i 0 (omega arith) h.bytes

quotient-zero : (q k : ℕ) → q * 2 ^ k ≡ 0 → q ≡ 0
quotient-zero q k e = grind (arith, one-le-pow k 2)

-- The masked difference of two bytes is 0 exactly when their leading bits agree.
bits_diff_iff :
    (n x y : ℕ)
    → x < 256
    → y < 256
    → (bit_and (bit_xor x y) (high_mask n) ≡ 0) ↔ (x / 2 ^ low_bits n ≡ y / 2 ^ low_bits n)
bits_diff_iff n x y hx hy = (forwards, backwards)
  where
    mask : bit_and (bit_xor x y) (high_mask n) ≡ bit_xor x y / 2 ^ low_bits n * 2 ^ low_bits n
    mask = high_mask_lem n (bit_xor x y) (bit_xor-lt x y hx hy)

    shift : bit_xor x y / 2 ^ low_bits n ≡ bit_xor (x / 2 ^ low_bits n) (y / 2 ^ low_bits n)
    shift = bit_xor_shift (low_bits n) x y

    forwards : bit_and (bit_xor x y) (high_mask n) ≡ 0 → x / 2 ^ low_bits n ≡ y / 2 ^ low_bits n
    forwards e = bit_xor_injective _ _ (y / 2 ^ low_bits n) (
        sym shift
        ∙ quotient-zero _ (low_bits n) (sym mask ∙ e)
        ∙ sym (bit_xor_self (y / 2 ^ low_bits n)))

    backwards : x / 2 ^ low_bits n ≡ y / 2 ^ low_bits n → bit_and (bit_xor x y) (high_mask n) ≡ 0
    backwards e =
        let gone : bit_xor x y / 2 ^ low_bits n ≡ 0 =
          shift ∙ ap (λ t. bit_xor t (y / 2 ^ low_bits n)) e ∙ bit_xor_self _ in
        mask ∙ ap (λ (t : ℕ). t * 2 ^ low_bits n) gone ∙ omega arith

abbrev Decides : ℕ → NodeId → NodeId → Type 0
Decides n a b = (bits_equal a b (pos n) ≡ true) ↔ SamePrefix n a b

bits_equal-mismatch :
    (n m : ℕ) (a b : NodeId)
    → IsId a
    → IsId b
    → first_mismatch a b ≡ some m
    → IsMismatch a b m
    → Decides n a b
unfolding bits_equal
bits_equal-mismatch n m a b ha hb found h =
    rw (found, bits_equal)
      (elim (compare-cases m (n / 2 ^ 3)) [
        | inl before ↦ (
          λ e. absurd (ground arith),
          λ s. absurd (h.differ (get_or_agree (n / 8) m a b 0 s.whole (omega arith))),
        )
        | inr (inl at) ↦
            let diff =
              bits_diff_iff n (byte a (n / 8)) (byte b (n / 8)) (byte-lt a (n / 8) ha)
                (byte-lt b (n / 8) hb) in
            (
              λ e. record {
                whole = subst (λ k. take k a ≡ take k b) at h.agree;
                partial = diff.0 (ground arith);
              },
              λ s. ground (arith, diff.1 s.partial),
            )
        | inr (inr after) ↦ (
          λ _. record {
            whole = take_agree (n / 8) m a b h.agree (omega arith);
            partial =
                ap (λ (t : ℕ). t / 2 ^ low_bits n)
                  (get_or_agree m (n / 8) a b 0 h.agree (omega arith));
          },
          λ _. ground arith,
        )
      ])

-- For ids, `bitsEqual` with a non-negative bit index is true exactly when all bits up to that index
-- agree.
pub bits_equal_iff : (n : ℕ) (a b : NodeId) → IsId a → IsId b → Decides n a b
bits_equal_iff n a b ha hb = elim (Option-cases (first_mismatch a b)) [
  | inl gone ↦
      let e : a ≡ b = first_mismatch-none a b (omega (arith, ha.size, hb.size)) gone in
      (
        λ _. rw e (record { whole = refl; partial = refl }),
        λ _. unfold bits_equal in rw (gone, bits_equal),
      )
  | inr (m, found) ↦
      bits_equal-mismatch n m a b ha hb found
        (first_mismatch-some a b m (omega (arith, ha.size, hb.size)) found)
]

pub bits_equal-negative : (n : ℕ) (a b : NodeId) → bits_equal a b (negsuc n) ≡ true
unfolding bits_equal
bits_equal-negative n a b = refl
