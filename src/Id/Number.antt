-- ===== src/Id/Number.antt =====
-- Ids as numbers: the number that the first bits of an id make, and the order of ids by it.
use boson_native.Prelude.{
  ℕ, zero, suc, ◌+◌, ◌-◌, ◌*◌, ◌/◌, ◌%◌, ◌^◌, ◌<◌, Ordering, compare, [], ◌∷◌, length, take,
  get_or_agree, compare-cases, ◌≡◌, ◌↔◌, inl, inr, refl, ap, ap₂, subst, arith,
}
use boson_native.Id.{NodeId, IsId, byte, compare_to}
use boson_native.Id.Order.{compare_to-flip, compare_to-eq}
use boson_native.Id.Masks.{low_bits}
use boson_native.Id.BitsEqual.{SamePrefix, byte-lt}
use boson_native.Id.Bit.{bit, SamePrefix-suc}

-- The number of the first `k` bits.
pub top : NodeId → ℕ → ℕ
top id zero = 0
top id (suc k) = 2 * top id k + bit id k

abbrev pub value : NodeId → ℕ
value id = top id 256

pub bit-lt : (id : NodeId) (j : ℕ) → bit id j < 2
bit-lt id j = omega arith

pub top-suc : (id : NodeId) (k : ℕ) → top id (suc k) ≡ 2 * top id k + bit id k
unfolding top
top-suc id k = refl

pub top-zero : (id : NodeId) → top id 0 ≡ 0
unfolding top
top-zero id = refl

pub top_ext : (a b : NodeId) (k : ℕ) → ((j : ℕ) → j < k → bit a j ≡ bit b j) → top a k ≡ top b k
unfolding top
top_ext a b zero h = refl
top_ext a b (suc k) h =
    let rest = top_ext a b k (λ j l. h j (omega arith)) in
    let last = h k (omega arith) in omega arith

SamePrefix-zero : (a b : NodeId) → IsId a → IsId b → SamePrefix 0 a b ↔ (bit a 0 ≡ bit b 0)
SamePrefix-zero a b ha hb =
    let x = byte-lt a 0 ha in
    let y = byte-lt b 0 hb in
    (λ s. ap (λ (v : ℕ). v % 2) s.partial, λ e. record { whole = refl; partial = omega arith })

-- Two ids agree on bits 0 to n exactly when those bits make the same number.
pub SamePrefix-top :
    (n : ℕ) (a b : NodeId)
    → IsId a
    → IsId b
    → n < 256
    → SamePrefix n a b ↔ (top a (suc n) ≡ top b (suc n))
SamePrefix-top zero a b ha hb small =
    let z = SamePrefix-zero a b ha hb in
    let p = top-suc a 0 in
    let q = top-suc b 0 in
    let p0 = top-zero a in
    let q0 = top-zero b in (λ s. let e = z.0 s in omega arith, λ e. z.1 (omega arith))
SamePrefix-top (suc n) a b ha hb small =
    let r = SamePrefix-top n a b ha hb (omega arith) in
    let s = SamePrefix-suc n a b ha hb small in
    let p = top-suc a (suc n) in
    let q = top-suc b (suc n) in
    let bp = bit-lt a (suc n) in
    let bq = bit-lt b (suc n) in
    (
      λ h. let both = s.0 h in let front = r.0 both.0 in let last = both.1 in omega arith,
      λ e. s.1 (r.1 (omega arith), omega arith),
    )

-- Further bits do not change the order.
top_mono : (a b : NodeId) (k j : ℕ) → top a k < top b k → top a (j + k) < top b (j + k)
top_mono a b k zero h = let e : 0 + k ≡ k = omega arith in rw e h
top_mono a b k (suc j) h =
    let rest = top_mono a b k j h in
    let p = top-suc a (j + k) in
    let q = top-suc b (j + k) in
    let x = bit-lt a (j + k) in let e : suc j + k ≡ suc (j + k) = omega arith in rw e (omega arith)

-- Eight more bits are one more byte.
abbrev eight : ℕ → ℕ
eight m = suc (suc (suc (suc (suc (suc (suc (suc (8 * m))))))))

bit_at : (id : NodeId) (m i j : ℕ) → i < 8 → j ≡ 8 * m + i → bit id j ≡ byte id m / 2 ^ (7 - i) % 2
bit_at id m i j h e =
    let q : j / 8 ≡ m = omega arith in let r : low_bits j ≡ 7 - i = omega arith in rw (q, r)

byte_bits :
    (b : ℕ)
    → b < 256
    → 2
          * (2
                * (2
                      * (2 * (2 * (2 * (2 * (b / 128 % 2) + b / 64 % 2) + b / 32 % 2) + b / 16 % 2)
                          + b / 8 % 2)
                    + b / 4 % 2)
              + b / 2 % 2)
        + b % 2
      ≡ b
byte_bits b h = omega arith

top-byte : (id : NodeId) (m : ℕ) → IsId id → top id (eight m) ≡ 256 * top id (8 * m) + byte id m
unfolding top
top-byte id m h =
    let small = byte-lt id m h in
    let b0 = bit_at id m 0 (8 * m) (omega arith) (omega arith) in
    let b1 = bit_at id m 1 (suc (8 * m)) (omega arith) (omega arith) in
    let b2 = bit_at id m 2 (suc (suc (8 * m))) (omega arith) (omega arith) in
    let b3 = bit_at id m 3 (suc (suc (suc (8 * m)))) (omega arith) (omega arith) in
    let b4 = bit_at id m 4 (suc (suc (suc (suc (8 * m))))) (omega arith) (omega arith) in
    let b5 = bit_at id m 5 (suc (suc (suc (suc (suc (8 * m)))))) (omega arith) (omega arith) in
    let b6 =
      bit_at id m 6 (suc (suc (suc (suc (suc (suc (8 * m))))))) (omega arith) (omega arith) in
    let b7 =
      bit_at id m 7 (suc (suc (suc (suc (suc (suc (suc (8 * m)))))))) (omega arith) (omega arith) in
    let whole = byte_bits (byte id m) small in rw (b0, b1, b2, b3, b4, b5, b6, b7) (omega arith)

-- The first byte that differs, and that it is less.
record Before (a b : NodeId) : Type 0 where
  index : ℕ
  in_range : index < length a
  agree : take index a ≡ take index b
  less : byte a index < byte b index

compare_to-Before : (a b : NodeId) → compare_to a b ≡ Ordering.lt → Before a b
unfolding compare_to
compare_to-Before [] b e = cc
compare_to-Before (x ∷ a) [] e = cc
compare_to-Before (x ∷ a) (y ∷ b) e = elim (compare-cases x y) [
  | inl less ↦ record { index = 0; in_range = omega arith; agree = refl; less = less }
  | inr (inl same) ↦
      let later : Before a b = compare_to-Before a b (ground arith) in
      record {
        index = suc later.index;
        in_range = omega (arith, later.in_range);
        agree = ap₂ ◌∷◌ same later.agree;
        less = later.less;
      }
  | inr (inr more) ↦ absurd (ground arith)
]

top-take : (a b : NodeId) (m : ℕ) → take m a ≡ take m b → top a (8 * m) ≡ top b (8 * m)
top-take a b m e =
    top_ext a b (8 * m)
      (λ j h. ap (λ (v : ℕ). v / 2 ^ low_bits j % 2) (get_or_agree m (j / 8) a b 0 e (omega arith)))

value-Before : (a b : NodeId) → IsId a → IsId b → Before a b → value a < value b
value-Before a b ha hb h =
    let m = h.index in
    let inside = h.in_range in
    let size = ha.size in
    let less = h.less in
    let front = top-take a b m h.agree in
    let p = top-byte a m ha in
    let q = top-byte b m hb in
    let more = top_mono a b (eight m) (248 - 8 * m) (omega arith) in
    let all : 248 - 8 * m + eight m ≡ 256 = omega arith in subst (λ k. top a k < top b k) all more

-- Ids compare as their numbers do.
pub compare_to-value :
    (a b : NodeId) → IsId a → IsId b → compare_to a b ≡ compare (value a) (value b)
compare_to-value a b ha hb = cases (compare_to a b) refl
  where
    cases : (o : Ordering) → compare_to a b ≡ o → compare_to a b ≡ compare (value a) (value b)
    cases Ordering.lt e =
        let less = value-Before a b ha hb (compare_to-Before a b e) in ground (arith, e)
    cases Ordering.eq e =
        let same = compare_to-eq a b (omega (arith, ha.size, hb.size)) e in
        let equal = ap value same in ground (arith, e)
    cases Ordering.gt e =
        let turned : compare_to b a ≡ Ordering.lt = ground (arith, compare_to-flip b a, e) in
        let more = value-Before b a hb ha (compare_to-Before b a turned) in ground (arith, e)
