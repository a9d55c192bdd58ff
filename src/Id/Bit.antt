-- ===== src/Id/Bit.antt =====
-- The bits of an id one by one, counted from the most significant.
use boson_native.Prelude.{
  ℕ, zero, suc, ◌/◌, ◌%◌, ◌^◌, ◌<◌, List, [], ◌∷◌, length, take, get_or, compare-cases, ◌≡◌, ◌↔◌,
  inl, inr, refl, sym, ap, ap₂, subst, ◌∙◌, arith,
}
use native.Mathlib.Nat.{div-div-eq-div-mul, pow-succ', div-one}
use boson_native.Id.{NodeId, IsId, byte}
use boson_native.Id.Masks.{low_bits}
use boson_native.Id.BitsEqual.{SamePrefix, byte-lt}

abbrev pub bit : NodeId → ℕ → ℕ
bit id j = byte id (j / 8) / 2 ^ low_bits j % 2

halves : (u v : ℕ) → (u ≡ v) ↔ ((u / 2 ≡ v / 2) × (u % 2 ≡ v % 2))
halves u v = (λ e. (ap (λ (t : ℕ). t / 2) e, ap (λ (t : ℕ). t % 2) e), λ e. omega (arith, e.0, e.1))

half : (x k : ℕ) → x / 2 ^ suc k ≡ x / 2 ^ k / 2
half x k =
    sym (div-div-eq-div-mul x (2 ^ k) 2 ∙ ap (λ (t : ℕ). x / t) (omega (arith, pow-succ' 2 k)))

take-suc :
    (i : ℕ) (xs ys : List ℕ)
    → i < length xs
    → i < length ys
    → (take (suc i) xs ≡ take (suc i) ys)
      ↔ ((take i xs ≡ take i ys) × (get_or xs i 0 ≡ get_or ys i 0))
take-suc i [] ys h k = absurd (omega arith)
take-suc i (x ∷ xs) [] h k = absurd (omega arith)
take-suc zero (x ∷ xs) (y ∷ ys) h k = (λ e. (refl, cc), λ e. ap (λ z. z ∷ []) e.1)
take-suc (suc i) (x ∷ xs) (y ∷ ys) h k =
    let rest = take-suc i xs ys (omega arith) (omega arith) in
    (
      λ e.
          let tails : take (suc i) xs ≡ take (suc i) ys = cc in
          let heads : x ≡ y = cc in (ap₂ ◌∷◌ heads (rest.0 tails).0, (rest.0 tails).1),
      λ e.
          let heads : x ≡ y = cc in
          let tails : take i xs ≡ take i ys = cc in ap₂ ◌∷◌ heads (rest.1 (tails, e.1)),
    )

-- Two ids agree on bits 0 to n + 1 exactly when they agree on bits 0 to n and on bit n + 1.
pub SamePrefix-suc :
    (n : ℕ) (a b : NodeId)
    → IsId a
    → IsId b
    → suc n < 256
    → SamePrefix (suc n) a b ↔ (SamePrefix n a b × (bit a (suc n) ≡ bit b (suc n)))
SamePrefix-suc n a b ha hb small = elim (compare-cases (suc n % 8) 0) [
  | inl less ↦ absurd (omega arith)
  | inr (inl border) ↦
      let i : suc n / 8 ≡ suc (n / 8) = omega arith in
      let top : low_bits (suc n) ≡ 7 = omega arith in
      let low : low_bits n ≡ 0 = omega arith in
      let t = take-suc (n / 8) a b (omega (arith, ha.size)) (omega (arith, hb.size)) in
      let x = byte-lt a (suc (n / 8)) ha in
      let y = byte-lt b (suc (n / 8)) hb in
      (
        λ s.
            let w : take (suc (n / 8)) a ≡ take (suc (n / 8)) b =
              subst (λ k. take k a ≡ take k b) i s.whole in
            (
              record { whole = (t.0 w).0; partial = ap (λ (v : ℕ). v / 2 ^ low_bits n) (t.0 w).1 },
              ap (λ (v : ℕ). v % 2) s.partial,
            ),
        λ h.
            let whole_byte : byte a (n / 8) ≡ byte b (n / 8) =
              sym (div-one _)
              ∙ subst (λ k. byte a (n / 8) / 2 ^ k ≡ byte b (n / 8) / 2 ^ k) low h.0.partial
              ∙ div-one _ in
            let last : byte a (suc (n / 8)) / 2 ^ 7 % 2 ≡ byte b (suc (n / 8)) / 2 ^ 7 % 2 =
              subst (λ k. byte a k / 2 ^ 7 % 2 ≡ byte b k / 2 ^ 7 % 2) i
                (subst (λ k. byte a (suc n / 8) / 2 ^ k % 2 ≡ byte b (suc n / 8) / 2 ^ k % 2) top
                  h.1) in
            record {
              whole = rw i (t.1 (h.0.whole, whole_byte));
              partial = rw (i, top) (omega arith);
            },
      )
  | inr (inr inside) ↦
      let i : suc n / 8 ≡ n / 8 = omega arith in
      let low : low_bits n ≡ suc (low_bits (suc n)) = omega arith in
      let k =
        halves (byte a (n / 8) / 2 ^ low_bits (suc n)) (byte b (n / 8) / 2 ^ low_bits (suc n)) in
      (
        λ s.
            let p =
              subst (λ j. byte a j / 2 ^ low_bits (suc n) ≡ byte b j / 2 ^ low_bits (suc n)) i
                s.partial in
            (
              record {
                whole = subst (λ j. take j a ≡ take j b) i s.whole;
                partial =
                    rw
                      (
                        low,
                        half (byte a (n / 8)) (low_bits (suc n)),
                        half (byte b (n / 8)) (low_bits (suc n)),
                      )
                      (k.0 p).0;
              },
              rw i (k.0 p).1,
            ),
        λ h.
            let p : byte a (n / 8) / 2 ^ low_bits (suc n) / 2
                ≡ byte b (n / 8) / 2 ^ low_bits (suc n) / 2 =
              sym (half _ _)
              ∙ subst (λ j. byte a (n / 8) / 2 ^ j ≡ byte b (n / 8) / 2 ^ j) low h.0.partial
              ∙ half _ _ in
            let q =
              subst (λ j. byte a j / 2 ^ low_bits (suc n) % 2 ≡ byte b j / 2 ^ low_bits (suc n) % 2)
                i h.1 in
            record { whole = rw i h.0.whole; partial = rw i (k.1 (p, q)) },
      )
]
