-- ===== src/Prefix/Blunt.antt =====
-- Ids whose bits from some bit on are 0, as the ids of prefixes are.
use boson_native.Prelude.{
  ℕ, zero, suc, ◌+◌, ◌-◌, ◌*◌, ◌^◌, ◌≤◌, ◌<◌, compare-cases, ◌≡◌, ◌↔◌, inl, inr, ap, subst, ◌∙◌,
  arith,
}
use native.Mathlib.Nat.{one-le-pow, two-pow-succ, mul-le-mul_right}
use boson_native.Id.{NodeId}
use boson_native.Id.Bit.{bit}
use boson_native.Id.Number.{top, value, top-suc, bit-lt}

-- How many ids agree with an id on its first `k` bits.
abbrev pub width : ℕ → ℕ
width k = 2 ^ (256 - k)

double : (t j : ℕ) → t * 2 ^ suc j ≡ 2 * (t * 2 ^ j)
double t j = ap (λ (s : ℕ). t * s) (two-pow-succ j) ∙ omega arith

-- What the next bits add.
pub record Front (id : NodeId) (k j : ℕ) : Type 0 where
  pub rest : ℕ
  pub small : rest < 2 ^ j
  pub split : top id (j + k) ≡ top id k * 2 ^ j + rest

pub top-Front : (id : NodeId) (k j : ℕ) → Front id k j
top-Front id k zero =
    let e : 0 + k ≡ k = omega arith in
    record { rest = 0; small = omega arith; split = rw e (omega arith) }
top-Front id k (suc j) =
    let f = top-Front id k j in
    let e : suc j + k ≡ suc (j + k) = omega arith in
    let s = top-suc id (j + k) in
    let b = bit-lt id (j + k) in
    let p = two-pow-succ j in
    let d = double (top id k) j in
    let small = f.small in
    let split = f.split in
    record { rest = 2 * f.rest + bit id (j + k); small = omega arith; split = rw e (omega arith) }

pub zero_bits :
    (id : NodeId) (k m i : ℕ) → top id (m + k) ≡ top id k * 2 ^ m → i < m → bit id (i + k) ≡ 0
zero_bits id k zero i h l = absurd (omega arith)
zero_bits id k (suc m) i h l =
    let f = top-Front id (suc k) m in
    let split = f.split in
    let shift : suc m + k ≡ m + suc k = omega arith in
    let h' : top id (m + suc k) ≡ top id k * 2 ^ suc m =
      subst (λ t. top id t ≡ top id k * 2 ^ suc m) shift h in
    let d = double (top id k) m in
    let s = top-suc id k in
    let expand : top id (suc k) * 2 ^ m ≡ 2 * (top id k * 2 ^ m) + bit id k * 2 ^ m =
      ap (λ (t : ℕ). t * 2 ^ m) s ∙ distribute (top id k) (bit id k) (2 ^ m) in
    let one = one-le-pow m 2 (omega arith) in
    let first : bit id k ≡ 0 = bit_zero (bit id k) (2 ^ m) (bit-lt id k) one (omega arith) in
    elim (compare-cases i 0) [
      | inl less ↦ absurd (omega arith)
      | inr (inl here) ↦ let e : i + k ≡ k = omega arith in rw e first
      | inr (inr later) ↦
          let gone : bit id k * 2 ^ m ≡ 0 = ap (λ (t : ℕ). t * 2 ^ m) first ∙ omega arith in
          let next = zero_bits id (suc k) m (i - 1) (omega arith) (omega arith) in
          let e : i - 1 + suc k ≡ i + k = omega arith in subst (λ t. bit id t ≡ 0) e next
    ]
  where
    distribute : (t b p : ℕ) → (2 * t + b) * p ≡ 2 * (t * p) + b * p
    distribute t b p = grind arith

    bit_zero : (b p : ℕ) → b < 2 → 1 ≤ p → b * p ≡ 0 → b ≡ 0
    bit_zero b p h k e = grind arith

pub top-zero_bits :
    (id : NodeId) (k m : ℕ)
    → ((i : ℕ) → i < m → bit id (i + k) ≡ 0)
    → top id (m + k) ≡ top id k * 2 ^ m
top-zero_bits id k zero h = let e : 0 + k ≡ k = omega arith in rw e (omega arith)
top-zero_bits id k (suc m) h =
    let rest = top-zero_bits id k m (λ i l. h i (omega arith)) in
    let last = h m (omega arith) in
    let e : suc m + k ≡ suc (m + k) = omega arith in
    let s = top-suc id (m + k) in let d = double (top id k) m in rw e (omega arith)

-- All bits from bit `k` on are 0, in terms of the id's number.
abbrev pub IsBlunt : NodeId → ℕ → Type 0
IsBlunt id k = value id ≡ top id k * width k

pub IsBlunt-bit : (id : NodeId) (k j : ℕ) → k ≤ j → j < 256 → IsBlunt id k → bit id j ≡ 0
IsBlunt-bit id k j h l b =
    let e : 256 ≡ 256 - k + k = omega arith in
    let b' : top id (256 - k + k) ≡ top id k * 2 ^ (256 - k) =
      subst (λ t. top id t ≡ top id k * 2 ^ (256 - k)) e b in
    let at : j - k + k ≡ j = omega arith in
    subst (λ t. bit id t ≡ 0) at (zero_bits id k (256 - k) (j - k) b' (omega arith))

pub bits-IsBlunt :
    (id : NodeId) (k : ℕ) → k ≤ 256 → ((j : ℕ) → k ≤ j → j < 256 → bit id j ≡ 0) → IsBlunt id k
bits-IsBlunt id k h z =
    let e : 256 - k + k ≡ 256 = omega arith in
    subst (λ t. top id t ≡ top id k * 2 ^ (256 - k)) e
      (top-zero_bits id k (256 - k) (λ i l. z (i + k) (omega arith) (omega arith)))

quotient-less : (w s t r : ℕ) → r < w → s < t → s * w + r < t * w
quotient-less w s t r small less =
    let m : suc s * w ≤ t * w = mul-le-mul_right w less in
    let e : suc s * w ≡ s * w + w = grind arith in omega arith

-- The first `k` bits of an id as an interval of numbers.
pub top-interval :
    (id : NodeId) (k t : ℕ)
    → k ≤ 256
    → (top id k ≡ t) ↔ ((t * width k ≤ value id) × (value id < t * width k + width k))
top-interval id k t h =
    let f = top-Front id k (256 - k) in
    let small = f.small in
    let e : 256 - k + k ≡ 256 = omega arith in
    let split : value id ≡ top id k * 2 ^ (256 - k) + f.rest =
      subst (λ j. top id j ≡ top id k * 2 ^ (256 - k) + f.rest) e f.split in
    (
      λ same. let scaled = ap (λ (s : ℕ). s * 2 ^ (256 - k)) same in (omega arith, omega arith),
      λ inside. elim (compare-cases (top id k) t) [
        | inl less ↦
            let apart = quotient-less (2 ^ (256 - k)) (top id k) t f.rest small less in
            absurd (omega arith)
        | inr (inl same) ↦ same
        | inr (inr more) ↦
            let inner : value id - t * width k < width k = omega arith in
            let apart =
              quotient-less (2 ^ (256 - k)) t (top id k) (value id - t * width k) inner more in
            absurd (omega arith)
      ],
    )
