-- ===== src/Prelude/Bits.antt =====
-- The native bit operations by their lowest digit, and the masks and fields that the ids use.
use Prim.Native.Nat.{
  ℕ, zero, suc, ◌+◌, ◌*◌, ◌/◌, ◌%◌, ◌^◌, ◌≤◌, ◌<◌, min, max, bit_and, bit_or, bit_xor, digits,
  differ, bitwise, bit_and-bitwise, bit_or-bitwise, bit_xor-bitwise,
}
use mathlib.Core.Path.{◌≡◌, refl, ap, ◌∙◌}
use mathlib.Core.Logic.{inl, inr}
use boson_native.Prelude.Tests.{compare-cases}
use mathlib.Core.Bool.{Bool, true, ◌&&◌}
use native.Mathlib.Nat.{two-pow-succ}
use native.Mathlib.Omega.{arith}

-- One unit of fuel more than the first operand asks for changes nothing, and so no surplus does.
module _ (rest : ℕ → ℕ) (digit : ℕ → ℕ → ℕ) where
  one_more :
      (fuel x y : ℕ) → x ≤ fuel → digits rest digit (suc fuel) x y ≡ digits rest digit fuel x y
  one_more zero zero y fits = refl
  one_more zero (suc x) y fits = absurd (omega arith)
  one_more (suc fuel) zero y fits = refl
  one_more (suc fuel) (suc x) y fits =
      ap (λ (q : ℕ). q * 2 + digit (suc x % 2) (y % 2))
        (one_more fuel (suc x / 2) (y / 2) (omega arith))

  surplus : (fuel x y : ℕ) → x ≤ fuel → digits rest digit fuel x y ≡ bitwise rest digit x y
  surplus zero zero y fits = refl
  surplus zero (suc x) y fits = absurd (omega arith)
  surplus (suc fuel) x y fits = elim (compare-cases x (suc fuel)) [
    | inl less ↦ one_more fuel x y (omega arith) ∙ surplus fuel x y (omega arith)
    | inr (inl full) ↦ rw full refl
    | inr (inr more) ↦ absurd (omega arith)
  ]

  lowest_digit :
      (x y : ℕ)
      → bitwise rest digit (suc x) y
        ≡ 2 * bitwise rest digit (suc x / 2) (y / 2) + digit (suc x % 2) (y % 2)
  lowest_digit x y = let halves = surplus x (suc x / 2) (y / 2) (omega arith) in omega arith

pub bit_or-lowest : (x y : ℕ) → bit_or x y ≡ 2 * bit_or (x / 2) (y / 2) + max (x % 2) (y % 2)
bit_or-lowest zero y = simp bit_or-bitwise (omega arith)
bit_or-lowest (suc x) y = simp bit_or-bitwise (lowest_digit (λ y. y) max x y)

pub bit_and-lowest : (x y : ℕ) → bit_and x y ≡ 2 * bit_and (x / 2) (y / 2) + min (x % 2) (y % 2)
bit_and-lowest zero y = simp bit_and-bitwise (omega arith)
bit_and-lowest (suc x) y = simp bit_and-bitwise (lowest_digit (λ y. 0) min x y)

pub bit_xor-lowest : (x y : ℕ) → bit_xor x y ≡ 2 * bit_xor (x / 2) (y / 2) + differ (x % 2) (y % 2)
bit_xor-lowest zero y = simp bit_xor-bitwise (omega arith)
bit_xor-lowest (suc x) y = simp bit_xor-bitwise (lowest_digit (λ y. y) differ x y)

-- A test at every number below a bound, the largest first.
unfoldable pub all_below : ℕ → (ℕ → Bool) → Bool
all_below zero test = true
all_below (suc bound) test = let below = all_below bound test in test bound && below

pub all_below_sound :
    (bound : ℕ) (test : ℕ → Bool) (i : ℕ) → all_below bound test ≡ true → i < bound → test i ≡ true
unfolding all_below
all_below_sound zero test i passed small = absurd (omega arith)
all_below_sound (suc bound) test i passed small = elim (compare-cases i bound) [
  | inl less ↦ all_below_sound bound test i (ground arith) less
  | inr (inl same) ↦ rw same (ground arith)
  | inr (inr more) ↦ absurd (omega arith)
]

-- `low | high << k` is a sum when `low` fits `k` bits.
pub bit_or_fields : (k low high : ℕ) → low < 2 ^ k → bit_or low (high * 2 ^ k) ≡ high * 2 ^ k + low
bit_or_fields zero low high fits = ground (arith, bit_or-bitwise 0 (high * 2 ^ 0))
bit_or_fields (suc k) low high fits = ground (
  arith,
  bit_or-lowest low (high * 2 ^ suc k),
  two-pow-succ k,
  halved,
  bit_or_fields k (low / 2) high (omega (arith, two-pow-succ k)),
)
  where
    halved : high * 2 ^ suc k ≡ 2 * (high * 2 ^ k)
    halved = omega (arith, ap (λ (t : ℕ). high * t) (two-pow-succ k))

-- No bit is left of a number when all are masked out: by halving it as often as it is large.
masked_out : (steps x : ℕ) → x ≤ steps → bit_and x 0 ≡ 0
masked_out steps zero small = refl
masked_out zero (suc x) small = absurd (omega arith)
masked_out (suc steps) (suc x) small =
    let half = masked_out steps (suc x / 2) (omega arith) in
    let split = bit_and-lowest (suc x) 0 in omega arith

pub bit_and-zero : (x : ℕ) → bit_and x 0 ≡ 0
bit_and-zero x = masked_out x x (omega arith)

-- The mask of three ones is the remainder by 8.
pub bit_and_seven : (x : ℕ) → bit_and x 7 ≡ x % 8
bit_and_seven x =
    let low = bit_and-lowest x 7 in
    let middle = bit_and-lowest (x / 2) 3 in
    let high = bit_and-lowest (x / 2 / 2) 1 in
    let gone = bit_and-zero (x / 2 / 2 / 2) in omega arith
