-- ===== src/Prelude/Xor.antt =====
-- The laws of exclusive or, at every width.
use Prim.Native.Nat.{
  ℕ, zero, suc, ◌+◌, ◌*◌, ◌/◌, ◌%◌, ◌^◌, ◌≤◌, ◌<◌, bit_xor, bit_xor-bitwise, differ,
}
use mathlib.Core.Path.{◌≡◌, refl, sym, ap, ◌∙◌}
use native.Mathlib.Nat.{pow-succ', div-one, div-div-eq-div-mul}
use native.Mathlib.Omega.{arith}
use boson_native.Prelude.Bits.{bit_xor-lowest}

differ_digits : (a b : ℕ) → a < 2 → b < 2 → differ a b ≡ (a + b) % 2
differ_digits zero b p q = omega arith
differ_digits (suc zero) zero p q = omega arith
differ_digits (suc zero) (suc zero) p q = omega arith
differ_digits (suc zero) (suc (suc b)) p q = absurd (omega arith)
differ_digits (suc (suc a)) b p q = absurd (omega arith)

-- The lowest digit of `a ^ b` is that of the sum.
pub bit_xor_digit : (a b : ℕ) → bit_xor a b ≡ bit_xor (a / 2) (b / 2) * 2 + (a + b) % 2
bit_xor_digit a b =
    omega (arith, bit_xor-lowest a b, differ_digits (a % 2) (b % 2) (omega arith) (omega arith))

comm_fuel : (n a b : ℕ) → a ≤ n → b ≤ n → bit_xor a b ≡ bit_xor b a
comm_fuel zero zero zero p q = refl
comm_fuel zero zero (suc b) p q = absurd (omega arith)
comm_fuel zero (suc a) b p q = absurd (omega arith)
comm_fuel (suc n) a b p q = omega (
  arith,
  bit_xor_digit a b,
  bit_xor_digit b a,
  comm_fuel n (a / 2) (b / 2) (omega arith) (omega arith),
)

pub bit_xor_comm : (a b : ℕ) → bit_xor a b ≡ bit_xor b a
bit_xor_comm a b = comm_fuel (a + b) a b (omega arith) (omega arith)

cancel_fuel : (n a b : ℕ) → a ≤ n → b ≤ n → bit_xor (bit_xor a b) b ≡ a
cancel_fuel zero zero zero p q = refl
cancel_fuel zero zero (suc b) p q = absurd (omega arith)
cancel_fuel zero (suc a) b p q = absurd (omega arith)
cancel_fuel (suc n) a b p q =
    bit_xor_digit (bit_xor a b) b
    ∙ omega (
      arith,
      bit_xor_digit a b,
      ap (λ (t : ℕ). bit_xor t (b / 2)) halved,
      cancel_fuel n (a / 2) (b / 2) (omega arith) (omega arith),
    )
  where
    halved : bit_xor a b / 2 ≡ bit_xor (a / 2) (b / 2)
    halved = omega (arith, bit_xor_digit a b)

-- What is mixed in twice is taken out again.
pub bit_xor_cancel : (a b : ℕ) → bit_xor (bit_xor a b) b ≡ a
bit_xor_cancel a b = cancel_fuel (a + b) a b (omega arith) (omega arith)

pub bit_xor_injective : (a b t : ℕ) → bit_xor a t ≡ bit_xor b t → a ≡ b
bit_xor_injective a b t e =
    omega (arith, bit_xor_cancel a t, bit_xor_cancel b t, ap (λ (s : ℕ). bit_xor s t) e)

pub bit_xor_self : (a : ℕ) → bit_xor a a ≡ 0
bit_xor_self a =
    bit_xor_injective (bit_xor a a) 0 a (bit_xor_cancel a a ∙ omega (arith, bit_xor-bitwise 0 a))

div-two-pow-suc : (k a : ℕ) → a / 2 ^ suc k ≡ a / 2 / 2 ^ k
div-two-pow-suc k a = rw pow-succ' (sym (div-div-eq-div-mul a 2 (2 ^ k)))

-- A shift to the right goes through.
pub bit_xor_shift : (k a b : ℕ) → bit_xor a b / 2 ^ k ≡ bit_xor (a / 2 ^ k) (b / 2 ^ k)
bit_xor_shift zero a b = rw (div-one, div-one, div-one)
bit_xor_shift (suc k) a b =
    rw
      (
        div-two-pow-suc k (bit_xor a b),
        div-two-pow-suc k a,
        div-two-pow-suc k b,
        ← bit_xor_shift k (a / 2) (b / 2),
      )
      (ap (λ (t : ℕ). t / 2 ^ k) halved)
  where
    halved : bit_xor a b / 2 ≡ bit_xor (a / 2) (b / 2)
    halved = omega (arith, bit_xor_digit a b)

pub bit_xor-lt : (a b : ℕ) → a < 256 → b < 256 → bit_xor a b < 256
bit_xor-lt a b p q = omega (arith, bit_xor_shift 8 a b, in_range)
  where
    in_range : bit_xor (a / 2 ^ 8) (b / 2 ^ 8) ≡ 0
    in_range =
        let high_a : a / 2 ^ 8 ≡ 0 = omega arith in
        let high_b : b / 2 ^ 8 ≡ 0 = omega arith in rw (high_a, high_b)
