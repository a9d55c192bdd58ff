-- ===== src/Id/Mismatch.antt =====
-- What the index found by the comparison loop says of the two ids.
use boson_native.Prelude.{
  ℕ, zero, suc, ◌<◌, none, some, [], ◌∷◌, length, take, ◌==◌, ◌≡◌, ◌≢◌, refl, ap, inl, inr, arith,
  Bool-cases, ==_iff, Option-cases,
}
use boson_native.Id.{NodeId, byte, first_mismatch}

pub first_mismatch-none : (a b : NodeId) → length a ≡ length b → first_mismatch a b ≡ none → a ≡ b
unfolding first_mismatch
first_mismatch-none [] [] e h = refl
first_mismatch-none [] (y ∷ b) e h = absurd (omega arith)
first_mismatch-none (x ∷ a) [] e h = absurd (omega arith)
first_mismatch-none (x ∷ a) (y ∷ b) e h = ground (arith, first_mismatch-none a b (omega arith))

pub first_mismatch_self : (a : NodeId) → first_mismatch a a ≡ none
unfolding first_mismatch
first_mismatch_self [] = refl
first_mismatch_self (x ∷ a) = ground (arith, first_mismatch_self a)

-- Before the index the bytes agree, and at it they do not.
pub record IsMismatch (a b : NodeId) (m : ℕ) : Type 0 where
  pub in_range : m < length a
  pub agree : take m a ≡ take m b
  pub differ : byte a m ≢ byte b m

IsMismatch-cons :
    (x : ℕ) (a b : NodeId) (m : ℕ) → IsMismatch a b m → IsMismatch (x ∷ a) (x ∷ b) (suc m)
IsMismatch-cons x a b m h = record {
  in_range = omega (arith, h.in_range);
  agree = ap (◌∷◌ x) h.agree;
  differ = h.differ;
}

pub first_mismatch-some :
    (a b : NodeId) (m : ℕ) → length a ≡ length b → first_mismatch a b ≡ some m → IsMismatch a b m
unfolding first_mismatch
first_mismatch-some [] b m e h = cc
first_mismatch-some (x ∷ a) [] m e h = cc
first_mismatch-some (x ∷ a) (y ∷ b) m e h = elim (Bool-cases (x == y)) [
  | inl same ↦ elim (Option-cases (first_mismatch a b)) [
    | inl gone ↦ absurd (ground arith)
    | inr (k, found) ↦
        let heads : x ≡ y = (==_iff x y).0 same in
        let next : suc k ≡ m = ground arith in
        rw (← next, ← heads)
          (IsMismatch-cons x a b k (first_mismatch-some a b k (omega arith) found))
  ]
  | inr apart ↦
      let first : zero ≡ m = ground arith in
      rw (← first) (record { in_range = omega arith; agree = refl; differ = λ e. ground arith })
]
