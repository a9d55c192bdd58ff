-- ===== src/RoutingTable/Settled.antt =====
-- Lists of buckets of which no neighbours can be merged.
use boson_native.Prelude.{
  ℕ, zero, suc, ◌≤◌, ◌<◌, max, false, some, List, [], ◌∷◌, ◌++◌, length, get_elem?, ◌≡◌, refl, sym,
  ap, subst, ◌∙◌, arith, compare-cases, inl, inr,
}
use boson_native.KBucket.{KBucket}
use boson_native.RoutingTable.{mergeable}
use boson_native.RoutingTable.Joined.{IsShorter}

-- No pair of neighbours can be merged.
abbrev pub IsSettled : List KBucket → Type 0
IsSettled [] = Unit
IsSettled (b ∷ []) = Unit
IsSettled (b1 ∷ b2 ∷ bs) = (mergeable b1 b2 ≡ false) × IsSettled (b2 ∷ bs)

-- The same of the pairs before an index.
pub SettledTo : ℕ → List KBucket → Type 0
SettledTo i bs =
    (j : ℕ) (b1 b2 : KBucket)
    → suc j < i
    → get_elem? bs j ≡ some b1
    → get_elem? bs (suc j) ≡ some b2
    → mergeable b1 b2 ≡ false

pub SettledTo-IsSettled :
    (bs : List KBucket) (i : ℕ) → length bs ≤ i → SettledTo i bs → IsSettled bs
unfolding SettledTo
SettledTo-IsSettled [] i l h = tt
SettledTo-IsSettled (b ∷ []) i l h = tt
SettledTo-IsSettled (b1 ∷ b2 ∷ bs) zero l h = absurd (omega arith)
SettledTo-IsSettled (b1 ∷ b2 ∷ bs) (suc i) l h = (
  h 0 b1 b2 (omega arith) refl refl,
  SettledTo-IsSettled (b2 ∷ bs) i (omega arith)
      (λ j c1 c2 less e1 e2. h (suc j) c1 c2 (omega arith) e1 e2),
)

front_same :
    (xs ys zs : List KBucket) (j : ℕ)
    → j < length xs
    → get_elem? (xs ++ ys) j ≡ get_elem? (xs ++ zs) j
front_same [] ys zs j h = absurd (omega arith)
front_same (x ∷ xs) ys zs zero h = refl
front_same (x ∷ xs) ys zs (suc j) h = front_same xs ys zs j (omega arith)

-- A merge leaves the pairs before it as they are.
pub SettledTo-shorter :
    (bs cs : List KBucket) (i : ℕ)
    → IsShorter bs i cs
    → SettledTo (suc i) bs
    → SettledTo (max 1 i) cs
unfolding SettledTo
SettledTo-shorter bs cs i s h j b1 b2 less e1 e2 =
    let place = s.place in
    let same : (k : ℕ) → k < i → get_elem? bs k ≡ get_elem? cs k = λ k l.
      ap (λ bs. get_elem? bs k) s.before
      ∙ front_same s.front s.old s.new k (omega arith)
      ∙ ap (λ bs. get_elem? bs k) (sym s.after) in
    h j b1 b2 (omega arith) (same j (omega arith) ∙ e1) (same (suc j) (omega arith) ∙ e2)

-- The pair at the index is one more.
pub SettledTo-next :
    (bs : List KBucket) (i : ℕ) (b1 b2 : KBucket)
    → get_elem? bs i ≡ some b1
    → get_elem? bs (suc i) ≡ some b2
    → mergeable b1 b2 ≡ false
    → SettledTo (suc i) bs
    → SettledTo (suc (suc i)) bs
unfolding SettledTo
SettledTo-next bs i b1 b2 e1 e2 m h j c1 c2 less k1 k2 = elim (compare-cases (suc j) (suc i)) [
  | inl before ↦ h j c1 c2 before k1 k2
  | inr (inl same) ↦
      let at : j ≡ i = omega arith in
      let f1 : get_elem? bs i ≡ some c1 = subst (λ k. get_elem? bs k ≡ some c1) at k1 in
      let f2 : get_elem? bs (suc i) ≡ some c2 = subst (λ k. get_elem? bs (suc k) ≡ some c2) at k2 in
      let x : b1 ≡ c1 = cc in
      let y : b2 ≡ c2 = cc in
      subst (λ b. mergeable b c2 ≡ false) x (subst (λ b. mergeable b1 b ≡ false) y m)
  | inr (inr more) ↦ absurd (omega arith)
]

pub SettledTo-first : (bs : List KBucket) → SettledTo 1 bs
unfolding SettledTo
SettledTo-first bs = λ j b1 b2 less e1 e2. absurd (omega arith)
