-- ===== src/Prefix/Halves.antt =====
-- The two halves of a prefix's interval: splitting makes them, and the parent joins them.
use boson_native.Prelude.{
  ℕ, zero, suc, ◌+◌, ◌-◌, ◌*◌, ◌^◌, ◌≤◌, ◌<◌, Bool, true, false, ==_iff, compare-cases, ◌≡◌, inl,
  inr, refl, sym, ap, subst, ◌∙◌, arith,
}
use boson_native.Prelude.Bits.{bit_and_seven}
use native.Mathlib.Nat.{one-le-pow, two-pow-succ, mul-le-mul_right}
use boson_native.Prelude.Int.{ℤ, pos, negsuc, pred_ℤ, int_eq}
use boson_native.Id.{NodeId, bits_equal}
use boson_native.Id.BitsEqual.{bits_equal_iff}
use boson_native.Id.Bit.{bit}
use boson_native.Id.Number.{top, value, top-suc, top-zero, top_ext, SamePrefix-top, bit-lt}
use boson_native.Prefix.{
  Prefix, make, split_branch, set_bit, next_bit, get_parent, set_tail, is_sibling_of,
}
use boson_native.Prefix.Bits.{set_bit-other, set_bit-digit, set_bit-IsId}
use boson_native.Prefix.Split.{digit}
use boson_native.Prefix.Blunt.{width, IsBlunt, IsBlunt-bit, bits-IsBlunt, top-Front}
use boson_native.Prefix.Interval.{
  IsDepth, bits, IsPrefix, make-IsMade, split_branch-IsSuccessor, low,
}

pub width-suc : (k : ℕ) → k < 256 → width k ≡ width (suc k) + width (suc k)
width-suc k h =
    let e : 256 - k ≡ suc (256 - suc k) = omega arith in
    ap (λ (j : ℕ). 2 ^ j) e ∙ two-pow-succ (256 - suc k)

pub width-pos : (k : ℕ) → 1 ≤ width k
width-pos k = one-le-pow (256 - k) 2 (omega arith)

pub value-lt : (id : NodeId) → value id < 2 ^ 256
value-lt id =
    let f = top-Front id 0 256 in
    let small = f.small in
    let split = f.split in
    let z = top-zero id in
    let gone : top id 0 * 2 ^ 256 ≡ 0 = ap (λ (t : ℕ). t * 2 ^ 256) z ∙ omega arith in omega arith

two_steps : (t d w : ℕ) → (2 * t + d) * w ≡ t * (w + w) + d * w
two_steps t d w = grind arith

-- Where the branches begin.
pub record IsHalved (p : Prefix) : Type 0 where
  pub lower : low (split_branch p false) ≡ low p
  pub upper : low (split_branch p true) ≡ low p + width (suc (bits p))
  pub whole : width (bits p) ≡ width (suc (bits p)) + width (suc (bits p))

branch-low :
    (p : Prefix) (high : Bool)
    → IsPrefix p
    → bits p < 256
    → low (split_branch p high) ≡ low p + digit high * width (suc (bits p))
branch-low p high h l =
    let b = split_branch-IsSuccessor p high h l in
    let blunt : low (split_branch p high)
        ≡ top (split_branch p high).id (suc (bits p)) * width (suc (bits p)) =
      subst (λ k. low (split_branch p high) ≡ top (split_branch p high).id k * width k) b.count
        b.prefix.blunt in
    let scaled = ap (λ (t : ℕ). t * width (suc (bits p))) b.number in
    let steps = two_steps (top p.id (bits p)) (digit high) (width (suc (bits p))) in
    let own : low p ≡ top p.id (bits p) * (width (suc (bits p)) + width (suc (bits p))) =
      subst (λ w. low p ≡ top p.id (bits p) * w) (width-suc (bits p) l) h.blunt in
    omega arith

pub split_branch-IsHalved : (p : Prefix) → IsPrefix p → bits p < 256 → IsHalved p
split_branch-IsHalved p h l =
    let a = branch-low p false h l in
    let b = branch-low p true h l in
    record { lower = omega arith; upper = omega arith; whole = width-suc (bits p) l }

get_parent-pos :
    (p : Prefix) (n : ℕ)
    → p.depth ≡ pos n
    → get_parent p ≡ record { id = set_bit false n (make p.id (pos n)).id; depth = pred_ℤ (pos n) }
unfolding get_parent make set_tail
get_parent-pos p n e = rw (e, bit_and_seven n) refl

next_bit-pred : (n : ℕ) → next_bit (pred_ℤ (pos n)) ≡ n
next_bit-pred zero = refl
next_bit-pred (suc n) = refl

pred-IsDepth : (n : ℕ) → n < 256 → IsDepth (pred_ℤ (pos n))
pred-IsDepth zero h = refl
pred-IsDepth (suc n) h = omega arith

-- What the parent of a prefix is.
pub record IsAbove (p : Prefix) (n : ℕ) : Type 0 where
  pub prefix : IsPrefix (get_parent p)
  pub count : bits (get_parent p) ≡ n
  pub number : top (get_parent p).id n ≡ top p.id n

pub get_parent-IsAbove : (p : Prefix) (n : ℕ) → IsPrefix p → p.depth ≡ pos n → IsAbove p n
get_parent-IsAbove p n h e =
    let l : n < 256 = subst IsDepth e h.depth in
    let m = make-IsMade p.id (pos n) l h.is_id in
    let base = (make p.id (pos n)).id in
    let base_blunt : IsBlunt base (suc n) =
      subst (λ d. IsBlunt base (next_bit d)) (made-depth p.id (pos n)) m.prefix.blunt in
    let r = set_bit false n base in
    let cleared = set_bit-digit false n base m.prefix.is_id l in
    let zeros : (j : ℕ) → n ≤ j → j < 256 → bit r j ≡ 0 = λ j a b. elim (compare-cases j n) [
      | inl less ↦ absurd (omega arith)
      | inr (inl same) ↦ rw same cleared
      | inr (inr more) ↦
          set_bit-other false n j base m.prefix.is_id l b (λ e. absurd (omega arith))
          ∙ IsBlunt-bit base (suc n) j (omega arith) b base_blunt
    ] in
    let front : top r n ≡ top base n = top_ext r base n (λ j a.
      set_bit-other false n j base m.prefix.is_id l (omega arith) (λ e. absurd (omega arith))) in
    let base_front : top base n ≡ top p.id n =
      let s = top-suc base n in
      let t = top-suc p.id n in
      let both = m.same in let x = bit-lt base n in let y = bit-lt p.id n in omega arith in
    let own = get_parent-pos p n e in
    record {
      prefix = rw own (record {
        is_id = set_bit-IsId false n base m.prefix.is_id l;
        depth = pred-IsDepth n l;
        blunt =
            subst (λ k. IsBlunt r k) (sym (next_bit-pred n)) (bits-IsBlunt r n (omega arith) zeros);
      });
      count = rw own (next_bit-pred n);
      number = rw own (front ∙ base_front);
    }
  where
    made-depth : (id : NodeId) (d : ℤ) → (make id d).depth ≡ d
    made-depth id d = unfold make in refl

-- Two siblings side by side and their parent.
pub record IsJoined (p q : Prefix) : Type 0 where
  pub prefix : IsPrefix (get_parent p)
  pub start : low (get_parent p) ≡ low p
  pub whole : width (bits (get_parent p)) ≡ width (bits p) + width (bits q)

sibling-depth : (p q : Prefix) → is_sibling_of p q ≡ true → p.depth ≡ q.depth
unfolding is_sibling_of
sibling-depth p q h = int_eq-eq p.depth q.depth (ground arith)
  where
    int_eq-eq : (a b : ℤ) → int_eq a b ≡ true → a ≡ b
    int_eq-eq (pos a) (pos b) h = ap pos ((==_iff a b).0 h)
    int_eq-eq (pos a) (negsuc b) h = cc
    int_eq-eq (negsuc a) (pos b) h = cc
    int_eq-eq (negsuc a) (negsuc b) h = ap negsuc ((==_iff a b).0 h)

sibling-front :
    (p q : Prefix) (n : ℕ)
    → IsPrefix p
    → IsPrefix q
    → p.depth ≡ pos n
    → n < 256
    → is_sibling_of p q ≡ true
    → top p.id n ≡ top q.id n
unfolding is_sibling_of
sibling-front p q zero hp hq e l s = top-zero p.id ∙ sym (top-zero q.id)
sibling-front p q (suc n) hp hq e l s =
    let equal : bits_equal p.id q.id (pred_ℤ p.depth) ≡ true = ground arith in
    let at : bits_equal p.id q.id (pos n) ≡ true =
      subst (λ d. bits_equal p.id q.id (pred_ℤ d) ≡ true) e equal in
    (SamePrefix-top n p.id q.id hp.is_id hq.is_id (omega arith)).0
      ((bits_equal_iff n p.id q.id hp.is_id hq.is_id).0 at)

next_number : (s t w : ℕ) → 1 ≤ w → t * w ≡ s * w + w → t ≡ suc s
next_number s t w h e = elim (compare-cases t (suc s)) [
  | inl less ↦ let m = mul-le-mul_right {m = t} {n = s} w (omega arith) in absurd (omega arith)
  | inr (inl same) ↦ same
  | inr (inr more) ↦
      let m = mul-le-mul_right {m = suc (suc s)} {n = t} w more in
      let x : suc (suc s) * w ≡ s * w + w + w = grind arith in absurd (omega arith)
]

pub siblings-IsJoined :
    (p q : Prefix)
    → IsPrefix p
    → IsPrefix q
    → low q ≡ low p + width (bits p)
    → is_sibling_of p q ≡ true
    → IsJoined p q
siblings-IsJoined p q hp hq next s = cases p.depth refl
  where
    cases : (d : ℤ) → p.depth ≡ d → IsJoined p q
    cases (negsuc n) e =
        let none : n ≡ 0 = subst IsDepth e hp.depth in
        let whole : width (bits p) ≡ 2 ^ 256 = ap (λ (d : ℤ). width (next_bit d)) e in
        let below = value-lt q.id in absurd (omega arith)
    cases (pos n) e =
        let l : n < 256 = subst IsDepth e hp.depth in
        let f = get_parent-IsAbove p n hp e in
        let eq = sym (sibling-depth p q s) ∙ e in
        let front = sibling-front p q n hp hq e l s in
        let bp : bits p ≡ suc n = ap next_bit e in
        let bq : bits q ≡ suc n = ap next_bit eq in
        let own : low p ≡ top p.id (suc n) * width (suc n) =
          subst (λ k. low p ≡ top p.id k * width k) bp hp.blunt in
        let other : low q ≡ top q.id (suc n) * width (suc n) =
          subst (λ k. low q ≡ top q.id k * width k) bq hq.blunt in
        let gap : low q ≡ low p + width (suc n) = subst (λ k. low q ≡ low p + width k) bp next in
        let one =
          next_number (top p.id (suc n)) (top q.id (suc n)) (width (suc n)) (width-pos (suc n))
            (omega arith) in
        let tp = top-suc p.id n in
        let tq = top-suc q.id n in
        let xp = bit-lt p.id n in
        let xq = bit-lt q.id n in
        let even : top p.id (suc n) ≡ 2 * top p.id n + 0 = omega arith in
        let scaled = ap (λ (t : ℕ). t * width (suc n)) even in
        let steps = two_steps (top p.id n) 0 (width (suc n)) in
        let double = width-suc n l in
        let blunt : low (get_parent p) ≡ top (get_parent p).id n * width n =
          subst (λ k. low (get_parent p) ≡ top (get_parent p).id k * width k) f.count
            f.prefix.blunt in
        let number = ap (λ (t : ℕ). t * width n) f.number in
        let unfolded : top p.id n * width n ≡ top p.id n * (width (suc n) + width (suc n)) =
          ap (λ (w : ℕ). top p.id n * w) double in
        record { prefix = f.prefix; start = omega arith; whole = rw (f.count, bp, bq) double }
