-- ===== src/Prefix/Interval.antt =====
-- Prefixes as intervals of numbers: what the constructor, the two branches and the parent cover.
use boson_native.Prelude.{
  ℕ, zero, suc, ◌+◌, ◌*◌, ◌/◌, ◌≤◌, ◌<◌, Bool, true, ◌≡◌, ◌↔◌, refl, sym, subst, ◌∙◌, arith,
}
use boson_native.Prelude.Int.{ℤ, pos, negsuc, int_lt}
use boson_native.Id.{NodeId, IsId, bits_equal}
use boson_native.Id.BitsEqual.{bits_equal_iff, bits_equal-negative}
use boson_native.Id.BitsCopy.{bits_copy-negative}
use boson_native.Id.Bit.{bit}
use boson_native.Id.Number.{top, value, top-suc, top-zero, top_ext, SamePrefix-top}
use boson_native.Prefix.{
  Prefix, zero_id, make, is_prefix_of, is_splittable, split_branch, set_bit, next_bit,
}
use boson_native.Prefix.Cover.{make-IsCopied, zero_id-IsId}
use boson_native.Prefix.Split.{digit}
use boson_native.Prefix.Bits.{set_bit-other, set_bit-digit, set_bit-IsId, make-bit, zero-byte}
use boson_native.Prefix.Blunt.{width, IsBlunt, IsBlunt-bit, bits-IsBlunt, top-interval}

-- The depths from -1 to 255.
abbrev pub IsDepth : ℤ → Type 0
IsDepth (pos n) = n < 256
IsDepth (negsuc n) = n ≡ 0

-- How many bits of the id count.
abbrev pub bits : Prefix → ℕ
bits p = next_bit p.depth

-- A prefix as the constructor makes it: the bits that do not count are 0.
pub record IsPrefix (p : Prefix) : Type 0 where
  pub is_id : IsId p.id
  pub depth : IsDepth p.depth
  pub blunt : IsBlunt p.id (bits p)

pub bits-le : (d : ℤ) → IsDepth d → next_bit d ≤ 256
bits-le (pos n) h = omega arith
bits-le (negsuc n) h = omega arith

pub splittable-bits : (p : Prefix) → is_splittable p ≡ true → bits p < 256
unfolding is_splittable
splittable-bits p h = next p.depth h
  where
    next : (d : ℤ) → int_lt d (pos 255) ≡ true → next_bit d < 256
    next (pos n) e = ground (arith, e)
    next (negsuc n) e = omega arith

zero-bit : (j : ℕ) → bit zero_id j ≡ 0
zero-bit j = let zeros = zero-byte 32 (j / 8) in rw zeros (omega arith)

-- The constructor keeps the bits that count, and makes a prefix of them.
pub record IsMade (id : NodeId) (d : ℤ) : Type 0 where
  pub prefix : IsPrefix (make id d)
  pub same : top (make id d).id (next_bit d) ≡ top id (next_bit d)

make-depth : (id : NodeId) (d : ℤ) → (make id d).depth ≡ d
unfolding make
make-depth id d = refl

pub make-IsMade : (id : NodeId) (d : ℤ) → IsDepth d → IsId id → IsMade id d
make-IsMade id (pos n) l h =
    let c = make-IsCopied n id h l in
    let r = (make id (pos n)).id in
    let same = (SamePrefix-top n id r h c.is_id l).0 c.prefix in
    record {
      prefix = record {
        is_id = c.is_id;
        depth = subst IsDepth (sym (make-depth id (pos n))) l;
        blunt =
            subst (λ d. IsBlunt r (next_bit d)) (sym (make-depth id (pos n)))
              (bits-IsBlunt r (suc n) (omega arith) (λ j a b. make-bit n j id h l (omega arith) b));
      };
      same = sym same;
    }
make-IsMade id (negsuc n) l h =
    let r = (make id (negsuc n)).id in
    let e : r ≡ zero_id = unfold make in bits_copy-negative n id zero_id in
    record {
      prefix = record {
        is_id = rw e zero_id-IsId;
        depth = subst IsDepth (sym (make-depth id (negsuc n))) l;
        blunt =
            subst (λ d. IsBlunt r (next_bit d)) (sym (make-depth id (negsuc n)))
              (bits-IsBlunt r 0 (omega arith) (λ j a b. rw e (zero-bit j)));
      };
      same = top-zero r ∙ sym (top-zero id);
    }

-- What a branch of a prefix is.
pub record IsSuccessor (p : Prefix) (high : Bool) : Type 0 where
  pub prefix : IsPrefix (split_branch p high)
  pub count : bits (split_branch p high) ≡ suc (bits p)
  pub number : top (split_branch p high).id (suc (bits p)) ≡ 2 * top p.id (bits p) + digit high

pub split_branch-IsSuccessor :
    (p : Prefix) (high : Bool) → IsPrefix p → bits p < 256 → IsSuccessor p high
unfolding split_branch
split_branch-IsSuccessor p high h l =
    let m = make-IsMade p.id p.depth h.depth h.is_id in
    let base = (make p.id p.depth).id in
    let k = bits p in
    let r = set_bit high k base in
    let base_id = m.prefix.is_id in
    let base_blunt : IsBlunt base k =
      subst (λ d. IsBlunt base (next_bit d)) (make-depth p.id p.depth) m.prefix.blunt in
    let front : top r k ≡ top base k =
      top_ext r base k
        (λ j a. set_bit-other high k j base base_id l (omega arith) (λ e. absurd (omega arith))) in
    let last = set_bit-digit high k base base_id l in
    let s = top-suc r k in
    let same = m.same in
    record {
      prefix = record {
        is_id = set_bit-IsId high k base base_id l;
        depth = l;
        blunt = bits-IsBlunt r (suc k) (omega arith) (λ j a b.
            set_bit-other high k j base base_id l b (λ e. absurd (omega arith))
            ∙ IsBlunt-bit base k j (omega arith) b base_blunt);
      };
      count = refl;
      number = omega arith;
    }

-- A prefix covers the ids whose first bits make its number.
pub is_prefix_of-top :
    (p : Prefix) (x : NodeId)
    → IsPrefix p
    → IsId x
    → (is_prefix_of p x ≡ true) ↔ (top x (bits p) ≡ top p.id (bits p))
unfolding is_prefix_of
is_prefix_of-top p x h k = cases p.depth refl
  where
    cases :
        (d : ℤ)
        → p.depth ≡ d
        → (bits_equal p.id x p.depth ≡ true) ↔ (top x (bits p) ≡ top p.id (bits p))
    cases (pos n) e =
        let l : n < 256 = subst IsDepth e h.depth in
        let b = bits_equal_iff n p.id x h.is_id k in
        let t = SamePrefix-top n p.id x h.is_id k l in
        rw e (λ q. sym (t.0 (b.0 q)), λ q. b.1 (t.1 (sym q)))
    cases (negsuc n) e =
        rw e (λ q. top-zero x ∙ sym (top-zero p.id), λ q. bits_equal-negative n p.id x)

-- The first id of a prefix as a number; the ids that it covers are `width` many from there.
abbrev pub low : Prefix → ℕ
low p = value p.id

abbrev pub Inside : Prefix → NodeId → Type 0
Inside p x = (low p ≤ value x) × (value x < low p + width (bits p))

-- A prefix covers exactly the ids of its interval.
pub is_prefix_of-Inside :
    (p : Prefix) (x : NodeId) → IsPrefix p → IsId x → (is_prefix_of p x ≡ true) ↔ Inside p x
is_prefix_of-Inside p x h k =
    let t = is_prefix_of-top p x h k in
    let i = top-interval x (bits p) (top p.id (bits p)) (bits-le p.depth h.depth) in
    let b : value p.id ≡ top p.id (bits p) * width (bits p) = h.blunt in
    (
      λ e. let r = i.0 (t.0 e) in (omega arith, omega arith),
      λ q. t.1 (i.1 (omega arith, omega arith)),
    )

pub zero_id-value : value zero_id ≡ 0
zero_id-value = zeros 256 (omega arith)
  where
    zeros : (k : ℕ) → k ≤ 256 → top zero_id k ≡ 0
    zeros zero h = top-zero zero_id
    zeros (suc k) h =
        let s = top-suc zero_id k in
        let z = zero-bit k in let r = zeros k (omega arith) in omega arith

-- The prefix of all ids.
pub all_ids-cover : (x : NodeId) → is_prefix_of (record { id = zero_id; depth = negsuc 0 }) x ≡ true
unfolding is_prefix_of
all_ids-cover x = bits_equal-negative 0 zero_id x
