-- ===== src/Prefix/Cover.antt =====
-- Which ids a prefix covers.
use boson_native.Prelude.{ℕ, zero, suc, ◌<◌, true, All, ◌≡◌, ◌↔◌, refl, sym, ap, ◌∙◌, arith}
use boson_native.Prelude.Int.{pos}
use boson_native.Id.{NodeId, IsId, bits_equal}
use boson_native.Id.BitsEqual.{SamePrefix, bits_equal_iff}
use boson_native.Id.BitsCopy.{IsCopied, bits_copy_lem}
use boson_native.Prefix.{zero_id, filled, make, is_prefix_of}

pub SamePrefix-trans :
    (n : ℕ) (a b c : NodeId) → SamePrefix n a b → SamePrefix n b c → SamePrefix n a c
SamePrefix-trans n a b c h k = record { whole = h.whole ∙ k.whole; partial = h.partial ∙ k.partial }

pub SamePrefix-sym : (n : ℕ) (a b : NodeId) → SamePrefix n a b → SamePrefix n b a
SamePrefix-sym n a b h = record { whole = sym h.whole; partial = sym h.partial }

pub zero_id-IsId : IsId zero_id
zero_id-IsId = record { size = refl; bytes = all_zero 32 }
  where
    all_zero : (n : ℕ) → All (λ b. b < 256) (filled 0 n)
    all_zero zero = tt
    all_zero (suc n) = (omega arith, all_zero n)

pub make-IsCopied :
    (n : ℕ) (id : NodeId) → IsId id → n < 256 → IsCopied n id zero_id (make id (pos n)).id
unfolding make
make-IsCopied n id h small = bits_copy_lem n id zero_id h zero_id-IsId small

-- A prefix made of an id and its bits 0 to n covers exactly the ids that agree with the id on them.
pub is_prefix_of-make :
    (n : ℕ) (id x : NodeId)
    → IsId id
    → IsId x
    → n < 256
    → (is_prefix_of (make id (pos n)) x ≡ true) ↔ SamePrefix n id x
unfolding is_prefix_of
is_prefix_of-make n id x h k small =
    let c = make-IsCopied n id h small in
    let d = bits_equal_iff n (make id (pos n)).id x c.is_id k in
    (
      λ e. SamePrefix-trans n id (make id (pos n)).id x c.prefix (d.0 (depth_out e)),
      λ s. depth_in (
          d.1 (
            SamePrefix-trans n (make id (pos n)).id id x
              (SamePrefix-sym n id (make id (pos n)).id c.prefix) s)),
    )
  where
    depth_of : (make id (pos n)).depth ≡ pos n
    depth_of = unfold make in refl

    depth_out :
        bits_equal (make id (pos n)).id x (make id (pos n)).depth ≡ true
        → bits_equal (make id (pos n)).id x (pos n) ≡ true
    depth_out e = ap (bits_equal (make id (pos n)).id x) (sym depth_of) ∙ e

    depth_in :
        bits_equal (make id (pos n)).id x (pos n) ≡ true
        → bits_equal (make id (pos n)).id x (make id (pos n)).depth ≡ true
    depth_in e = ap (bits_equal (make id (pos n)).id x) depth_of ∙ e
