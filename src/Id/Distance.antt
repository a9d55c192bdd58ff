-- ===== src/Id/Distance.antt =====
-- The XOR metric: `distance` is a metric on ids, and `three_way_compare` orders by it.
use boson_native.Prelude.{
  ℕ, ◌<◌, compare, bit_xor, [], ◌∷◌, length, All, ◌==◌, ◌≡◌, refl, sym, ap, ap₂, ◌∙◌, arith,
  if◌then◌else◌,
}
use boson_native.Prelude.Xor.{bit_xor_comm, bit_xor_injective, bit_xor-lt, bit_xor_cancel}
use boson_native.Id.{NodeId, IsId, first_mismatch, distance, three_way_compare, compare_to}

three_way_compare-cons :
    (t a b : ℕ) (ts as' bs : NodeId)
    → three_way_compare (t ∷ ts) (a ∷ as') (b ∷ bs)
      ≡ (if a == b then three_way_compare ts as' bs else compare (bit_xor t a) (bit_xor t b))
unfolding three_way_compare first_mismatch
three_way_compare-cons t a b ts as' bs =
    ground (arith, bit_xor_comm a t, bit_xor_comm b t, bit_xor_injective a b t)

-- Comparing two ids of one length with respect to a third is comparing their distances from it.
pub three_way_compare-distance :
    (t a b : NodeId)
    → length a ≡ length t
    → length b ≡ length t
    → three_way_compare t a b ≡ compare_to (distance t a) (distance t b)
unfolding distance compare_to
three_way_compare-distance [] [] [] p q = unfold three_way_compare first_mismatch in refl
three_way_compare-distance [] [] (y ∷ b) p q = absurd (omega arith)
three_way_compare-distance [] (x ∷ a) b p q = absurd (omega arith)
three_way_compare-distance (z ∷ t) [] b p q = absurd (omega arith)
three_way_compare-distance (z ∷ t) (x ∷ a) [] p q = absurd (omega arith)
three_way_compare-distance (z ∷ t) (x ∷ a) (y ∷ b) p q = rw (three_way_compare-cons z x y t a b) (
    ground (
      arith,
      three_way_compare-distance t a b (omega arith) (omega arith),
      bit_xor_comm x z,
      bit_xor_comm y z,
      bit_xor_injective x y z,
    ))

distance-length : (a b : NodeId) → length a ≡ length b → length (distance a b) ≡ length a
unfolding distance
distance-length [] [] e = refl
distance-length [] (y ∷ b) e = absurd (omega arith)
distance-length (x ∷ a) [] e = absurd (omega arith)
distance-length (x ∷ a) (y ∷ b) e = omega (arith, distance-length a b (omega arith))

distance-bytes :
    (a b : NodeId) → All (λ x. x < 256) a → All (λ x. x < 256) b → All (λ x. x < 256) (distance a b)
unfolding distance
distance-bytes [] b p q = tt
distance-bytes (x ∷ a) [] p q = tt
distance-bytes (x ∷ a) (y ∷ b) p q = (bit_xor-lt x y p.0 q.0, distance-bytes a b p.1 q.1)

pub distance-IsId : (a b : NodeId) → IsId a → IsId b → IsId (distance a b)
distance-IsId a b p q = record {
  size = omega (arith, distance-length a b (omega (arith, p.size, q.size)), p.size);
  bytes = distance-bytes a b p.bytes q.bytes;
}

pub distance_comm : (a b : NodeId) → distance a b ≡ distance b a
unfolding distance
distance_comm [] [] = refl
distance_comm [] (y ∷ b) = refl
distance_comm (x ∷ a) [] = refl
distance_comm (x ∷ a) (y ∷ b) = ap₂ ◌∷◌ (bit_xor_comm x y) (distance_comm a b)

-- Applied twice to ids of one length, the distance gives the id back.
pub distance_cancel : (a b : NodeId) → length a ≡ length b → distance (distance a b) b ≡ a
unfolding distance
distance_cancel [] [] e = refl
distance_cancel [] (y ∷ b) e = absurd (omega arith)
distance_cancel (x ∷ a) [] e = absurd (omega arith)
distance_cancel (x ∷ a) (y ∷ b) e = ap₂ ◌∷◌ (bit_xor_cancel x y) (distance_cancel a b (omega arith))

-- No two ids are at the same distance from a third: `distance t a` determines `a`.
pub distance_injective :
    (t a b : NodeId)
    → length a ≡ length t
    → length b ≡ length t
    → distance t a ≡ distance t b
    → a ≡ b
distance_injective t a b p q e =
    sym (distance_cancel a t p)
    ∙ ap (λ d. distance d t) (distance_comm a t ∙ e ∙ distance_comm t b)
    ∙ distance_cancel b t q
