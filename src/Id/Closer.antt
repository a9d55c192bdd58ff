-- ===== src/Id/Closer.antt =====
-- "Closer to the target" is a strict total order, so sorting by it has one result.
use boson_native.Prelude.{Ordering, length, ◌≡◌, ◌↔◌, sym, ap, ◌∙◌, arith}
use boson_native.Id.{NodeId, IsId, distance, three_way_compare, compare_to}
use boson_native.Id.Order.{flip, compare_to-flip, compare_to_self, compare_to-eq, compare_to_trans}
use boson_native.Id.Distance.{three_way_compare-distance, distance-IsId, distance_injective}

-- Two ids compare as equally far from the target exactly when they are the same id.
pub three_way_compare-eq :
    (t a b : NodeId) → IsId t → IsId a → IsId b → (three_way_compare t a b ≡ Ordering.eq) ↔ (a ≡ b)
three_way_compare-eq t a b ht ha hb = (forwards, backwards)
  where
    same : three_way_compare t a b ≡ compare_to (distance t a) (distance t b)
    same =
        three_way_compare-distance t a b (omega (arith, ha.size, ht.size))
          (omega (arith, hb.size, ht.size))

    forwards : three_way_compare t a b ≡ Ordering.eq → a ≡ b
    forwards e =
        distance_injective t a b (omega (arith, ha.size, ht.size)) (omega (arith, hb.size, ht.size))
          (compare_to-eq (distance t a) (distance t b)
            (omega (arith, (distance-IsId t a ht ha).size, (distance-IsId t b ht hb).size))
            (sym same ∙ e))

    backwards : a ≡ b → three_way_compare t a b ≡ Ordering.eq
    backwards e =
        same
        ∙ ap (λ x. compare_to (distance t a) (distance t x)) (sym e)
        ∙ compare_to_self (distance t a)

-- Exchanging the two ids exchanges -1 and 1.
pub three_way_compare-flip :
    (t a b : NodeId)
    → length a ≡ length t
    → length b ≡ length t
    → three_way_compare t a b ≡ flip (three_way_compare t b a)
three_way_compare-flip t a b p q =
    three_way_compare-distance t a b p q
    ∙ compare_to-flip (distance t a) (distance t b)
    ∙ ap flip (sym (three_way_compare-distance t b a q p))

-- If `a` is closer to the target than `b`, and `b` than `c`, then `a` is closer than `c`.
pub three_way_compare_trans :
    (t a b c : NodeId)
    → IsId t
    → IsId a
    → IsId b
    → IsId c
    → three_way_compare t a b ≡ Ordering.lt
    → three_way_compare t b c ≡ Ordering.lt
    → three_way_compare t a c ≡ Ordering.lt
three_way_compare_trans t a b c ht ha hb hc h k =
    by_distance a c ha hc
    ∙ compare_to_trans (distance t a) (distance t b) (distance t c)
        (omega (arith, (size a ha), (size b hb))) (omega (arith, (size b hb), (size c hc)))
        (sym (by_distance a b ha hb) ∙ h) (sym (by_distance b c hb hc) ∙ k)
  where
    by_distance :
        (x y : NodeId)
        → IsId x
        → IsId y
        → three_way_compare t x y ≡ compare_to (distance t x) (distance t y)
    by_distance x y hx hy =
        three_way_compare-distance t x y (omega (arith, hx.size, ht.size))
          (omega (arith, hy.size, ht.size))

    size : (x : NodeId) → IsId x → length (distance t x) ≡ 32
    size x hx = (distance-IsId t x ht hx).size
