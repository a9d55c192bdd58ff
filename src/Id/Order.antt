-- ===== src/Id/Order.antt =====
-- `compareTo` is a total order on ids of one length.
use boson_native.Prelude.{Ordering, [], ◌∷◌, length, ◌≡◌, ◌↔◌, refl, ap, arith, true}
use boson_native.Id.{NodeId, compare_to, id_eq}

abbrev pub flip : Ordering → Ordering
flip Ordering.lt = Ordering.gt
flip Ordering.eq = Ordering.eq
flip Ordering.gt = Ordering.lt

pub compare_to-flip : (a b : NodeId) → compare_to a b ≡ flip (compare_to b a)
unfolding compare_to
compare_to-flip [] [] = refl
compare_to-flip [] (y ∷ b) = refl
compare_to-flip (x ∷ a) [] = refl
compare_to-flip (x ∷ a) (y ∷ b) = ground (arith, compare_to-flip a b)

pub compare_to_self : (a : NodeId) → compare_to a a ≡ Ordering.eq
unfolding compare_to
compare_to_self [] = refl
compare_to_self (x ∷ a) = ground (arith, compare_to_self a)

pub compare_to-eq : (a b : NodeId) → length a ≡ length b → compare_to a b ≡ Ordering.eq → a ≡ b
unfolding compare_to
compare_to-eq [] [] e h = refl
compare_to-eq [] (y ∷ b) e h = absurd (omega arith)
compare_to-eq (x ∷ a) [] e h = absurd (omega arith)
compare_to-eq (x ∷ a) (y ∷ b) e h = ground (arith, compare_to-eq a b (omega arith))

pub compare_to_trans :
    (a b c : NodeId)
    → length a ≡ length b
    → length b ≡ length c
    → compare_to a b ≡ Ordering.lt
    → compare_to b c ≡ Ordering.lt
    → compare_to a c ≡ Ordering.lt
unfolding compare_to
compare_to_trans [] b c p q h k = cc
compare_to_trans (x ∷ a) [] c p q h k = cc
compare_to_trans (x ∷ a) (y ∷ b) [] p q h k = cc
compare_to_trans (x ∷ a) (y ∷ b) (z ∷ c) p q h k =
    ground (arith, compare_to_trans a b c (omega arith) (omega arith))

-- `operator==` on ids of one length.
pub id_eq_iff : (a b : NodeId) → length a ≡ length b → (id_eq a b ≡ true) ↔ (a ≡ b)
id_eq_iff a b e = (
  λ h. compare_to-eq a b e (ground arith),
  λ h. ground (arith, compare_to_self a, ap (compare_to a) h),
)
