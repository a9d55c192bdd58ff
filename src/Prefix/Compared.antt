-- ===== src/Prefix/Compared.antt =====
-- Prefixes compared: by the numbers of their first ids.
use boson_native.Prelude.{◌<◌, true, false, compare, ==_iff, ◌≡◌, refl, arith}
use boson_native.Prelude.Int.{ℤ, pos, negsuc, int_eq}
use boson_native.Id.Order.{compare_to_self}
use boson_native.Id.Number.{compare_to-value}
use boson_native.Prefix.{Prefix, compare_prefixes, equals}
use boson_native.Prefix.Interval.{IsPrefix, low}

pub compare_prefixes-value :
    (p q : Prefix) → IsPrefix p → IsPrefix q → compare_prefixes p q ≡ compare (low p) (low q)
unfolding compare_prefixes
compare_prefixes-value p q hp hq = compare_to-value p.id q.id hp.is_id hq.is_id

int_eq_refl : (d : ℤ) → int_eq d d ≡ true
int_eq_refl (pos n) = (==_iff n n).1 refl
int_eq_refl (negsuc n) = (==_iff n n).1 refl

pub equals_refl : (p : Prefix) → equals p p ≡ true
unfolding equals
equals_refl p = ground (arith, int_eq_refl p.depth, compare_to_self p.id)

pub equals-low : (p q : Prefix) → IsPrefix p → IsPrefix q → low p < low q → equals p q ≡ false
unfolding equals
equals-low p q hp hq l = let c = compare_to-value p.id q.id hp.is_id hq.is_id in ground (arith, c)
