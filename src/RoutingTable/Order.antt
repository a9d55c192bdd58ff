-- ===== src/RoutingTable/Order.antt =====
-- Replacing buckets keeps the list in the order of the prefixes.
use boson_native.Prelude.{
  ℕ, suc, ◌≤◌, ◌<◌, List, [], ◌∷◌, ◌++◌, Ordering, append_nil, append_assoc, ◌≡◌, refl, sym, ap,
  subst, ◌∙◌, arith,
}
use boson_native.Prefix.{compare_prefixes}
use boson_native.Prefix.Interval.{bits, IsPrefix, low}
use boson_native.Prefix.Compared.{compare_prefixes-value, equals_refl, equals-low}
use boson_native.Prefix.Halves.{width-pos}
use boson_native.KBucket.{KBucket}
use boson_native.RoutingTable.{insert_bucket, sort_buckets, remove_bucket, remove_all, modify}
use boson_native.RoutingTable.Tiles.{Tiles, end}

-- Prefixes that begin one after the other, the first not before `from`.
abbrev pub Ascending : ℕ → List KBucket → Type 0
Ascending from [] = Unit
Ascending from (b ∷ bs) =
    IsPrefix b.prefix × (from ≤ low b.prefix) × Ascending (suc (low b.prefix)) bs

pub Ascending-le : (m n : ℕ) (bs : List KBucket) → m ≤ n → Ascending n bs → Ascending m bs
Ascending-le m n [] l h = tt
Ascending-le m n (b ∷ bs) l h = let k = h.1 in (h.0, omega arith, h.2)

pub Tiles-Ascending : (from : ℕ) (bs : List KBucket) (to : ℕ) → Tiles from bs to → Ascending from bs
Tiles-Ascending from [] to h = tt
Tiles-Ascending from (b ∷ bs) to h =
    let k = h.1 in
    let w = width-pos (bits b.prefix) in
    (
      h.0,
      omega arith,
      Ascending-le (suc (low b.prefix)) (end b) bs (omega arith)
          (Tiles-Ascending (end b) bs to h.2),
    )

-- An element may be left out.
remove-Ascending :
    (from : ℕ) (xs : List KBucket) (y : KBucket) (ys : List KBucket)
    → Ascending from (xs ++ y ∷ ys)
    → Ascending from (xs ++ ys)
remove-Ascending from [] y ys h =
    let k = h.1 in Ascending-le from (suc (low y.prefix)) ys (omega arith) h.2
remove-Ascending from (x ∷ xs) y ys h =
    (h.0, h.1, remove-Ascending (suc (low x.prefix)) xs y ys h.2)

-- What an element of an ascending list is.
middle-Ascending :
    (from : ℕ) (xs : List KBucket) (y : KBucket) (ys : List KBucket)
    → Ascending from (xs ++ y ∷ ys)
    → IsPrefix y.prefix × (from ≤ low y.prefix)
middle-Ascending from [] y ys h = (h.0, h.1)
middle-Ascending from (x ∷ xs) y ys h =
    let r = middle-Ascending (suc (low x.prefix)) xs y ys h.2 in
    let a = h.1 in let b = r.1 in (r.0, omega arith)

insert-front :
    (y z : KBucket) (ys : List KBucket)
    → compare_prefixes z.prefix y.prefix ≡ Ordering.gt
    → insert_bucket y (z ∷ ys) ≡ y ∷ z ∷ ys
unfolding insert_bucket
insert-front y z ys o = rw (insert_bucket, o) refl

insert-behind :
    (y x : KBucket) (ys : List KBucket)
    → compare_prefixes x.prefix y.prefix ≡ Ordering.lt
    → insert_bucket y (x ∷ ys) ≡ x ∷ insert_bucket y ys
unfolding insert_bucket
insert-behind y x ys o = rw (insert_bucket, o) refl

insert-Ascending :
    (from : ℕ) (xs : List KBucket) (y : KBucket) (ys : List KBucket)
    → Ascending from (xs ++ y ∷ ys)
    → insert_bucket y (xs ++ ys) ≡ xs ++ y ∷ ys
unfolding insert_bucket
insert-Ascending from [] y [] h = refl
insert-Ascending from [] y (z ∷ ys) h =
    let l : low y.prefix < low z.prefix = h.2.1 in
    let c = compare_prefixes-value z.prefix y.prefix h.2.0 h.0 in
    let o : compare_prefixes z.prefix y.prefix ≡ Ordering.gt = ground (arith, c) in
    insert-front y z ys o
insert-Ascending from (x ∷ xs) y ys h =
    let m = middle-Ascending (suc (low x.prefix)) xs y ys h.2 in
    let l : low x.prefix < low y.prefix = m.1 in
    let c = compare_prefixes-value x.prefix y.prefix h.0 m.0 in
    let o : compare_prefixes x.prefix y.prefix ≡ Ordering.lt = ground (arith, c) in
    insert-behind y x (xs ++ ys) o ∙ ap (◌∷◌ x) (insert-Ascending (suc (low x.prefix)) xs y ys h.2)

sort-Ascending : (from : ℕ) (bs : List KBucket) → Ascending from bs → sort_buckets bs ≡ bs
unfolding sort_buckets
sort-Ascending from [] h = refl
sort-Ascending from (b ∷ bs) h =
    ap (insert_bucket b) (sort-Ascending (suc (low b.prefix)) bs h.2)
    ∙ insert-Ascending from [] b bs h

-- Buckets at the end of the list are moved to their place.
sort_moves :
    (from : ℕ) (adds ys : List KBucket)
    → Ascending from (adds ++ ys)
    → sort_buckets (ys ++ adds) ≡ adds ++ ys
unfolding sort_buckets
sort_moves from adds [] h =
    let own : Ascending from adds = subst (Ascending from) (append_nil adds) h in
    sort-Ascending from adds own ∙ sym (append_nil adds)
sort_moves from adds (y ∷ ys) h =
    ap (insert_bucket y) (sort_moves from adds ys (remove-Ascending from adds y ys h))
    ∙ insert-Ascending from adds y ys h

sort_skips :
    (from : ℕ) (xs rest sorted : List KBucket)
    → sort_buckets rest ≡ sorted
    → Ascending from (xs ++ sorted)
    → sort_buckets (xs ++ rest) ≡ xs ++ sorted
unfolding sort_buckets
sort_skips from [] rest sorted e h = e
sort_skips from (x ∷ xs) rest sorted e h =
    ap (insert_bucket x) (sort_skips (suc (low x.prefix)) xs rest sorted e h.2)
    ∙ insert-Ascending from [] x (xs ++ sorted) h

remove-Middle :
    (from : ℕ) (xs : List KBucket) (y : KBucket) (ys : List KBucket)
    → Ascending from (xs ++ y ∷ ys)
    → remove_bucket y (xs ++ y ∷ ys) ≡ xs ++ ys
unfolding remove_bucket
remove-Middle from [] y ys h = rw (equals_refl y.prefix) refl
remove-Middle from (x ∷ xs) y ys h =
    let m = middle-Ascending (suc (low x.prefix)) xs y ys h.2 in
    let other = equals-low x.prefix y.prefix h.0 m.0 m.1 in
    rw other (ap (◌∷◌ x) (remove-Middle (suc (low x.prefix)) xs y ys h.2))

-- All of some neighbours are removed.
remove_all-Middle :
    (from : ℕ) (xs old ys : List KBucket)
    → Ascending from (xs ++ (old ++ ys))
    → remove_all old (xs ++ (old ++ ys)) ≡ xs ++ ys
unfolding remove_all
remove_all-Middle from xs [] ys h = refl
remove_all-Middle from xs (y ∷ old) ys h =
    ap (remove_all old) (remove-Middle from xs y (old ++ ys) h)
    ∙ remove_all-Middle from xs old ys (remove-Ascending from xs y (old ++ ys) h)

Ascending-rest :
    (from : ℕ) (xs ys : List KBucket) → Ascending from (xs ++ ys) → (m : ℕ) × Ascending m ys
Ascending-rest from [] ys h = (from, h)
Ascending-rest from (x ∷ xs) ys h = Ascending-rest (suc (low x.prefix)) xs ys h.2

-- New buckets take the place of neighbours, if they begin where they are in order there.
pub modify-Middle :
    (from : ℕ) (xs old new ys : List KBucket)
    → Ascending from (xs ++ (old ++ ys))
    → Ascending from (xs ++ (new ++ ys))
    → modify old new (xs ++ (old ++ ys)) ≡ xs ++ (new ++ ys)
unfolding modify
modify-Middle from xs old new ys h k =
    ap (λ bs. sort_buckets (bs ++ new)) (remove_all-Middle from xs old ys h)
    ∙ ap sort_buckets (append_assoc xs ys new)
    ∙ sort_skips from xs (ys ++ new) (new ++ ys)
        (sort_moves (Ascending-rest from xs (new ++ ys) k).0 new ys
          (Ascending-rest from xs (new ++ ys) k).1)
        k
