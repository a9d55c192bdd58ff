-- ===== src/RoutingTable/Merge.antt =====
-- Merging sibling buckets: their parent stands where they stood, and the loop ends.
use boson_native.Prelude.{
  ℕ, zero, suc, ◌+◌, true, some, List, [], ◌∷◌, ◌++◌, length, get_elem?, ◌≡◌, refl, sym, ap, subst,
  ◌∙◌, arith,
}
use boson_native.Prefix.{get_parent, is_sibling_of}
use boson_native.Prefix.Blunt.{width}
use boson_native.Prefix.Interval.{bits, IsPrefix, low}
use boson_native.Prefix.Halves.{siblings-IsJoined}
use boson_native.KBucket.{KBucket}
use boson_native.RoutingTable.{
  RoutingTable, with_entries, new_bucket, is_home_bucket, put_all, join, modify,
}
use boson_native.RoutingTable.Tiles.{Tiles, end, Tiles-append, append-Tiles}
use boson_native.RoutingTable.Order.{Tiles-Ascending, modify-Middle}

-- The bucket of a merge.
abbrev pub joined : ℕ → KBucket → KBucket → RoutingTable → KBucket
joined now b1 b2 t =
    let parent = get_parent b1.prefix in
    with_entries (new_bucket parent (is_home_bucket parent t))
      (put_all now b2.entries (put_all now b1.entries []))

joined-Tiles :
    (j b1 b2 : KBucket) (ys : List KBucket) (to : ℕ)
    → j.prefix ≡ get_parent b1.prefix
    → is_sibling_of b1.prefix b2.prefix ≡ true
    → Tiles (low b1.prefix) (b1 ∷ b2 ∷ ys) to
    → Tiles (low b1.prefix) (j ∷ ys) to
joined-Tiles j b1 b2 ys to e s t =
    let next : low b2.prefix ≡ low b1.prefix + width (bits b1.prefix) = t.2.1 in
    let k = siblings-IsJoined b1.prefix b2.prefix t.0 t.2.0 next s in
    let start = k.start in
    let whole = k.whole in
    let last : end j ≡ end b2 = rw (e, start) (omega arith) in
    (subst IsPrefix (sym e) k.prefix, ap low e ∙ start, subst (λ m. Tiles m ys to) (sym last) t.2.2)

pub join-buckets :
    (now : ℕ) (t : RoutingTable) (xs : List KBucket) (b1 b2 : KBucket) (ys : List KBucket) (to : ℕ)
    → t.buckets ≡ xs ++ b1 ∷ b2 ∷ ys
    → Tiles 0 t.buckets to
    → is_sibling_of b1.prefix b2.prefix ≡ true
    → (Tiles 0 (join now b1 b2 t).buckets to)
      × ((join now b1 b2 t).buckets ≡ xs ++ joined now b1 b2 t ∷ ys)
unfolding join new_bucket
join-buckets now t xs b1 b2 ys to e h s =
    let j = joined now b1 b2 t in
    let whole = subst (λ bs. Tiles 0 bs to) e h in
    let parts = Tiles-append 0 xs (b1 ∷ b2 ∷ ys) to whole in
    let from : parts.0 ≡ low b1.prefix = sym parts.2.1 in
    let new =
      joined-Tiles j b1 b2 ys to refl s (subst (λ m. Tiles m (b1 ∷ b2 ∷ ys) to) from parts.2) in
    let tiles =
      append-Tiles 0 xs (low b1.prefix) (j ∷ ys) to (subst (Tiles 0 xs) from parts.1) new in
    let same : modify (b1 ∷ b2 ∷ []) (j ∷ []) t.buckets ≡ xs ++ j ∷ ys =
      ap (modify (b1 ∷ b2 ∷ []) (j ∷ [])) e
      ∙ modify-Middle 0 xs (b1 ∷ b2 ∷ []) (j ∷ []) ys
          (Tiles-Ascending 0 (xs ++ b1 ∷ b2 ∷ ys) to whole)
          (Tiles-Ascending 0 (xs ++ j ∷ ys) to tiles) in
    (subst (λ bs. Tiles 0 bs to) (sym same) tiles, same)

-- Two neighbours of the list.
pub neighbours :
    (bs : List KBucket) (i : ℕ) (b1 b2 : KBucket)
    → get_elem? bs i ≡ some b1
    → get_elem? bs (suc i) ≡ some b2
    → (xs ys : List KBucket) × (bs ≡ xs ++ b1 ∷ b2 ∷ ys) × (length xs ≡ i)
neighbours [] i b1 b2 e k = cc
neighbours (x ∷ []) i b1 b2 e k = cc
neighbours (x ∷ y ∷ bs) zero b1 b2 e k =
    let first : x ≡ b1 = cc in let second : y ≡ b2 = cc in ([], bs, rw (first, second) refl, refl)
neighbours (x ∷ y ∷ bs) (suc i) b1 b2 e k =
    let r = neighbours (y ∷ bs) i b1 b2 e k in (x ∷ r.0, r.1, ap (◌∷◌ x) r.2, ap suc r.3)

-- A merge leaves one bucket less.
pub length-join :
    (xs : List KBucket) (j b1 b2 : KBucket) (ys : List KBucket)
    → length (xs ++ b1 ∷ b2 ∷ ys) ≡ suc (length (xs ++ j ∷ ys))
length-join [] j b1 b2 ys = refl
length-join (x ∷ xs) j b1 b2 ys = ap suc (length-join xs j b1 b2 ys)
