-- ===== src/RoutingTable/Joined.antt =====
-- A merge of two sibling buckets keeps the invariant of the table.
use boson_native.Prelude.{
  ℕ, suc, ◌+◌, ◌^◌, ◌≤◌, ◌<◌, true, some, List, [], ◌∷◌, ◌++◌, All, All-append, append-All, length,
  get_elem?, ◌≡◌, refl, sym, ap, subst, ◌∙◌, arith,
}
use boson_native.Id.Number.{value}
use boson_native.Prefix.{Prefix, get_parent, is_sibling_of}
use boson_native.Prefix.Blunt.{width}
use boson_native.Prefix.Interval.{bits, IsPrefix, low, is_prefix_of-Inside}
use boson_native.Prefix.Halves.{siblings-IsJoined}
use boson_native.KBucketEntry.{KBucketEntry}
use boson_native.KBucket
use boson_native.KBucket.{KBucket}
use boson_native.RoutingTable.{RoutingTable, put_all, join, mergeable, merge_buckets}
use boson_native.RoutingTable.Tiles.{Tiles, end, Tiles-append}
use boson_native.RoutingTable.Merge.{joined, join-buckets, neighbours, length-join}
use boson_native.RoutingTable.Invariant.{Placed, IsGood, IsTable, empty-IsGood, put-IsGood}

put_all-IsGood :
    (p : Prefix) (now : ℕ) (es into : List KBucketEntry)
    → All (Placed p) es
    → IsGood p into
    → IsGood p (put_all now es into)
unfolding put_all
put_all-IsGood p now [] into h k = k
put_all-IsGood p now (e ∷ es) into h k =
    put_all-IsGood p now es (KBucket.put now (some e) into) h.1 (put-IsGood p now e into h.0 k)

-- What a prefix covers is covered by one whose interval has that prefix's.
widen :
    (p q : Prefix) (es : List KBucketEntry)
    → IsPrefix p
    → IsPrefix q
    → low q ≤ low p
    → low p + width (bits p) ≤ low q + width (bits q)
    → All (Placed p) es
    → All (Placed q) es
widen p q [] hp hq l r a = tt
widen p q (e ∷ es) hp hq l r a =
    let inside = (is_prefix_of-Inside p e.id hp a.0.0).0 a.0.1 in
    let from : low p ≤ value e.id = inside.0 in
    let to : value e.id < low p + width (bits p) = inside.1 in
    (
      (a.0.0, (is_prefix_of-Inside q e.id hq a.0.0).1 (omega arith, omega arith)),
      widen p q es hp hq l r a.1,
    )

-- The bucket of a merge has entries of the two, under the parent of their prefixes.
joined-IsGood :
    (now : ℕ) (b1 b2 : KBucket) (t : RoutingTable)
    → IsPrefix b1.prefix
    → IsPrefix b2.prefix
    → low b2.prefix ≡ end b1
    → is_sibling_of b1.prefix b2.prefix ≡ true
    → IsGood b1.prefix b1.entries
    → IsGood b2.prefix b2.entries
    → IsGood (get_parent b1.prefix) (put_all now b2.entries (put_all now b1.entries []))
joined-IsGood now b1 b2 t h1 h2 next s g1 g2 =
    let p = get_parent b1.prefix in
    let k = siblings-IsJoined b1.prefix b2.prefix h1 h2 next s in
    let start = k.start in
    let whole = k.whole in
    let first = widen b1.prefix p b1.entries h1 k.prefix (omega arith) (omega arith) g1.placed in
    let second = widen b2.prefix p b2.entries h2 k.prefix (omega arith) (omega arith) g2.placed in
    put_all-IsGood p now b2.entries (put_all now b1.entries []) second
      (put_all-IsGood p now b1.entries [] first (empty-IsGood p))

join-prefix :
    (now : ℕ) (b1 b2 : KBucket) (t : RoutingTable)
    → (joined now b1 b2 t).prefix ≡ get_parent b1.prefix
unfolding boson_native.RoutingTable.new_bucket
join-prefix now b1 b2 t = refl

-- A list that is another with one bucket less, from some index on.
pub record IsShorter (bs : List KBucket) (i : ℕ) (cs : List KBucket) : Type 0 where
  pub front : List KBucket
  pub old : List KBucket
  pub new : List KBucket
  pub before : bs ≡ front ++ old
  pub after : cs ≡ front ++ new
  pub place : length front ≡ i
  pub size : length bs ≡ suc (length cs)

pub join-IsTable :
    (now i : ℕ) (b1 b2 : KBucket) (t : RoutingTable)
    → IsTable t
    → get_elem? t.buckets i ≡ some b1
    → get_elem? t.buckets (suc i) ≡ some b2
    → is_sibling_of b1.prefix b2.prefix ≡ true
    → IsTable (join now b1 b2 t) × IsShorter t.buckets i (join now b1 b2 t).buckets
join-IsTable now i b1 b2 t h e1 e2 s =
    let n = neighbours t.buckets i b1 b2 e1 e2 in
    let xs = n.0 in
    let ys = n.1 in
    let j = joined now b1 b2 t in
    let r = join-buckets now t xs b1 b2 ys (2 ^ 256) n.2 h.tiles s in
    let good : (c : KBucket) → Type 0 = λ c. IsGood c.prefix c.entries in
    let old = All-append good xs (b1 ∷ b2 ∷ ys) (subst (All good) n.2 h.good) in
    let tiles =
      (Tiles-append 0 xs (b1 ∷ b2 ∷ ys) (2 ^ 256)
        (subst (λ bs. Tiles 0 bs (2 ^ 256)) n.2 h.tiles)).2 in
    let g = joined-IsGood now b1 b2 t tiles.0 tiles.2.0 tiles.2.1 s old.1.0 old.1.1.0 in
    let whole = append-All good xs (j ∷ ys) old.0 (joined-good now b1 b2 t g, old.1.1.1) in
    (
      record { tiles = r.0; good = subst (All good) (sym r.1) whole },
      record {
        front = xs;
        old = b1 ∷ b2 ∷ ys;
        new = j ∷ ys;
        before = n.2;
        after = r.1;
        place = n.3;
        size = ap length n.2 ∙ length-join xs j b1 b2 ys ∙ ap (λ bs. suc (length bs)) (sym r.1);
      },
    )
  where
    joined-good :
        (now : ℕ) (b1 b2 : KBucket) (t : RoutingTable)
        → IsGood (get_parent b1.prefix) (put_all now b2.entries (put_all now b1.entries []))
        → IsGood (joined now b1 b2 t).prefix (joined now b1 b2 t).entries
    joined-good now b1 b2 t g =
        subst (λ p. IsGood p (joined now b1 b2 t).entries) (sym (join-prefix now b1 b2 t)) g
