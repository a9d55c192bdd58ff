-- ===== src/RoutingTable/Unique.antt =====
-- `getBucket` against a linear search for the bucket that covers an id.
use boson_native.Prelude.{
  ℕ, zero, suc, ◌^◌, ◌≤◌, ◌<◌, true, Option, none, some, List, [], ◌∷◌, get_elem?, ◌≡◌, refl, ap,
  ◌∙◌, arith, Bool-cases, inl, inr, if◌then◌else◌,
}
use boson_native.Id.{NodeId, IsId}
use boson_native.Id.Number.{value}
use boson_native.Prefix.{is_prefix_of}
use boson_native.Prefix.Interval.{bits, low, is_prefix_of-Inside}
use boson_native.Prefix.Halves.{width-pos, value-lt}
use boson_native.KBucket.{KBucket}
use boson_native.RoutingTable.{index_of, get_bucket}
use boson_native.RoutingTable.Tiles.{Tiles, end, tile}
use boson_native.RoutingTable.Search.{index_of-covers}

-- The first bucket whose prefix covers the id.
pub first_cover : List KBucket → NodeId → Option KBucket
first_cover [] id = none
first_cover (b ∷ bs) id =
    let rest = first_cover bs id in if is_prefix_of b.prefix id then some b else rest

-- Where a bucket of the list begins.
get_elem?-low :
    (from : ℕ) (bs : List KBucket) (to i : ℕ) (b : KBucket)
    → Tiles from bs to
    → get_elem? bs i ≡ some b
    → from ≤ low b.prefix
get_elem?-low from [] to i b h e = cc
get_elem?-low from (x ∷ bs) to zero b h e =
    let same : x ≡ b = cc in
    let begin : low x.prefix ≡ from = h.1 in
    let equal = ap (λ (k : KBucket). low k.prefix) same in omega arith
get_elem?-low from (x ∷ bs) to (suc i) b h e =
    let rest = get_elem?-low (end x) bs to i b h.2 e in
    let begin : low x.prefix ≡ from = h.1 in let w = width-pos (bits x.prefix) in omega arith

-- A bucket that covers an id is the first that does.
pub covers-first_cover :
    (from : ℕ) (bs : List KBucket) (to i : ℕ) (b : KBucket) (id : NodeId)
    → Tiles from bs to
    → IsId id
    → get_elem? bs i ≡ some b
    → is_prefix_of b.prefix id ≡ true
    → first_cover bs id ≡ some b
unfolding first_cover
covers-first_cover from [] to i b id h k e c = cc
covers-first_cover from (x ∷ bs) to zero b id h k e c =
    let same : x ≡ b = cc in
    let covers = ap (λ (b : KBucket). is_prefix_of b.prefix id) same ∙ c in ground (arith, covers)
covers-first_cover from (x ∷ bs) to (suc i) b id h k e c =
    let rest = covers-first_cover (end x) bs to i b id h.2 k e c in
    let t = tile (end x) bs to i b h.2 e in
    let l = get_elem?-low (end x) bs to i b h.2 e in
    let inside = (is_prefix_of-Inside b.prefix id t.prefix k).0 c in
    let begins : low b.prefix ≤ value id = inside.0 in
    elim (Bool-cases (is_prefix_of x.prefix id)) [
      | inl hit ↦
          let other = (is_prefix_of-Inside x.prefix id h.0 k).0 hit in
          let ends : value id < end x = other.1 in absurd (omega arith)
      | inr miss ↦ ground (arith, rest, miss)
    ]

pub get_bucket-at :
    (bs : List KBucket) (id : NodeId) (i : ℕ) (b : KBucket)
    → index_of bs id ≡ some i
    → get_elem? bs i ≡ some b
    → get_bucket bs id ≡ some b
unfolding get_bucket
get_bucket-at bs id i b e k = rw (get_bucket, e, k) refl

-- Where the buckets' prefixes tile all the ids, `getBucket` finds by its binary search what a search
-- from the front finds: a bucket of the table, whose prefix covers the id.
pub get_bucket-first_cover :
    (bs : List KBucket) (id : NodeId)
    → IsId id
    → Tiles 0 bs (2 ^ 256)
    → (b : KBucket) × (get_bucket bs id ≡ some b)
      × (first_cover bs id ≡ some b)
      × (is_prefix_of b.prefix id ≡ true)
get_bucket-first_cover bs id h tiles =
    let r = index_of-covers (2 ^ 256) bs id h tiles (value-lt id) in
    (
      r.1,
      get_bucket-at bs id r.0 r.1 r.2 r.3,
      covers-first_cover 0 bs (2 ^ 256) r.0 r.1 id tiles h r.3 r.4,
      r.4,
    )
