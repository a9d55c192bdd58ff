-- ===== src/RoutingTable/Put.antt =====
-- `_put` ends, and keeps the invariant of the table.
use boson_native.Prelude.{
  ℕ, zero, suc, ◌-◌, ◌^◌, ◌<◌, true, false, some, List, [], ◌∷◌, ◌++◌, All, All-append, append-All,
  length, get_elem?, get_elem?-All, get_elem?-split, set_at, set_at-All, ◌≡◌, refl, sym, ap, subst,
  ◌∙◌, arith, Bool-cases, inl, inr,
}
use boson_native.Id.{NodeId, IsId}
use boson_native.Prefix.{is_prefix_of, is_splittable, split_branch}
use boson_native.Prefix.Interval.{bits, splittable-bits, split_branch-IsSuccessor}
use boson_native.Prefix.Halves.{value-lt}
use boson_native.KBucketEntry.{KBucketEntry}
use boson_native.KBucket
use boson_native.KBucket.{KBucket}
use boson_native.RoutingTable.{
  RoutingTable, with_entries, new_bucket, is_home_bucket, needs_split, split, put,
}
use boson_native.RoutingTable.Tiles.{Tiles, tile, set_at-Tiles}
use boson_native.RoutingTable.Search.{index_of-covers}
use boson_native.RoutingTable.Unique.{covers-first_cover}
use boson_native.RoutingTable.Split.{halves, halves-prefix, split-buckets}
use boson_native.RoutingTable.Invariant.{
  Placed, IsGood, IsTable, empty-IsGood, put-IsGood, distribute-IsGood,
}

-- A bucket of a list, behind as many as its index says.
get_elem?-behind :
    (xs : List KBucket) (x : KBucket) (ys : List KBucket)
    → get_elem? (xs ++ x ∷ ys) (length xs) ≡ some x
get_elem?-behind [] x ys = refl
get_elem?-behind (y ∷ xs) x ys = get_elem?-behind xs x ys

-- What a split makes of a table.
record IsDivided (now : ℕ) (b : KBucket) (t : RoutingTable) : Type 0 where
  table : IsTable (split now b t)
  index : ℕ
  upper : KBucket
  here : get_elem? (split now b t).buckets index ≡ some upper
  prefix : upper.prefix ≡ split_branch b.prefix true

split-IsTable :
    (now : ℕ) (t : RoutingTable) (i : ℕ) (b : KBucket)
    → IsTable t
    → get_elem? t.buckets i ≡ some b
    → bits b.prefix < 256
    → IsDivided now b t
unfolding new_bucket
split-IsTable now t i b h e s =
    let k = get_elem?-split t.buckets i b e in
    let xs = k.0 in
    let ys = k.1 in
    let r = split-buckets now t xs b ys (2 ^ 256) k.2 h.tiles s in
    let u = halves now b t in
    let q = halves-prefix now b t in
    let good : (c : KBucket) → Type 0 = λ c. IsGood c.prefix c.entries in
    let old = All-append good xs (b ∷ ys) (subst (All good) k.2 h.good) in
    let p = (tile 0 t.buckets (2 ^ 256) i b h.tiles e).prefix in
    let pl = split_branch b.prefix false in
    let ph = split_branch b.prefix true in
    let both =
      distribute-IsGood b.prefix now b.entries (new_bucket pl (is_home_bucket pl t))
        (new_bucket ph (is_home_bucket ph t)) p s refl refl old.1.0.placed (empty-IsGood pl)
        (empty-IsGood ph) in
    let lower = u.0 in
    let upper = u.1 in
    let there : get_elem? (xs ++ lower ∷ upper ∷ ys) (suc (length xs)) ≡ some upper =
      after xs lower upper ys in
    record {
      table = record {
        tiles = r.0;
        good =
            subst (All good) (sym r.1)
              (append-All good xs (lower ∷ upper ∷ ys) old.0 (both.0, (both.1, old.1.1)));
      };
      index = suc (length xs);
      upper = upper;
      here = subst (λ bs. get_elem? bs (suc (length xs)) ≡ some upper) (sym r.1) there;
      prefix = q.1;
    }
  where
    after :
        (xs : List KBucket) (l h : KBucket) (ys : List KBucket)
        → get_elem? (xs ++ l ∷ h ∷ ys) (suc (length xs)) ≡ some h
    after [] l h ys = refl
    after (x ∷ xs) l h ys = after xs l h ys

-- What `_needsSplit` says of the bucket.
needs_split-splittable :
    (now : ℕ) (b : KBucket) (e : KBucketEntry)
    → needs_split now b e ≡ true
    → (is_splittable b.prefix ≡ true) × (is_prefix_of (split_branch b.prefix true) e.id ≡ true)
unfolding needs_split
needs_split-splittable now b e h = (ground arith, ground arith)

-- One bucket covers an id.
covering_unique :
    (bs : List KBucket) (id : NodeId) (i j : ℕ) (b c : KBucket)
    → Tiles 0 bs (2 ^ 256)
    → IsId id
    → get_elem? bs i ≡ some b
    → get_elem? bs j ≡ some c
    → is_prefix_of b.prefix id ≡ true
    → is_prefix_of c.prefix id ≡ true
    → b ≡ c
covering_unique bs id i j b c h k ei ej ci cj =
    let x = covers-first_cover 0 bs (2 ^ 256) i b id h k ei ci in
    let y = covers-first_cover 0 bs (2 ^ 256) j c id h k ej cj in cc

pub placed-IsTable :
    (now : ℕ) (e : KBucketEntry) (t : RoutingTable) (i : ℕ) (b : KBucket)
    → IsTable t
    → get_elem? t.buckets i ≡ some b
    → Placed b.prefix e
    → IsTable (record t {
      buckets = set_at i (with_entries b (KBucket.put now (some e) b.entries)) t.buckets;
    })
placed-IsTable now e t i b h k p =
    let good : (c : KBucket) → Type 0 = λ c. IsGood c.prefix c.entries in
    let b' = with_entries b (KBucket.put now (some e) b.entries) in
    record {
      tiles = set_at-Tiles 0 t.buckets (2 ^ 256) i b b' h.tiles k refl;
      good =
          set_at-All good t.buckets i b' h.good
            (put-IsGood b.prefix now e b.entries p (get_elem?-All good t.buckets i b h.good k));
    }

-- How often a bucket that covers the id can still be split.
put-fuel :
    (fuel now : ℕ) (e : KBucketEntry) (t : RoutingTable) (i : ℕ) (b : KBucket)
    → IsTable t
    → IsId e.id
    → get_elem? t.buckets i ≡ some b
    → is_prefix_of b.prefix e.id ≡ true
    → 256 - bits b.prefix < fuel
    → (t' : RoutingTable) × (put fuel now e t ≡ some t') × IsTable t'
unfolding put
put-fuel zero now e t i b h k at c l = absurd (omega arith)
put-fuel (suc fuel) now e t i b h k at c l =
    let r = index_of-covers (2 ^ 256) t.buckets e.id k h.tiles (value-lt e.id) in
    let same = covering_unique t.buckets e.id i r.0 b r.1 h.tiles k at r.3 c r.4 in
    elim (Bool-cases (needs_split now r.1 e)) [
      | inl more ↦
          let n = needs_split-splittable now r.1 e more in
          let s = splittable-bits (r.1).prefix n.0 in
          let u = split-IsTable now t r.0 r.1 h r.3 s in
          let p = (tile 0 t.buckets (2 ^ 256) r.0 r.1 h.tiles r.3).prefix in
          let count = (split_branch-IsSuccessor (r.1).prefix true p s).count in
          let deeper : bits u.upper.prefix ≡ suc (bits (r.1).prefix) = ap bits u.prefix ∙ count in
          let own = ap (λ (b : KBucket). bits b.prefix) same in
          let v =
            put-fuel fuel now e (split now r.1 t) u.index u.upper u.table k u.here
              (ap (λ q. is_prefix_of q e.id) u.prefix ∙ n.1) (omega arith) in
          (v.0, rw (put, r.2, r.3, more) v.1, v.2)
      | inr enough ↦ (
        record t {
          buckets =
              set_at r.0 (with_entries r.1 (KBucket.put now (some e) (r.1).entries)) t.buckets;
        },
        rw (put, r.2, r.3, enough) refl,
        placed-IsTable now e t r.0 r.1 h r.3 (k, r.4),
      )
    ]

-- In a table whose buckets tile the ids and hold at most eight entries each, apart and under their
-- prefixes, `_put` of an entry ends after at most 256 splits, and leaves such a table.
pub put-IsTable :
    (now : ℕ) (e : KBucketEntry) (t : RoutingTable)
    → IsTable t
    → IsId e.id
    → (t' : RoutingTable) × (put 257 now e t ≡ some t') × IsTable t'
put-IsTable now e t h k =
    let r = index_of-covers (2 ^ 256) t.buckets e.id k h.tiles (value-lt e.id) in
    put-fuel 257 now e t r.0 r.1 h k r.3 r.4 (omega arith)
