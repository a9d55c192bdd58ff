-- ===== src/RoutingTable/Search.antt =====
-- The binary search finds the bucket whose prefix covers an id.
use boson_native.Prelude.{
  ℕ, zero, suc, ◌+◌, ◌-◌, ◌/◌, ◌≤◌, ◌<◌, true, false, some, List, [], ◌∷◌, length, get_elem?, ltb,
  ◌==◌, Ordering, compare-cases, List-cases, ◌≡◌, ◌⊎◌, inl, inr, refl, sym, ap, subst, ◌∙◌, arith,
  Bool-cases,
}
use boson_native.Id.{NodeId, IsId, compare_to}
use boson_native.Id.Number.{value, compare_to-value}
use boson_native.Prefix.{is_prefix_of}
use boson_native.Prefix.Interval.{low, bits, is_prefix_of-Inside}
use boson_native.Prefix.Halves.{width-pos}
use boson_native.KBucket.{KBucket}
use boson_native.RoutingTable.{search, index_of, found_index}
use boson_native.RoutingTable.Tiles.{Tiles, tile, end}

-- A bucket that begins at most at `v`, before the end of the list or a bucket that begins later.
record Holds (bs : List KBucket) (v i : ℕ) : Type 0 where
  bucket : KBucket
  here : get_elem? bs i ≡ some bucket
  begins : low bucket.prefix ≤ v
  next :
      (suc i ≡ length bs) ⊎ ((c : KBucket) × (get_elem? bs (suc i) ≡ some c) × (v < low c.prefix))

some-some : (a b : KBucket) → some a ≡ some b → a ≡ b
some-some a b e = cc

pub get_elem?-in :
    (bs : List KBucket) (i : ℕ) → i < length bs → (b : KBucket) × (get_elem? bs i ≡ some b)
get_elem?-in [] i h = absurd (omega arith)
get_elem?-in (b ∷ bs) zero h = (b, refl)
get_elem?-in (b ∷ bs) (suc i) h = get_elem?-in bs i (omega arith)

pub get_elem?-lt :
    (bs : List KBucket) (i : ℕ) (b : KBucket) → get_elem? bs i ≡ some b → i < length bs
get_elem?-lt [] i b e = cc
get_elem?-lt (x ∷ bs) zero b e = omega arith
get_elem?-lt (x ∷ bs) (suc i) b e = let rest = get_elem?-lt bs i b e in omega arith

-- What the loop knows of its bounds: the bucket before `low` begins at most at `v`, the one at `high`
-- later.
record Bounds (bs : List KBucket) (v low_index high : ℕ) : Type 0 where
  ordered : low_index ≤ high
  within : high ≤ length bs
  left :
      (low_index ≡ 0)
      ⊎ ((b : KBucket) × (get_elem? bs (low_index - 1) ≡ some b) × (low b.prefix ≤ v))
  right : (high ≡ length bs) ⊎ ((c : KBucket) × (get_elem? bs high ≡ some c) × (v < low c.prefix))

-- What it knows of its last comparison, on which the result is based.
abbrev Last : ℕ → ℕ → ℕ → Ordering → Type 0
Last low_index high mid Ordering.lt = mid ≡ high
Last low_index high mid Ordering.gt = suc mid ≡ low_index
Last low_index high mid Ordering.eq = low_index < high

module _ (to : ℕ) (bs : List KBucket) (id : NodeId) (h : IsId id) (tiles : Tiles 0 bs to)
    (inside : value id < to) where
  v : ℕ
  v = value id

  nonempty : 0 < length bs
  nonempty = elim (List-cases bs) [
    | inl gone ↦ absurd (let empty = subst (λ l. Tiles 0 l to) gone tiles in omega arith)
    | inr (b, rest, e) ↦ let size = ap length e in omega arith
  ]

  first_later : (c : KBucket) → get_elem? bs 0 ≡ some c → value id < low c.prefix → ⊥
  first_later c e less = elim (List-cases bs) [
    | inl gone ↦ let empty = subst (λ l. Tiles 0 l to) gone tiles in omega arith
    | inr (b, rest, q) ↦
        let t = subst (λ l. Tiles 0 l to) q tiles in
        let same : b ≡ c = some-some b c (subst (λ l. get_elem? l 0 ≡ some c) q e) in
        let begin : low c.prefix ≡ 0 = subst (λ (k : KBucket). low k.prefix ≡ 0) same t.1 in
        omega arith
  ]

  -- A bucket at the upper bound is not the first.
  upper_first :
      (high : ℕ)
      → (high ≡ length bs)
        ⊎ ((c : KBucket) × (get_elem? bs high ≡ some c) × (value id < low c.prefix))
      → high ≡ 0
      → ⊥
  upper_first high (inl full) z = let n = nonempty in omega arith
  upper_first high (inr (c, at, less)) z =
      first_later c (subst (λ n. get_elem? bs n ≡ some c) z at) less

  index :
      (high mid : ℕ) (cmp : Ordering)
      → Last high high mid cmp
      → 0 < high
      → found_index mid cmp ≡ some (high - 1)
  unfolding found_index
  index high mid Ordering.lt l p = let test : (mid == 0) ≡ false = ground arith in rw (test, l) refl
  index high mid Ordering.gt l p = ap some (omega arith)
  index high mid Ordering.eq l p = absurd (omega arith)

  -- Where the bounds meet, the bucket before them holds the value.
  met :
      (high mid : ℕ) (cmp : Ordering)
      → Bounds bs (value id) high high
      → Last high high mid cmp
      → (i : ℕ) × (found_index mid cmp ≡ some i) × Holds bs (value id) i
  met high mid cmp k l = elim (compare-cases high 0) [
    | inl less ↦ absurd (omega arith)
    | inr (inl zero_index) ↦ absurd (upper_first high k.right zero_index)
    | inr (inr some_index) ↦ elim k.left [
      | inl start ↦ absurd (omega arith)
      | inr (b, before, begins) ↦
          let shift : suc (high - 1) ≡ high = omega arith in
          (
            high - 1,
            index high mid cmp l some_index,
            record {
              bucket = b;
              here = before;
              begins = begins;
              next = elim k.right [
                | inl full ↦ inl (shift ∙ full)
                | inr (c, at, less) ↦
                    inr (c, subst (λ n. get_elem? bs n ≡ some c) (sym shift) at, less)
              ];
            },
          )
    ]
  ]

  found :
      (low_index high mid : ℕ) (cmp : Ordering)
      → Bounds bs (value id) low_index high
      → Last low_index high mid cmp
      → high ≤ low_index
      → (i : ℕ) × (found_index mid cmp ≡ some i) × Holds bs (value id) i
  found low_index high mid cmp k l over =
      let o : low_index ≤ high = k.ordered in
      let equal : low_index ≡ high = omega arith in
      met high mid cmp (subst (λ n. Bounds bs (value id) n high) equal k)
        (subst (λ n. Last n high mid cmp) equal l)

  -- A bucket that begins at the value holds it: the next begins later.
  hit_here :
      (m : ℕ) (b : KBucket)
      → get_elem? bs m ≡ some b
      → value id ≡ low b.prefix
      → Holds bs (value id) m
  hit_here m b at same =
      let t = tile 0 bs to m b tiles at in
      record {
        bucket = b;
        here = at;
        begins = omega arith;
        next = elim t.next [
          | inl last ↦ inl last.0
          | inr (c, after, start) ↦ let w = width-pos (bits b.prefix) in inr (c, after, omega arith)
        ];
      }

  middle : (l h : ℕ) → l < h → (l ≤ (l + (h - 1)) / 2) × ((l + (h - 1)) / 2 < h)
  middle l h less = (omega arith, omega arith)

  -- The search ends, whatever its bounds, at a bucket that holds the value.
  search-Holds :
      (fuel low_index high mid : ℕ) (cmp : Ordering)
      → Bounds bs (value id) low_index high
      → Last low_index high mid cmp
      → high - low_index < fuel
      → (i : ℕ) × (search fuel bs id low_index high mid cmp ≡ some i) × Holds bs (value id) i
  unfolding search
  search-Holds zero low_index high mid cmp k l enough = absurd (omega arith)
  search-Holds (suc fuel) low_index high mid cmp k l enough =
      elim (Bool-cases (ltb low_index high)) [
        | inr over ↦
            let r = found low_index high mid cmp k l (ground arith) in (r.0, rw over r.1, r.2)
        | inl less ↦
            let m = (low_index + (high - 1)) / 2 in
            let less' : low_index < high = ground arith in
            let in_range = middle low_index high less' in
            let w : high ≤ length bs = k.within in
            let g = get_elem?-in bs m (omega arith) in
            let ordering =
              compare_to-value id (g.0).prefix.id h (tile 0 bs to m g.0 tiles g.1).prefix.is_id in
            elim (compare-cases (value id) (low (g.0).prefix)) [
              | inl below ↦
                  let o : compare_to id (g.0).prefix.id ≡ Ordering.lt = ground (arith, ordering) in
                  let b : Bounds bs (value id) low_index m = record {
                    ordered = in_range.0;
                    within = omega arith;
                    left = k.left;
                    right = inr (g.0, g.1, below);
                  } in
                  let r = search-Holds fuel low_index m m Ordering.lt b refl (omega arith) in
                  (r.0, rw (less, g.1, o) r.1, r.2)
              | inr (inl same) ↦
                  let o : compare_to id (g.0).prefix.id ≡ Ordering.eq = ground (arith, ordering) in
                  (m, rw (less, g.1, o) refl, hit_here m g.0 g.1 same)
              | inr (inr above) ↦
                  let o : compare_to id (g.0).prefix.id ≡ Ordering.gt = ground (arith, ordering) in
                  let back : (m + 1) - 1 ≡ m = omega arith in
                  let b : Bounds bs (value id) (m + 1) high = record {
                    ordered = omega arith;
                    within = w;
                    left =
                        inr
                          (g.0, subst (λ n. get_elem? bs n ≡ some g.0) (sym back) g.1, omega arith);
                    right = k.right;
                  } in
                  let r =
                    search-Holds fuel (m + 1) high m Ordering.gt b (omega arith) (omega arith) in
                  (r.0, rw (less, g.1, o) r.1, r.2)
            ]
      ]

  -- The bucket that holds the value covers it.
  Holds-covers : (i : ℕ) (k : Holds bs (value id) i) → is_prefix_of k.bucket.prefix id ≡ true
  Holds-covers i k =
      let t = tile 0 bs to i k.bucket tiles k.here in
      let b : low k.bucket.prefix ≤ value id = k.begins in
      let before : value id < end k.bucket = elim k.next [
        | inl last ↦ elim t.next [
          | inl whole ↦ rw whole.1 inside
          | inr (c, after, start) ↦ absurd (let l = get_elem?-lt bs (suc i) c after in omega arith)
        ]
        | inr (c, after, less) ↦ elim t.next [
          | inl last ↦
              absurd (let l = get_elem?-lt bs (suc i) c after in let q = last.0 in omega arith)
          | inr (d, after', start) ↦
              let same : c ≡ d = some-some c d (sym after ∙ after') in
              let begin : low c.prefix ≡ end k.bucket =
                subst (λ (x : KBucket). low x.prefix ≡ end k.bucket) (sym same) start in
              omega arith
        ]
      ] in
      (is_prefix_of-Inside k.bucket.prefix id t.prefix h).1 (b, before)

-- Where the buckets tile the numbers from 0, `indexOf` gives the index of a bucket of the table, and
-- that bucket's prefix covers the id.
pub index_of-covers :
    (to : ℕ) (bs : List KBucket) (id : NodeId)
    → IsId id
    → Tiles 0 bs to
    → value id < to
    → (i : ℕ) × (b : KBucket) × (index_of bs id ≡ some i)
      × (get_elem? bs i ≡ some b)
      × (is_prefix_of b.prefix id ≡ true)
unfolding index_of
index_of-covers to bs id h tiles inside =
    let n = nonempty to bs id h tiles inside in
    let start : Bounds bs (value id) 0 (length bs) = record {
      ordered = omega arith;
      within = omega arith;
      left = inl refl;
      right = inl refl;
    } in
    let r =
      search-Holds to bs id h tiles inside (length bs + 1) 0 (length bs) 0 Ordering.eq start n
        (omega arith) in
    let k = r.2 in (r.0, k.bucket, r.1, k.here, Holds-covers to bs id h tiles inside r.0 k)
