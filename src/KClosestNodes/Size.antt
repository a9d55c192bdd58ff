-- ===== src/KClosestNodes/Size.antt =====
-- How many entries `fill` gives.
use boson_native.Prelude.{
  ℕ, zero, suc, ◌+◌, ◌-◌, ◌^◌, ◌≤◌, ◌<◌, min, Option, none, some, List, [], ◌∷◌, ◌++◌, length,
  length-append, length-take, get_elem?, ltb, Ordering, ◌≡◌, refl, ◌⊎◌, ◌∙◌, arith, Bool-cases,
  Option-cases, inl, inr,
}
use boson_native.Id.{NodeId, IsId, three_way_compare}
use boson_native.Prefix
use boson_native.Prefix.Halves.{value-lt}
use boson_native.KBucketEntry.{KBucketEntry}
use boson_native.KBucket.{KBucket}
use boson_native.RoutingTable.{RoutingTable, index_of}
use boson_native.RoutingTable.Search.{index_of-covers, get_elem?-lt, get_elem?-in}
use boson_native.RoutingTable.Invariant.{IsTable}
use boson_native.KClosestNodes.{
  Request, insert_entries, insert_by_distance, sort_by_distance, shave, walk, add_outside, fill,
}
use boson_native.KClosestNodes.Count.{
  available, first_count, first_count-zero, first_count-suc, first_count-all, length-insert_entries,
  Walks, goes_down, goes_up,
}
use boson_native.KClosestNodes.Rounds.{
  round_full, round_ends, round_up, round_down, round_lt, round_gt, round_eq,
}

length-insert_by_distance :
    (t : NodeId) (x : KBucketEntry) (es : List KBucketEntry)
    → length (insert_by_distance t x es) ≡ suc (length es)
unfolding insert_by_distance
length-insert_by_distance t x [] = refl
length-insert_by_distance t x (e ∷ es) = ground (arith, length-insert_by_distance t x es)

length-sort_by_distance :
    (t : NodeId) (es : List KBucketEntry) → length (sort_by_distance t es) ≡ length es
unfolding sort_by_distance
length-sort_by_distance t [] = refl
length-sort_by_distance t (e ∷ es) =
    omega
      (arith, length-insert_by_distance t e (sort_by_distance t es), length-sort_by_distance t es)

length-shave :
    (r : Request) (es : List KBucketEntry) → length (shave r es) ≡ min r.max_entries (length es)
unfolding shave
length-shave r es =
    let sorted = length-sort_by_distance r.target es in
    ground (arith, sorted, length-take r.max_entries (sort_by_distance r.target es))

-- What the walk gives.
abbrev Enough : Request → List KBucket → Option (List KBucketEntry) → Type 0
Enough r bs o =
    (es : List KBucketEntry) × (o ≡ some es) × (min r.max_entries (available r bs) ≤ length es)

Ordering-cases : (o : Ordering) → (o ≡ Ordering.lt) ⊎ (o ≡ Ordering.eq) ⊎ (o ≡ Ordering.gt)
Ordering-cases Ordering.lt = inl refl
Ordering-cases Ordering.eq = inr (inl refl)
Ordering-cases Ordering.gt = inr (inr refl)

Enough-step :
    (r : Request) (bs : List KBucket) (o p : Option (List KBucketEntry))
    → o ≡ p
    → Enough r bs p
    → Enough r bs o
Enough-step r bs o p e k = (k.0, e ∙ k.1, k.2)

walk-Enough :
    (fuel : ℕ) (r : Request) (bs : List KBucket) (low high : ℕ) (es : List KBucketEntry)
    → Walks r bs low high es
    → low + (length bs - 1 - high) < fuel
    → Enough r bs (walk fuel r bs low high es)
walk-Enough zero r bs low high es h f = absurd (omega arith)
walk-Enough (suc fuel) r bs zero high es h f = elim (Bool-cases (ltb (length es) r.max_entries)) [
  | inr full ↦ (es, round_full r bs fuel 0 high es full, ground arith)
  | inl few ↦ elim (Option-cases (get_elem? bs (suc high))) [
    | inl gone ↦
        let all = first_count-all r (suc high) bs gone in
        let none_before : first_count r 0 bs ≡ 0 = first_count-zero r bs in
        let same : length es + first_count r 0 bs ≡ first_count r (suc high) bs = h.entries in
        (es, round_ends r bs fuel high es few gone, omega arith)
    | inr (b, e) ↦
        let k = goes_up r bs 0 high es b h e in
        let w : suc high < length bs = k.within in
        Enough-step r bs _ _ (round_up r bs fuel high es few b e)
          (walk-Enough fuel r bs 0 (suc high) (insert_entries r b es) k (omega arith))
  ]
]
walk-Enough (suc fuel) r bs (suc low) high es h f =
    elim (Bool-cases (ltb (length es) r.max_entries)) [
      | inr full ↦ (es, round_full r bs fuel (suc low) high es full, ground arith)
      | inl few ↦
          let o : suc low ≤ high = h.ordered in
          let w : high < length bs = h.within in
          let l = get_elem?-in bs low (omega arith) in
          let d = goes_down r bs low high es l.0 h l.1 in
          elim (Option-cases (get_elem? bs (suc high))) [
            | inl gone ↦
                Enough-step r bs _ _ (round_down r bs fuel high es few low l.0 l.1 gone)
                  (walk-Enough fuel r bs low high (insert_entries r l.0 es) d (omega arith))
            | inr (b, e) ↦
                let k = goes_up r bs (suc low) high es b h e in
                let both = goes_up r bs low high (insert_entries r l.0 es) b d e in
                let w' : suc high < length bs = k.within in
                elim (Ordering-cases
                  (three_way_compare r.target (Prefix.last (l.0).prefix) (Prefix.first b.prefix))) [
                    | inl lt ↦
                        Enough-step r bs _ _ (round_lt r bs fuel high es few low l.0 l.1 b e lt)
                          (walk-Enough fuel r bs low high (insert_entries r l.0 es) d (omega arith))
                    | inr (inl eq) ↦
                        Enough-step r bs _ _ (round_eq r bs fuel high es few low l.0 l.1 b e eq) (
                          walk-Enough fuel r bs low (suc high)
                            (insert_entries r b (insert_entries r l.0 es)) both (omega arith))
                    | inr (inr gt) ↦
                        Enough-step r bs _ _ (round_gt r bs fuel high es few low l.0 l.1 b e gt) (
                          walk-Enough fuel r bs (suc low) (suc high) (insert_entries r b es) k
                            (omega arith))
                  ]
          ]
    ]

length-add_outside :
    (r : Request) (boots : List KBucketEntry) (own : Option KBucketEntry) (es : List KBucketEntry)
    → length es ≤ length (add_outside r boots own es)
unfolding add_outside
length-add_outside r boots none es = ground (arith, length-append es boots)
length-add_outside r boots (some e) es =
    ground (
      arith,
      length-append es boots,
      length-append (es ++ boots) (e ∷ []),
      length-append es (e ∷ []),
    )

-- The entries that `fill` gives: no more than asked for, and as many, if the table has as many that
-- pass the filter, or at least those.
pub record IsFilled (r : Request) (bs : List KBucket) (es : List KBucketEntry) : Type 0 where
  pub bound : length es ≤ r.max_entries
  pub enough : min r.max_entries (available r bs) ≤ length es

fill-at :
    (r : Request) (boots : List KBucketEntry) (own : Option KBucketEntry) (bs : List KBucket)
    (i : ℕ) (b : KBucket) (es : List KBucketEntry)
    → index_of bs r.target ≡ some i
    → get_elem? bs i ≡ some b
    → walk (length bs) r bs i i (insert_entries r b []) ≡ some es
    → fill r boots own bs ≡ some (shave r (add_outside r boots own es))
unfolding fill
fill-at r boots own bs i b es e k w = rw (fill, e, k, w) refl

-- On a routing table that keeps its invariant, `fill` ends for every target of 32 bytes. It gives no
-- more entries than asked for, and no fewer than that or than the table has that pass the filter.
pub fill-IsFilled :
    (r : Request) (boots : List KBucketEntry) (own : Option KBucketEntry) (t : RoutingTable)
    → IsTable t
    → IsId r.target
    → (es : List KBucketEntry) × (fill r boots own t.buckets ≡ some es) × IsFilled r t.buckets es
fill-IsFilled r boots own t h k =
    let bs = t.buckets in
    let f = index_of-covers (2 ^ 256) bs r.target k h.tiles (value-lt r.target) in
    let i = f.0 in
    let w = get_elem?-lt bs i f.1 f.3 in
    let c = first_count-suc r i bs f.1 f.3 in
    let n = length-insert_entries r f.1 [] in
    let start : Walks r bs i i (insert_entries r f.1 []) = record {
      ordered = omega arith;
      within = w;
      entries = omega arith;
    } in
    let e = walk-Enough (length bs) r bs i i (insert_entries r f.1 []) start (omega arith) in
    let all = add_outside r boots own e.0 in
    let more = length-add_outside r boots own e.0 in
    let size = length-shave r all in
    let enough = e.2 in
    (
      shave r all,
      fill-at r boots own bs i f.1 e.0 f.2 f.3 e.1,
      record { bound = omega arith; enough = omega arith },
    )
