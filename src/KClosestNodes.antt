-- ===== src/KClosestNodes.antt =====
-- src/core/kclosest_nodes.h and kclosest_nodes.cc: the entries of the routing table that are near an
-- id. The filter, the bootstrap nodes that the DHT can use and its own entry are arguments.
pub mod Count
pub mod Rounds
pub mod Size
mod Tests
use boson_native.Prelude.{
  ℕ, zero, suc, ◌+◌, ◌-◌, ◌≤◌, ◌<◌, Bool, true, false, not, ◌&&◌, Option, none, some, List, [], ◌∷◌,
  ◌++◌, length, take, get_elem?, ltb, leb, ◌==◌, Ordering, if◌then◌else◌,
}
use boson_native.Id.{NodeId, three_way_compare}
use boson_native.Prefix
use boson_native.Prefix.{Prefix}
use boson_native.KBucketEntry.{KBucketEntry}
use boson_native.KBucket.{KBucket}
use boson_native.RoutingTable.{index_of}

pub record Request : Type 0 where
  pub target : NodeId
  pub max_entries : ℕ
  pub filter : KBucketEntry → Bool

-- What a bucket gives.
pub eligible : (KBucketEntry → Bool) → List KBucketEntry → List KBucketEntry
eligible p [] = []
eligible p (e ∷ es) = let rest = eligible p es in if p e then e ∷ rest else rest

pub insert_entries : Request → KBucket → List KBucketEntry → List KBucketEntry
insert_entries r b es = es ++ eligible r.filter b.entries

-- The comparison that sorts.
pub nearer : NodeId → KBucketEntry → KBucketEntry → Bool
nearer t a b = elim (three_way_compare t a.id b.id) [
  | Ordering.lt ↦ true
  | Ordering.eq ↦ false
  | Ordering.gt ↦ false
]

-- `std::list::sort` by the distance to the target: stable.
pub insert_by_distance : NodeId → KBucketEntry → List KBucketEntry → List KBucketEntry
insert_by_distance t x [] = x ∷ []
insert_by_distance t x (e ∷ es) =
    let rest = insert_by_distance t x es in if nearer t e x then e ∷ rest else x ∷ e ∷ es

pub sort_by_distance : NodeId → List KBucketEntry → List KBucketEntry
sort_by_distance t [] = []
sort_by_distance t (e ∷ es) = insert_by_distance t e (sort_by_distance t es)

pub shave : Request → List KBucketEntry → List KBucketEntry
shave r es =
    if leb (length es) r.max_entries then es else take r.max_entries (sort_by_distance r.target es)

-- The bucket before an index, if there is one.
pub before : List KBucket → ℕ → Option KBucket
before bs zero = none
before bs (suc i) = get_elem? bs i

-- The loop of `fill`; `fuel` bounds its rounds, each of which moves an end.
pub walk : ℕ → Request → List KBucket → ℕ → ℕ → List KBucketEntry → Option (List KBucketEntry)
walk zero r bs low high es = none
walk (suc fuel) r bs low high es =
    let down : KBucket → Option (List KBucketEntry) =
      λ b. walk fuel r bs (low - 1) high (insert_entries r b es) in
    let up : KBucket → Option (List KBucketEntry) =
      λ b. walk fuel r bs low (high + 1) (insert_entries r b es) in
    let both : KBucket → KBucket → Option (List KBucketEntry) =
      λ l h. walk fuel r bs (low - 1) (high + 1) (insert_entries r h (insert_entries r l es)) in
    let step : Option (List KBucketEntry) = elim (before bs low) [
      | none ↦ elim (get_elem? bs (high + 1)) [ none ↦ some es | some h ↦ up h ]
      | some l ↦ elim (get_elem? bs (high + 1)) [
        | none ↦ down l
        | some h ↦
            elim (three_way_compare r.target (Prefix.last l.prefix) (Prefix.first h.prefix)) [
              | Ordering.lt ↦ down l
              | Ordering.gt ↦ up h
              | Ordering.eq ↦ both l h
            ]
      ]
    ] in
    if ltb (length es) r.max_entries then step else some es

-- What is added when the table has too few.
pub add_outside :
    Request → List KBucketEntry → Option KBucketEntry → List KBucketEntry → List KBucketEntry
add_outside r boots own es =
    let booted = if ltb (length es) r.max_entries then es ++ boots else es in
    elim own [
      | none ↦ booted
      | some e ↦ if ltb (length booted) r.max_entries then booted ++ e ∷ [] else booted
    ]

-- `fill`; its own entry is given if it is to be included.
pub fill :
    Request → List KBucketEntry → Option KBucketEntry → List KBucket → Option (List KBucketEntry)
fill r boots own bs = elim (index_of bs r.target) [
  | none ↦ none
  | some i ↦ elim (get_elem? bs i) [
    | none ↦ none
    | some b ↦ elim (walk (length bs) r bs i i (insert_entries r b [])) [
      | none ↦ none
      | some es ↦ some (shave r (add_outside r boots own es))
    ]
  ]
]
