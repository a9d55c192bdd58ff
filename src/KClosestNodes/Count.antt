-- ===== src/KClosestNodes/Count.antt =====
-- How many entries of the buckets pass the filter, and what the walk has collected of them.
use boson_native.Prelude.{
  ℕ, zero, suc, ◌+◌, ◌≤◌, ◌<◌, Bool, Bool-cases, none, some, List, [], ◌∷◌, length, length-append,
  get_elem?, ◌≡◌, refl, arith, inl, inr, if◌then◌else◌,
}
use boson_native.KBucketEntry.{KBucketEntry}
use boson_native.KBucket.{KBucket}
use boson_native.RoutingTable.Search.{get_elem?-lt}
use boson_native.KClosestNodes.{Request, eligible, insert_entries}

-- How many entries of a list pass a filter.
pub passing : (KBucketEntry → Bool) → List KBucketEntry → ℕ
passing p [] = 0
passing p (e ∷ es) = (if p e then 1 else 0) + passing p es

length-eligible :
    (p : KBucketEntry → Bool) (es : List KBucketEntry) → length (eligible p es) ≡ passing p es
unfolding eligible passing
length-eligible p [] = refl
length-eligible p (e ∷ es) = elim (Bool-cases (p e)) [
  | inl hit ↦ rw hit (omega (arith, length-eligible p es))
  | inr miss ↦ rw miss (omega (arith, length-eligible p es))
]

-- How many entries of a bucket, of the first buckets, and of all, pass the filter.
pub count : Request → KBucket → ℕ
count r b = passing r.filter b.entries

pub available : Request → List KBucket → ℕ
available r [] = 0
available r (b ∷ bs) = passing r.filter b.entries + available r bs

pub first_count : Request → ℕ → List KBucket → ℕ
first_count r zero bs = 0
first_count r (suc n) [] = 0
first_count r (suc n) (b ∷ bs) = count r b + first_count r n bs

pub first_count-zero : (r : Request) (bs : List KBucket) → first_count r 0 bs ≡ 0
unfolding first_count
first_count-zero r bs = refl

pub first_count-suc :
    (r : Request) (i : ℕ) (bs : List KBucket) (b : KBucket)
    → get_elem? bs i ≡ some b
    → first_count r (suc i) bs ≡ first_count r i bs + count r b
unfolding first_count
first_count-suc r i [] b e = cc
first_count-suc r zero (x ∷ bs) b e = let same : x ≡ b = cc in rw same (omega arith)
first_count-suc r (suc i) (x ∷ bs) b e = omega (arith, first_count-suc r i bs b e)

pub first_count-all :
    (r : Request) (i : ℕ) (bs : List KBucket)
    → get_elem? bs i ≡ none
    → first_count r i bs ≡ available r bs
unfolding first_count available count
first_count-all r zero [] e = refl
first_count-all r (suc i) [] e = refl
first_count-all r zero (b ∷ bs) e = cc
first_count-all r (suc i) (b ∷ bs) e = omega (arith, first_count-all r i bs e)

pub length-insert_entries :
    (r : Request) (b : KBucket) (es : List KBucketEntry)
    → length (insert_entries r b es) ≡ length es + count r b
unfolding insert_entries count
length-insert_entries r b es =
    omega
      (arith, length-append es (eligible r.filter b.entries), length-eligible r.filter b.entries)

-- The ends of the walk, and that the entries are those of the buckets between them.
pub record Walks (r : Request) (bs : List KBucket) (low high : ℕ) (es : List KBucketEntry)
    : Type 0 where
  pub ordered : low ≤ high
  pub within : high < length bs
  pub entries : length es + first_count r low bs ≡ first_count r (suc high) bs

pub goes_down :
    (r : Request) (bs : List KBucket) (low high : ℕ) (es : List KBucketEntry) (b : KBucket)
    → Walks r bs (suc low) high es
    → get_elem? bs low ≡ some b
    → Walks r bs low high (insert_entries r b es)
goes_down r bs low high es b h e =
    let o : suc low ≤ high = h.ordered in
    let c = first_count-suc r low bs b e in
    let n = length-insert_entries r b es in
    let s : length es + first_count r (suc low) bs ≡ first_count r (suc high) bs = h.entries in
    record { ordered = omega arith; within = h.within; entries = omega arith }

pub goes_up :
    (r : Request) (bs : List KBucket) (low high : ℕ) (es : List KBucketEntry) (b : KBucket)
    → Walks r bs low high es
    → get_elem? bs (suc high) ≡ some b
    → Walks r bs low (suc high) (insert_entries r b es)
goes_up r bs low high es b h e =
    let o : low ≤ high = h.ordered in
    let c = first_count-suc r (suc high) bs b e in
    let n = length-insert_entries r b es in
    let s : length es + first_count r low bs ≡ first_count r (suc high) bs = h.entries in
    record { ordered = omega arith; within = get_elem?-lt bs (suc high) b e; entries = omega arith }
