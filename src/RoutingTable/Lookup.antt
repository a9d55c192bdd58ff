-- ===== src/RoutingTable/Lookup.antt =====
-- An entry that is put is found again.
use boson_native.Prelude.{
  ℕ, zero, suc, ◌^◌, ◌<◌, true, false, Option, none, some, List, [], ◌∷◌, length, All, get_elem?,
  get_elem?-All, set_at, ◌≡◌, refl, ap, subst, ◌∙◌, arith, inl,
}
use boson_native.Id.{NodeId, IsId, id_eq}
use boson_native.Prefix.{Prefix, is_prefix_of}
use boson_native.Prefix.Halves.{value-lt}
use boson_native.KBucketEntry.{KBucketEntry}
use boson_native.KBucket
use boson_native.KBucket.{KBucket, max_entries_per_bucket}
use boson_native.KBucket.Apart.{ApartFrom}
use boson_native.KBucket.Size.{is_full-room}
use boson_native.KBucket.Kept.{put-Contains, get-Contains}
use boson_native.KBucket.Removed.{remove_if_bad-found}
use boson_native.RoutingTable.{
  RoutingTable, with_entries, put, index_of, get_bucket, get_entry, needs_split, on_bucket, remove,
}
use boson_native.RoutingTable.Search.{index_of-covers}
use boson_native.RoutingTable.Unique.{covers-first_cover, get_bucket-first_cover, get_bucket-at}
use boson_native.RoutingTable.Invariant.{Placed, IsGood, IsTable}
use boson_native.RoutingTable.Operations.{remove-IsTable}
use boson_native.RoutingTable.Put.{placed-IsTable}

set_at-get :
    (bs : List KBucket) (i : ℕ) (b c : KBucket)
    → get_elem? bs i ≡ some b
    → get_elem? (set_at i c bs) i ≡ some c
set_at-get [] i b c e = cc
set_at-get (x ∷ bs) zero b c e = refl
set_at-get (x ∷ bs) (suc i) b c e = set_at-get bs i b c e

-- The bucket that covers an id is the one that is got.
get_bucket-covers :
    (t : RoutingTable) (id : NodeId) (i : ℕ) (b : KBucket)
    → IsTable t
    → IsId id
    → get_elem? t.buckets i ≡ some b
    → is_prefix_of b.prefix id ≡ true
    → get_bucket t.buckets id ≡ some b
get_bucket-covers t id i b h k e c =
    let r = get_bucket-first_cover t.buckets id k h.tiles in
    let f = covers-first_cover 0 t.buckets (2 ^ 256) i b id h.tiles k e c in
    let x = r.1 in let y = r.2 in cc

needs_split-room :
    (now : ℕ) (b : KBucket) (e : KBucketEntry)
    → length b.entries < max_entries_per_bucket
    → needs_split now b e ≡ false
unfolding needs_split
needs_split-room now b e h = ground (arith, is_full-room b h)

get_entry-at :
    (id : NodeId) (t : RoutingTable) (b : KBucket)
    → get_bucket t.buckets id ≡ some b
    → get_entry id t ≡ KBucket.get id b
unfolding get_entry
get_entry-at id t b e = rw (get_entry, e) refl

put-at :
    (fuel now : ℕ) (e : KBucketEntry) (t : RoutingTable) (i : ℕ) (b : KBucket)
    → index_of t.buckets e.id ≡ some i
    → get_elem? t.buckets i ≡ some b
    → needs_split now b e ≡ false
    → put (suc fuel) now e t
      ≡ some (record t {
        buckets = set_at i (with_entries b (KBucket.put now (some e) b.entries)) t.buckets;
      })
unfolding put
put-at fuel now e t i b k at n = rw (put, k, at, n) refl

-- In a table that keeps the invariant, after `_put` of a reachable entry whose bucket has room and no
-- entry with its id or its address, `getEntry` of its id gives that entry.
pub put-get_entry :
    (now : ℕ) (e : KBucketEntry) (t : RoutingTable) (b : KBucket)
    → IsTable t
    → IsId e.id
    → e.reachable ≡ true
    → get_bucket t.buckets e.id ≡ some b
    → length b.entries < max_entries_per_bucket
    → ApartFrom e b.entries
    → (t' : RoutingTable) × (put 257 now e t ≡ some t') × (get_entry e.id t' ≡ some e)
put-get_entry now e t b h k r got room apart =
    let f = index_of-covers (2 ^ 256) t.buckets e.id k h.tiles (value-lt e.id) in
    let i = f.0 in
    let same : f.1 ≡ b = let x = get_bucket-at t.buckets e.id i f.1 f.2 f.3 in cc in
    let at : get_elem? t.buckets i ≡ some b = f.3 ∙ ap some same in
    let covers : is_prefix_of b.prefix e.id ≡ true =
      subst (λ (c : KBucket). is_prefix_of c.prefix e.id ≡ true) same f.4 in
    let b' = with_entries b (KBucket.put now (some e) b.entries) in
    let t' : RoutingTable = record t { buckets = set_at i b' t.buckets } in
    let h' : IsTable t' = placed-IsTable now e t i b h at (k, covers) in
    let there = set_at-get t.buckets i b b' at in
    let own =
      get_elem?-All (λ (c : KBucket). IsGood c.prefix c.entries) t'.buckets i b' h'.good there in
    let c = put-Contains now e e b.entries r room apart (inl refl) in
    (
      t',
      put-at 256 now e t i b f.2 at (needs_split-room now b e room),
      get_entry-at e.id t' b' (get_bucket-covers t' e.id i b' h' k there covers)
          ∙ get-Contains e b' own.bucket.apart c,
    )

on_bucket-at :
    (id : NodeId) (f : List KBucketEntry → List KBucketEntry) (t : RoutingTable) (i : ℕ)
    (b : KBucket)
    → index_of t.buckets id ≡ some i
    → get_elem? t.buckets i ≡ some b
    → on_bucket id f t ≡ record t { buckets = set_at i (with_entries b (f b.entries)) t.buckets }
unfolding on_bucket
on_bucket-at id f t i b e k = rw (on_bucket, e, k) refl

ids : (p : Prefix) (es : List KBucketEntry) → All (Placed p) es → All (λ e. IsId e.id) es
ids p [] h = tt
ids p (e ∷ es) h = (h.0.0, ids p es h.1)

get-find :
    (id : NodeId) (b : KBucket) → KBucket.get id b ≡ KBucket.find_any (λ e. id_eq e.id id) b.entries
unfolding KBucket.get
get-find id b = refl

remove-none :
    (now : ℕ) (id : NodeId) (p : Prefix) (es : List KBucketEntry) (o : Option KBucketEntry)
    → IsId id
    → IsGood p es
    → KBucket.find_any (λ e. id_eq e.id id) es ≡ o
    → KBucket.find_any
        (λ e. id_eq e.id id)
        (elim o as (λ o. List KBucketEntry) [
          | none ↦ es
          | some e ↦ KBucket.remove_if_bad now e true es
        ])
      ≡ none
remove-none now id p es none k h e = e
remove-none now id p es (some x) k h e =
    remove_if_bad-found now x id es k (ids p es h.placed) h.bucket.apart e

-- After `_remove` of an id, the table has no entry for it.
pub remove-get_entry :
    (now : ℕ) (id : NodeId) (t : RoutingTable)
    → IsTable t
    → IsId id
    → get_entry id (remove now id t) ≡ none
unfolding remove
remove-get_entry now id t h k =
    let r = index_of-covers (2 ^ 256) t.buckets id k h.tiles (value-lt id) in
    let f : List KBucketEntry → List KBucketEntry = λ es.
      elim (KBucket.find_any (λ e. id_eq e.id id) es) [
        | none ↦ es
        | some e ↦ KBucket.remove_if_bad now e true es
      ] in
    let b' = with_entries r.1 (f (r.1).entries) in
    let t' : RoutingTable = record t { buckets = set_at r.0 b' t.buckets } in
    let step : remove now id t ≡ t' = on_bucket-at id f t r.0 r.1 r.2 r.3 in
    let h' : IsTable t' = subst IsTable step (remove-IsTable now id t h) in
    let there = set_at-get t.buckets r.0 r.1 b' r.3 in
    let own =
      get_elem?-All (λ (c : KBucket). IsGood c.prefix c.entries) t.buckets r.0 r.1 h.good r.3 in
    ap (get_entry id) step
    ∙ get_entry-at id t' b' (get_bucket-covers t' id r.0 b' h' k there r.4)
    ∙ get-find id b'
    ∙ remove-none now id (r.1).prefix (r.1).entries
        (KBucket.find_any (λ e. id_eq e.id id) (r.1).entries) k own refl

-- In a table with one bucket.
pub single-get_entry :
    (id : NodeId) (b : KBucket) (own : NodeId) (checked : ℕ)
    → IsTable (record { buckets = b ∷ []; local_id = own; time_of_last_ping_check = checked })
    → IsId id
    → is_prefix_of b.prefix id ≡ true
    → get_entry id (record { buckets = b ∷ []; local_id = own; time_of_last_ping_check = checked })
      ≡ KBucket.get id b
single-get_entry id b own checked h k c =
    let t : RoutingTable = record {
      buckets = b ∷ [];
      local_id = own;
      time_of_last_ping_check = checked;
    } in
    get_entry-at id t b (get_bucket-covers t id 0 b h k refl c)
