-- ===== src/RoutingTable/Invariant.antt =====
-- The invariant of the routing table: its buckets tile the ids, each is a bucket, and each entry is in
-- the bucket whose prefix covers its id.
use boson_native.Prelude.{
  ℕ, suc, ◌+◌, ◌^◌, ◌≤◌, ◌<◌, true, false, some, List, [], ◌∷◌, All, ◌≡◌, sym, ap, subst, ◌∙◌,
  arith, Bool-cases, compare-cases, inl, inr,
}
use boson_native.Id.{NodeId, IsId}
use boson_native.Id.Number.{value}
use boson_native.Prefix.{Prefix, is_prefix_of, split_branch}
use boson_native.Prefix.Blunt.{width}
use boson_native.Prefix.Interval.{
  bits, IsPrefix, split_branch-IsSuccessor, low, is_prefix_of-Inside,
}
use boson_native.Prefix.Halves.{split_branch-IsHalved}
use boson_native.KBucketEntry.{KBucketEntry}
use boson_native.KBucket
use boson_native.KBucket.{KBucket}
use boson_native.KBucket.Size.{length-put}
use boson_native.KBucket.Apart.{put-IsApart}
use boson_native.KBucket.Operations.{IsBucket}
use boson_native.KBucket.Placed.{IsOfKey, put-All}
use boson_native.RoutingTable.{RoutingTable, with_entries, distribute}
use boson_native.RoutingTable.Tiles.{Tiles}

-- An entry whose id is an id that the prefix covers.
abbrev pub Placed : Prefix → KBucketEntry → Type 0
Placed p e = IsId e.id × (is_prefix_of p e.id ≡ true)

pub record IsGood (p : Prefix) (es : List KBucketEntry) : Type 0 where
  pub bucket : IsBucket es
  pub placed : All (Placed p) es

pub record IsTable (t : RoutingTable) : Type 0 where
  pub tiles : Tiles 0 t.buckets (2 ^ 256)
  pub good : All (λ (b : KBucket). IsGood b.prefix b.entries) t.buckets

pub Placed-IsOfKey : (p : Prefix) → IsOfKey (Placed p)
Placed-IsOfKey p x y k h = (subst IsId k.0 h.0, ap (is_prefix_of p) (sym k.0) ∙ h.1)

pub empty-IsGood : (p : Prefix) → IsGood p []
empty-IsGood p = record { bucket = record { size = omega arith; apart = tt }; placed = tt }

pub put-IsGood :
    (p : Prefix) (now : ℕ) (e : KBucketEntry) (es : List KBucketEntry)
    → Placed p e
    → IsGood p es
    → IsGood p (KBucket.put now (some e) es)
put-IsGood p now e es h k = record {
  bucket = record {
    size = length-put now (some e) es k.bucket.size;
    apart = put-IsApart now (some e) es k.bucket.apart;
  };
  placed = put-All (Placed p) (Placed-IsOfKey p) now e es h k.placed;
}

-- An id that a prefix covers is covered by one of its branches.
pub branch-covers :
    (p : Prefix) (x : NodeId)
    → IsPrefix p
    → bits p < 256
    → IsId x
    → is_prefix_of p x ≡ true
    → is_prefix_of (split_branch p false) x ≡ false
    → is_prefix_of (split_branch p true) x ≡ true
branch-covers p x h s k c miss =
    let bl = split_branch-IsSuccessor p false h s in
    let bh = split_branch-IsSuccessor p true h s in
    let inside = (is_prefix_of-Inside p x h k).0 c in
    let from : low p ≤ value x = inside.0 in
    let to : value x < low p + width (bits p) = inside.1 in
    let n = split_branch-IsHalved p h s in
    let lower = n.lower in
    let upper = n.upper in
    let whole = n.whole in
    let wl = ap width bl.count in
    let wh = ap width bh.count in
    let iff = is_prefix_of-Inside (split_branch p true) x bh.prefix k in
    let other = is_prefix_of-Inside (split_branch p false) x bl.prefix k in
    elim (compare-cases (value x) (low p + width (suc (bits p)))) [
      | inl less ↦ let hit = other.1 (omega arith, omega arith) in cc
      | inr (inl same) ↦ iff.1 (omega arith, omega arith)
      | inr (inr more) ↦ iff.1 (omega arith, omega arith)
    ]

-- The entries of a bucket go to the two buckets of its branches.
pub distribute-IsGood :
    (p : Prefix) (now : ℕ) (es : List KBucketEntry) (l h : KBucket)
    → IsPrefix p
    → bits p < 256
    → l.prefix ≡ split_branch p false
    → h.prefix ≡ split_branch p true
    → All (Placed p) es
    → IsGood l.prefix l.entries
    → IsGood h.prefix h.entries
    → IsGood (distribute now es l h).0.prefix (distribute now es l h).0.entries
      × IsGood (distribute now es l h).1.prefix (distribute now es l h).1.entries
unfolding distribute
distribute-IsGood p now [] l h k s el eh a gl gh = (gl, gh)
distribute-IsGood p now (e ∷ es) l h k s el eh a gl gh =
    elim (Bool-cases (is_prefix_of l.prefix e.id)) [
      | inl hit ↦ rw hit (
          distribute-IsGood p now es (with_entries l (KBucket.put now (some e) l.entries)) h k s el
            eh a.1 (put-IsGood l.prefix now e l.entries (a.0.0, hit) gl) gh)
      | inr miss ↦
          let low_miss = ap (λ q. is_prefix_of q e.id) (sym el) ∙ miss in
          let c = branch-covers p e.id k s a.0.0 a.0.1 low_miss in
          let high_hit = ap (λ q. is_prefix_of q e.id) eh ∙ c in
          rw miss (
            distribute-IsGood p now es l (with_entries h (KBucket.put now (some e) h.entries)) k s
              el eh a.1 gl (put-IsGood h.prefix now e h.entries (a.0.0, high_hit) gh))
    ]
