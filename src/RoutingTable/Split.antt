-- ===== src/RoutingTable/Split.antt =====
-- Splitting a bucket: its two halves stand where it stood.
use boson_native.Prelude.{
  ℕ, suc, ◌+◌, ◌<◌, true, false, some, List, [], ◌∷◌, ◌++◌, ◌≡◌, refl, sym, ap, subst, ◌∙◌, arith,
  Bool-cases, inl, inr,
}
use boson_native.Prefix.{is_prefix_of, split_branch}
use boson_native.Prefix.Blunt.{width}
use boson_native.Prefix.Interval.{bits, IsPrefix, split_branch-IsSuccessor, low}
use boson_native.Prefix.Halves.{split_branch-IsHalved}
use boson_native.KBucketEntry.{KBucketEntry}
use boson_native.KBucket
use boson_native.KBucket.{KBucket}
use boson_native.RoutingTable.{
  RoutingTable, with_entries, new_bucket, is_home_bucket, distribute, split, modify,
}
use boson_native.RoutingTable.Tiles.{Tiles, end, Tiles-append, append-Tiles}
use boson_native.RoutingTable.Order.{Tiles-Ascending, modify-Middle}

-- The entries go to the bucket, or to the other; both keep their prefixes.
distribute-prefix :
    (now : ℕ) (es : List KBucketEntry) (l h : KBucket)
    → ((distribute now es l h).0.prefix ≡ l.prefix) × ((distribute now es l h).1.prefix ≡ h.prefix)
unfolding distribute
distribute-prefix now [] l h = (refl, refl)
distribute-prefix now (e ∷ es) l h = elim (Bool-cases (is_prefix_of l.prefix e.id)) [
  | inl hit ↦
      rw hit (distribute-prefix now es (with_entries l (KBucket.put now (some e) l.entries)) h)
  | inr miss ↦
      rw miss (distribute-prefix now es l (with_entries h (KBucket.put now (some e) h.entries)))
]

-- The two buckets that a split makes.
abbrev pub halves : ℕ → KBucket → RoutingTable → KBucket × KBucket
halves now b t =
    let pl = split_branch b.prefix false in
    let ph = split_branch b.prefix true in
    distribute now b.entries (new_bucket pl (is_home_bucket pl t))
      (new_bucket ph (is_home_bucket ph t))

pub halves-prefix :
    (now : ℕ) (b : KBucket) (t : RoutingTable)
    → ((halves now b t).0.prefix ≡ split_branch b.prefix false)
      × ((halves now b t).1.prefix ≡ split_branch b.prefix true)
unfolding new_bucket
halves-prefix now b t =
    let pl = split_branch b.prefix false in
    let ph = split_branch b.prefix true in
    distribute-prefix now b.entries (new_bucket pl (is_home_bucket pl t))
      (new_bucket ph (is_home_bucket ph t))

halves-Tiles :
    (l h b : KBucket) (ys : List KBucket) (to : ℕ)
    → l.prefix ≡ split_branch b.prefix false
    → h.prefix ≡ split_branch b.prefix true
    → bits b.prefix < 256
    → Tiles (low b.prefix) (b ∷ ys) to
    → Tiles (low b.prefix) (l ∷ h ∷ ys) to
halves-Tiles l h b ys to el eh s t =
    let k = split_branch-IsHalved b.prefix t.0 s in
    let bl = split_branch-IsSuccessor b.prefix false t.0 s in
    let bh = split_branch-IsSuccessor b.prefix true t.0 s in
    let lower = k.lower in
    let upper = k.upper in
    let whole = k.whole in
    let middle : end l ≡ low b.prefix + width (suc (bits b.prefix)) =
      rw (el, bl.count, lower) refl in
    let last : end h ≡ end b = rw (eh, bh.count, upper) (omega arith) in
    (
      subst IsPrefix (sym el) bl.prefix,
      ap low el ∙ lower,
      (
        subst IsPrefix (sym eh) bh.prefix,
        ap low eh ∙ upper ∙ sym middle,
        subst (λ m. Tiles m ys to) (sym last) t.2,
      ),
    )

pub split-buckets :
    (now : ℕ) (t : RoutingTable) (xs : List KBucket) (b : KBucket) (ys : List KBucket) (to : ℕ)
    → t.buckets ≡ xs ++ b ∷ ys
    → Tiles 0 t.buckets to
    → bits b.prefix < 256
    → (Tiles 0 (split now b t).buckets to)
      × ((split now b t).buckets ≡ xs ++ (halves now b t).0 ∷ (halves now b t).1 ∷ ys)
unfolding split
split-buckets now t xs b ys to e h s =
    let r = halves now b t in
    let p = halves-prefix now b t in
    let whole = subst (λ bs. Tiles 0 bs to) e h in
    let parts = Tiles-append 0 xs (b ∷ ys) to whole in
    let from : parts.0 ≡ low b.prefix = sym parts.2.1 in
    let new =
      halves-Tiles r.0 r.1 b ys to p.0 p.1 s (subst (λ m. Tiles m (b ∷ ys) to) from parts.2) in
    let tiles =
      append-Tiles 0 xs (low b.prefix) (r.0 ∷ r.1 ∷ ys) to (subst (Tiles 0 xs) from parts.1) new in
    let same : modify (b ∷ []) (r.0 ∷ r.1 ∷ []) t.buckets ≡ xs ++ r.0 ∷ r.1 ∷ ys =
      ap (modify (b ∷ []) (r.0 ∷ r.1 ∷ [])) e
      ∙ modify-Middle 0 xs (b ∷ []) (r.0 ∷ r.1 ∷ []) ys (Tiles-Ascending 0 (xs ++ b ∷ ys) to whole)
          (Tiles-Ascending 0 (xs ++ r.0 ∷ r.1 ∷ ys) to tiles) in
    (subst (λ bs. Tiles 0 bs to) (sym same) tiles, same)
