-- ===== src/KClosestNodes/Rounds.antt =====
-- The rounds of the walk over the buckets.
use boson_native.Prelude.{
  ℕ, suc, ◌+◌, ◌-◌, true, false, none, some, List, length, get_elem?, ltb, Ordering, ◌≡◌, refl, ap,
  ap₂, arith,
}
use boson_native.Id.{three_way_compare}
use boson_native.Prefix
use boson_native.KBucketEntry.{KBucketEntry}
use boson_native.KBucket.{KBucket}
use boson_native.KClosestNodes.{Request, insert_entries, before, walk}

module _ (r : Request) (bs : List KBucket) where
  -- The rounds of the walk: enough, at both ends, down, up, and both.
  pub round_full :
      (fuel low high : ℕ) (es : List KBucketEntry)
      → ltb (length es) r.max_entries ≡ false
      → walk (suc fuel) r bs low high es ≡ some es
  unfolding walk
  round_full fuel low high es m = rw (walk, m) refl

  module _ (fuel high : ℕ) (es : List KBucketEntry)
      (few : ltb (length es) r.max_entries ≡ true) where
    up : high + 1 ≡ suc high
    up = omega arith

    pub round_ends : get_elem? bs (suc high) ≡ none → walk (suc fuel) r bs 0 high es ≡ some es
    unfolding walk before
    round_ends e = rw (walk, few, up, e) refl

    pub round_up :
        (h : KBucket)
        → get_elem? bs (suc high) ≡ some h
        → walk (suc fuel) r bs 0 high es ≡ walk fuel r bs 0 (suc high) (insert_entries r h es)
    unfolding walk before
    round_up h e = rw (walk, few, up, e) (ap (λ n. walk fuel r bs 0 n (insert_entries r h es)) up)

    module _ (low : ℕ) (l : KBucket) (el : get_elem? bs low ≡ some l) where
      down : suc low - 1 ≡ low
      down = omega arith

      pub round_down :
          get_elem? bs (suc high) ≡ none
          → walk (suc fuel) r bs (suc low) high es ≡ walk fuel r bs low high (insert_entries r l es)
      unfolding walk before
      round_down e =
          rw (walk, few, el, up, e) (ap (λ n. walk fuel r bs n high (insert_entries r l es)) down)

      module _ (h : KBucket) (eh : get_elem? bs (suc high) ≡ some h) where
        pub round_lt :
            three_way_compare r.target (Prefix.last l.prefix) (Prefix.first h.prefix) ≡ Ordering.lt
            → walk (suc fuel) r bs (suc low) high es
              ≡ walk fuel r bs low high (insert_entries r l es)
        unfolding walk before
        round_lt o =
            rw (walk, few, el, up, eh, o)
              (ap (λ n. walk fuel r bs n high (insert_entries r l es)) down)

        pub round_gt :
            three_way_compare r.target (Prefix.last l.prefix) (Prefix.first h.prefix) ≡ Ordering.gt
            → walk (suc fuel) r bs (suc low) high es
              ≡ walk fuel r bs (suc low) (suc high) (insert_entries r h es)
        unfolding walk before
        round_gt o =
            rw (walk, few, el, up, eh, o)
              (ap (λ n. walk fuel r bs (suc low) n (insert_entries r h es)) up)

        pub round_eq :
            three_way_compare r.target (Prefix.last l.prefix) (Prefix.first h.prefix) ≡ Ordering.eq
            → walk (suc fuel) r bs (suc low) high es
              ≡ walk fuel r bs low (suc high) (insert_entries r h (insert_entries r l es))
        unfolding walk before
        round_eq o =
            rw (walk, few, el, up, eh, o)
              (ap₂ (λ m n. walk fuel r bs m n (insert_entries r h (insert_entries r l es))) down up)
