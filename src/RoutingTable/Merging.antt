-- ===== src/RoutingTable/Merging.antt =====
-- The loop that merges sibling buckets ends, and keeps the invariant of the table.
use boson_native.Prelude.{
  ℕ, zero, suc, ◌+◌, ◌-◌, ◌*◌, ◌≤◌, ◌<◌, max, true, false, none, some, List, [], ◌∷◌, length,
  get_elem?, ◌≡◌, ◌⊎◌, refl, ap, subst, ◌∙◌, arith, Bool-cases, Option-cases, inl, inr,
}
use boson_native.Prefix.{is_sibling_of}
use boson_native.KBucket.{KBucket}
use boson_native.RoutingTable.{RoutingTable, join, mergeable, merge_buckets}
use boson_native.RoutingTable.Invariant.{IsTable}
use boson_native.RoutingTable.Search.{get_elem?-lt}
use boson_native.RoutingTable.Joined.{join-IsTable}
use boson_native.RoutingTable.Settled.{
  IsSettled, SettledTo, SettledTo-IsSettled, SettledTo-shorter, SettledTo-next, SettledTo-first,
}

mergeable-siblings :
    (b1 b2 : KBucket) → mergeable b1 b2 ≡ true → is_sibling_of b1.prefix b2.prefix ≡ true
unfolding mergeable
mergeable-siblings b1 b2 h = ground arith

-- One round: the end of the list, a merge, or the next pair.
round_ends :
    (fuel now i : ℕ) (t : RoutingTable)
    → (get_elem? t.buckets i ≡ none) ⊎ (get_elem? t.buckets (suc i) ≡ none)
    → merge_buckets (suc fuel) now (suc i) t ≡ some t
unfolding merge_buckets
round_ends fuel now i t h = elim (Option-cases (get_elem? t.buckets i)) [
  | inl gone ↦ rw (merge_buckets, last, gone) refl
  | inr (b, e) ↦ elim h [ inl gone ↦ cc | inr gone ↦ rw (merge_buckets, last, e, gone) refl ]
]
  where
    last : suc i - 1 ≡ i
    last = omega arith

round_joins :
    (fuel now i : ℕ) (b1 b2 : KBucket) (t : RoutingTable)
    → get_elem? t.buckets i ≡ some b1
    → get_elem? t.buckets (suc i) ≡ some b2
    → mergeable b1 b2 ≡ true
    → merge_buckets (suc fuel) now (suc i) t ≡ merge_buckets fuel now (max 1 i) (join now b1 b2 t)
unfolding merge_buckets
round_joins fuel now i b1 b2 t e1 e2 m =
    let last : suc i - 1 ≡ i = omega arith in
    rw (merge_buckets, last, e1, e2, m)
      (ap (λ n. merge_buckets fuel now (max 1 n) (join now b1 b2 t)) last)

round_goes_on :
    (fuel now i : ℕ) (b1 b2 : KBucket) (t : RoutingTable)
    → get_elem? t.buckets i ≡ some b1
    → get_elem? t.buckets (suc i) ≡ some b2
    → mergeable b1 b2 ≡ false
    → merge_buckets (suc fuel) now (suc i) t ≡ merge_buckets fuel now (suc (suc i)) t
unfolding merge_buckets
round_goes_on fuel now i b1 b2 t e1 e2 m =
    let last : suc i - 1 ≡ i = omega arith in
    let next : suc i + 1 ≡ suc (suc i) = omega arith in
    rw (merge_buckets, last, e1, e2, m) (ap (λ n. merge_buckets fuel now n t) next)

merge_buckets-fuel :
    (fuel now i : ℕ) (t : RoutingTable)
    → IsTable t
    → SettledTo (suc i) t.buckets
    → 2 * length t.buckets < fuel + suc i
    → 0 < fuel
    → (t' : RoutingTable) × (merge_buckets fuel now (suc i) t ≡ some t')
      × IsTable t'
      × IsSettled t'.buckets
merge_buckets-fuel zero now i t h k l f = absurd (omega arith)
merge_buckets-fuel (suc fuel) now i t h k l f = elim (Option-cases (get_elem? t.buckets i)) [
  | inl gone ↦ (
    t,
    round_ends fuel now i t (inl gone),
    h,
    SettledTo-IsSettled t.buckets (suc i) (let n = beyond t.buckets i gone in omega arith) k,
  )
  | inr (b1, e1) ↦ elim (Option-cases (get_elem? t.buckets (suc i))) [
    | inl gone ↦ (
      t,
      round_ends fuel now i t (inr gone),
      h,
      SettledTo-IsSettled t.buckets (suc i) (beyond t.buckets (suc i) gone) k,
    )
    | inr (b2, e2) ↦
        let size = get_elem?-lt t.buckets (suc i) b2 e2 in
        elim (Bool-cases (mergeable b1 b2)) [
          | inl merging ↦
              let s = mergeable-siblings b1 b2 merging in
              let j = join-IsTable now i b1 b2 t h e1 e2 s in
              let less = j.1.size in
              let back : max 1 i ≡ suc (i - 1) = omega arith in
              let r =
                merge_buckets-fuel fuel now (i - 1) (join now b1 b2 t) j.0
                  (subst (λ n. SettledTo n (join now b1 b2 t).buckets) back
                    (SettledTo-shorter t.buckets (join now b1 b2 t).buckets i j.1 k))
                  (omega arith) (omega arith) in
              (
                r.0,
                round_joins fuel now i b1 b2 t e1 e2 merging
                    ∙ ap (λ n. merge_buckets fuel now n (join now b1 b2 t)) back
                    ∙ r.1,
                r.2,
                r.3,
              )
          | inr keeping ↦
              let r =
                merge_buckets-fuel fuel now (suc i) t h
                  (SettledTo-next t.buckets i b1 b2 e1 e2 keeping k) (omega arith) (omega arith) in
              (r.0, round_goes_on fuel now i b1 b2 t e1 e2 keeping ∙ r.1, r.2, r.3)
        ]
  ]
]
  where
    beyond : (bs : List KBucket) (i : ℕ) → get_elem? bs i ≡ none → length bs ≤ i
    beyond [] i e = omega arith
    beyond (b ∷ bs) zero e = cc
    beyond (b ∷ bs) (suc i) e = let r = beyond bs i e in omega arith

-- `_mergeBuckets` ends after at most twice as many rounds as the table has buckets, keeps the buckets
-- a tiling of the ids, of at most eight entries each, apart and under their prefixes, and leaves no
-- neighbours that can be merged.
pub merge_buckets-IsSettled :
    (now : ℕ) (t : RoutingTable)
    → IsTable t
    → (t' : RoutingTable) × (merge_buckets (2 * length t.buckets + 1) now 1 t ≡ some t')
      × IsTable t'
      × IsSettled t'.buckets
merge_buckets-IsSettled now t h =
    merge_buckets-fuel (2 * length t.buckets + 1) now 0 t h (SettledTo-first t.buckets)
      (omega arith) (omega arith)
