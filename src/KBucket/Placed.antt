-- ===== src/KBucket/Placed.antt =====
-- A property of the ids of the entries is kept by the operations on a bucket.
use boson_native.Prelude.{
  ℕ, Bool, false, none, some, List, [], ◌∷◌, ◌++◌, All, append-All, ltb, ◌==◌, arith, Bool-cases,
  Option-cases, inl, inr,
}
use boson_native.Id.{NodeId, id_eq}
use boson_native.KBucketEntry.{
  KBucketEntry, equals, merge, needs_replacement, signal_request_timeout,
}
use boson_native.KBucketEntry.Matching.{SameKey, merge-SameKey, signal_request_timeout-SameKey}
use boson_native.KBucket.{
  find_any, change_first, remove, youngest, insert_by_creation, sort_by_creation, insert_entry,
  update, find_existing, put_new, put, remove_if_bad, on_timeout,
}
use boson_native.KBucket.Apart.{find_existing-change}

-- What depends on the id and the address only.
abbrev pub IsOfKey : (KBucketEntry → Type 0) → Type 0
IsOfKey P = (x y : KBucketEntry) → SameKey x y → P x → P y

module _ (P : KBucketEntry → Type 0) where
  remove-All : (r : KBucketEntry) (es : List KBucketEntry) → All P es → All P (remove r es)
  unfolding remove
  remove-All r [] h = tt
  remove-All r (e ∷ es) h = elim (Bool-cases (e.ptr == r.ptr)) [
    | inl hit ↦ rw hit (remove-All r es h.1)
    | inr miss ↦ rw miss (h.0, remove-All r es h.1)
  ]

  insert-All :
      (x : KBucketEntry) (es : List KBucketEntry) → P x → All P es → All P (insert_by_creation x es)
  unfolding insert_by_creation
  insert-All x [] h k = (h, tt)
  insert-All x (e ∷ es) h k = elim (Bool-cases (ltb e.created x.created)) [
    | inl hit ↦ rw hit (k.0, insert-All x es h k.1)
    | inr miss ↦ rw miss (h, k)
  ]

  sort-All : (es : List KBucketEntry) → All P es → All P (sort_by_creation es)
  unfolding sort_by_creation
  sort-All [] h = tt
  sort-All (e ∷ es) h = insert-All e (sort_by_creation es) h.0 (sort-All es h.1)

  insert_entry-All :
      (x : KBucketEntry) (es : List KBucketEntry) → P x → All P es → All P (insert_entry x es).0
  unfolding insert_entry
  insert_entry-All x es h k =
      let appended : All P (es ++ x ∷ []) = append-All P es (x ∷ []) k (h, tt) in
      ground (arith, k, appended, sort-All (es ++ x ∷ []) appended)

  add-All :
      (x : KBucketEntry) (es : List KBucketEntry) → P x → All P es → All P (update none (some x) es)
  unfolding update
  add-All x es h k = ground (arith, k, insert_entry-All x es h k)

  replace-All :
      (r x : KBucketEntry) (es : List KBucketEntry)
      → P x
      → All P es
      → All P (update (some r) (some x) es)
  unfolding update
  replace-All r x es h k = ground (arith, k, insert_entry-All x (remove r es) h (remove-All r es k))

  put_new-All :
      (now : ℕ) (x : KBucketEntry) (es : List KBucketEntry)
      → P x
      → All P es
      → All P (put_new now x es)
  unfolding put_new
  put_new-All now x es h k = elim (Option-cases (find_any (needs_replacement now) es)) [
    | inr (bad, found) ↦ ground (arith, k, add-All x es h k, replace-All bad x es h k)
    | inl good ↦ elim (Option-cases (youngest es)) [
      | inl gone ↦ ground (arith, k, add-All x es h k)
      | inr (y, found) ↦ ground (arith, k, add-All x es h k, replace-All y x es h k)
    ]
  ]

  pub remove_if_bad-All :
      (now : ℕ) (x : KBucketEntry) (force : Bool) (es : List KBucketEntry)
      → All P es
      → All P (remove_if_bad now x force es)
  unfolding remove_if_bad update
  remove_if_bad-All now x force es h = ground (arith, h, remove-All x es h)

  module _ (keep : IsOfKey P) where
    pub change_first-All :
        (p : KBucketEntry → Bool) (f : KBucketEntry → KBucketEntry)
        → ((e : KBucketEntry) → SameKey e (f e))
        → (es : List KBucketEntry) → All P es
        → All P (change_first p f es)
    unfolding change_first
    change_first-All p f k [] h = tt
    change_first-All p f k (e ∷ es) h = elim (Bool-cases (p e)) [
      | inl hit ↦ rw hit (keep e (f e) (k e) h.0, h.1)
      | inr miss ↦ rw miss (h.0, change_first-All p f k es h.1)
    ]

    pub put-All :
        (now : ℕ) (x : KBucketEntry) (es : List KBucketEntry)
        → P x
        → All P es
        → All P (put now (some x) es)
    unfolding put
    put-All now x es h k = elim (Option-cases (find_existing x es)) [
      | inl gone ↦ ground (arith, k, put_new-All now x es h k)
      | inr (es', found) ↦ ground (
        arith,
        k,
        find_existing-change x es es' found,
        change_first-All (λ e. equals e x) (λ e. merge e x) (λ e. merge-SameKey e x) es k,
      )
    ]

    pub on_timeout-All :
        (now : ℕ) (id : NodeId) (es : List KBucketEntry) → All P es → All P (on_timeout now id es)
    unfolding on_timeout
    on_timeout-All now id es h =
        let es' = change_first (λ e. id_eq e.id id) signal_request_timeout es in
        let h' : All P es' =
          change_first-All (λ e. id_eq e.id id) signal_request_timeout
            signal_request_timeout-SameKey es h in
        elim (Option-cases (find_any (λ e. id_eq e.id id) es')) [
          | inl gone ↦ ground (arith, h')
          | inr (e, found) ↦ ground (arith, remove_if_bad-All now e false es' h')
        ]
