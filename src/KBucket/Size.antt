-- ===== src/KBucket/Size.antt =====
-- How many entries the operations leave in a bucket.
use boson_native.Prelude.{
  ℕ, ◌+◌, ◌≤◌, ◌<◌, Bool, false, Option, none, some, List, [], ◌∷◌, ◌++◌, length, length-append,
  ◌≡◌, refl, ap, arith, Bool-cases, Option-cases, inl, inr,
}
use boson_native.Id.{NodeId, id_eq}
use boson_native.KBucketEntry.{KBucketEntry, needs_replacement, signal_request_timeout}
use boson_native.KBucket.{
  KBucket, is_full, find_any, change_first, remove, youngest, insert_by_creation, sort_by_creation,
  insert_entry, update, find_existing, put_new, put, remove_if_bad, on_timeout,
  max_entries_per_bucket,
}

pub length-change_first :
    (p : KBucketEntry → Bool) (f : KBucketEntry → KBucketEntry) (es : List KBucketEntry)
    → length (change_first p f es) ≡ length es
unfolding change_first
length-change_first p f [] = refl
length-change_first p f (e ∷ es) = ground (arith, length-change_first p f es)

pub length-remove : (x : KBucketEntry) (es : List KBucketEntry) → length (remove x es) ≤ length es
unfolding remove
length-remove x [] = omega arith
length-remove x (e ∷ es) = ground (arith, length-remove x es)

-- An entry that is found is really removed.
length-remove_found :
    (p : KBucketEntry → Bool) (x : KBucketEntry) (es : List KBucketEntry)
    → find_any p es ≡ some x
    → length (remove x es) < length es
unfolding find_any remove
length-remove_found p x [] h = cc
length-remove_found p x (e ∷ es) h = elim (Bool-cases (p e)) [
  | inl hit ↦
      let same : e ≡ x = ground arith in
      ground (arith, length-remove x es, ap (λ (k : KBucketEntry). k.ptr) same)
  | inr miss ↦
      let rest : find_any p es ≡ some x = ground arith in
      ground (arith, length-remove_found p x es rest)
]

length-remove-youngest :
    (x : KBucketEntry) (es : List KBucketEntry)
    → youngest es ≡ some x
    → length (remove x es) < length es
unfolding youngest remove
length-remove-youngest x [] h = cc
length-remove-youngest x (e ∷ es) h = elim (Option-cases (youngest es)) [
  | inl gone ↦
      let same : e ≡ x = ground arith in
      ground (arith, length-remove x es, ap (λ (k : KBucketEntry). k.ptr) same)
  | inr (y, found) ↦
      let rest : youngest es ≡ some x = ground arith in
      ground (arith, length-remove-youngest x es rest)
]

length-insert_by_creation :
    (x : KBucketEntry) (es : List KBucketEntry) → length (insert_by_creation x es) ≡ length es + 1
unfolding insert_by_creation
length-insert_by_creation x [] = refl
length-insert_by_creation x (e ∷ es) = ground (arith, length-insert_by_creation x es)

length-sort_by_creation : (es : List KBucketEntry) → length (sort_by_creation es) ≡ length es
unfolding sort_by_creation
length-sort_by_creation [] = refl
length-sort_by_creation (e ∷ es) =
    omega (arith, length-insert_by_creation e (sort_by_creation es), length-sort_by_creation es)

length-insert_entry :
    (x : KBucketEntry) (es : List KBucketEntry)
    → length es < max_entries_per_bucket
    → length (insert_entry x es).0 ≡ length es + 1
unfolding insert_entry
length-insert_entry x es h =
    ground (arith, length-append es (x ∷ []), length-sort_by_creation (es ++ x ∷ []))

-- An insertion that makes room first, or finds room, does not overfill the bucket.
length-update :
    (x : KBucketEntry) (es : List KBucketEntry)
    → length es < max_entries_per_bucket
    → length (update none (some x) es) ≤ max_entries_per_bucket
unfolding update
length-update x es h = ground (arith, length-insert_entry x es h)

length-replace :
    (r x : KBucketEntry) (es : List KBucketEntry)
    → length es ≤ max_entries_per_bucket
    → length (remove r es) < length es
    → length (update (some r) (some x) es) ≤ max_entries_per_bucket
unfolding update
length-replace r x es h k = ground (arith, length-insert_entry x (remove r es) (omega arith))

length-put_new :
    (now : ℕ) (x : KBucketEntry) (es : List KBucketEntry)
    → length es ≤ max_entries_per_bucket
    → length (put_new now x es) ≤ max_entries_per_bucket
unfolding put_new
length-put_new now x es h = elim (Option-cases (find_any (needs_replacement now) es)) [
  | inr (bad, found) ↦ ground (
    arith,
    length-update x es,
    length-replace bad x es h (length-remove_found (needs_replacement now) bad es found),
  )
  | inl good ↦ elim (Option-cases (youngest es)) [
    | inl gone ↦ ground (arith, length-update x es)
    | inr (y, found) ↦
        ground
          (arith, length-update x es, length-replace y x es h (length-remove-youngest y es found))
  ]
]

length-find_existing :
    (x : KBucketEntry) (es es' : List KBucketEntry)
    → find_existing x es ≡ some es'
    → length es' ≡ length es
unfolding find_existing
length-find_existing x [] es' h = cc
length-find_existing x (e ∷ es) es' h = elim (Option-cases (find_existing x es)) [
  | inl gone ↦ ground arith
  | inr (r, found) ↦ ground (arith, length-find_existing x es r found)
]

pub length-put :
    (now : ℕ) (o : Option KBucketEntry) (es : List KBucketEntry)
    → length es ≤ max_entries_per_bucket
    → length (put now o es) ≤ max_entries_per_bucket
unfolding put
length-put now none es h = h
length-put now (some x) es h = elim (Option-cases (find_existing x es)) [
  | inl gone ↦ ground (arith, length-put_new now x es h)
  | inr (es', found) ↦ ground (arith, length-find_existing x es es' found)
]

pub length-remove_if_bad :
    (now : ℕ) (x : KBucketEntry) (force : Bool) (es : List KBucketEntry)
    → length (remove_if_bad now x force es) ≤ length es
unfolding remove_if_bad update
length-remove_if_bad now x force es = ground (arith, length-remove x es)

pub length-on_timeout :
    (now : ℕ) (id : NodeId) (es : List KBucketEntry) → length (on_timeout now id es) ≤ length es
unfolding on_timeout
length-on_timeout now id es =
    let es' = change_first (λ e. id_eq e.id id) signal_request_timeout es in
    let same : length es' ≡ length es =
      length-change_first (λ e. id_eq e.id id) signal_request_timeout es in
    elim (Option-cases (find_any (λ e. id_eq e.id id) es')) [
      | inl gone ↦ ground arith
      | inr (e, found) ↦ ground (arith, length-remove_if_bad now e false es')
    ]

pub is_full-room : (b : KBucket) → length b.entries < max_entries_per_bucket → is_full b ≡ false
unfolding is_full
is_full-room b h = ground arith
