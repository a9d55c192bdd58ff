-- ===== src/KBucket/Sorted.antt =====
-- The order of a bucket by creation time.
use boson_native.Prelude.{
  ℕ, ◌≤◌, Option, none, some, List, [], ◌∷◌, ◌++◌, All, ltb, ◌==◌, ◌≡◌, ◌≢◌, ap, refl, inl, inr,
  arith, Bool-cases, Option-cases,
}
use boson_native.KBucketEntry.{KBucketEntry}
use boson_native.KBucket.{
  remove, youngest, insert_by_creation, sort_by_creation, insert_entry, update,
}

abbrev pub NotYounger : ℕ → List KBucketEntry → Type 0
NotYounger t es = All (λ e. t ≤ e.created) es

abbrev pub IsSorted : List KBucketEntry → Type 0
IsSorted [] = Unit
IsSorted (e ∷ es) = NotYounger e.created es × IsSorted es

weaken : (s t : ℕ) (es : List KBucketEntry) → s ≤ t → NotYounger t es → NotYounger s es
weaken s t [] h k = tt
weaken s t (e ∷ es) h k = (omega (arith, k.0), weaken s t es h k.1)

insert-NotYounger :
    (t : ℕ) (x : KBucketEntry) (es : List KBucketEntry)
    → t ≤ x.created
    → NotYounger t es
    → NotYounger t (insert_by_creation x es)
unfolding insert_by_creation
insert-NotYounger t x [] h k = (h, tt)
insert-NotYounger t x (e ∷ es) h k = elim (Bool-cases (ltb e.created x.created)) [
  | inl hit ↦ rw hit (k.0, insert-NotYounger t x es h k.1)
  | inr miss ↦ rw miss (h, k)
]

insert-IsSorted :
    (x : KBucketEntry) (es : List KBucketEntry) → IsSorted es → IsSorted (insert_by_creation x es)
unfolding insert_by_creation
insert-IsSorted x [] h = (tt, tt)
insert-IsSorted x (e ∷ es) h = elim (Bool-cases (ltb e.created x.created)) [
  | inl hit ↦
      let less : e.created ≤ x.created = ground arith in
      rw hit (insert-NotYounger e.created x es less h.0, insert-IsSorted x es h.1)
  | inr miss ↦
      let more : x.created ≤ e.created = ground arith in
      rw miss ((more, weaken x.created e.created es more h.0), h)
]

sort-IsSorted : (es : List KBucketEntry) → IsSorted (sort_by_creation es)
unfolding sort_by_creation
sort-IsSorted [] = tt
sort-IsSorted (e ∷ es) = insert-IsSorted e (sort_by_creation es) (sort-IsSorted es)

remove-NotYounger :
    (t : ℕ) (x : KBucketEntry) (es : List KBucketEntry)
    → NotYounger t es
    → NotYounger t (remove x es)
unfolding remove
remove-NotYounger t x [] h = tt
remove-NotYounger t x (e ∷ es) h = elim (Bool-cases (e.ptr == x.ptr)) [
  | inl hit ↦ rw hit (remove-NotYounger t x es h.1)
  | inr miss ↦ rw miss (h.0, remove-NotYounger t x es h.1)
]

remove-IsSorted : (x : KBucketEntry) (es : List KBucketEntry) → IsSorted es → IsSorted (remove x es)
unfolding remove
remove-IsSorted x [] h = tt
remove-IsSorted x (e ∷ es) h = elim (Bool-cases (e.ptr == x.ptr)) [
  | inl hit ↦ rw hit (remove-IsSorted x es h.1)
  | inr miss ↦ rw miss (remove-NotYounger e.created x es h.0, remove-IsSorted x es h.1)
]

-- In a sorted list the last entry is the youngest.
youngest-last :
    (t : ℕ) (y : KBucketEntry) (es : List KBucketEntry)
    → youngest es ≡ some y
    → NotYounger t es
    → t ≤ y.created
unfolding youngest
youngest-last t y [] h k = cc
youngest-last t y (e ∷ es) h k = elim (Option-cases (youngest es)) [
  | inl gone ↦
      let same : e ≡ y = ground arith in
      omega (arith, k.0, ap (λ (v : KBucketEntry). v.created) same)
  | inr (z, found) ↦ youngest-last t y es (ground arith) k.1
]

append-NotYounger :
    (t : ℕ) (x : KBucketEntry) (es : List KBucketEntry)
    → t ≤ x.created
    → NotYounger t es
    → NotYounger t (es ++ x ∷ [])
append-NotYounger t x [] h k = (h, tt)
append-NotYounger t x (e ∷ es) h k = (k.0, append-NotYounger t x es h k.1)

youngest-none : (es : List KBucketEntry) → youngest es ≡ none → es ≡ []
unfolding youngest
youngest-none [] h = refl
youngest-none (e ∷ es) h = elim (Option-cases (youngest es)) [
  | inl gone ↦ absurd (ground arith)
  | inr (z, found) ↦ absurd (ground arith)
]

append-IsSorted :
    (x y : KBucketEntry) (es : List KBucketEntry)
    → youngest es ≡ some y
    → y.created ≤ x.created
    → IsSorted es
    → IsSorted (es ++ x ∷ [])
unfolding youngest
append-IsSorted x y [] h k s = cc
append-IsSorted x y (e ∷ es) h k s = elim (Option-cases (youngest es)) [
  | inl gone ↦
      let same : e ≡ y = ground arith in
      let less : e.created ≤ x.created =
        omega (arith, k, ap (λ (v : KBucketEntry). v.created) same) in
      (append-NotYounger e.created x es less s.0, rw (youngest-none es gone) (tt, tt))
  | inr (z, found) ↦
      let rest : youngest es ≡ some y = ground arith in
      let old = youngest-last e.created y es rest s.0 in
      (append-NotYounger e.created x es (omega arith) s.0, append-IsSorted x y es rest k s.1)
]

cons-nil : (e : KBucketEntry) (es : List KBucketEntry) → e ∷ es ≢ []
cons-nil e es h = cc

insert_entry-IsSorted :
    (x : KBucketEntry) (es : List KBucketEntry) → IsSorted es → IsSorted (insert_entry x es).0
unfolding insert_entry
insert_entry-IsSorted x [] h = unfold youngest in (tt, tt)
insert_entry-IsSorted x (e ∷ es) h = elim (Option-cases (youngest (e ∷ es))) [
  | inl gone ↦ absurd (cons-nil e es (youngest-none (e ∷ es) gone))
  | inr (y, found) ↦ elim (Bool-cases (ltb x.created y.created)) [
    | inl older ↦ ground (arith, found, sort-IsSorted (e ∷ es ++ x ∷ []), older)
    | inr younger ↦
        let kept : IsSorted (e ∷ es ++ x ∷ []) =
          append-IsSorted x y (e ∷ es) found (ground arith) h in
        ground (arith, found, younger, h, kept)
  ]
]

-- Whatever `_update` removes and inserts, a bucket that is sorted by creation time stays sorted.
pub update-IsSorted :
    (o n : Option KBucketEntry) (es : List KBucketEntry) → IsSorted es → IsSorted (update o n es)
unfolding update
update-IsSorted none none es h = h
update-IsSorted (some r) none es h = remove-IsSorted r es h
update-IsSorted none (some x) es h = ground (arith, h, insert_entry-IsSorted x es h)
update-IsSorted (some r) (some x) es h =
    ground (arith, h, insert_entry-IsSorted x (remove r es) (remove-IsSorted r es h))
