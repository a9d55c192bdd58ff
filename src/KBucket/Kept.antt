-- ===== src/KBucket/Kept.antt =====
-- What `_put` keeps and adds.
use boson_native.Prelude.{
  ℕ, ◌<◌, true, false, none, some, List, [], ◌∷◌, ◌++◌, length, ltb, ◌≡◌, ◌⊎◌, refl, ap, ◌∙◌, inl,
  inr, arith, Bool-cases,
}
use boson_native.Id.{id_eq}
use boson_native.Id.Order.{compare_to_self}
use boson_native.KBucketEntry.{KBucketEntry, matches}
use boson_native.KBucketEntry.Matching.{matches_comm, equals-matches}
use boson_native.KBucket.{
  find_any, any_match, insert_by_creation, sort_by_creation, insert_entry, update, find_existing,
  put_new, put, get, KBucket, max_entries_per_bucket,
}
use boson_native.KBucket.Apart.{ApartFrom, IsApart}

abbrev pub Contains : KBucketEntry → List KBucketEntry → Type 0
Contains x [] = ⊥
Contains x (e ∷ es) = (x ≡ e) ⊎ Contains x es

append-Contains :
    (x y : KBucketEntry) (es : List KBucketEntry)
    → (x ≡ y) ⊎ Contains x es
    → Contains x (es ++ y ∷ [])
append-Contains x y [] (inl e) = inl e
append-Contains x y [] (inr h) = elim h [ ]
append-Contains x y (e ∷ es) (inl h) = inr (append-Contains x y es (inl h))
append-Contains x y (e ∷ es) (inr (inl h)) = inl h
append-Contains x y (e ∷ es) (inr (inr h)) = inr (append-Contains x y es (inr h))

insert-Contains :
    (x y : KBucketEntry) (es : List KBucketEntry)
    → (x ≡ y) ⊎ Contains x es
    → Contains x (insert_by_creation y es)
unfolding insert_by_creation
insert-Contains x y [] h = h
insert-Contains x y (e ∷ es) h = elim (Bool-cases (ltb e.created y.created)) [
  | inl hit ↦ rw hit (elim h [
    | inl same ↦ inr (insert-Contains x y es (inl same))
    | inr (inl here) ↦ inl here
    | inr (inr there) ↦ inr (insert-Contains x y es (inr there))
  ])
  | inr miss ↦ rw miss h
]

sort-Contains :
    (x : KBucketEntry) (es : List KBucketEntry) → Contains x es → Contains x (sort_by_creation es)
unfolding sort_by_creation
sort-Contains x [] h = h
sort-Contains x (e ∷ es) (inl h) = insert-Contains x e (sort_by_creation es) (inl h)
sort-Contains x (e ∷ es) (inr h) =
    insert-Contains x e (sort_by_creation es) (inr (sort-Contains x es h))

find_existing-ApartFrom :
    (x : KBucketEntry) (es : List KBucketEntry) → ApartFrom x es → find_existing x es ≡ none
unfolding find_existing
find_existing-ApartFrom x [] h = refl
find_existing-ApartFrom x (e ∷ es) h =
    let apart : matches e x ≡ false = matches_comm e x ∙ h.0 in
    ground (arith, apart, equals-matches e x apart, find_existing-ApartFrom x es h.1)

any_match-ApartFrom :
    (x : KBucketEntry) (es : List KBucketEntry) → ApartFrom x es → any_match (matches x) es ≡ false
unfolding any_match find_any
any_match-ApartFrom x [] h = refl
any_match-ApartFrom x (e ∷ es) h = ground (arith, h.0, any_match-ApartFrom x es h.1)

-- In a bucket with room, a reachable entry that shares no id and no address with another is added,
-- and no entry is lost.
pub put-Contains :
    (now : ℕ) (x y : KBucketEntry) (es : List KBucketEntry)
    → x.reachable ≡ true
    → length es < max_entries_per_bucket
    → ApartFrom x es
    → (y ≡ x) ⊎ Contains y es
    → Contains y (put now (some x) es)
unfolding put put_new update insert_entry
put-Contains now x y es r h k c =
    let new = find_existing-ApartFrom x es k in
    let free = any_match-ApartFrom x es k in
    let added : Contains y (es ++ x ∷ []) = append-Contains y x es c in
    let sorted = sort-Contains y (es ++ x ∷ []) added in ground arith

ApartFrom-Contains :
    (x y : KBucketEntry) (es : List KBucketEntry)
    → ApartFrom y es
    → Contains x es
    → matches y x ≡ false
ApartFrom-Contains x y [] h c = elim c [ ]
ApartFrom-Contains x y (e ∷ es) h (inl same) = ap (matches y) same ∙ h.0
ApartFrom-Contains x y (e ∷ es) h (inr c) = ApartFrom-Contains x y es h.1 c

find-Contains :
    (x : KBucketEntry) (es : List KBucketEntry)
    → IsApart es
    → Contains x es
    → find_any (λ e. id_eq e.id x.id) es ≡ some x
unfolding find_any matches
find-Contains x [] h c = elim c [ ]
find-Contains x (e ∷ es) h (inl same) =
    let own = compare_to_self x.id in
    let also = ap (λ (k : KBucketEntry). k.id) same in rw (← same) (ground (arith, own))
find-Contains x (e ∷ es) h (inr c) =
    let other = ApartFrom-Contains x e es h.0 c in
    let rest = find-Contains x es h.1 c in
    let miss : id_eq e.id x.id ≡ false = ground (arith, other) in rw miss rest

-- An entry of a bucket is found by its id.
pub get-Contains :
    (x : KBucketEntry) (b : KBucket)
    → IsApart b.entries
    → Contains x b.entries
    → get x.id b ≡ some x
unfolding get
get-Contains x b h c = find-Contains x b.entries h c
