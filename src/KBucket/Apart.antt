-- ===== src/KBucket/Apart.antt =====
-- No two entries of a bucket share their id or their address.
use boson_native.Prelude.{
  ℕ, Bool, false, Option, none, some, List, [], ◌∷◌, ◌++◌, All, ltb, ◌==◌, ◌≡◌, ◌⊎◌, sym, ◌∙◌, inl,
  inr, arith, Bool-cases, Option-cases,
}
use boson_native.Id.{NodeId, id_eq}
use boson_native.KBucketEntry.{
  KBucketEntry, matches, equals, merge, needs_replacement, signal_request_timeout,
}
use boson_native.KBucketEntry.Matching.{
  SameKey, matches_comm, matches-SameKey, merge-SameKey, signal_request_timeout-SameKey,
}
use boson_native.KBucket.{
  find_any, any_match, change_first, remove, youngest, insert_by_creation, sort_by_creation,
  insert_entry, update, find_existing, put_new, put, remove_if_bad, on_timeout,
}

abbrev pub ApartFrom : KBucketEntry → List KBucketEntry → Type 0
ApartFrom x es = All (λ e. matches x e ≡ false) es

abbrev pub IsApart : List KBucketEntry → Type 0
IsApart [] = Unit
IsApart (e ∷ es) = ApartFrom e es × IsApart es

any_match-ApartFrom :
    (x : KBucketEntry) (es : List KBucketEntry) → any_match (matches x) es ≡ false → ApartFrom x es
unfolding any_match find_any
any_match-ApartFrom x [] h = tt
any_match-ApartFrom x (e ∷ es) h = (ground arith, any_match-ApartFrom x es (ground arith))

remove-ApartFrom :
    (x r : KBucketEntry) (es : List KBucketEntry) → ApartFrom x es → ApartFrom x (remove r es)
unfolding remove
remove-ApartFrom x r [] h = tt
remove-ApartFrom x r (e ∷ es) h = elim (Bool-cases (e.ptr == r.ptr)) [
  | inl hit ↦ rw hit (remove-ApartFrom x r es h.1)
  | inr miss ↦ rw miss (h.0, remove-ApartFrom x r es h.1)
]

remove-IsApart : (r : KBucketEntry) (es : List KBucketEntry) → IsApart es → IsApart (remove r es)
unfolding remove
remove-IsApart r [] h = tt
remove-IsApart r (e ∷ es) h = elim (Bool-cases (e.ptr == r.ptr)) [
  | inl hit ↦ rw hit (remove-IsApart r es h.1)
  | inr miss ↦ rw miss (remove-ApartFrom e r es h.0, remove-IsApart r es h.1)
]

append-ApartFrom :
    (x y : KBucketEntry) (es : List KBucketEntry)
    → ApartFrom x es
    → matches x y ≡ false
    → ApartFrom x (es ++ y ∷ [])
append-ApartFrom x y [] h k = (k, tt)
append-ApartFrom x y (e ∷ es) h k = (h.0, append-ApartFrom x y es h.1 k)

append-IsApart :
    (x : KBucketEntry) (es : List KBucketEntry)
    → ApartFrom x es
    → IsApart es
    → IsApart (es ++ x ∷ [])
append-IsApart x [] h k = (tt, tt)
append-IsApart x (e ∷ es) h k =
    (append-ApartFrom e x es k.0 (matches_comm e x ∙ h.0), append-IsApart x es h.1 k.1)

insert-ApartFrom :
    (x y : KBucketEntry) (es : List KBucketEntry)
    → matches x y ≡ false
    → ApartFrom x es
    → ApartFrom x (insert_by_creation y es)
unfolding insert_by_creation
insert-ApartFrom x y [] h k = (h, tt)
insert-ApartFrom x y (e ∷ es) h k = elim (Bool-cases (ltb e.created y.created)) [
  | inl hit ↦ rw hit (k.0, insert-ApartFrom x y es h k.1)
  | inr miss ↦ rw miss (h, k)
]

insert-IsApart :
    (x : KBucketEntry) (es : List KBucketEntry)
    → ApartFrom x es
    → IsApart es
    → IsApart (insert_by_creation x es)
unfolding insert_by_creation
insert-IsApart x [] h k = (tt, tt)
insert-IsApart x (e ∷ es) h k = elim (Bool-cases (ltb e.created x.created)) [
  | inl hit ↦
      rw hit (insert-ApartFrom e x es (matches_comm e x ∙ h.0) k.0, insert-IsApart x es h.1 k.1)
  | inr miss ↦ rw miss (h, k)
]

sort-ApartFrom :
    (x : KBucketEntry) (es : List KBucketEntry) → ApartFrom x es → ApartFrom x (sort_by_creation es)
unfolding sort_by_creation
sort-ApartFrom x [] h = tt
sort-ApartFrom x (e ∷ es) h =
    insert-ApartFrom x e (sort_by_creation es) h.0 (sort-ApartFrom x es h.1)

sort-IsApart : (es : List KBucketEntry) → IsApart es → IsApart (sort_by_creation es)
unfolding sort_by_creation
sort-IsApart [] h = tt
sort-IsApart (e ∷ es) h =
    insert-IsApart e (sort_by_creation es) (sort-ApartFrom e es h.0) (sort-IsApart es h.1)

insert_entry-IsApart :
    (x : KBucketEntry) (es : List KBucketEntry)
    → ApartFrom x es
    → IsApart es
    → IsApart (insert_entry x es).0
unfolding insert_entry
insert_entry-IsApart x es h k =
    let appended : IsApart (es ++ x ∷ []) = append-IsApart x es h k in
    ground (arith, k, appended, sort-IsApart (es ++ x ∷ []) appended)

-- Whatever is removed and inserted, entries stay apart.
pub update-IsApart :
    (o n : Option KBucketEntry) (es : List KBucketEntry) → IsApart es → IsApart (update o n es)
unfolding update
update-IsApart none none es h = h
update-IsApart (some r) none es h = remove-IsApart r es h
update-IsApart none (some x) es h = elim (Bool-cases (any_match (matches x) es)) [
  | inl found ↦ ground (arith, h, found)
  | inr free ↦ rw free (insert_entry-IsApart x es (any_match-ApartFrom x es free) h)
]
update-IsApart (some r) (some x) es h = elim (Bool-cases (any_match (matches x) es)) [
  | inl found ↦ ground (arith, h, found)
  | inr free ↦ rw free (
      insert_entry-IsApart x (remove r es) (remove-ApartFrom x r es (any_match-ApartFrom x es free))
        (remove-IsApart r es h))
]

change_first-ApartFrom :
    (x : KBucketEntry) (p : KBucketEntry → Bool) (f : KBucketEntry → KBucketEntry)
    → ((e : KBucketEntry) → SameKey e (f e))
    → (es : List KBucketEntry) → ApartFrom x es
    → ApartFrom x (change_first p f es)
unfolding change_first
change_first-ApartFrom x p f k [] h = tt
change_first-ApartFrom x p f k (e ∷ es) h = elim (Bool-cases (p e)) [
  | inl hit ↦ rw hit (sym (matches-SameKey x e (f e) (k e)) ∙ h.0, h.1)
  | inr miss ↦ rw miss (h.0, change_first-ApartFrom x p f k es h.1)
]

SameKey-ApartFrom :
    (x y : KBucketEntry) (es : List KBucketEntry) → SameKey x y → ApartFrom x es → ApartFrom y es
SameKey-ApartFrom x y [] k h = tt
SameKey-ApartFrom x y (e ∷ es) k h = (
  matches_comm y e ∙ sym (matches-SameKey e x y k) ∙ matches_comm e x ∙ h.0,
  SameKey-ApartFrom x y es k h.1,
)

-- A change that keeps the id and the address keeps the entries apart.
pub change_first-IsApart :
    (p : KBucketEntry → Bool) (f : KBucketEntry → KBucketEntry)
    → ((e : KBucketEntry) → SameKey e (f e))
    → (es : List KBucketEntry) → IsApart es
    → IsApart (change_first p f es)
unfolding change_first
change_first-IsApart p f k [] h = tt
change_first-IsApart p f k (e ∷ es) h = elim (Bool-cases (p e)) [
  | inl hit ↦ rw hit (SameKey-ApartFrom e (f e) es (k e) h.0, h.1)
  | inr miss ↦ rw miss (change_first-ApartFrom e p f k es h.0, change_first-IsApart p f k es h.1)
]

pub find_existing-change :
    (x : KBucketEntry) (es es' : List KBucketEntry)
    → find_existing x es ≡ some es'
    → (es' ≡ change_first (λ e. equals e x) (λ e. merge e x) es) ⊎ (es' ≡ es)
unfolding find_existing change_first
find_existing-change x [] es' h = cc
find_existing-change x (e ∷ es) es' h = elim (Option-cases (find_existing x es)) [
  | inl gone ↦ ground arith
  | inr (r, found) ↦ ground (arith, find_existing-change x es r found)
]

put_new-IsApart :
    (now : ℕ) (x : KBucketEntry) (es : List KBucketEntry) → IsApart es → IsApart (put_new now x es)
unfolding put_new
put_new-IsApart now x es h = elim (Option-cases (find_any (needs_replacement now) es)) [
  | inr (bad, found) ↦
      ground (arith, h, update-IsApart none (some x) es h, update-IsApart (some bad) (some x) es h)
  | inl good ↦ elim (Option-cases (youngest es)) [
    | inl gone ↦ ground (arith, h, update-IsApart none (some x) es h)
    | inr (y, found) ↦
        ground (arith, h, update-IsApart none (some x) es h, update-IsApart (some y) (some x) es h)
  ]
]

pub put-IsApart :
    (now : ℕ) (o : Option KBucketEntry) (es : List KBucketEntry)
    → IsApart es
    → IsApart (put now o es)
unfolding put
put-IsApart now none es h = h
put-IsApart now (some x) es h = elim (Option-cases (find_existing x es)) [
  | inl gone ↦ ground (arith, h, put_new-IsApart now x es h)
  | inr (es', found) ↦ ground (
    arith,
    h,
    find_existing-change x es es' found,
    change_first-IsApart (λ e. equals e x) (λ e. merge e x) (λ e. merge-SameKey e x) es h,
  )
]

pub remove_if_bad-IsApart :
    (now : ℕ) (x : KBucketEntry) (force : Bool) (es : List KBucketEntry)
    → IsApart es
    → IsApart (remove_if_bad now x force es)
unfolding remove_if_bad
remove_if_bad-IsApart now x force es h = ground (arith, h, update-IsApart (some x) none es h)

pub on_timeout-IsApart :
    (now : ℕ) (id : NodeId) (es : List KBucketEntry) → IsApart es → IsApart (on_timeout now id es)
unfolding on_timeout
on_timeout-IsApart now id es h =
    let es' = change_first (λ e. id_eq e.id id) signal_request_timeout es in
    let h' : IsApart es' =
      change_first-IsApart (λ e. id_eq e.id id) signal_request_timeout
        signal_request_timeout-SameKey es h in
    elim (Option-cases (find_any (λ e. id_eq e.id id) es')) [
      | inl gone ↦ ground (arith, h')
      | inr (e, found) ↦ ground (arith, remove_if_bad-IsApart now e false es' h')
    ]
