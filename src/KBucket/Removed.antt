-- ===== src/KBucket/Removed.antt =====
-- An entry that is removed is not found any more.
use boson_native.Prelude.{
  ℕ, true, false, none, some, List, [], ◌∷◌, All, ◌==◌, ==_iff, ◌≡◌, refl, sym, ap, subst, ◌∙◌,
  arith, Bool-cases, inl, inr,
}
use boson_native.Id.{NodeId, IsId, id_eq}
use boson_native.Id.Order.{compare_to-eq}
use boson_native.KBucketEntry.{KBucketEntry, matches}
use boson_native.KBucketEntry.Matching.{id_eq_comm}
use boson_native.KBucket.{find_any, any_match, remove, update, remove_if_bad}
use boson_native.KBucket.Apart.{IsApart, ApartFrom}

abbrev Without : NodeId → List KBucketEntry → Type 0
Without id es = find_any (λ e. id_eq e.id id) es ≡ none

same_id : (a b : NodeId) → IsId a → IsId b → id_eq a b ≡ true → a ≡ b
same_id a b ha hb e = compare_to-eq a b (ha.size ∙ sym hb.size) (ground (arith, e))

ApartFrom-Without : (x : KBucketEntry) (es : List KBucketEntry) → ApartFrom x es → Without x.id es
unfolding find_any matches
ApartFrom-Without x [] h = refl
ApartFrom-Without x (e ∷ es) h =
    let apart : id_eq x.id e.id ≡ false = ground (arith, h.0) in
    let miss : id_eq e.id x.id ≡ false = id_eq_comm e.id x.id ∙ apart in
    rw miss (ApartFrom-Without x es h.1)

remove-Without :
    (r : KBucketEntry) (id : NodeId) (es : List KBucketEntry)
    → Without id es
    → Without id (remove r es)
unfolding find_any remove
remove-Without r id [] h = refl
remove-Without r id (e ∷ es) h = elim (Bool-cases (id_eq e.id id)) [
  | inl hit ↦ ground arith
  | inr miss ↦
      let rest : find_any (λ e. id_eq e.id id) es ≡ none = ground arith in
      elim (Bool-cases (e.ptr == r.ptr)) [
        | inl same ↦ rw same (remove-Without r id es rest)
        | inr other ↦ rw (other, miss) (remove-Without r id es rest)
      ]
]

remove-found :
    (x : KBucketEntry) (id : NodeId) (es : List KBucketEntry)
    → IsId id
    → All (λ e. IsId e.id) es
    → IsApart es
    → find_any (λ e. id_eq e.id id) es ≡ some x
    → Without id (remove x es)
unfolding find_any remove
remove-found x id [] k a h e = cc
remove-found x id (y ∷ es) k a h e = elim (Bool-cases (id_eq y.id id)) [
  | inl hit ↦
      let same : y ≡ x = ground arith in
      let ptr : (y.ptr == x.ptr) ≡ true =
        (==_iff y.ptr x.ptr).1 (ap (λ (e : KBucketEntry). e.ptr) same) in
      let named = same_id y.id id a.0 k hit in
      rw ptr (remove-Without x id es (subst (λ i. Without i es) named (ApartFrom-Without y es h.0)))
  | inr miss ↦
      let later : find_any (λ e. id_eq e.id id) es ≡ some x = ground arith in
      let rest = remove-found x id es k a.1 h.1 later in
      elim (Bool-cases (y.ptr == x.ptr)) [
        | inl same ↦ rw same rest
        | inr other ↦ rw (other, miss) rest
      ]
]

found_id :
    (x : KBucketEntry) (id : NodeId) (es : List KBucketEntry)
    → find_any (λ e. id_eq e.id id) es ≡ some x
    → All (λ e. IsId e.id) es
    → IsId id
    → x.id ≡ id
unfolding find_any
found_id x id [] e a k = cc
found_id x id (y ∷ es) e a k = elim (Bool-cases (id_eq y.id id)) [
  | inl hit ↦
      let same : y ≡ x = ground arith in
      ap (λ (e : KBucketEntry). e.id) (sym same) ∙ same_id y.id id a.0 k hit
  | inr miss ↦
      let later : find_any (λ e. id_eq e.id id) es ≡ some x = ground arith in
      found_id x id es later a.1 k
]

-- `_removeIfBad` by force of the entry that is found for an id.
pub remove_if_bad-found :
    (now : ℕ) (x : KBucketEntry) (id : NodeId) (es : List KBucketEntry)
    → IsId id
    → All (λ e. IsId e.id) es
    → IsApart es
    → find_any (λ e. id_eq e.id id) es ≡ some x
    → find_any (λ e. id_eq e.id id) (remove_if_bad now x true es) ≡ none
unfolding remove_if_bad update any_match
remove_if_bad-found now x id es k a h e =
    let named = found_id x id es e a k in
    let own : find_any (λ e. id_eq e.id x.id) es ≡ some x =
      subst (λ i. find_any (λ e. id_eq e.id i) es ≡ some x) (sym named) e in
    rw (remove_if_bad, any_match, own) (remove-found x id es k a h e)
