-- ===== src/Candidates/Sorted.antt =====
-- The front of the candidates sorted as `next` sorts them.
use boson_native.Prelude.{
  Bool, true, false, List, [], ◌∷◌, All, ◌≡◌, refl, ap, arith, Bool-cases, List-cases, inl, inr,
}
use boson_native.Id.{NodeId, IsId, three_way_compare}
use boson_native.Id.Order.{flip}
use boson_native.Id.Closer.{three_way_compare-eq, three_way_compare-flip, three_way_compare_trans}
use boson_native.Candidates.{
  CandidateNode, insert, sort, filter, candidate_order, is_lt, ordered_before,
}

-- If `y` is not before `h`, and `h` not before `e`, then `y` is not before `e`.
three_way_between :
    (t e h y : NodeId)
    → IsId t
    → IsId e
    → IsId h
    → IsId y
    → is_lt (three_way_compare t y h) ≡ false
    → is_lt (three_way_compare t h e) ≡ false
    → is_lt (three_way_compare t y e) ≡ false
three_way_between t e h y ht he hh hy p q = ground (
  arith,
  three_way_compare-eq t y h ht hy hh,
  three_way_compare-eq t h e ht hh he,
  three_way_compare-eq t y e ht hy he,
  flip_at y h hy hh,
  flip_at h e hh he,
  flip_at y e hy he,
  three_way_compare_trans t e h y ht he hh hy,
  three_way_compare_trans t y e h ht hy he hh,
  ap (three_way_compare t y),
)
  where
    flip_at :
        (a b : NodeId) → IsId a → IsId b → three_way_compare t a b ≡ flip (three_way_compare t b a)
    flip_at a b ha hb =
        three_way_compare-flip t a b (omega (arith, ha.size, ht.size))
          (omega (arith, hb.size, ht.size))

abbrev pub HasId : CandidateNode → Type 0
HasId c = IsId c.id

ordered_between :
    (t : NodeId) (e h y : CandidateNode)
    → IsId t
    → HasId e
    → HasId h
    → HasId y
    → ordered_before t y h ≡ false
    → ordered_before t h e ≡ false
    → ordered_before t y e ≡ false
unfolding ordered_before candidate_order
ordered_between t e h y ht he hh hy p q =
    ground (arith, three_way_between t e.id h.id y.id ht he hh hy)

ordered_asym :
    (t : NodeId) (a b : CandidateNode)
    → IsId t
    → HasId a
    → HasId b
    → ordered_before t a b ≡ true
    → ordered_before t b a ≡ false
unfolding ordered_before candidate_order
ordered_asym t a b ht ha hb h = ground (
  arith,
  three_way_compare-flip t a.id b.id (omega (arith, ha.size, ht.size))
      (omega (arith, hb.size, ht.size)),
)

-- No element is before `c`.
abbrev pub IsFirst : NodeId → CandidateNode → List CandidateNode → Type 0
IsFirst t c cs = All (λ d. ordered_before t d c ≡ false) cs

IsFirst-between :
    (t : NodeId) (e h : CandidateNode) (cs : List CandidateNode)
    → IsId t
    → HasId e
    → HasId h
    → All HasId cs
    → IsFirst t h cs
    → ordered_before t h e ≡ false
    → IsFirst t e cs
IsFirst-between t e h [] ht he hh ids f q = tt
IsFirst-between t e h (c ∷ cs) ht he hh ids f q =
    (ordered_between t e h c ht he hh ids.0 f.0 q, IsFirst-between t e h cs ht he hh ids.1 f.1 q)

-- The front of a sorted list, when there is one.
pub record Chosen (t : NodeId) (cs : List CandidateNode) (c : CandidateNode) : Type 0 where
  pub has_id : HasId c
  pub first : IsFirst t c cs

ordered_self : (t : NodeId) (a : CandidateNode) → IsId t → HasId a → ordered_before t a a ≡ false
ordered_self t a ht ha = elim (Bool-cases (ordered_before t a a)) [
  | inl before ↦ ordered_asym t a a ht ha ha before
  | inr after ↦ after
]

pub sort-nil : (t : NodeId) (cs : List CandidateNode) → sort (ordered_before t) cs ≡ [] → cs ≡ []
unfolding sort insert
sort-nil t [] e = refl
sort-nil t (c ∷ cs) e = elim (List-cases (sort (ordered_before t) cs)) [
  | inl gone ↦ absurd (ground arith)
  | inr (h, more, found) ↦ absurd (ground arith)
]

pub sort-Chosen :
    (t : NodeId) (cs rest : List CandidateNode) (c : CandidateNode)
    → IsId t
    → All HasId cs
    → sort (ordered_before t) cs ≡ c ∷ rest
    → Chosen t cs c
unfolding sort insert
sort-Chosen t [] rest c ht ids e = cc
sort-Chosen t (x ∷ cs) rest c ht ids e = elim (List-cases (sort (ordered_before t) cs)) [
  | inl gone ↦
      let same : x ≡ c = ground arith in
      let none_left : cs ≡ [] = sort-nil t cs gone in
      rw (← same, none_left) (record { has_id = ids.0; first = (ordered_self t x ht ids.0, tt) })
  | inr (h, more, found) ↦
      let old = sort-Chosen t cs more h ht ids.1 found in
      elim (Bool-cases (ordered_before t h x)) [
        | inl before ↦
            let same : h ≡ c = ground arith in
            rw (← same) (record {
              has_id = old.has_id;
              first = (ordered_asym t h x ht old.has_id ids.0 before, old.first);
            })
        | inr after ↦
            let same : x ≡ c = ground arith in
            rw (← same) (record {
              has_id = ids.0;
              first = (
                ordered_self t x ht ids.0,
                IsFirst-between t x h cs ht ids.0 old.has_id ids.1 old.first after,
              );
            })
      ]
]

-- What holds of every element holds of those that a filter leaves, and of those of the sorted list.
pub filter-All :
    (P : CandidateNode → Type 0) (p : CandidateNode → Bool) (cs : List CandidateNode)
    → All P cs
    → All P (filter p cs)
unfolding filter
filter-All P p [] h = tt
filter-All P p (c ∷ cs) h = elim (Bool-cases (p c)) [
  | inl hit ↦ rw hit (h.0, filter-All P p cs h.1)
  | inr miss ↦ rw miss (filter-All P p cs h.1)
]

insert-All :
    (P : CandidateNode → Type 0) (t : NodeId) (x : CandidateNode) (cs : List CandidateNode)
    → P x
    → All P cs
    → All P (insert (ordered_before t) x cs)
unfolding insert
insert-All P t x [] h k = (h, tt)
insert-All P t x (c ∷ cs) h k = elim (Bool-cases (ordered_before t c x)) [
  | inl hit ↦ rw hit (k.0, insert-All P t x cs h k.1)
  | inr miss ↦ rw miss (h, k)
]

pub sort-All :
    (P : CandidateNode → Type 0) (t : NodeId) (cs : List CandidateNode)
    → All P cs
    → All P (sort (ordered_before t) cs)
unfolding sort
sort-All P t [] h = tt
sort-All P t (c ∷ cs) h = insert-All P t c (sort (ordered_before t) cs) h.0 (sort-All P t cs h.1)
