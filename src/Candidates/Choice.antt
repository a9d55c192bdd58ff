-- ===== src/Candidates/Choice.antt =====
-- The candidate that `next` chooses.
use boson_native.Prelude.{
  ◌≤◌, ◌<◌, Bool, true, false, Option, none, some, List, [], ◌∷◌, All, ◌≡◌, ◌↔◌, ◌⊎◌, ◌∙◌, subst,
  arith, if◌then◌else◌, compare, compare-cases, Bool-cases, List-cases, inl, inr,
}
use mathlib.Core.List.{Mem, mem-cons_self, mem-cons_of_mem}
use boson_native.Id.{NodeId, IsId, three_way_compare, distance}
use boson_native.Id.Number.{value, compare_to-value}
use boson_native.Id.Distance.{three_way_compare-distance, distance-IsId}
use boson_native.Candidates.{
  CandidateNode, ClosestCandidates, sort, filter, candidate_order, ordered_before, next,
  is_eligible,
}
use boson_native.Candidates.Sorted.{HasId, IsFirst, sort-nil, sort-Chosen, filter-All, sort-All}

All-weaken :
    (P Q : CandidateNode → Type 0)
    → ((c : CandidateNode) → P c → Q c)
    → (cs : List CandidateNode) → All P cs
    → All Q cs
All-weaken P Q f [] h = tt
All-weaken P Q f (c ∷ cs) h = (f c h.0, All-weaken P Q f cs h.1)

members : (cs : List CandidateNode) → All (λ d. Mem d cs) cs
members [] = tt
members (c ∷ cs) = (
  mem-cons_self,
  All-weaken (λ d. Mem d cs) (λ d. Mem d (c ∷ cs)) (λ d m. mem-cons_of_mem c m) cs (members cs),
)

-- No request to it is under way, and fewer than three were sent.
abbrev pub CanBeAsked : CandidateNode → Type 0
CanBeAsked c = (c.last_sent ≡ 0) × (c.pinged < 3)

is_eligible_iff : (c : CandidateNode) → (is_eligible c ≡ true) ↔ CanBeAsked c
unfolding is_eligible
is_eligible_iff c = (λ e. (ground arith, ground arith), λ k. ground arith)

filter-CanBeAsked : (cs : List CandidateNode) → All CanBeAsked (filter is_eligible cs)
unfolding filter
filter-CanBeAsked [] = tt
filter-CanBeAsked (c ∷ cs) = elim (Bool-cases (is_eligible c)) [
  | inl hit ↦ rw hit ((is_eligible_iff c).0 hit, filter-CanBeAsked cs)
  | inr miss ↦ rw miss (filter-CanBeAsked cs)
]

-- `c` was asked less often than `d`, or as often and its XOR distance from `t`, as a number, is not
-- larger.
abbrev pub IsPreferred : NodeId → CandidateNode → CandidateNode → Type 0
IsPreferred t c d =
    (c.pinged < d.pinged)
    ⊎ ((c.pinged ≡ d.pinged) × (value (distance t c.id) ≤ value (distance t d.id)))

not_before-IsPreferred :
    (t : NodeId) (c d : CandidateNode)
    → IsId t
    → HasId c
    → HasId d
    → ordered_before t d c ≡ false
    → IsPreferred t c d
unfolding ordered_before candidate_order
not_before-IsPreferred t c d ht hc hd h =
    let near =
      three_way_compare-distance t d.id c.id (omega (arith, hd.size, ht.size))
        (omega (arith, hc.size, ht.size)) in
    let number =
      compare_to-value (distance t d.id) (distance t c.id) (distance-IsId t d.id ht hd)
        (distance-IsId t c.id ht hc) in
    let both : three_way_compare t d.id c.id
        ≡ compare (value (distance t d.id)) (value (distance t c.id)) =
      near ∙ number in
    elim (compare-cases c.pinged d.pinged) [
      | inl less ↦ inl less
      | inr (inl same) ↦ inr (same, ground (arith, h, both))
      | inr (inr more) ↦ absurd (ground (arith, h))
    ]

-- Every candidate that can be asked is one to which `c` is preferred.
abbrev pub IsBest : NodeId → CandidateNode → List CandidateNode → Type 0
IsBest t c cs = All (λ d. CanBeAsked d → IsPreferred t c d) cs

filter-IsBest :
    (t : NodeId) (c : CandidateNode) (cs : List CandidateNode)
    → IsId t
    → HasId c
    → All HasId cs
    → IsFirst t c (filter is_eligible cs)
    → IsBest t c cs
unfolding filter
filter-IsBest t c [] ht hc ids h = tt
filter-IsBest t c (d ∷ cs) ht hc ids h =
    let kept : (b : Bool)
        → is_eligible d ≡ b
        → IsFirst t c (if b then d ∷ filter is_eligible cs else filter is_eligible cs) =
      λ b e.
        subst (λ b. IsFirst t c (if b then d ∷ filter is_eligible cs else filter is_eligible cs)) e
          h in
    elim (Bool-cases (is_eligible d)) [
      | inl hit ↦
          let both : IsFirst t c (d ∷ filter is_eligible cs) = kept true hit in
          (
            λ k. not_before-IsPreferred t c d ht hc ids.0 both.0,
            filter-IsBest t c cs ht hc ids.1 both.1,
          )
      | inr miss ↦
          let later : IsFirst t c (filter is_eligible cs) = kept false miss in
          let barred : CanBeAsked d → IsPreferred t c d =
            λ k. let fine = (is_eligible_iff d).1 k in cc in
          (barred, filter-IsBest t c cs ht hc ids.1 later)
    ]

filter-nil : (cs : List CandidateNode) → filter is_eligible cs ≡ [] → All (λ d. ¬ CanBeAsked d) cs
unfolding filter
filter-nil [] e = tt
filter-nil (d ∷ cs) e = elim (Bool-cases (is_eligible d)) [
  | inl hit ↦ let wrong : d ∷ filter is_eligible cs ≡ [] = ground arith in cc
  | inr miss ↦
      let later : filter is_eligible cs ≡ [] = ground arith in
      (λ k. let fine = (is_eligible_iff d).1 k in cc, filter-nil cs later)
]

-- What `next` returns: a candidate of the set that can be asked and is preferred to every other that can,
-- or none, when none can be asked.
abbrev pub IsChoice : ClosestCandidates → Option CandidateNode → Type 0
IsChoice s none = All (λ d. ¬ CanBeAsked d) s.closest
IsChoice s (some c) = Mem c s.closest × CanBeAsked c × IsBest s.target c s.closest

-- For candidates and a target with ids of 32 bytes, `next` returns a candidate of the set to which no
-- request is under way and fewer than three were sent; every other such candidate was asked more often,
-- or as often and its XOR distance from the target is not smaller. It returns none only if there is no
-- such candidate.
pub next-IsChoice :
    (s : ClosestCandidates) → IsId s.target → All (λ d. IsId d.id) s.closest → IsChoice s (next s)
unfolding next
next-IsChoice s ht ids =
    let t = s.target in
    let eligible = filter is_eligible s.closest in
    elim (List-cases (sort (ordered_before t) eligible)) [
      | inl gone ↦ rw (next, gone) (filter-nil s.closest (sort-nil t eligible gone))
      | inr (c, rest, found) ↦
          let chosen =
            sort-Chosen t eligible rest c ht (filter-All HasId is_eligible s.closest ids) found in
          let asked =
            subst (All CanBeAsked) found
              (sort-All CanBeAsked t eligible (filter-CanBeAsked s.closest)) in
          let member = subst (All (λ d. Mem d s.closest)) found (
            sort-All (λ d. Mem d s.closest) t eligible
              (filter-All (λ d. Mem d s.closest) is_eligible s.closest (members s.closest))) in
          rw (next, found)
            (member.0, asked.0, filter-IsBest t c s.closest ht chosen.has_id ids chosen.first)
    ]
