-- ===== src/Candidates.antt =====
-- src/core/task/candidate_node.h, closest_candidates.h and closest_candidates.cc: the nodes that a
-- lookup may ask. Nodes are shared; `ptr` is the identity of the object. The set of addresses compares
-- their IPs only, as outside development builds. The mutex is left out.
pub mod Choice
pub mod Sorted
mod Tests
use boson_native.Prelude.{
  ℕ, zero, suc, ◌+◌, ◌-◌, ◌≤◌, Bool, true, false, not, ◌&&◌, ◌||◌, Option, none, some, List, [],
  ◌∷◌, ◌++◌, length, drop, ltb, leb, ◌==◌, Ordering, compare, if◌then◌else◌,
}
use boson_native.Id.{NodeId, id_eq, three_way_compare, distance}
use boson_native.SocketAddress.{SocketAddress, same_ip}
use boson_native.Prefix.{max_id}

pub record CandidateNode : Type 0 where
  pub ptr : ℕ
  pub id : NodeId
  pub addr : SocketAddress
  pub last_sent : ℕ
  pub last_reply : ℕ
  pub reachable : Bool
  pub pinged : ℕ
  pub token : ℕ

-- From a node, whose `reachable` is that of a bucket entry or false.
pub new_candidate : ℕ → NodeId → SocketAddress → Bool → CandidateNode
new_candidate ptr id addr reachable = record {
  ptr = ptr;
  id = id;
  addr = addr;
  last_sent = 0;
  last_reply = 0;
  reachable = reachable;
  pinged = 0;
  token = 0;
}

pub set_sent : ℕ → CandidateNode → CandidateNode
set_sent now c = record c { last_sent = now; pinged = c.pinged + 1 }

pub clear_sent : CandidateNode → CandidateNode
clear_sent c = record c { last_sent = 0 }

pub set_replied : ℕ → CandidateNode → CandidateNode
set_replied now c = record c { last_reply = now }

pub is_unreachable : CandidateNode → Bool
is_unreachable c = leb 3 c.pinged

pub is_in_flight : CandidateNode → Bool
is_in_flight c = not (c.last_sent == 0)

pub is_eligible : CandidateNode → Bool
is_eligible c = (c.last_sent == 0) && ltb c.pinged 3

pub record ClosestCandidates : Type 0 where
  pub target : NodeId
  pub capacity : ℕ
  pub dedup_ids : List NodeId
  pub dedup_addrs : List SocketAddress
  pub closest : List CandidateNode

-- `std::list::sort` and `std::sort` with a comparison, here stable, and the first of the result.
module _ (before : CandidateNode → CandidateNode → Bool) where
  pub insert : CandidateNode → List CandidateNode → List CandidateNode
  insert x [] = x ∷ []
  insert x (c ∷ cs) = let rest = insert x cs in if before c x then c ∷ rest else x ∷ c ∷ cs

  pub sort : List CandidateNode → List CandidateNode
  unfolding insert
  sort [] = []
  sort (c ∷ cs) = insert c (sort cs)

  -- `std::list::merge`.
  pub merge : List CandidateNode → List CandidateNode → List CandidateNode
  unfolding insert
  merge [] bs = bs
  merge (a ∷ as') [] = a ∷ as'
  merge (a ∷ as') (b ∷ bs) =
      let left = merge as' (b ∷ bs) in
      let right = merge (a ∷ as') bs in if before b a then b ∷ right else a ∷ left

pub filter : (CandidateNode → Bool) → List CandidateNode → List CandidateNode
filter p [] = []
filter p (c ∷ cs) = let rest = filter p cs in if p c then c ∷ rest else rest

pub find : NodeId → List CandidateNode → Option CandidateNode
find id [] = none
find id (c ∷ cs) = let rest = find id cs in if id_eq id c.id then some c else rest

pub remove_first : NodeId → List CandidateNode → List CandidateNode
remove_first id [] = []
remove_first id (c ∷ cs) = let rest = remove_first id cs in if id_eq id c.id then cs else c ∷ rest

pub get : NodeId → ClosestCandidates → Option CandidateNode
get id s = find id s.closest

pub remove : NodeId → ClosestCandidates → ClosestCandidates
remove id s = record s { closest = remove_first id s.closest }

pub candidate_order : NodeId → CandidateNode → CandidateNode → Ordering
candidate_order target a b = elim (compare a.pinged b.pinged) [
  | Ordering.lt ↦ Ordering.lt
  | Ordering.gt ↦ Ordering.gt
  | Ordering.eq ↦ three_way_compare target a.id b.id
]

abbrev pub is_lt : Ordering → Bool
is_lt Ordering.lt = true
is_lt o = false

pub ordered_before : NodeId → CandidateNode → CandidateNode → Bool
ordered_before target a b = is_lt (candidate_order target a b)

pub closer : NodeId → CandidateNode → CandidateNode → Bool
closer target a b = is_lt (three_way_compare target a.id b.id)

abbrev pub front : List CandidateNode → Option CandidateNode
front [] = none
front (c ∷ cs) = some c

pub next : ClosestCandidates → Option CandidateNode
next s = front (sort (ordered_before s.target) (filter is_eligible s.closest))

pub head : ClosestCandidates → NodeId
head s = elim s.closest [ [] ↦ distance s.target max_id | c ∷ cs ↦ c.id ]

pub tail : NodeId → List CandidateNode → NodeId
tail target [] = distance target max_id
tail target (c ∷ cs) = let rest = tail target cs in elim cs [ [] ↦ c.id | d ∷ ds ↦ rest ]

abbrev pub has_id : NodeId → List NodeId → Bool
has_id id [] = false
has_id id (i ∷ is) = id_eq id i || has_id id is

pub has_ip : SocketAddress → List SocketAddress → Bool
has_ip a [] = false
has_ip a (b ∷ bs) = same_ip a b || has_ip a bs

-- The loop over the new nodes: the set, and the nodes that are new to it.
pub dedup : List CandidateNode → ClosestCandidates → ClosestCandidates × List CandidateNode
dedup [] s = (s, [])
dedup (c ∷ cs) s =
    let s1 = record s { dedup_ids = c.id ∷ s.dedup_ids } in
    let s2 = record s1 { dedup_addrs = c.addr ∷ s.dedup_addrs } in
    let known = dedup cs s in
    let taken = dedup cs s1 in
    let fresh = dedup cs s2 in
    if has_id c.id s.dedup_ids
    then known
    else if has_ip c.addr s.dedup_addrs
    then taken
    else (fresh.0, c ∷ fresh.1)

abbrev pub remove_each : List CandidateNode → ClosestCandidates → ClosestCandidates
remove_each [] s = s
remove_each (c ∷ cs) s = remove_each cs (remove c.id s)

-- What follows the merge: nodes without a request that are beyond the capacity go.
pub trim : ClosestCandidates → ClosestCandidates
trim s =
    let to_remove = filter (λ c. not (is_in_flight c)) s.closest in
    let sorted = sort (ordered_before s.target) to_remove in
    if ltb s.capacity (length s.closest) && ltb s.capacity (length to_remove)
    then remove_each (drop s.capacity sorted) s
    else s

pub add : List CandidateNode → ClosestCandidates → ClosestCandidates
add cs s =
    let r = dedup cs s in
    let filtered = sort (closer s.target) r.1 in
    trim (record r.0 { closest = merge (closer s.target) s.closest filtered })
