-- ===== src/Dht.antt =====
-- src/core/dht.cc: what a message of a node does to the routing table. The calls that are sent to
-- verify a node, and the buckets whose nodes are to be pinged, are lists. `BOSON_DEVELOPMENT` is not
-- defined.
pub mod Received
pub mod Requests
mod Tests
use boson_native.Prelude.{
  ℕ, Bool, true, false, not, ◌&&◌, ◌||◌, Option, none, some, List, [], ◌∷◌, ◌++◌, if◌then◌else◌,
}
use boson_native.Id.{NodeId, id_eq}
use boson_native.SocketAddress.{SocketAddress, addr_eq, is_bogon}
use boson_native.Prefix.{Prefix}
use boson_native.KBucketEntry.{KBucketEntry, new_entry, signal_response, merge_request_time}
use boson_native.RpcCall
use boson_native.RpcCall.{RpcCall, Message}
use boson_native.RoutingTable
use boson_native.RoutingTable.{RoutingTable, get_bucket, get_entry}

pub record Dht : Type 0 where
  pub table : RoutingTable
  pub known_nodes : List (SocketAddress × NodeId)
  pub pings : List KBucketEntry
  pub suspected : List Prefix

-- `std::map` of the ids that are known by their address.
pub find_known : SocketAddress → List (SocketAddress × NodeId) → Option NodeId
find_known a [] = none
find_known a ((b, id) ∷ rest) =
    let later = find_known a rest in if addr_eq b a then some id else later

pub set_known :
    SocketAddress → NodeId → List (SocketAddress × NodeId) → List (SocketAddress × NodeId)
set_known a id [] = (a, id) ∷ []
set_known a id ((b, x) ∷ rest) =
    let later = set_known a id rest in if addr_eq b a then (b, id) ∷ rest else (b, x) ∷ later

pub erase_known : SocketAddress → List (SocketAddress × NodeId) → List (SocketAddress × NodeId)
erase_known a [] = []
erase_known a ((b, x) ∷ rest) =
    let later = erase_known a rest in if addr_eq b a then rest else (b, x) ∷ later

-- The call of a message is to be answered by the node and the address that it was sent to.
pub is_matched : Message → Option RpcCall → Bool
is_matched m none = true
is_matched m (some c) = RpcCall.matches_address m c && RpcCall.matches_id m c

-- An entry that the table has for the id has another address.
pub has_moved : SocketAddress → Option KBucketEntry → Bool
has_moved a none = false
has_moved a (some old) = not (addr_eq old.addr a)

-- The id that is known for the address, if it is another one.
pub other_known : Message → List (SocketAddress × NodeId) → Option NodeId
other_known m known = elim (find_known m.origin known) [
  | none ↦ none
  | some id ↦ if id_eq id m.id then none else some id
]

-- A node of the table that comes under a new id is removed, and its bucket is to be checked.
pub remove_known : ℕ → Message → NodeId → Dht → Dht
remove_known now m known d =
    let t = RoutingTable.remove now known d.table in
    let suspected : List Prefix = elim (get_bucket t.buckets known) [
      | none ↦ d.suspected
      | some b ↦ d.suspected ++ b.prefix ∷ []
    ] in
    record d {
      table = t;
      known_nodes = set_known m.origin m.id d.known_nodes;
      suspected = suspected;
    }

pub entry_of : ℕ → ℕ → Message → Option RpcCall → KBucketEntry
entry_of now ptr m none = new_entry now ptr m.id m.origin
entry_of now ptr m (some c) =
    merge_request_time c.sent_time (signal_response now (new_entry now ptr m.id m.origin))

pub pings_of : KBucketEntry → Option RpcCall → Option KBucketEntry → List KBucketEntry
pings_of e none none = e ∷ []
pings_of e call old = []

-- The end of `received`: the node is known, and its entry is put into the table.
pub put_node :
    ℕ
    → ℕ
    → Message
    → Option RpcCall
    → Option KBucketEntry
    → List (SocketAddress × NodeId)
    → Dht
    → Option Dht
put_node now ptr m call old known d =
    let e = entry_of now ptr m call in
    elim (RoutingTable.put 257 now e d.table) [
      | none ↦ none
      | some t ↦ some (record {
        table = t;
        known_nodes = set_known m.origin m.id known;
        pings = d.pings ++ pings_of e call old;
        suspected = d.suspected;
      })
    ]

-- `received` behind the test of the address, where `ptr` is the new entry's identity.
pub take_message : ℕ → ℕ → Message → Option RpcCall → Bool → Dht → Option Dht
take_message now ptr m call bogon d =
    let old = get_entry m.id d.table in
    let known_other : Option Dht = elim (other_known m d.known_nodes) [
      | none ↦ put_node now ptr m call old d.known_nodes d
      | some id ↦ elim (get_entry id d.table) [
        | none ↦ put_node now ptr m call old (erase_known m.origin d.known_nodes) d
        | some entry ↦ some (remove_known now m id d)
      ]
    ] in
    if bogon || not (is_matched m call) || has_moved m.origin old then some d else known_other

pub received : ℕ → ℕ → Message → Option RpcCall → Dht → Option Dht
received now ptr m call d = elim (is_bogon m.origin) [
  | none ↦ none
  | some bogon ↦ take_message now ptr m call bogon d
]
