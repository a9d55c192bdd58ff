-- ===== src/Dht/Received.antt =====
-- What `received` keeps, and whom it removes.
use boson_native.Prelude.{
  ℕ, Bool, true, false, not, ◌||◌, Option, none, some, List, [], ◌∷◌, ◌++◌, ◌≡◌, ◌≢◌, ◌⊎◌, refl,
  sym, ap, subst, ◌∙◌, arith, Bool-cases, Option-cases, inl, inr,
}
use boson_native.Id.{NodeId, IsId, id_eq}
use boson_native.Id.Order.{compare_to-eq, compare_to_self}
use boson_native.SocketAddress.{SocketAddress, addr_eq, is_bogon}
use boson_native.SocketAddress.Classes.{addr_eq_iff}
use boson_native.KBucketEntry.{KBucketEntry}
use boson_native.KBucketEntry.Matching.{
  new_entry-id, merge_request_time-SameKey, signal_response-SameKey,
}
use boson_native.RpcCall.{RpcCall, Message, matches_address, matches_id}
use boson_native.RoutingTable
use boson_native.RoutingTable.{RoutingTable, get_bucket, get_entry}
use boson_native.RoutingTable.Invariant.{IsTable}
use boson_native.RoutingTable.Put.{put-IsTable}
use boson_native.RoutingTable.Operations.{remove-IsTable}
use boson_native.RoutingTable.Lookup.{remove-get_entry}
use boson_native.Dht.{
  Dht, find_known, set_known, erase_known, is_matched, has_moved, other_known, remove_known,
  entry_of, pings_of, put_node, received, take_message,
}

entry_of-id :
    (now ptr : ℕ) (m : Message) (call : Option RpcCall) → (entry_of now ptr m call).id ≡ m.id
unfolding entry_of
entry_of-id now ptr m none = new_entry-id now ptr m.id m.origin
entry_of-id now ptr m (some c) =
    sym ((merge_request_time-SameKey c.sent_time _).0)
    ∙ sym ((signal_response-SameKey now _).0)
    ∙ new_entry-id now ptr m.id m.origin

put_node-at :
    (now ptr : ℕ) (m : Message) (call : Option RpcCall) (old : Option KBucketEntry)
    (known : List (SocketAddress × NodeId)) (d : Dht) (t : RoutingTable)
    → RoutingTable.put 257 now (entry_of now ptr m call) d.table ≡ some t
    → put_node now ptr m call old known d
      ≡ some (record {
        table = t;
        known_nodes = set_known m.origin m.id known;
        pings = d.pings ++ pings_of (entry_of now ptr m call) call old;
        suspected = d.suspected;
      })
unfolding put_node
put_node-at now ptr m call old known d t e = rw (put_node, e) refl

find_known-set_known :
    (a : SocketAddress) (id : NodeId) (known : List (SocketAddress × NodeId))
    → find_known a (set_known a id known) ≡ some id
unfolding find_known set_known
find_known-set_known a id [] = rw ((addr_eq_iff a a).1 refl) refl
find_known-set_known a id ((b, x) ∷ rest) = elim (Bool-cases (addr_eq b a)) [
  | inl hit ↦ rw (hit, hit) refl
  | inr miss ↦ rw (miss, miss) (find_known-set_known a id rest)
]

-- A message that answers a call to another address or node.
abbrev pub IsMismatched : Message → Option RpcCall → Type 0
IsMismatched m none = ⊥
IsMismatched m (some c) = (m.origin ≢ c.remote_address) ⊎ (m.id ≢ c.target_id)

-- The table has an entry for the message's id, with another address.
abbrev pub IsElsewhere : Message → Option KBucketEntry → Type 0
IsElsewhere m none = ⊥
IsElsewhere m (some e) = e.addr ≢ m.origin

-- A message that is not to touch the routing table.
abbrev pub IsIgnored : Message → Option RpcCall → Bool → Dht → Type 0
IsIgnored m call bogon d =
    (bogon ≡ true) ⊎ IsMismatched m call ⊎ IsElsewhere m (get_entry m.id d.table)

-- The target of a call has an id of 32 bytes.
abbrev pub HasTarget : Option RpcCall → Type 0
HasTarget none = Unit
HasTarget (some c) = IsId c.target_id

addr-apart : (a b : SocketAddress) → addr_eq a b ≡ false → a ≢ b
addr-apart a b e h = let same = (addr_eq_iff a b).1 h in cc

is_matched-cases :
    (m : Message) (call : Option RpcCall)
    → IsId m.id
    → HasTarget call
    → ((is_matched m call ≡ true) × (¬ IsMismatched m call))
      ⊎ ((is_matched m call ≡ false) × IsMismatched m call)
unfolding is_matched matches_address matches_id
is_matched-cases m none k t = inl (refl, λ n. n)
is_matched-cases m (some c) k t = elim (Bool-cases (addr_eq m.origin c.remote_address)) [
  | inr away ↦ inr (ground (arith, away), inl (addr-apart m.origin c.remote_address away))
  | inl here ↦ elim (Bool-cases (id_eq m.id c.target_id)) [
    | inl same ↦
        let equal = compare_to-eq m.id c.target_id (k.size ∙ sym t.size) (ground (arith, same)) in
        let there = (addr_eq_iff m.origin c.remote_address).0 here in
        inl (ground (arith, here, same), λ n. elim n [ inl p ↦ p there | inr q ↦ q equal ])
    | inr other ↦
        let apart : m.id ≢ c.target_id = λ e.
          let self : id_eq m.id m.id ≡ true = ground (arith, compare_to_self m.id) in
          let both : id_eq m.id c.target_id ≡ true = ap (id_eq m.id) (sym e) ∙ self in cc in
        inr (ground (arith, other), inr apart)
  ]
]

has_moved-cases :
    (m : Message) (old : Option KBucketEntry)
    → ((has_moved m.origin old ≡ true) × IsElsewhere m old)
      ⊎ ((has_moved m.origin old ≡ false) × (¬ IsElsewhere m old))
unfolding has_moved
has_moved-cases m none = inr (refl, λ n. n)
has_moved-cases m (some e) = elim (Bool-cases (addr_eq e.addr m.origin)) [
  | inl here ↦
      let there = (addr_eq_iff e.addr m.origin).0 here in inr (ground (arith, here), λ n. n there)
  | inr away ↦ inl (ground (arith, away), addr-apart e.addr m.origin away)
]

-- The test in `received` is that a message is ignored.
IsIgnored-cases :
    (m : Message) (call : Option RpcCall) (bogon : Bool) (d : Dht)
    → IsId m.id
    → HasTarget call
    → (((bogon || not (is_matched m call) || has_moved m.origin (get_entry m.id d.table)) ≡ true)
        × IsIgnored m call bogon d)
      ⊎ (((bogon || not (is_matched m call) || has_moved m.origin (get_entry m.id d.table)) ≡ false)
          × (¬ IsIgnored m call bogon d))
IsIgnored-cases m call true d k t = inl (refl, inl refl)
IsIgnored-cases m call false d k t = elim (is_matched-cases m call k t) [
  | inr (wrong, mismatched) ↦ inl (ground (arith, wrong), inr (inl mismatched))
  | inl (fine, matched) ↦ elim (has_moved-cases m (get_entry m.id d.table)) [
    | inl (moved, elsewhere) ↦ inl (ground (arith, fine, moved), inr (inr elsewhere))
    | inr (stayed, here) ↦ inr (
      ground (arith, fine, stayed),
      λ n. elim n [ inl e ↦ cc | inr (inl e) ↦ matched e | inr (inr e) ↦ here e ],
    )
  ]
]

-- A node that took a message: its table keeps the invariant, and the address is known for the id.
record Took (m : Message) (o : Option Dht) : Type 0 where
  dht : Dht
  made : o ≡ some dht
  table : IsTable dht.table
  known : find_known m.origin dht.known_nodes ≡ some m.id

put_node-Took :
    (now ptr : ℕ) (m : Message) (call : Option RpcCall) (old : Option KBucketEntry)
    (known : List (SocketAddress × NodeId)) (d : Dht)
    → IsTable d.table
    → IsId m.id
    → Took m (put_node now ptr m call old known d)
put_node-Took now ptr m call old known d h k =
    let r =
      put-IsTable now (entry_of now ptr m call) d.table h
        (subst IsId (sym (entry_of-id now ptr m call)) k) in
    record {
      dht = _;
      made = put_node-at now ptr m call old known d r.0 r.1;
      table = r.2;
      known = find_known-set_known m.origin m.id known;
    }

take_message-Took :
    (now ptr : ℕ) (m : Message) (call : Option RpcCall) (bogon : Bool) (d : Dht)
    → IsTable d.table
    → IsId m.id
    → (bogon || not (is_matched m call) || has_moved m.origin (get_entry m.id d.table)) ≡ false
    → Took m (take_message now ptr m call bogon d)
unfolding take_message remove_known
take_message-Took now ptr m call bogon d h k taken =
    let old = get_entry m.id d.table in
    elim (Option-cases (other_known m d.known_nodes)) [
      | inl alone ↦
          rw (take_message, taken, alone) (put_node-Took now ptr m call old d.known_nodes d h k)
      | inr (id, other) ↦ elim (Option-cases (get_entry id d.table)) [
        | inl gone ↦
            rw (take_message, taken, other, gone)
              (put_node-Took now ptr m call old (erase_known m.origin d.known_nodes) d h k)
        | inr (e, there) ↦
            rw (take_message, taken, other, there)
              (record {
                dht = remove_known now m id d;
                made = refl;
                table = remove-IsTable now id d.table h;
                known = find_known-set_known m.origin m.id d.known_nodes;
              })
      ]
    ]

received-at :
    (now ptr : ℕ) (m : Message) (call : Option RpcCall) (bogon : Bool) (d : Dht)
    → is_bogon m.origin ≡ some bogon
    → received now ptr m call d ≡ take_message now ptr m call bogon d
unfolding received
received-at now ptr m call bogon d e = rw (received, e) refl

ignored-at :
    (now ptr : ℕ) (m : Message) (call : Option RpcCall) (bogon : Bool) (d : Dht)
    → (bogon || not (is_matched m call) || has_moved m.origin (get_entry m.id d.table)) ≡ true
    → take_message now ptr m call bogon d ≡ some d
unfolding take_message
ignored-at now ptr m call bogon d e = rw (take_message, e) refl

-- What a message leads to.
pub record IsReceived (m : Message) (call : Option RpcCall) (bogon : Bool) (d d' : Dht)
    : Type 0 where
  pub table : IsTable d'.table
  pub effect :
      (IsIgnored m call bogon d × (d' ≡ d))
      ⊎ ((¬ IsIgnored m call bogon d) × (find_known m.origin d'.known_nodes ≡ some m.id))

-- A message from an IPv4 or IPv6 address changes nothing if the address is a bogon, if it answers a call
-- to another address or node, or if the table has its id under another address. Otherwise its address is
-- known for its id from then on. In both cases `received` ends, and the table keeps its invariant. The ids
-- of the message and of the call's target are of 32 bytes.
pub received-IsReceived :
    (now ptr : ℕ) (m : Message) (call : Option RpcCall) (bogon : Bool) (d : Dht)
    → IsTable d.table
    → IsId m.id
    → HasTarget call
    → is_bogon m.origin ≡ some bogon
    → (d' : Dht) × (received now ptr m call d ≡ some d') × IsReceived m call bogon d d'
received-IsReceived now ptr m call bogon d h k t b =
    let at = received-at now ptr m call bogon d b in
    elim (IsIgnored-cases m call bogon d k t) [
      | inl (test, ignored) ↦ (
        d,
        at ∙ ignored-at now ptr m call bogon d test,
        record { table = h; effect = inl (ignored, refl) },
      )
      | inr (test, taken) ↦
          let r = take_message-Took now ptr m call bogon d h k test in
          (r.dht, at ∙ r.made, record { table = r.table; effect = inr (taken, r.known) })
    ]

-- A message, neither from a bogon address nor with a mismatched call nor of an entry that moved, from an
-- address that is known for another id which has an entry in the table, removes that id's entry: the
-- table has none for it any more. The address is then known for the new id.
pub received-removes :
    (now ptr : ℕ) (m : Message) (call : Option RpcCall) (known : NodeId) (entry : KBucketEntry)
    (d : Dht)
    → IsTable d.table
    → IsId known
    → is_bogon m.origin ≡ some false
    → is_matched m call ≡ true
    → has_moved m.origin (get_entry m.id d.table) ≡ false
    → other_known m d.known_nodes ≡ some known
    → get_entry known d.table ≡ some entry
    → (d' : Dht) × (received now ptr m call d ≡ some d')
      × (get_entry known d'.table ≡ none)
      × (find_known m.origin d'.known_nodes ≡ some m.id)
unfolding take_message remove_known
received-removes now ptr m call known entry d h k b c moved other there = (
  remove_known now m known d,
  received-at now ptr m call false d b ∙ rw (take_message, c, moved, other, there) refl,
  remove-get_entry now known d.table h k,
  find_known-set_known m.origin m.id d.known_nodes,
)
