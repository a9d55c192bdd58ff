-- ===== src/Dht/Requests.antt =====
-- src/core/dht.cc: the handlers of the requests for nodes and values, and of the request to store a
-- value. The nodes that go with an answer are named by what was asked for.
pub mod Storing
mod Tests
use boson_native.Prelude.{
  ℕ, Bool, true, false, not, ◌||◌, Option, none, some, List, [], ◌∷◌, ◌++◌, if◌then◌else◌,
}
use boson_native.Prelude.Int.{ℤ, pos, int_lt}
use boson_native.Id.{NodeId}
use boson_native.SocketAddress.{SocketAddress}
use boson_native.KBucket.{max_entries_per_bucket}
use boson_native.TokenManager.{TokenManager, generate_token, verify_token}
use boson_native.Storage.{Value, Row, get_value, put_value}

-- Who asks, and with which transaction.
pub record Sender : Type 0 where
  pub id : NodeId
  pub origin : SocketAddress
  pub txid : ℕ

-- The nodes of the two networks near an id, so many of each.
pub record Nodes : Type 0 where
  pub target : NodeId
  pub want4 : ℕ
  pub want6 : ℕ

pub data Reply : Type 0 where
  pong stored : Sender → Reply
  refused_token refused_value : Sender → Reply
  nodes_found : Sender → Nodes → Option ℕ → Reply
  value_found : Sender → Value → ℕ → Reply

pub record Service : Type 0 where
  pub own_id : NodeId
  pub tokens : TokenManager
  pub values : List Row
  pub replies : List Reply

abbrev pub reply : Reply → Service → Service
reply r s = record s { replies = s.replies ++ r ∷ [] }

abbrev pub wanted : Bool → ℕ
wanted w = if w then max_entries_per_bucket else 0

abbrev pub near : NodeId → Bool → Bool → Nodes
near target w4 w6 = record { target = target; want4 = wanted w4; want6 = wanted w6 }

pub on_ping : Sender → Service → Service
on_ping q s = reply (pong q) s

module _ (sha256 : List ℕ → List ℕ) where
  -- `onFindNode`; the last test is whether a token is wanted.
  pub on_find_node : ℕ → Sender → NodeId → Bool → Bool → Bool → Service → Service
  on_find_node now q target w4 w6 wants_token s =
      let r = generate_token sha256 now q.id q.origin target s.tokens in
      let nodes = near target w4 w6 in
      if wants_token
      then reply (nodes_found q nodes (some r.1)) (record s { tokens = r.0 })
      else reply (nodes_found q nodes none) s

  -- `onStoreValue`; the second part is that the storage throws, after the tokens' timestamps are updated.
  pub on_store_value : ℕ → Sender → ℕ → Value → ℤ → Service → Service × Bool
  on_store_value now q token v expected s =
      let r = verify_token sha256 now token q.id q.origin v.id s.tokens in
      let s' = record s { tokens = r.0 } in
      let put : Service × Bool = elim (put_value now v expected s.values) [
        | none ↦ (s', true)
        | some vs ↦ (reply (stored q) (record s' { values = vs }), false)
      ] in
      if not r.1
      then (reply (refused_token q) s', false)
      else if not v.is_valid
      then (reply (refused_value q) s', false)
      else put

  -- `onFindValue`; a value that is older than the request's sequence number is not given.
  pub on_find_value : ℕ → Sender → NodeId → Bool → Bool → ℤ → Service → Service
  on_find_value now q target w4 w6 seq s =
      let r = generate_token sha256 now q.id q.origin s.own_id s.tokens in
      let s' = record s { tokens = r.0 } in
      let nodes = reply (nodes_found q (near target w4 w6) (some r.1)) s' in
      elim (get_value now target s.values) [
        | none ↦ nodes
        | some v ↦
            if int_lt seq (pos 0)
              || int_lt v.sequence_number (pos 0)
              || not (int_lt v.sequence_number seq)
            then reply (value_found q v r.1) s'
            else nodes
      ]
