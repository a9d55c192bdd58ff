-- ===== src/Lib.antt =====
-- A model of Boson.Native, a Kademlia DHT node in C++ with an active proxy, and theorems on it.
--
-- The program. A node has an id of 256 bits (src/core/id.cc); the distance of two ids is their XOR.
-- The routing table keeps buckets of entries under prefixes of ids (src/core/prefix.cc, kbucket.cc,
-- kbucket_entry.cc). Tasks (src/core/task) look up nodes, values and peers: a task manager starts
-- them, a lookup asks the closest candidates, each request is an RPC call with a timer
-- (src/core/rpccall.cc). Store requests carry a token (src/core/token_manager.cc). The active proxy
-- (src/addons/activeproxy) tunnels connections from a server to a local service.
--
-- The files.
--   Prelude: shared names; tests on native numbers, lists, integers, bit operations as arithmetic.
--   Id: include/boson/id.h and src/core/id.cc. `distance`, `three_way_compare`, `bits_equal`,
--     `bits_copy` are the methods of those names; an id (`NodeId`) is the list of its 32
--     bytes.
--   Prefix: include/boson/prefix.h, src/core/prefix.cc. `make` is the constructor.
--   SocketAddress: include/boson/socket_address.h, src/core/utils/socket_address.cc; the bytes of the
--     IP and the port. A thrown exception is `none`.
--   KBucketEntry, KBucket: src/core/kbucket_entry.h, .cc and kbucket.h, .cc. `put`, `update`,
--     `remove_if_bad`, `on_timeout` are `_put`, `_update`, `_removeIfBad`, `_onTimeout`, on the list of
--     entries; an entry changed through its shared pointer is changed in the list.
--   RoutingTable: src/core/routing_table.h, .cc. The buckets as a list in the order of their prefixes; a
--     bucket, which is shared, is known by its prefix. `search` is the loop of `indexOf`, `put` is
--     `_put`, `split` and `modify` are `_split` and `_modify`, `merge_buckets` is `_mergeBuckets`.
--     Prefix.Interval and Prefix.Halves read a prefix as an interval of numbers, of which splitting
--     makes halves; RoutingTable.Tiles says that the buckets' intervals are the ids, without gap or
--     overlap, which every operation of RoutingTable.Operations keeps.
--   KClosestNodes: src/core/kclosest_nodes.h, .cc, on a routing table.
--   RpcServer: src/core/rpcserver.h, .cc, on the calls of RpcCall. What is sent, and what the DHT is
--     given, is a list of outputs.
--   Storage: the rules of `putValue` and `getValue` of src/core/sqlite_storage.cc, on a list of rows.
--   Dht: `received` of src/core/dht.cc, on the routing table; Dht.Requests: its handlers of requests
--     for nodes and values and of store requests, on TokenManager and Storage.
--   Candidates: src/core/task/candidate_node.h, closest_candidates.h, .cc.
--   RpcCall: src/core/rpccall.h, .cc; what it tells its handlers and its timer are events.
--   Task, TaskManager: src/core/task/task.h, .cc, task_manager.h, .cc. The virtual methods of a task
--     are the record `Methods`; the manager holds numbers of tasks in a store.
--   TokenManager: src/core/token_manager.h, .cc.
--   ActiveProxy: src/addons/activeproxy. PacketType is packettype.h; Relay is `onRelayRead` of
--     connection.cc, for any way of processing a packet; Connection is the handlers of connection.cc as functions on a state, where the
--     effects on sockets and on the proxy are a list of actions.
--   Samples: ids and addresses of the tests.
--
-- Conventions. The clock is an argument. Times are `uint64_t`, their differences modulo
-- 2^64; `long` has 64 bits, and a time read as a signed number wraps at 2^63. The
-- generator of random numbers, SHA-256, libuv and libsodium are parameters or fields of an environment.
-- An exception that leaves a `noexcept` function is the result `none`.
--
-- Fuel. `read_packets` takes one round for each packet and one more, `dequeue` one for each waiting task
-- and one more, `update_loop` one if `update` asks for no other update. `search` takes at most one round
-- for each bucket and one more, `put` 257, since a prefix has at most 256 bits and each split takes one,
-- `merge_buckets` two for each bucket and one more, `walk` one for each bucket.
--
-- Not modelled: the DHT's requests for peers, the lookups themselves and the pool of the proxy; the
-- sockets and the queue of the RPC server, the file of the routing table and its tasks; messages, SQL,
-- cryptography, configuration and logging, which are glue over libraries; threads, since every
-- operation is one step. What an exception of a handler does to the thread that receives is not
-- modelled.
pub mod Prelude
pub mod Id
pub mod Prefix
pub mod SocketAddress
pub mod KBucketEntry
pub mod KBucket
pub mod Candidates
pub mod RpcCall
pub mod RoutingTable
pub mod KClosestNodes
pub mod RpcServer
pub mod Storage
pub mod Dht
pub mod Task
pub mod TaskManager
pub mod TokenManager
pub mod ActiveProxy
pub mod Samples
