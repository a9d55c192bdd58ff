-- ===== src/Dht/Requests/Tests.antt =====
-- The theorems on requests at a concrete node.
use boson_native.Prelude.{ℕ, true, false, List, [], ◌∷◌}
use boson_native.Prelude.Int.{ℤ, pos}
use boson_native.Samples.{sample_id, sample_addr}
use boson_native.Storage.{Value, Row}
use boson_native.Dht.Requests.{Sender, Service, on_find_node}

-- In place of the hash, the bytes themselves.
abbrev digest : List ℕ → List ℕ
digest bytes = bytes

abbrev value : ℤ → Value
value seq = record {
  id = sample_id 9;
  is_mutable = true;
  is_valid = true;
  has_private_key = false;
  sequence_number = seq;
  content = 1 ∷ 2 ∷ [];
}

abbrev row : ℤ → ℕ → Row
row seq now = record { value = value seq; timestamp = now }

abbrev service : List Row → Service
service vs = record {
  own_id = sample_id 5;
  tokens = record { timestamp = 1000; previous_timestamp = 0; session_secret = 7 ∷ 8 ∷ [] };
  values = vs;
  replies = [];
}

abbrev sender : Sender
sender = record { id = sample_id 1; origin = sample_addr 1; txid = 7 }

-- The service that has answered the request for nodes.
abbrev asked : Service
asked = on_find_node digest 2000 sender (sample_id 9) true false true (service [])

-- The value with the number 3 takes the place of that with the number 2.
abbrev holding : Service
holding = record (service (row (pos 2) 50000 ∷ [])) { tokens = asked.tokens }
