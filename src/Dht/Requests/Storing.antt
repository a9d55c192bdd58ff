-- ===== src/Dht/Requests/Storing.antt =====
-- A value that is stored with the token of an earlier answer, and found again.
use boson_native.Prelude.{ℕ, false, some, List, [], ◌∷◌, ◌++◌, ◌≡◌}
use boson_native.Prelude.Int.{ℤ}
use boson_native.Storage.{Value, get_value}
use boson_native.Dht.Requests.{Sender, Service, Nodes, stored, nodes_found, on_store_value}

module _ (sha256 : List ℕ → List ℕ) where
  -- An answer with a token, the store request with that token, and the value that is found then.
  pub record IsStored (until later : ℕ) (q : Sender) (nodes : Nodes) (v : Value) (expected : ℤ)
      (old asked s : Service) : Type 0 where
    pub token : ℕ
    pub answer : asked.replies ≡ old.replies ++ nodes_found q nodes (some token) ∷ []
    pub done : Service
    pub accepted : on_store_value sha256 until q token v expected s ≡ (done, false)
    pub replies : done.replies ≡ s.replies ++ stored q ∷ []
    pub found : get_value later v.id done.values ≡ some v
