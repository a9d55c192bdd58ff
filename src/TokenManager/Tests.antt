-- ===== src/TokenManager/Tests.antt =====
-- The theorem on tokens at a concrete manager.
use boson_native.Prelude.{ℕ, true, List, [], ◌∷◌, ◌≡◌, arith}
use boson_native.Samples.{sample_id, sample_addr}
use boson_native.TokenManager.{TokenManager, generate_token, verify_token}
use boson_native.TokenManager.Rotation.{updates, verify_token-generate_token}

-- In place of the hash, the bytes themselves.
abbrev digest : List ℕ → List ℕ
digest bytes = bytes

abbrev manager : TokenManager
manager = record { timestamp = 1000; previous_timestamp = 0; session_secret = 7 ∷ 8 ∷ [] }

verify_token-generate_token_example :
    (verify_token digest 302000
      (generate_token digest 2000 (sample_id 1) (sample_addr 1) (sample_id 2) manager).1
      (sample_id 1)
      (sample_addr 1)
      (sample_id 2)
      (updates
        (301500 ∷ [])
        (generate_token digest 2000 (sample_id 1) (sample_addr 1) (sample_id 2) manager).0)).1
    ≡ true
verify_token-generate_token_example =
    verify_token-generate_token digest 2000 302000 (301500 ∷ []) (sample_id 1) (sample_addr 1)
      (sample_id 2) manager (omega arith) (omega arith, (omega arith, omega arith)) (omega arith)
