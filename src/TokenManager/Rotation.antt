-- ===== src/TokenManager/Rotation.antt =====
-- How long a token is accepted.
use boson_native.Prelude.{
  ℕ, ◌+◌, ◌-◌, ◌%◌, ◌^◌, ◌≤◌, ◌<◌, true, List, [], ◌∷◌, ◌≡◌, ◌⊎◌, inl, inr, refl, arith, ◌∙◌,
}
use boson_native.Id.{NodeId}
use boson_native.SocketAddress.{SocketAddress}
use boson_native.TokenManager.{
  TokenManager, token_timeout, update_token_timestamps, generate_token, verify_token,
}

-- Updates of the timestamps at a sequence of times, as other requests arrive.
abbrev pub updates : List ℕ → TokenManager → TokenManager
updates [] m = m
updates (now ∷ nows) m = updates nows (update_token_timestamps now m)

-- The times do not go back, and stay within `uint64_t`.
abbrev pub Ordered : ℕ → List ℕ → ℕ → Type 0
Ordered from [] to = (from ≤ to) × (to < 2 ^ 64)
Ordered from (now ∷ nows) to = (from ≤ now) × Ordered now nows to

Ordered-end :
    (from : ℕ) (nows : List ℕ) (to : ℕ) → Ordered from nows to → (from ≤ to) × (to < 2 ^ 64)
Ordered-end from [] to h = h
Ordered-end from (now ∷ nows) to h =
    let rest = Ordered-end now nows to h.1 in (omega (arith, h.0), rest.1)

-- The stamp is one of the two that are accepted.
abbrev Accepted : ℕ → TokenManager → Type 0
Accepted stamp m = (m.timestamp ≡ stamp) ⊎ (m.previous_timestamp ≡ stamp)

update-secret :
    (now : ℕ) (m : TokenManager) → (update_token_timestamps now m).session_secret ≡ m.session_secret
unfolding update_token_timestamps
update-secret now m = ground arith

updates-secret :
    (nows : List ℕ) (m : TokenManager) → (updates nows m).session_secret ≡ m.session_secret
updates-secret [] m = refl
updates-secret (now ∷ nows) m =
    updates-secret nows (update_token_timestamps now m) ∙ update-secret now m

-- Either the stamp is the current one, or it is the one before, and the current one is recent.
record IsRecent (stamp from until : ℕ) (m : TokenManager) : Type 0 where
  past : m.timestamp ≤ from
  recent :
      (m.timestamp ≡ stamp)
      ⊎ ((m.previous_timestamp ≡ stamp) × (until ≤ m.timestamp + token_timeout))

update-IsRecent :
    (stamp from now until : ℕ) (m : TokenManager)
    → from ≤ now
    → now ≤ until
    → until < 2 ^ 64
    → until ≤ from + token_timeout
    → IsRecent stamp from until m
    → IsRecent stamp now until (update_token_timestamps now m)
unfolding update_token_timestamps
update-IsRecent stamp from now until m h k l u r =
    let old = r.past in
    let time : (now + 2 ^ 64 - m.timestamp) % 2 ^ 64 ≡ now - m.timestamp = omega arith in
    record { past = ground arith; recent = ground (arith, r.recent) }

updates-IsRecent :
    (nows : List ℕ) (stamp from until : ℕ) (m : TokenManager)
    → Ordered from nows until
    → until ≤ from + token_timeout
    → IsRecent stamp from until m
    → IsRecent stamp until until (update_token_timestamps until (updates nows m))
updates-IsRecent [] stamp from until m o u r =
    update-IsRecent stamp from until until m o.0 (omega arith) o.1 u r
updates-IsRecent (now ∷ nows) stamp from until m o u r =
    let rest = Ordered-end now nows until o.1 in
    updates-IsRecent nows stamp now until (update_token_timestamps now m) o.1 (omega (arith, o.0))
      (update-IsRecent stamp from now until m o.0 rest.0 rest.1 u r)

update-IsFresh :
    (now until : ℕ) (m : TokenManager)
    → m.timestamp ≤ now
    → until < 2 ^ 64
    → now ≤ until
    → IsRecent (update_token_timestamps now m).timestamp now until (update_token_timestamps now m)
unfolding update_token_timestamps
update-IsFresh now until m h k l = record { past = ground arith; recent = inl refl }

module _ (sha256 : List ℕ → List ℕ) where
  -- A token that is generated at the time `now`, which the manager's timestamp does not exceed, is
  -- accepted for the same node, address and target until five minutes later, whatever requests
  -- update the timestamps in between, at times in order and below 2^64.
  pub verify_token-generate_token :
      (now until : ℕ) (others : List ℕ) (node_id : NodeId) (addr : SocketAddress)
      (target_id : NodeId) (m : TokenManager)
      → m.timestamp ≤ now
      → Ordered now others until
      → until ≤ now + token_timeout
      → (verify_token sha256 until
          (generate_token sha256 now node_id addr target_id m).1
          node_id
          addr
          target_id
          (updates others (generate_token sha256 now node_id addr target_id m).0)).1
        ≡ true
  unfolding verify_token generate_token
  verify_token-generate_token now until others node_id addr target_id m h o u =
      let m1 = update_token_timestamps now m in
      let m2 = update_token_timestamps until (updates others m1) in
      let secret : m2.session_secret ≡ m1.session_secret =
        update-secret until (updates others m1) ∙ updates-secret others m1 in
      let last = Ordered-end now others until o in
      let r =
        updates-IsRecent others m1.timestamp now until m1 o u
          (update-IsFresh now until m h last.1 last.0) in
      elim r.recent [
        | inl same ↦ rw (same, secret) (ground arith)
        | inr old ↦ rw (old.0, secret) (ground arith)
      ]
