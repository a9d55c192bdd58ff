-- ===== src/TokenManager.antt =====
-- src/core/token_manager.h and token_manager.cc: the tokens that a node gives out with its answers
-- and asks for with a store request. SHA-256 is a parameter, a function from the bytes it is fed to
-- the 32 bytes of the digest; the clock is an argument; the compare-and-exchange succeeds at once.
pub mod Rotation
mod Tests
use boson_native.Prelude.{
  ℕ, zero, suc, ◌+◌, ◌-◌, ◌*◌, ◌/◌, ◌%◌, ◌^◌, bit_and, Bool, true, false, ◌||◌, List, [], ◌∷◌, ◌++◌,
  get_or, ltb, ◌==◌, if◌then◌else◌,
}
use boson_native.Id.{NodeId}
use boson_native.SocketAddress.{SocketAddress, unspecified, inet, inet6, port}

-- `session_secret` is 32 bytes, drawn once.
pub record TokenManager : Type 0 where
  pub timestamp : ℕ
  pub previous_timestamp : ℕ
  pub session_secret : List ℕ

abbrev pub token_timeout : ℕ
token_timeout = 5 * 60 * 1000

-- The number in network byte order, on a number of bytes.
pub big_endian : ℕ → ℕ → List ℕ
big_endian zero n = []
big_endian (suc k) n = n / 2 ^ (8 * k) % 256 ∷ big_endian k n

abbrev pub inaddr : SocketAddress → List ℕ
inaddr unspecified = []
inaddr (inet ip p) = ip
inaddr (inet6 ip p) = ip

-- The new state of `updateTokenTimestamps` at the time `now`.
pub update_token_timestamps : ℕ → TokenManager → TokenManager
update_token_timestamps now m =
    if ltb token_timeout ((now + 2 ^ 64 - m.timestamp) % 2 ^ 64)
    then record m { timestamp = now; previous_timestamp = m.timestamp }
    else m

module _ (sha256 : List ℕ → List ℕ) where
  -- The four bytes of the digest from `pos` on, around its end.
  pub token_of : List ℕ → ℕ
  token_of digest =
      let pos = bit_and (get_or digest 0 0) 0x1f in
      get_or digest pos 0 * 2 ^ 24
      + get_or digest (bit_and (pos + 1) 0x1f) 0 * 2 ^ 16
      + get_or digest (bit_and (pos + 2) 0x1f) 0 * 2 ^ 8
      + get_or digest (bit_and (pos + 3) 0x1f) 0

  -- The static `generateToken`; the `int` is its 32-bit word.
  pub make_token : NodeId → SocketAddress → NodeId → ℕ → List ℕ → ℕ
  unfolding token_of
  make_token node_id addr target_id timestamp secret = token_of (
      sha256 (
        node_id
        ++ inaddr addr
        ++ big_endian 2 (port addr)
        ++ target_id
        ++ big_endian 8 timestamp
        ++ secret))

  pub generate_token : ℕ → NodeId → SocketAddress → NodeId → TokenManager → TokenManager × ℕ
  generate_token now node_id addr target_id m =
      let m' = update_token_timestamps now m in
      (m', make_token node_id addr target_id m'.timestamp m'.session_secret)

  pub verify_token : ℕ → ℕ → NodeId → SocketAddress → NodeId → TokenManager → TokenManager × Bool
  verify_token now token node_id addr target_id m =
      let m' = update_token_timestamps now m in
      (
        m',
        (token == make_token node_id addr target_id m'.timestamp m'.session_secret)
            || (token == make_token node_id addr target_id m'.previous_timestamp m'.session_secret),
      )
