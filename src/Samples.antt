-- ===== src/Samples.antt =====
-- Ids and addresses that the tests share.
use boson_native.Prelude.{ℕ, zero, suc, ◌<◌, [], ◌∷◌, All, refl, arith}
use boson_native.Id.{NodeId, IsId}
use boson_native.SocketAddress.{SocketAddress, inet}
use boson_native.Prefix.{filled}

abbrev pub sample_id : ℕ → NodeId
sample_id b = b ∷ filled 0 31

filled-bytes : (n : ℕ) → All (λ b. b < 256) (filled 0 n)
filled-bytes zero = tt
filled-bytes (suc n) = (omega arith, filled-bytes n)

pub sample_id-IsId : (b : ℕ) → b < 256 → IsId (sample_id b)
sample_id-IsId b h = record { size = refl; bytes = (h, filled-bytes 31) }

abbrev pub sample_addr : ℕ → SocketAddress
sample_addr b = inet (192 ∷ 0 ∷ 2 ∷ b ∷ []) 39001
