-- ===== src/SocketAddress/Tests.antt =====
-- The theorems on addresses at concrete addresses.
use boson_native.Prelude.{ℕ, List, [], ◌∷◌, true, false, some, ◌≡◌, ◌↔◌, arith}
use boson_native.SocketAddress.{inet, is_bogon, get_mapped_ipv6}
use boson_native.SocketAddress.Classes.{IsInBogonBlock, address, is_bogon_inet, is_bogon-mapped}

abbrev private : List ℕ
private = 10 ∷ 0 ∷ 0 ∷ 1 ∷ []

is_bogon_inet_example :
    (is_bogon (inet private 39001) ≡ some true) ↔ IsInBogonBlock (address 10 0 0 1)
is_bogon_inet_example =
    is_bogon_inet 10 0 0 1 39001 (omega arith) (omega arith) (omega arith) (omega arith)
      (omega arith) (omega arith)

is_bogon-mapped_example : is_bogon (get_mapped_ipv6 (inet private 39001)) ≡ some false
is_bogon-mapped_example = is_bogon-mapped private 39001 (omega arith) (omega arith)
