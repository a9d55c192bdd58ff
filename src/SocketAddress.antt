-- ===== src/SocketAddress.antt =====
-- include/boson/socket_address.h and src/core/utils/socket_address.cc: the classification of
-- addresses. The flow info and the scope of an IPv6 address are 0, as the constructors leave them.
pub mod Classes
mod Tests
use boson_native.Prelude.{
  ℕ, zero, suc, ◌+◌, ◌/◌, ◌%◌, Bool, true, false, not, ◌&&◌, ◌||◌, Option, none, some, List, [],
  ◌∷◌, ◌++◌, get_or, take, drop, leb, ltb, ◌==◌, if◌then◌else◌,
}

-- By address family; the bytes of the address in network order, and the port.
pub data SocketAddress : Type 0 where
  unspecified : SocketAddress
  inet : List ℕ → ℕ → SocketAddress
  inet6 : List ℕ → ℕ → SocketAddress

unfoldable pub bytes_eq : List ℕ → List ℕ → Bool
bytes_eq [] [] = true
bytes_eq [] (b ∷ bs) = false
bytes_eq (a ∷ as') [] = false
bytes_eq (a ∷ as') (b ∷ bs) = a == b && bytes_eq as' bs

-- `operator==`.
unfoldable pub addr_eq : SocketAddress → SocketAddress → Bool
addr_eq unspecified unspecified = true
addr_eq (inet a p) (inet b q) = bytes_eq a b && p == q
addr_eq (inet6 a p) (inet6 b q) = bytes_eq a b && p == q
addr_eq a b = false

-- Neither address is before the other for `IpCompare`, which takes two empty addresses for ordered.
pub same_ip : SocketAddress → SocketAddress → Bool
unfolding bytes_eq
same_ip (inet a p) (inet b q) = bytes_eq a b
same_ip (inet6 a p) (inet6 b q) = bytes_eq a b
same_ip a b = false

pub port : SocketAddress → ℕ
port unspecified = 0
port (inet ip p) = p
port (inet6 ip p) = p

abbrev pub at : List ℕ → ℕ → ℕ
at ip i = get_or ip i 0

abbrev pub zeros : ℕ → List ℕ
zeros zero = []
zeros (suc n) = 0 ∷ zeros n

-- The tests below throw on an address of no family: `none`.
pub is_any_local : SocketAddress → Option Bool
is_any_local unspecified = none
is_any_local (inet ip p) = some (bytes_eq ip (0 ∷ 0 ∷ 0 ∷ 0 ∷ []))
is_any_local (inet6 ip p) = some (bytes_eq ip (zeros 16))

pub is_loopback : SocketAddress → Option Bool
is_loopback unspecified = none
is_loopback (inet ip p) = some (at ip 0 == 127)
is_loopback (inet6 ip p) = some (bytes_eq ip (zeros 15 ++ 1 ∷ []))

pub is_site_local : SocketAddress → Option Bool
is_site_local unspecified = none
is_site_local (inet ip p) =
    let b1 = at ip 0 in
    let b2 = at ip 1 in
    if b1 == 10
    then some true
    else if b1 == 172 && (leb 16 b2 && leb b2 31)
    then some true
    else if b1 == 192 && b2 == 168
    then some true
    else some false
is_site_local (inet6 ip p) = some (at ip 0 == 0xfc || at ip 0 == 0xfd)

pub is_broadcast : SocketAddress → Bool
is_broadcast (inet ip p) = bytes_eq ip (0xff ∷ 0xff ∷ 0xff ∷ 0xff ∷ [])
is_broadcast a = false

pub is_multicast : SocketAddress → Option Bool
is_multicast unspecified = none
is_multicast (inet ip p) = some (at ip 0 == 0xe0)
is_multicast (inet6 ip p) = some (at ip 0 == 0xff)

pub is_link_local : SocketAddress → Option Bool
is_link_local unspecified = none
is_link_local (inet ip p) = some (at ip 0 == 169 && at ip 1 == 254)
is_link_local (inet6 ip p) = some (at ip 0 == 0xfe && at ip 1 == 0x80)

abbrev pub mapped_ipv4_prefix : List ℕ
mapped_ipv4_prefix = zeros 10 ++ 0xff ∷ 0xff ∷ []

-- The bytes of the `sockaddr_in6` that `addr6()` points to, on little-endian Linux: the family
-- `AF_INET6`, the port, the flow info, the address.
abbrev pub sockaddr_in6 : List ℕ → ℕ → List ℕ
sockaddr_in6 ip p = 10 ∷ 0 ∷ (p / 256) ∷ (p % 256) ∷ 0 ∷ 0 ∷ 0 ∷ 0 ∷ ip

pub is_mapped_ipv4 : SocketAddress → Bool
is_mapped_ipv4 (inet6 ip p) = bytes_eq mapped_ipv4_prefix (take 12 (sockaddr_in6 ip p))
is_mapped_ipv4 a = false

-- `a || b`, where the evaluation of either may throw.
infixr 30 ◌or_else◌
abbrev pub ◌or_else◌ : Option Bool → Option Bool → Option Bool
none or_else b = none
some true or_else b = some true
some false or_else b = b

abbrev pub negate : Option Bool → Option Bool
negate none = none
negate (some b) = some (not b)

pub is_global_unicast : SocketAddress → Option Bool
is_global_unicast a = negate (
    is_any_local a
    or_else is_link_local a
    or_else is_loopback a
    or_else is_multicast a
    or_else is_site_local a
    or_else some (is_mapped_ipv4 a)
    or_else some (is_broadcast a))

pub is_any_unicast : SocketAddress → Option Bool
is_any_unicast a = is_global_unicast a or_else is_site_local a

pub is_bogon : SocketAddress → Option Bool
is_bogon a =
    if ltb 0 (port a) && leb (port a) 0xffff then negate (is_global_unicast a) else some true

pub get_mapped_ipv4 : SocketAddress → SocketAddress
get_mapped_ipv4 (inet6 ip p) =
    if is_mapped_ipv4 (inet6 ip p) then inet (take 4 (drop 12 ip)) p else inet6 ip p
get_mapped_ipv4 a = a

pub get_mapped_ipv6 : SocketAddress → SocketAddress
get_mapped_ipv6 (inet ip p) = inet6 (mapped_ipv4_prefix ++ take 4 ip) p
get_mapped_ipv6 a = a
