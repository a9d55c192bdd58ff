-- ===== src/SocketAddress/Classes.antt =====
-- Which addresses the node takes for bogons.
use boson_native.Prelude.{
  ℕ, ◌+◌, ◌-◌, ◌*◌, ◌/◌, ◌^◌, ◌≤◌, ◌<◌, true, false, some, List, [], ◌∷◌, ◌≡◌, ◌≢◌, ◌↔◌, ◌⊎◌, inl,
  inr, refl, arith,
}
use boson_native.SocketAddress.{
  SocketAddress, unspecified, inet, inet6, bytes_eq, addr_eq, port, is_any_local, is_loopback,
  is_site_local, is_broadcast, is_multicast, is_link_local, is_mapped_ipv4, is_global_unicast,
  is_bogon, get_mapped_ipv4, get_mapped_ipv6,
}

bytes_eq-eq : (a b : List ℕ) → bytes_eq a b ≡ true → a ≡ b
unfolding bytes_eq
bytes_eq-eq [] [] h = refl
bytes_eq-eq [] (y ∷ b) h = cc
bytes_eq-eq (x ∷ a) [] h = cc
bytes_eq-eq (x ∷ a) (y ∷ b) h = ground (arith, bytes_eq-eq a b)

bytes_eq_self : (a : List ℕ) → bytes_eq a a ≡ true
unfolding bytes_eq
bytes_eq_self [] = refl
bytes_eq_self (x ∷ a) = ground (arith, bytes_eq_self a)

-- `operator==` of addresses holds exactly for equal addresses.
pub addr_eq_iff : (a b : SocketAddress) → (addr_eq a b ≡ true) ↔ (a ≡ b)
unfolding addr_eq
addr_eq_iff unspecified unspecified = (λ h. refl, λ h. refl)
addr_eq_iff unspecified (inet b q) = (λ h. cc, λ h. cc)
addr_eq_iff unspecified (inet6 b q) = (λ h. cc, λ h. cc)
addr_eq_iff (inet a p) unspecified = (λ h. cc, λ h. cc)
addr_eq_iff (inet a p) (inet b q) =
    (λ h. ground (arith, bytes_eq-eq a b), λ h. ground (arith, bytes_eq_self a))
addr_eq_iff (inet a p) (inet6 b q) = (λ h. cc, λ h. cc)
addr_eq_iff (inet6 a p) unspecified = (λ h. cc, λ h. cc)
addr_eq_iff (inet6 a p) (inet b q) = (λ h. cc, λ h. cc)
addr_eq_iff (inet6 a p) (inet6 b q) =
    (λ h. ground (arith, bytes_eq-eq a b), λ h. ground (arith, bytes_eq_self a))

-- An IPv4 address as a number of 32 bits, and the block of the addresses that agree with one in their
-- first bits.
abbrev pub address : ℕ → ℕ → ℕ → ℕ → ℕ
address a b c d = a * 2 ^ 24 + b * 2 ^ 16 + c * 2 ^ 8 + d

abbrev pub IsInBlock : ℕ → ℕ → ℕ → Type 0
IsInBlock n base bits = n / 2 ^ (32 - bits) ≡ base / 2 ^ (32 - bits)

-- 0.0.0.0/32, 10/8, 127/8, 169.254/16, 172.16/12, 192.168/16, 224/8 and 255.255.255.255/32.
abbrev pub IsInBogonBlock : ℕ → Type 0
IsInBogonBlock n =
    IsInBlock n (address 0 0 0 0) 32
    ⊎ IsInBlock n (address 10 0 0 0) 8
    ⊎ IsInBlock n (address 127 0 0 0) 8
    ⊎ IsInBlock n (address 169 254 0 0) 16
    ⊎ IsInBlock n (address 172 16 0 0) 12
    ⊎ IsInBlock n (address 192 168 0 0) 16
    ⊎ IsInBlock n (address 224 0 0 0) 8
    ⊎ IsInBlock n (address 255 255 255 255) 32

-- The same by the bytes of the address.
abbrev HasBogonBytes : ℕ → ℕ → ℕ → ℕ → Type 0
HasBogonBytes a b c d =
    ((a ≡ 0) × (b ≡ 0) × (c ≡ 0) × (d ≡ 0))
    ⊎ (a ≡ 10)
    ⊎ (a ≡ 127)
    ⊎ ((a ≡ 169) × (b ≡ 254))
    ⊎ ((a ≡ 172) × (16 ≤ b) × (b ≤ 31))
    ⊎ ((a ≡ 192) × (b ≡ 168))
    ⊎ (a ≡ 224)
    ⊎ ((a ≡ 255) × (b ≡ 255) × (c ≡ 255) × (d ≡ 255))

is_bogon-HasBogonBytes :
    (a b c d p : ℕ)
    → 0 < p
    → p ≤ 65535
    → (is_bogon (inet (a ∷ b ∷ c ∷ d ∷ []) p) ≡ some true) ↔ HasBogonBytes a b c d
unfolding is_bogon is_global_unicast port is_any_local is_loopback is_site_local is_broadcast
    is_multicast is_link_local is_mapped_ipv4 bytes_eq
is_bogon-HasBogonBytes a b c d p h k = (λ e. ground arith, λ r. ground arith)

HasBogonBytes-IsInBogonBlock :
    (a b c d : ℕ)
    → a < 256
    → b < 256
    → c < 256
    → d < 256
    → HasBogonBytes a b c d ↔ IsInBogonBlock (address a b c d)
HasBogonBytes-IsInBogonBlock a b c d ha hb hc hd = (
  λ r. elim r [
    | inl q ↦ inl (omega arith)
    | inr (inl q) ↦ inr (inl (omega arith))
    | inr (inr (inl q)) ↦ inr (inr (inl (omega arith)))
    | inr (inr (inr (inl q))) ↦ inr (inr (inr (inl (omega arith))))
    | inr (inr (inr (inr (inl q)))) ↦ inr (inr (inr (inr (inl (omega arith)))))
    | inr (inr (inr (inr (inr (inl q))))) ↦ inr (inr (inr (inr (inr (inl (omega arith))))))
    | inr (inr (inr (inr (inr (inr (inl q)))))) ↦
        inr (inr (inr (inr (inr (inr (inl (omega arith)))))))
    | inr (inr (inr (inr (inr (inr (inr q)))))) ↦
        inr (inr (inr (inr (inr (inr (inr (omega arith)))))))
  ],
  λ r. elim r [
    | inl q ↦ inl (omega arith, omega arith, omega arith, omega arith)
    | inr (inl q) ↦ inr (inl (omega arith))
    | inr (inr (inl q)) ↦ inr (inr (inl (omega arith)))
    | inr (inr (inr (inl q))) ↦ inr (inr (inr (inl (omega arith, omega arith))))
    | inr (inr (inr (inr (inl q)))) ↦
        inr (inr (inr (inr (inl (omega arith, omega arith, omega arith)))))
    | inr (inr (inr (inr (inr (inl q))))) ↦
        inr (inr (inr (inr (inr (inl (omega arith, omega arith))))))
    | inr (inr (inr (inr (inr (inr (inl q)))))) ↦
        inr (inr (inr (inr (inr (inr (inl (omega arith)))))))
    | inr (inr (inr (inr (inr (inr (inr q)))))) ↦
        inr (inr (inr (inr (inr (inr (inr (omega arith, omega arith, omega arith, omega arith)))))))
  ],
)

-- An IPv4 address with a port from 1 to 65535 is a bogon exactly when it is in one of the blocks
-- 0.0.0.0/32, 10.0.0.0/8, 127.0.0.0/8, 169.254.0.0/16, 172.16.0.0/12, 192.168.0.0/16, 224.0.0.0/8 and
-- 255.255.255.255/32, as a number of 32 bits.
pub is_bogon_inet :
    (a b c d p : ℕ)
    → a < 256
    → b < 256
    → c < 256
    → d < 256
    → 0 < p
    → p ≤ 65535
    → (is_bogon (inet (a ∷ b ∷ c ∷ d ∷ []) p) ≡ some true) ↔ IsInBogonBlock (address a b c d)
is_bogon_inet a b c d p ha hb hc hd h k =
    let bytes = is_bogon-HasBogonBytes a b c d p h k in
    let blocks = HasBogonBytes-IsInBogonBlock a b c d ha hb hc hd in
    (λ e. blocks.0 (bytes.0 e), λ r. bytes.1 (blocks.1 r))

-- An address of the network for documentation.
pub documentation-is_bogon : is_bogon (inet (192 ∷ 0 ∷ 2 ∷ 1 ∷ []) 39001) ≡ some false
unfolding is_bogon is_global_unicast port is_any_local is_loopback is_site_local is_broadcast
    is_multicast is_link_local is_mapped_ipv4 bytes_eq
documentation-is_bogon = refl

-- No address of any family is ever recognised as an IPv4 address mapped into IPv6.
pub is_mapped_ipv4_never : (a : SocketAddress) → is_mapped_ipv4 a ≡ false
unfolding is_mapped_ipv4 bytes_eq
is_mapped_ipv4_never unspecified = refl
is_mapped_ipv4_never (inet ip p) = refl
is_mapped_ipv4_never (inet6 ip p) = refl

-- An IPv4 address with a port from 1 to 65535 that is mapped into IPv6 is not a bogon, whatever IPv4
-- address it is: one of the loopback network and a private one included.
pub is_bogon-mapped :
    (ip : List ℕ) (p : ℕ) → 0 < p → p ≤ 65535 → is_bogon (get_mapped_ipv6 (inet ip p)) ≡ some false
unfolding is_bogon is_global_unicast port is_any_local is_loopback is_site_local is_broadcast
    is_multicast is_link_local is_mapped_ipv4 bytes_eq get_mapped_ipv6
is_bogon-mapped ip p h k = ground arith

-- The IPv4 address is not read back from its IPv6 form.
pub get_mapped_ipv4-get_mapped_ipv6 :
    (ip : List ℕ) (p : ℕ) → get_mapped_ipv4 (get_mapped_ipv6 (inet ip p)) ≢ inet ip p
unfolding get_mapped_ipv4 get_mapped_ipv6 is_mapped_ipv4 bytes_eq
get_mapped_ipv4-get_mapped_ipv6 ip p e = cc
