-- ===== src/Net/Address.antt =====
-- `SocketAddr` of the standard library: reading, and the tests on addresses that the program uses.
use telegram_socks_ws_proxy.Base.{
  ℕ, ◌==◌, Bool, true, false, ◌&&◌, Option, none, some, List, [], ◌∷◌, length, bit_and, ◌^◌,
}
use telegram_socks_ws_proxy.Base.Utf8.{Str}
use telegram_socks_ws_proxy.Base.Text.{eq_str}
use telegram_socks_ws_proxy.Net.Ip.{
  IpAddr, v4, v6, ◌>>=◌, at_end, read_number, read_given_char, read_ipv4_addr, read_ipv6_addr,
  ipv4_text, ipv6_text,
}

-- The flow information is 0 in every address that the program sees.
pub record SocketAddr : Type 0 where
  pub ip : IpAddr
  pub port : ℕ
  pub scope_id : ℕ

unfoldable pub read_port : Str → Option (ℕ × Str)
unfolding read_number read_given_char
read_port s = do s' ← read_given_char b':' s; read_number 10 (length s') true 65536 s'

-- A scope that cannot be read is 0, and nothing of it is taken.
unfoldable pub read_scope_id : Str → ℕ × Str
unfolding read_number read_given_char
read_scope_id s =
    elim (read_given_char b'%' s >>= λ s'. read_number 10 (length s') true (2 ^ 32) s') [
      | none ↦ (0, s)
      | some r ↦ r
    ]

unfoldable pub read_socket_addr_v4 : Str → Option (SocketAddr × Str)
unfolding read_ipv4_addr read_port
read_socket_addr_v4 s = do
  (a, b, c, d, s₁) ← read_ipv4_addr s
  (port, s₂) ← read_port s₁
  some (record { ip = v4 a b c d; port = port; scope_id = 0 }, s₂)

unfoldable pub read_socket_addr_v6 : Str → Option (SocketAddr × Str)
unfolding read_ipv6_addr read_port read_scope_id
read_socket_addr_v6 s = do
  s₁ ← read_given_char b'[' s
  (groups, s₂) ← read_ipv6_addr s₁
  let (scope_id, s₃) = read_scope_id s₂
  s₄ ← read_given_char b']' s₃
  (port, s₅) ← read_port s₄
  some (record { ip = v6 groups; port = port; scope_id = scope_id }, s₅)

abbrev pub whole : Option (SocketAddr × Str) → Option SocketAddr
whole none = none
whole (some (addr, rest)) = at_end addr rest

unfoldable pub parse_socket_addr : Str → Option SocketAddr
unfolding read_socket_addr_v4 read_socket_addr_v6
parse_socket_addr s = elim (read_socket_addr_v4 s) [
  | some r ↦ whole (some r)
  | none ↦ whole (read_socket_addr_v6 s)
]

unfoldable pub ip_text : IpAddr → Str
ip_text (v4 a b c d) = ipv4_text a b c d
ip_text (v6 groups) = ipv6_text groups

unfoldable pub eq_ip : IpAddr → IpAddr → Bool
unfolding eq_str
eq_ip (v4 a b c d) (v4 a' b' c' d') = a == a' && (b == b' && (c == c' && d == d'))
eq_ip (v6 groups) (v6 groups') = eq_str groups groups'
eq_ip (v4 a b c d) (v6 groups) = false
eq_ip (v6 groups) (v4 a b c d) = false

unfoldable pub eq_addr : SocketAddr → SocketAddr → Bool
unfolding eq_ip
eq_addr x y = eq_ip x.ip y.ip && (x.port == y.port && x.scope_id == y.scope_id)

abbrev pub unspecified_v6 : List ℕ
unspecified_v6 = 0 ∷ 0 ∷ 0 ∷ 0 ∷ 0 ∷ 0 ∷ 0 ∷ 0 ∷ []

abbrev pub loopback_v6 : List ℕ
loopback_v6 = 0 ∷ 0 ∷ 0 ∷ 0 ∷ 0 ∷ 0 ∷ 0 ∷ 1 ∷ []

unfoldable pub is_unspecified : IpAddr → Bool
unfolding eq_str
is_unspecified (v4 a b c d) = a == 0 && (b == 0 && (c == 0 && d == 0))
is_unspecified (v6 groups) = eq_str groups unspecified_v6

unfoldable pub is_loopback : IpAddr → Bool
unfolding eq_str
is_loopback (v4 a b c d) = a == 127
is_loopback (v6 groups) = eq_str groups loopback_v6

unfoldable pub first_group : List ℕ → ℕ
first_group [] = 0
first_group (g ∷ gs) = g

-- Of IPv6 addresses.
unfoldable pub is_multicast : List ℕ → Bool
unfolding first_group
is_multicast groups = bit_and (first_group groups) 0xff00 == 0xff00

unfoldable pub is_unique_local : List ℕ → Bool
unfolding first_group
is_unique_local groups = bit_and (first_group groups) 0xfe00 == 0xfc00

unfoldable pub is_unicast_link_local : List ℕ → Bool
unfolding first_group
is_unicast_link_local groups = bit_and (first_group groups) 0xffc0 == 0xfe80
