-- ===== src/Tests/ConfigRuns.antt =====
-- The unit tests of src/config.rs and src/runtime/listen.rs, and their theorems at concrete inputs.
use telegram_socks_ws_proxy.Base.{
  ℕ, ◌+◌, ◌≡◌, refl, arith, true, none, some, List, [], ◌∷◌, ◌++◌, ◌⊎◌, inl, inr,
}
use telegram_socks_ws_proxy.Base.Utf8.{Str, codes}
use telegram_socks_ws_proxy.Base.Decimal.{to_string}
use telegram_socks_ws_proxy.Net.Ip.{
  IpAddr, v4, v6, read_ipv4_addr, read_octet, read_ipv6_addr, ipv6_text,
}
use telegram_socks_ws_proxy.Net.Address.{SocketAddr, parse_socket_addr, unspecified_v6, loopback_v6}
use telegram_socks_ws_proxy.Listen.{
  Sockets, Listeners, normalize_host, split_host_port, host_is_unspecified, bind_host,
}
use telegram_socks_ws_proxy.Listen.RoundTrip.{IsUnbracketed, split_host_port-to_string}
use telegram_socks_ws_proxy.Listen.Bound.{AddrsOf, Binds, distinct, bind_host-Binds}
use telegram_socks_ws_proxy.Config
use telegram_socks_ws_proxy.Config.{telegram_socks_proxy_link, link_addrs}

link_v6 :
    telegram_socks_proxy_link (codes "2001:db8::1") 1080
    ≡ codes "tg://socks?server=[2001:db8::1]&port=1080"
unfolding telegram_socks_proxy_link
link_v6 = refl

split_v6 : split_host_port {E = Str} (codes "[2001:db8::1]:8080") ≡ inr (codes "2001:db8::1", 8080)
unfolding split_host_port read_octet ipv6_text
split_v6 = refl

wildcard : host_is_unspecified (codes "[::]") ≡ true
unfolding host_is_unspecified read_ipv4_addr read_octet read_ipv6_addr
wildcard = refl

named : parse_socket_addr (codes "[x.de]" ++ (b':' ∷ to_string 8080)) ≡ none
unfolding parse_socket_addr to_string read_octet
named = refl

split_host_port-to_string_example :
    (h : Str) × IsUnbracketed (codes "[x.de]") h
    × (split_host_port {E = Str} (codes "[x.de]" ++ (b':' ∷ to_string 8080)) ≡ inr (h, 8080))
split_host_port-to_string_example =
    split_host_port-to_string (codes "[x.de]") 8080 (omega arith) named

-- Sockets that count the calls.
abbrev sockets : Sockets
sockets = record {
  Error = Str;
  Socket = ℕ;
  new = λ v6. inr 0;
  set_reuse_address = λ on s. inr (s + 1);
  set_only_v6 = λ on s. inr (s + 1);
  bind = λ addr s. inr (s + 1);
  listen = λ n s. inr (s + 1);
  set_nonblocking = λ on s. inr (s + 1);
  from_std = λ s. inr s;
}

abbrev no_names : Str → ℕ → sockets.Error ⊎ List SocketAddr
no_names host port = inl (codes "no names")

abbrev two_listeners : Listeners sockets no_names
two_listeners =
    (4, record { ip = v4 0 0 0 0; port = 1080; scope_id = 0 })
    ∷ (5, record { ip = v6 unspecified_v6; port = 1080; scope_id = 0 })
    ∷ []

bound : bind_host sockets no_names (codes "::") 1080 ≡ inr two_listeners
unfolding bind_host read_ipv4_addr read_octet read_ipv6_addr
bound = refl

bind_host-Binds_example :
    (addrs : List SocketAddr) × AddrsOf sockets no_names (normalize_host (codes "::")) 1080 addrs
    × (¬ (addrs ≡ []))
    × Binds sockets no_names (distinct [] addrs) two_listeners
bind_host-Binds_example = bind_host-Binds sockets no_names (codes "::") 1080 two_listeners bound

abbrev interfaces : List IpAddr
interfaces =
    v4 127 0 0 1
    ∷ v6 (0x2001 ∷ 0xdb8 ∷ 0 ∷ 0 ∷ 0 ∷ 0 ∷ 0 ∷ 1 ∷ [])
    ∷ v6 (0xfe80 ∷ 0 ∷ 0 ∷ 0 ∷ 0 ∷ 0 ∷ 0 ∷ 1 ∷ [])
    ∷ v4 192 168 1 7
    ∷ v6 loopback_v6
    ∷ v4 127 0 0 1
    ∷ []

announced :
    link_addrs (some interfaces) (codes "::")
    ≡ codes "2001:db8::1" ∷ codes "192.168.1.7" ∷ codes "127.0.0.1" ∷ codes "::1" ∷ []
unfolding link_addrs read_ipv4_addr read_octet read_ipv6_addr ipv6_text Config.le_ranked
announced = refl
