-- ===== src/Listen.antt =====
-- src/runtime/listen.rs: the addresses that the program listens on. The resolver of names and the calls on sockets are
-- parameters.
pub mod RoundTrip
pub mod Bound
use telegram_socks_ws_proxy.Base.{
  ℕ, if◌then◌else◌, Bool, true, false, ◌||◌, Option, none, some, List, [], ◌∷◌, ◌++◌, map, ◌⊎◌, inl,
  inr,
}
use telegram_socks_ws_proxy.Base.Utf8.{Str, codes}
use telegram_socks_ws_proxy.Base.Text.{strip_prefix, strip_suffix, rsplit_once}
use telegram_socks_ws_proxy.Base.Decimal.{parse_u16, to_string}
use telegram_socks_ws_proxy.Net.Ip.{IpAddr, v4, v6, ◌>>=◌, parse_ip}
use telegram_socks_ws_proxy.Net.Address.{
  SocketAddr, parse_socket_addr, ip_text, eq_addr, is_unspecified, unspecified_v6,
}
use mathlib.Core.Option

-- The errors of this file, and one of the parameters.
pub data ListenError (E : Type 0) : Type 0 where
  addr_not_available : Str → ListenError E
  invalid_address : Str → ListenError E
  invalid_port : Str → ListenError E
  failed : E → ListenError E

unfoldable pub normalize_host : Str → Str
unfolding strip_prefix strip_suffix
normalize_host host = Option.get_or (strip_prefix b'[' host >>= strip_suffix b']') host

unfoldable pub host_is_unspecified : Str → Bool
unfolding normalize_host parse_ip is_unspecified
host_is_unspecified host =
    Option.get_or (Option.map is_unspecified (parse_ip (normalize_host host))) false

module _ {E : Type 0} where
  -- The text of the error of the port is left out.
  abbrev pub with_port : Str → Str → Option ℕ → ListenError E ⊎ (Str × ℕ)
  with_port addr host none = inl (invalid_port addr)
  with_port addr host (some port) = inr (normalize_host host, port)

  unfoldable pub split_parts : Str → Option (Str × Str) → ListenError E ⊎ (Str × ℕ)
  unfolding parse_u16
  split_parts addr none = inl (invalid_address addr)
  split_parts addr (some (host, port)) = with_port addr host (parse_u16 port)

  unfoldable pub split_parsed : Str → Option SocketAddr → ListenError E ⊎ (Str × ℕ)
  unfolding ip_text rsplit_once split_parts
  split_parsed addr (some parsed) = inr (ip_text parsed.ip, parsed.port)
  split_parsed addr none = split_parts addr (rsplit_once b':' addr)

  unfoldable pub split_host_port : Str → ListenError E ⊎ (Str × ℕ)
  unfolding parse_socket_addr split_parsed
  split_host_port addr = split_parsed addr (parse_socket_addr addr)

-- The calls on a socket.
pub record Sockets : Type 1 where
  pub Error : Type 0
  pub Socket : Type 0
  pub new : Bool → Error ⊎ Socket
  pub set_reuse_address : Bool → Socket → Error ⊎ Socket
  pub set_only_v6 : Bool → Socket → Error ⊎ Socket
  pub bind : SocketAddr → Socket → Error ⊎ Socket
  pub listen : ℕ → Socket → Error ⊎ Socket
  pub set_nonblocking : Bool → Socket → Error ⊎ Socket
  pub from_std : Socket → Error ⊎ Socket

infixl 5 ◌>>?◌
abbrev pub ◌>>?◌ {ℓ κ μ} : {E : Type ℓ} {A : Type κ} {B : Type μ} → E ⊎ A → (A → E ⊎ B) → E ⊎ B
inl e >>? f = inl e
inr a >>? f = f a

abbrev pub addr_is_ipv6 : SocketAddr → Bool
addr_is_ipv6 addr = elim addr.ip [ v4 a b c d ↦ false | v6 groups ↦ true ]

unfoldable pub contains_addr : SocketAddr → List SocketAddr → Bool
unfolding eq_addr
contains_addr addr [] = false
contains_addr addr (a ∷ seen) = eq_addr a addr || contains_addr addr seen

module _ (api : Sockets) (to_socket_addrs : Str → ℕ → api.Error ⊎ List SocketAddr) where
  abbrev pub Listeners : Type 0
  Listeners = List (api.Socket × SocketAddr)

  unfoldable pub bind_socket : SocketAddr → Bool → api.Error ⊎ api.Socket
  bind_socket addr v6_only =
      api.new (addr_is_ipv6 addr)
      >>? api.set_reuse_address true
      >>? (λ socket. if addr_is_ipv6 addr then api.set_only_v6 v6_only socket else inr socket)
      >>? api.bind addr
      >>? api.listen 4096
      >>? api.set_nonblocking true

  abbrev pub as_failed {ℓ} : {A : Type ℓ} → api.Error ⊎ A → ListenError api.Error ⊎ A
  as_failed (inl e) = inl (failed e)
  as_failed (inr a) = inr a

  abbrev pub push_listener : api.Socket × SocketAddr → Listeners → ListenError api.Error ⊎ Listeners
  push_listener listener later = inr (listener ∷ later)

  -- The loop over the addresses, with those that were seen before.
  unfoldable pub bind_specs :
      List SocketAddr → List (SocketAddr × Bool) → ListenError api.Error ⊎ Listeners
  unfolding bind_socket contains_addr
  bind_specs seen [] = inr []
  bind_specs seen ((addr, v6_only) ∷ specs) =
      if contains_addr addr seen
      then bind_specs seen specs
      else as_failed (bind_socket addr v6_only >>? api.from_std)
        >>? (λ listener. bind_specs (addr ∷ seen) specs >>? push_listener (listener, addr))

  abbrev pub wildcards : ℕ → List (SocketAddr × Bool)
  wildcards port =
      (record { ip = v4 0 0 0 0; port = port; scope_id = 0 }, false)
      ∷ (record { ip = v6 unspecified_v6; port = port; scope_id = 0 }, true)
      ∷ []

  unfoldable pub specs_of : Str → ℕ → ListenError api.Error ⊎ List (SocketAddr × Bool)
  unfolding host_is_unspecified
  specs_of normalized port =
      if host_is_unspecified normalized
      then inr (wildcards port)
      else as_failed (to_socket_addrs normalized port)
        >>? (λ addrs. inr (map (λ addr. (addr, addr_is_ipv6 addr)) addrs))

  abbrev pub bind_all : Str → ℕ → List (SocketAddr × Bool) → ListenError api.Error ⊎ Listeners
  bind_all host port [] =
      inl (
        addr_not_available
          (codes "no addresses resolved for " ++ (host ++ (b':' ∷ to_string port))))
  bind_all host port (spec ∷ specs) = bind_specs [] (spec ∷ specs)

  unfoldable pub bind_host : Str → ℕ → ListenError api.Error ⊎ Listeners
  unfolding normalize_host specs_of bind_specs
  bind_host host port = specs_of (normalize_host host) port >>? bind_all host port
