-- ===== src/Config.antt =====
-- src/config.rs: the configuration, and the links by which the proxy is announced. The addresses of the network
-- interfaces are a parameter, `none` if they cannot be listed.
pub mod Sorting
pub mod Priority
pub mod Complete
pub mod Links
use telegram_socks_ws_proxy.Base.{
  ℕ, ltb, ◌==◌, if◌then◌else◌, Bool, true, false, not, ◌&&◌, ◌||◌, Option, none, some, List, [],
  ◌∷◌, ◌++◌, map, ◌⊎◌, inl, inr,
}
use telegram_socks_ws_proxy.Base.Utf8.{Str, codes}
use telegram_socks_ws_proxy.Base.Text.{strip_prefix, strip_suffix, contains_str}
use telegram_socks_ws_proxy.Base.Decimal.{to_string}
use telegram_socks_ws_proxy.Net.Ip.{IpAddr, v4, v6, ◌>>=◌, parse_ip}
use telegram_socks_ws_proxy.Net.Address.{
  ip_text, is_unspecified, is_loopback, is_multicast, is_unique_local, is_unicast_link_local,
}
use telegram_socks_ws_proxy.Socks.{SocksAuthConfig}
use telegram_socks_ws_proxy.Socks.Users.{parse_socks_auth}
use mathlib.Core.Option

pub record CliConfig : Type 0 where
  pub host : Str
  pub port : ℕ
  pub log_level : Str
  pub read_timeout_secs : ℕ
  pub connect_timeout_secs : ℕ
  pub config_file : Str
  pub health_addr : Str
  pub socks_users : Str

pub record RoutedConfig : Type 0 where
  pub read_timeout_secs : ℕ
  pub connect_timeout_secs : ℕ
  pub socks_auth : Option SocksAuthConfig

abbrev pub with_auth : CliConfig → Str ⊎ Option SocksAuthConfig → Str ⊎ RoutedConfig
with_auth cfg (inl e) = inl e
with_auth cfg (inr auth) = inr (record {
  read_timeout_secs = cfg.read_timeout_secs;
  connect_timeout_secs = cfg.connect_timeout_secs;
  socks_auth = auth;
})

unfoldable pub try_from : CliConfig → Str ⊎ RoutedConfig
unfolding parse_socks_auth
try_from cfg = with_auth cfg (parse_socks_auth cfg.socks_users)

unfoldable pub normalize_host : Str → Str
unfolding strip_prefix strip_suffix
normalize_host host = Option.get_or (strip_prefix b'[' host >>= strip_suffix b']') host

abbrev pub is_given {ℓ} : {A : Type ℓ} → Option A → Bool
is_given none = false
is_given (some a) = true

unfoldable pub has_char : ℕ → Str → Bool
has_char c [] = false
has_char c (d ∷ s) = d == c || has_char c s

unfoldable pub server_of : Str → Str
unfolding has_char strip_prefix strip_suffix
server_of host =
    if has_char b':' host
      && not (is_given (strip_prefix b'[' host))
      && not (is_given (strip_suffix b']' host))
    then b'[' ∷ (host ++ (b']' ∷ []))
    else host

unfoldable pub telegram_socks_proxy_link : Str → ℕ → Str
unfolding normalize_host server_of to_string
telegram_socks_proxy_link host port =
    codes "tg://socks?server="
    ++ (server_of (normalize_host host) ++ (codes "&port=" ++ to_string port))

unfoldable pub is_unspecified_host : Str → Bool
unfolding normalize_host parse_ip is_unspecified
is_unspecified_host host =
    Option.get_or (Option.map is_unspecified (parse_ip (normalize_host host))) false

unfoldable pub is_public_ipv6 : List ℕ → Bool
unfolding is_loopback is_unspecified is_multicast is_unique_local is_unicast_link_local
is_public_ipv6 groups =
    not (is_loopback (v6 groups))
    && not (is_unspecified (v6 groups))
    && not (is_multicast groups)
    && not (is_unique_local groups)
    && not (is_unicast_link_local groups)

-- The arms of the match that an IPv6 address can take, and those of an IPv4 address.
unfoldable pub announce_priority : IpAddr → ℕ
unfolding is_public_ipv6 is_loopback is_unspecified is_unicast_link_local
announce_priority (v6 groups) =
    if is_public_ipv6 groups
    then 0
    else if not (is_loopback (v6 groups))
        && not (is_unspecified (v6 groups))
        && not (is_unicast_link_local groups)
    then 2
    else if is_loopback (v6 groups)
    then 4
    else 255
announce_priority (v4 a b c d) =
    if not (is_loopback (v4 a b c d)) then 1 else if is_loopback (v4 a b c d) then 3 else 255

-- The order of `sort_by`, and the sort, which is stable.
unfoldable pub le_str : Str → Str → Bool
le_str [] t = true
le_str (c ∷ s) [] = false
le_str (c ∷ s) (d ∷ t) = ltb c d || (c == d && le_str s t)

abbrev pub Ranked : Type 0
Ranked = ℕ × Str

unfoldable pub le_ranked : Ranked → Ranked → Bool
unfolding le_str
le_ranked (a, s) (b, t) = ltb a b || (a == b && le_str s t)

unfoldable pub insert : Ranked → List Ranked → List Ranked
insert x [] = x ∷ []
insert x (y ∷ ys) = let later = insert x ys in if le_ranked x y then x ∷ y ∷ ys else y ∷ later

unfoldable pub sort : List Ranked → List Ranked
unfolding insert
sort [] = []
sort (x ∷ xs) = insert x (sort xs)

-- The loop over the interfaces, with the texts that were seen before.
unfoldable pub rank : List Str → List IpAddr → List Ranked
unfolding ip_text announce_priority contains_str
rank seen [] = []
rank seen (ip ∷ ips) =
    let host = ip_text ip in
    let skipped = rank seen ips in
    let later = rank (host ∷ seen) ips in
    if contains_str host seen
    then skipped
    else if ltb (announce_priority ip) 255
    then (announce_priority ip, host) ∷ later
    else later

abbrev pub or_loopback : List Str → List Str
or_loopback [] = codes "127.0.0.1" ∷ codes "::1" ∷ []
or_loopback (addr ∷ addrs) = addr ∷ addrs

abbrev pub host_of : Ranked → Str
host_of (score, host) = host

unfoldable pub discover_link_addrs : Option (List IpAddr) → List Str
unfolding rank sort
discover_link_addrs none = []
discover_link_addrs (some ips) = or_loopback (map host_of (sort (rank [] ips)))

unfoldable pub push_new : List Str → List Str → List Str
unfolding contains_str
push_new seen [] = []
push_new seen (addr ∷ addrs) =
    let skipped = push_new seen addrs in
    let later = push_new (addr ∷ seen) addrs in
    if contains_str addr seen then skipped else addr ∷ later

abbrev pub or_host : Str → List Str → List Str
or_host host [] = host ∷ []
or_host host (addr ∷ addrs) = addr ∷ addrs

unfoldable pub link_addrs : Option (List IpAddr) → Str → List Str
unfolding normalize_host is_unspecified_host discover_link_addrs push_new
link_addrs interfaces host =
    let normalized = normalize_host host in
    if is_unspecified_host normalized
    then or_host normalized (push_new [] (discover_link_addrs interfaces))
    else normalized ∷ []

unfoldable pub telegram_socks_proxy_links : Option (List IpAddr) → Str → ℕ → List Str
unfolding link_addrs telegram_socks_proxy_link
telegram_socks_proxy_links interfaces host port =
    map (λ addr. telegram_socks_proxy_link addr port) (link_addrs interfaces host)
