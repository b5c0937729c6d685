-- ===== src/Telegram/Catalog.antt =====
-- src/modules/telegram/catalog.rs: the address ranges of Telegram and the data centres in them.
pub mod Ranges
use telegram_socks_ws_proxy.Base.{
  ℕ, ◌+◌, ◌*◌, leb, if◌then◌else◌, Bool, true, false, ◌&&◌, ◌||◌, Option, none, some, List, [], ◌∷◌,
  ◌++◌,
}
use telegram_socks_ws_proxy.Base.Utf8.{Str, codes}
use telegram_socks_ws_proxy.Net.Ip.{
  IpAddr, v4, v6, parse_ip, parse_ipv4, parse_ipv6, read_ipv4_addr, read_octet, octet_text,
}
use mathlib.Core.Option
use Prim.Native.String.{String}

pub record TelegramIpEntry : Type 0 where
  pub dc : ℕ
  pub is_media : Bool

-- `u32::from` and `u128::from`.
abbrev pub u32_of : ℕ → ℕ → ℕ → ℕ → ℕ
u32_of a b c d = ((a * 256 + b) * 256 + c) * 256 + d

abbrev pub u128_of : ℕ → List ℕ → ℕ
u128_of acc [] = acc
u128_of acc (g ∷ gs) = u128_of (acc * 65536 + g) gs

abbrev pub u32_of_addr : Option IpAddr → Option ℕ
u32_of_addr (some (v4 a b c d)) = some (u32_of a b c d)
u32_of_addr (some (v6 groups)) = none
u32_of_addr none = none

-- The literals of the tables. `unwrap` panics where these are 0, which no entry of the tables is.
unfoldable pub ip_to_u32 : String → ℕ
unfolding parse_ipv4 read_ipv4_addr read_octet
ip_to_u32 ip = Option.get_or (u32_of_addr (parse_ipv4 (codes ip))) 0

unfoldable pub ipv6_to_u128 : String → ℕ
unfolding parse_ipv6 read_octet
ipv6_to_u128 ip = Option.get_or (Option.map (u128_of 0) (parse_ipv6 (codes ip))) 0

unfoldable pub range : String → String → ℕ → Bool → ℕ × ℕ × TelegramIpEntry
unfolding ip_to_u32
range start end dc is_media =
    (ip_to_u32 start, ip_to_u32 end, record { dc = dc; is_media = is_media })

unfoldable pub ip_to_dc_table : List (ℕ × ℕ × TelegramIpEntry)
unfolding range
ip_to_dc_table =
    range "149.154.175.50" "149.154.175.50" 1 false
    ∷ range "149.154.175.51" "149.154.175.51" 1 false
    ∷ range "149.154.175.53" "149.154.175.53" 1 false
    ∷ range "149.154.175.54" "149.154.175.54" 1 false
    ∷ range "149.154.175.52" "149.154.175.52" 1 true
    ∷ range "149.154.167.220" "149.154.167.220" 2 false
    ∷ range "149.154.167.41" "149.154.167.41" 2 false
    ∷ range "149.154.167.50" "149.154.167.50" 2 false
    ∷ range "149.154.167.51" "149.154.167.51" 2 false
    ∷ range "95.161.76.100" "95.161.76.100" 2 false
    ∷ range "149.154.167.35" "149.154.167.35" 2 true
    ∷ range "149.154.167.222" "149.154.167.222" 2 true
    ∷ range "149.154.167.151" "149.154.167.151" 2 true
    ∷ range "149.154.167.223" "149.154.167.223" 2 true
    ∷ range "149.154.162.123" "149.154.162.123" 2 true
    ∷ range "149.154.175.100" "149.154.175.100" 3 false
    ∷ range "149.154.175.101" "149.154.175.101" 3 false
    ∷ range "149.154.175.102" "149.154.175.102" 3 true
    ∷ range "149.154.167.91" "149.154.167.91" 4 false
    ∷ range "149.154.167.92" "149.154.167.92" 4 false
    ∷ range "149.154.164.250" "149.154.164.250" 4 true
    ∷ range "149.154.166.120" "149.154.166.120" 4 true
    ∷ range "149.154.166.121" "149.154.166.121" 4 true
    ∷ range "149.154.167.118" "149.154.167.118" 4 true
    ∷ range "149.154.165.111" "149.154.165.111" 4 true
    ∷ range "91.108.56.100" "91.108.56.100" 5 false
    ∷ range "91.108.56.101" "91.108.56.101" 5 false
    ∷ range "91.108.56.116" "91.108.56.116" 5 false
    ∷ range "91.108.56.126" "91.108.56.126" 5 false
    ∷ range "149.154.171.5" "149.154.171.5" 5 false
    ∷ range "91.108.56.102" "91.108.56.102" 5 true
    ∷ range "91.108.56.128" "91.108.56.128" 5 true
    ∷ range "91.108.56.151" "91.108.56.151" 5 true
    ∷ []

unfoldable pub tg_ipv4_ranges : List (ℕ × ℕ)
unfolding ip_to_u32
tg_ipv4_ranges =
    (ip_to_u32 "185.76.151.0", ip_to_u32 "185.76.151.255")
    ∷ (ip_to_u32 "149.154.160.0", ip_to_u32 "149.154.175.255")
    ∷ (ip_to_u32 "91.105.192.0", ip_to_u32 "91.105.193.255")
    ∷ (ip_to_u32 "91.108.0.0", ip_to_u32 "91.108.255.255")
    ∷ []

unfoldable pub tg_ipv6_ranges : List (ℕ × ℕ)
unfolding ipv6_to_u128
tg_ipv6_ranges =
    (ipv6_to_u128 "2001:67c:4e8::", ipv6_to_u128 "2001:67c:4e8:ffff:ffff:ffff:ffff:ffff")
    ∷ (ipv6_to_u128 "2001:b28:f23d::", ipv6_to_u128 "2001:b28:f23d:ffff:ffff:ffff:ffff:ffff")
    ∷ (ipv6_to_u128 "2001:b28:f23f::", ipv6_to_u128 "2001:b28:f23f:ffff:ffff:ffff:ffff:ffff")
    ∷ []

unfoldable pub in_ranges : ℕ → List (ℕ × ℕ) → Bool
in_ranges value [] = false
in_ranges value ((start, end) ∷ rest) = (leb start value && leb value end) || in_ranges value rest

unfoldable pub is_telegram_addr : Option IpAddr → Bool
is_telegram_addr (some (v4 a b c d)) = in_ranges (u32_of a b c d) tg_ipv4_ranges
is_telegram_addr (some (v6 groups)) = in_ranges (u128_of 0 groups) tg_ipv6_ranges
is_telegram_addr none = false

unfoldable pub is_telegram_ip : Str → Bool
unfolding is_telegram_addr
is_telegram_ip ip = is_telegram_addr (parse_ip ip)

unfoldable pub find_entry : ℕ → List (ℕ × ℕ × TelegramIpEntry) → Option TelegramIpEntry
find_entry value [] = none
find_entry value ((start, end, entry) ∷ rest) =
    if leb start value && leb value end then some entry else find_entry value rest

abbrev pub entry_of : Option ℕ → Option TelegramIpEntry
entry_of none = none
entry_of (some value) = find_entry value ip_to_dc_table

unfoldable pub ip_to_dc : Str → Option TelegramIpEntry
ip_to_dc ip = entry_of (u32_of_addr (parse_ipv4 ip))

unfoldable pub domain : ℕ → Str → Str
unfolding octet_text
domain dc suffix = codes "kws" ++ (octet_text dc ++ (suffix ++ codes ".web.telegram.org"))

unfoldable pub ws_domains : ℕ → Bool → List Str
unfolding domain
ws_domains dc is_media =
    if is_media
    then domain dc (codes "-1") ∷ domain dc [] ∷ []
    else domain dc [] ∷ domain dc (codes "-1") ∷ []
