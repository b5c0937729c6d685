-- ===== src/Routing/Ipv6Cache.antt =====
-- src/modules/routing/ipv6_cache.rs: the data centres learned for IPv6 addresses. The `HashMap` is a function
-- from the groups of an address into `Option`.
use telegram_socks_ws_proxy.Base.{ℕ, if◌then◌else◌, Option, none, some, List}
use telegram_socks_ws_proxy.Base.Utf8.{Str}
use telegram_socks_ws_proxy.Net.Ip.{parse_ipv6}
use telegram_socks_ws_proxy.Base.Text.{eq_str}
use telegram_socks_ws_proxy.Telegram.Catalog.{TelegramIpEntry}

pub record Ipv6Cache : Type 0 where
  pub entries : List ℕ → Option TelegramIpEntry

abbrev pub entry_at : Ipv6Cache → Option (List ℕ) → Option TelegramIpEntry
entry_at cache none = none
entry_at cache (some ip) = cache.entries ip

unfoldable pub learned_ipv6_entry : Str → Ipv6Cache → Option TelegramIpEntry
learned_ipv6_entry host cache = entry_at cache (parse_ipv6 host)

abbrev pub insert_at : Option (List ℕ) → TelegramIpEntry → Ipv6Cache → Ipv6Cache
insert_at none entry cache = cache
insert_at (some ip) entry cache = record {
  entries = λ other. if eq_str other ip then some entry else cache.entries other;
}

unfoldable pub remember_ipv6_entry : Str → TelegramIpEntry → Ipv6Cache → Ipv6Cache
remember_ipv6_entry host entry cache = insert_at (parse_ipv6 host) entry cache
