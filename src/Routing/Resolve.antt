-- ===== src/Routing/Resolve.antt =====
-- src/modules/routing.rs: the data centre of a client's init packet, and what is learned from it.
pub mod Consistent
use telegram_socks_ws_proxy.Base.{
  ℕ, ◌-◌, ◌%◌, if◌then◌else◌, Bool, true, false, Option, none, some, List,
}
use telegram_socks_ws_proxy.Base.Utf8.{Str}
use telegram_socks_ws_proxy.Telegram.Cipher.{Cipher}
use telegram_socks_ws_proxy.Telegram.Init.{TelegramInitInfo, extract_dc, patch_init_dc}
use telegram_socks_ws_proxy.Telegram.Catalog.{TelegramIpEntry, ip_to_dc}
use telegram_socks_ws_proxy.Routing.Ipv6Cache.{Ipv6Cache, learned_ipv6_entry, remember_ipv6_entry}

pub record ResolvedTelegramInit : Type 0 where
  pub packet : List ℕ
  pub info : TelegramInitInfo
  pub patched : Bool

-- The `i16` of an entry, as its bit pattern.
abbrev pub entry_dc : TelegramIpEntry → ℕ
entry_dc entry = if entry.is_media then (0x10000 - entry.dc) % 0x10000 else entry.dc

abbrev pub or_else : Option TelegramIpEntry → Option TelegramIpEntry → Option TelegramIpEntry
or_else (some e) other = some e
or_else none other = other

unfoldable pub known_entry : Str → Ipv6Cache → Option TelegramIpEntry
known_entry host cache = or_else (learned_ipv6_entry host cache) (ip_to_dc host)

module _ (c : Cipher) where
  -- The packet as it came, or patched with an entry: its `info.dc` is then the entry's.
  unfoldable pub patched_with :
      List ℕ → TelegramInitInfo → Option TelegramIpEntry → ResolvedTelegramInit
  patched_with packet info none = record { packet = packet; info = info; patched = false }
  patched_with packet info (some entry) = record {
    packet = patch_init_dc c packet (entry_dc entry);
    info = record { dc = some entry.dc; is_media = entry.is_media };
    patched = true;
  }

  unfoldable pub resolve_info : Str → Ipv6Cache → List ℕ → TelegramInitInfo → ResolvedTelegramInit
  unfolding patched_with
  resolve_info host cache packet info = elim info.dc [
    | some dc ↦ record { packet = packet; info = info; patched = false }
    | none ↦ patched_with packet info (known_entry host cache)
  ]

  unfoldable pub resolve_telegram_init : Str → Ipv6Cache → List ℕ → ResolvedTelegramInit
  unfolding resolve_info
  resolve_telegram_init host cache packet = resolve_info host cache packet (extract_dc c packet)

unfoldable pub remember_telegram_ipv6 : Str → Bool → TelegramInitInfo → Ipv6Cache → Ipv6Cache
remember_telegram_ipv6 host target_is_ipv6 info cache =
    if target_is_ipv6
    then elim info.dc [
      | some dc ↦ remember_ipv6_entry host (record { dc = dc; is_media = info.is_media }) cache
      | none ↦ cache
    ]
    else cache
