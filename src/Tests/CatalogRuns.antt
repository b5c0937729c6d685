-- ===== src/Tests/CatalogRuns.antt =====
-- The addresses of src/modules/telegram/catalog.rs, read from its literals, and its theorems at concrete inputs.
use telegram_socks_ws_proxy.Base.{◌≡◌, ◌≤◌, refl, arith, some, true, false, ◌⊎◌, [], ◌∷◌}
use telegram_socks_ws_proxy.Base.Utf8.{codes}
use telegram_socks_ws_proxy.Net.Ip.{
  ipv4_text, parse_ip, parse_ipv4, read_ipv4_addr, read_ipv6_addr, read_octet,
}
use telegram_socks_ws_proxy.Telegram.Catalog.{
  u32_of_addr, in_ranges, is_telegram_ip, ip_to_dc_table, find_entry, ip_to_dc, tg_ipv6_ranges,
  ws_domains,
}
use telegram_socks_ws_proxy.Telegram.Catalog.Ranges.{
  is_telegram_octets, is_telegram_ip-ipv4_text, outside, ip_to_dc-is_telegram_ip,
}

ipv6_range : is_telegram_ip (codes "2001:67c:4e8::1") ≡ true
unfolding is_telegram_ip parse_ip read_ipv4_addr read_octet read_ipv6_addr in_ranges tg_ipv6_ranges
ipv6_range = refl

other_ipv6 : is_telegram_ip (codes "2001:db8::1") ≡ false
unfolding is_telegram_ip parse_ip read_ipv4_addr read_octet read_ipv6_addr in_ranges tg_ipv6_ranges
other_ipv6 = refl

domains : ws_domains 2 true ≡ codes "kws2-1.web.telegram.org" ∷ codes "kws2.web.telegram.org" ∷ []
unfolding ws_domains
domains = refl

found : ip_to_dc (codes "149.154.167.220") ≡ some (record { dc = 2; is_media = false })
unfolding ip_to_dc parse_ipv4 read_ipv4_addr read_octet ip_to_dc_table find_entry
found = refl

is_telegram_ip-ipv4_text_example :
    is_telegram_ip (ipv4_text 149 154 167 220) ≡ is_telegram_octets 149 154 167
is_telegram_ip-ipv4_text_example =
    is_telegram_ip-ipv4_text 149 154 167 220 (omega arith) (omega arith) (omega arith) (omega arith)

ip_to_dc-is_telegram_ip_example :
    (1 ≤ 2)
    × (2 ≤ 5)
    × ((is_telegram_ip (codes "149.154.167.220") ≡ true)
        ⊎ (u32_of_addr (parse_ipv4 (codes "149.154.167.220")) ≡ some outside))
ip_to_dc-is_telegram_ip_example = ip_to_dc-is_telegram_ip (codes "149.154.167.220") found
