-- ===== src/Config/Links.antt =====
-- The addresses that src/config.rs announces for a host that stands for all interfaces.
use telegram_socks_ws_proxy.Base.{◌≡◌, false, some, List, map, All, Among}
use telegram_socks_ws_proxy.Base.Utf8.{Str}
use telegram_socks_ws_proxy.Base.Text.{contains_str}
use telegram_socks_ws_proxy.Net.Ip.{IpAddr}
use telegram_socks_ws_proxy.Net.Address.{ip_text}
use telegram_socks_ws_proxy.Config.{Ranked, host_of, or_loopback}
use mathlib.Core.Option
use telegram_socks_ws_proxy.Config.Priority.{priority_of, IsOrdered, AllDistinct}
use telegram_socks_ws_proxy.Config.Complete.{IsAnnounced}

-- A ranked address comes from an interface.
abbrev pub IsFrom : List IpAddr → Ranked → Type 0
IsFrom ips (score, host) =
    (ip : IpAddr) × Among ip ips × (host ≡ ip_text ip) × (priority_of ip ≡ some score)

-- None of them was seen before.
abbrev IsNew : List Str → Ranked → Type 0
IsNew seen (score, host) = contains_str host seen ≡ false

-- What is announced for all interfaces.
abbrev pub IsAnnouncement : List IpAddr → List Str → Type 0
IsAnnouncement ips addrs =
    (ranked : List Ranked) × IsOrdered ranked
    × AllDistinct ranked
    × All (IsFrom ips) ranked
    × ((ip : IpAddr) → Among ip ips → IsAnnounced ips ranked ip)
    × (addrs ≡ or_loopback (map host_of ranked))
