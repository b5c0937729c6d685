-- ===== src/Tests/RoutingRuns.antt =====
-- The unit tests of src/modules/routing.rs over a toy cipher, and its theorems at concrete inputs.
use telegram_socks_ws_proxy.Telegram.Splitter
use telegram_socks_ws_proxy.Ws.Frame.{build_frame}
use telegram_socks_ws_proxy.Ws.Client.{send}
use telegram_socks_ws_proxy.Relay.{Bridge, reading, receiving, down_turn, bridge_ws_tcp, run}
use telegram_socks_ws_proxy.Relay.Downlink.{server_bytes, ping}
use telegram_socks_ws_proxy.Relay.Faithful.{IsFaithful}
use telegram_socks_ws_proxy.Routing.Client.Bridged.{Arrives, bridge_route, route_client-IsFaithful}
use telegram_socks_ws_proxy.Base.{
  suc, ◌≡◌, refl, arith, true, false, none, some, Option, [], ◌∷◌, ◌++◌, if◌then◌else◌,
}
use telegram_socks_ws_proxy.Base.Utf8.{Str, codes}
use telegram_socks_ws_proxy.Base.Stream.{
  Stream, closed, ok, read_exact, write_all, getrandom, flush,
}
use telegram_socks_ws_proxy.Net.Ip.{
  ipv4_text, parse_ip, parse_ipv4, parse_ipv6, read_ipv4_addr, read_octet,
}
use telegram_socks_ws_proxy.Telegram.Init.{extract_dc, patch_init_dc}
use telegram_socks_ws_proxy.Telegram.Catalog.{
  is_telegram_ip, ip_to_dc, ip_to_dc_table, find_entry, in_ranges, tg_ipv4_ranges, ws_domains,
}
use telegram_socks_ws_proxy.Ws.Types.{WsError, status_code}
use telegram_socks_ws_proxy.Socks.{connect, handle_socks5_handshake, contains, is_ipv6}
use telegram_socks_ws_proxy.Base.Text.{eq_str}
use telegram_socks_ws_proxy.Socks.Messages.{ipv4, greeting, request, granted}
use telegram_socks_ws_proxy.Socks.Accepts.{handshake-open}
use telegram_socks_ws_proxy.Routing.Backoff.{WsDecision, default, begin_probe}
use telegram_socks_ws_proxy.Routing.Ipv6Cache.{Ipv6Cache, learned_ipv6_entry}
use telegram_socks_ws_proxy.Routing.Resolve.{
  ResolvedTelegramInit, known_entry, resolve_telegram_init, remember_telegram_ipv6,
}
use telegram_socks_ws_proxy.Routing.Resolve.Consistent.{
  IsValidCache, resolve_telegram_init-extract_dc,
}
use telegram_socks_ws_proxy.Routing.Client.{
  Shared, Fate, fate_of, is_http_transport, read_telegram_init, route_decision, route_client,
  connect_ws_route, conclude,
}
use telegram_socks_ws_proxy.Routing.Client.Attempts.{conclude-connect_ws_route}
use telegram_socks_ws_proxy.Routing.Client.Rule.{decision_word, has_dc, route_client-route_decision}
use telegram_socks_ws_proxy.Tests.Toy.{toy, toy_laws}
use telegram_socks_ws_proxy.Tests.TelegramRuns.{packet, tagged}

abbrev nothing_learned : Ipv6Cache
nothing_learned = record { entries = λ ip. none }

nothing-IsValidCache : IsValidCache nothing_learned
nothing-IsValidCache ip entry h = cc

abbrev host : Str
host = codes "149.154.167.220"

resolve_telegram_init_patches_from_static_ipv4_mapping :
    (resolve_telegram_init toy host nothing_learned packet).info
    ≡ record { dc = some 2; is_media = false }
unfolding resolve_telegram_init extract_dc known_entry learned_ipv6_entry ip_to_dc parse_ipv6
    parse_ipv4 read_ipv4_addr read_octet ip_to_dc_table find_entry
resolve_telegram_init_patches_from_static_ipv4_mapping = refl

resolve_telegram_init-extract_dc_example :
    extract_dc toy (resolve_telegram_init toy host nothing_learned packet).packet
    ≡ (resolve_telegram_init toy host nothing_learned packet).info
resolve_telegram_init-extract_dc_example =
    resolve_telegram_init-extract_dc toy toy_laws host nothing_learned packet nothing-IsValidCache
      (omega arith) tagged

-- The first domain of a media route answers 404, and the second one connects.
abbrev pub second_connects : Str → Option WsError
second_connects domain =
    if eq_str domain (codes "kws2.web.telegram.org")
    then none
    else some (WsError.http_status 404 none)

conclude-connect_ws_route_example :
    (begin_probe
      (2, true)
      9
      (conclude (2, true) 3 (connect_ws_route (λ d. some WsError.timeout) 2 true) default).1).1
    ≡ WsDecision.cooldown
unfolding ws_domains status_code
conclude-connect_ws_route_example =
    conclude-connect_ws_route (2, true) 3 9 default (λ d. some WsError.timeout)

abbrev pub shared : Shared
shared = record { backoff = default; learned = nothing_learned }

abbrev pub idle : Stream
idle = record { incoming = []; ending = closed; sent = []; writes = 9; shut = false; entropy = [] }

abbrev pub client : Stream
client = record idle {
  incoming = greeting (0 ∷ []) (request (ipv4 149 154 167 220) 443 (packet ++ []));
  writes = suc (suc 1);
}

abbrev pub connected : Stream
connected = record idle { incoming = packet ++ []; sent = [] ++ (5 ∷ 0 ∷ granted); writes = 1 }

pub handshake :
    handle_socks5_handshake none client ≡ (ok (connect (ipv4_text 149 154 167 220) 443), connected)
unfolding contains
handshake = handshake-open (0 ∷ []) (ipv4 149 154 167 220) 443 1 (packet ++ []) idle refl refl

pub init_read : read_telegram_init connected ≡ (ok packet, record connected { incoming = [] })
unfolding read_telegram_init read_exact
init_read = refl

pub not_http :
    is_http_transport
      (resolve_telegram_init toy (ipv4_text 149 154 167 220) nothing_learned packet).packet
    ≡ false
unfolding is_http_transport resolve_telegram_init extract_dc known_entry learned_ipv6_entry ip_to_dc
    parse_ipv6 parse_ipv4 read_ipv4_addr read_octet ip_to_dc_table find_entry ipv4_text
    patch_init_dc
not_http = refl

route_client-route_decision_example :
    decision_word (route_client toy none 0 shared client).0
    ≡ some (
        route_decision (ipv4_text 149 154 167 220) 443 (
          has_dc
            (resolve_telegram_init toy (ipv4_text 149 154 167 220) nothing_learned packet).info.dc))
route_client-route_decision_example =
    route_client-route_decision toy none 0 shared client connected
      (record connected { incoming = [] }) (ipv4_text 149 154 167 220) 443 packet handshake
      init_read not_http refl

abbrev pub resolved : ResolvedTelegramInit
resolved = resolve_telegram_init toy (ipv4_text 149 154 167 220) nothing_learned packet

pub attempted : (route_client toy none 0 shared client).0 ≡ Fate.attempt (2, false) resolved
unfolding fate_of route_client handle_socks5_handshake read_telegram_init read_exact write_all
    is_telegram_ip parse_ip in_ranges tg_ipv4_ranges is_http_transport resolve_telegram_init
    extract_dc known_entry learned_ipv6_entry ip_to_dc parse_ipv6 parse_ipv4 read_ipv4_addr
    read_octet ip_to_dc_table find_entry ipv4_text patch_init_dc begin_probe is_ipv6
    remember_telegram_ipv6
attempted = refl

abbrev server : Stream
server = record {
  incoming = server_bytes (ping [] ∷ []);
  ending = closed;
  sent = [];
  writes = 9;
  shut = false;
  entropy = [];
}

abbrev bridge : Bridge toy
bridge = record {
  client = (route_client toy none 0 shared client).2;
  ws = record server { sent = build_frame resolved.packet none; writes = 7 };
  up = reading (Splitter.new toy resolved.packet) 0 0;
  down = receiving 0 0;
}

bridged : bridge_route toy (route_client toy none 0 shared client).2 server resolved ≡ ok bridge
unfolding bridge_route bridge_ws_tcp send getrandom write_all flush
bridged = refl

route_client-IsFaithful_example :
    Arrives toy none client resolved (route_client toy none 0 shared client).2
    × IsFaithful toy
        (resolved.packet ++ (route_client toy none 0 shared client).2.incoming)
        (ping [] ∷ [])
        []
        (route_client toy none 0 shared client).2.sent
        (run toy (down_turn ∷ down_turn ∷ []) bridge)
route_client-IsFaithful_example =
    route_client-IsFaithful toy toy_laws none 0 shared client server (2, false) resolved
      (ping [] ∷ []) (down_turn ∷ down_turn ∷ []) bridge attempted (omega arith, tt) refl bridged
