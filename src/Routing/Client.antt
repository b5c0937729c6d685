-- ===== src/Routing/Client.antt =====
-- src/modules/routing.rs: `route_client` in its two parts, which other clients come between: up to the decision to
-- try the WebSocket route, and from the outcome of that attempt on.
pub mod Decisions
pub mod Rule
pub mod Attempts
pub mod Bridged
use telegram_socks_ws_proxy.Base.{
  ℕ, zero, suc, ◌+◌, ◌==◌, if◌then◌else◌, Bool, true, false, not, ◌&&◌, ◌||◌, Option, none, some,
  List, [], ◌∷◌, ◌++◌,
}
use telegram_socks_ws_proxy.Base.Utf8.{Str, codes}
use telegram_socks_ws_proxy.Base.Stream.{
  Stream, IoError, Outcome, ok, err, pending, panicked, read_exact,
}
use telegram_socks_ws_proxy.Telegram.Cipher.{Cipher}
use telegram_socks_ws_proxy.Telegram.Init.{TelegramInitInfo}
use telegram_socks_ws_proxy.Telegram.Catalog.{is_telegram_ip, ws_domains}
use telegram_socks_ws_proxy.Ws.Types.{WsError, status_code}
use telegram_socks_ws_proxy.Socks.{
  SocksAuthConfig, SocksCommand, connect, SocksError, handle_socks5_handshake, is_ipv6,
}
use telegram_socks_ws_proxy.Routing.Backoff.{
  WsKey, WsBackoff, WsDecision, probe_now, probe_in_flight, begin_probe, record_failure,
  disable_404, clear,
}
use telegram_socks_ws_proxy.Routing.Ipv6Cache.{Ipv6Cache}
use telegram_socks_ws_proxy.Routing.Resolve.{
  ResolvedTelegramInit, resolve_telegram_init, remember_telegram_ipv6,
}

unfoldable pub starts_with : List ℕ → List ℕ → Bool
starts_with [] buf = true
starts_with (p ∷ prefix) [] = false
starts_with (p ∷ prefix) (b ∷ buf) = b == p && starts_with prefix buf

unfoldable pub is_http_transport : List ℕ → Bool
unfolding starts_with
is_http_transport buf =
    starts_with (codes "POST ") buf
    || starts_with (codes "GET ") buf
    || starts_with (codes "HEAD ") buf
    || starts_with (codes "OPTIONS ") buf

unfoldable pub route_decision : Str → ℕ → Bool → Str
route_decision host port has_dc =
    if not (is_telegram_ip host)
    then codes "tcp_passthrough"
    else if has_dc && not (port == 0)
    then codes "ws_only"
    else codes "unknown_dc"

pub data UnknownDcAction : Type 0 where
  close direct_passthrough : UnknownDcAction

unfoldable pub unknown_dc_action : Bool → UnknownDcAction
unknown_dc_action target_is_ipv6 = if target_is_ipv6 then direct_passthrough else close

pub data InitReadError : Type 0 where
  io : IoError → InitReadError
  timeout : InitReadError

-- A read that the peer keeps waiting runs into the timeout.
abbrev pub with_timeout :
    Outcome InitReadError (List ℕ) × Stream → Outcome InitReadError (List ℕ) × Stream
with_timeout (ok init, s) = (ok init, s)
with_timeout (err e, s) = (err e, s)
with_timeout (pending, s) = (err timeout, s)
with_timeout (panicked, s) = (panicked, s)

unfoldable pub read_telegram_init : Stream → Outcome InitReadError (List ℕ) × Stream
read_telegram_init s = with_timeout (read_exact io 64 s)

-- What all clients share.
pub record Shared : Type 0 where
  pub backoff : WsBackoff
  pub learned : Ipv6Cache

-- What comes of a client.
pub data Fate : Type 0 where
  -- the handshake failed, never ends, or panicked
  invalid_socks : SocksError → Fate
  no_handshake handshake_panicked : Fate
  -- `bridge_tcp_tcp`
  passthrough : Str → ℕ → Fate
  no_init : InitReadError → Fate
  init_panicked http_rejected : Fate
  -- `bridge_tcp_tcp_with_prelude`
  passthrough_with : Str → ℕ → List ℕ → Fate
  unknown_closed in_cooldown disabled : Fate
  -- goes on to `connect_ws_route`
  attempt : WsKey → ResolvedTelegramInit → Fate

-- `handle_unknown_dc`
unfoldable pub handle_unknown_dc : Str → ℕ → List ℕ → UnknownDcAction → Fate
handle_unknown_dc host port packet direct_passthrough = passthrough_with host port packet
handle_unknown_dc host port packet close = unknown_closed

unfoldable pub fate_of : WsKey → ResolvedTelegramInit → WsDecision → Fate
fate_of key resolved probe_now = attempt key resolved
fate_of key resolved probe_in_flight = attempt key resolved
fate_of key resolved WsDecision.cooldown = in_cooldown
fate_of key resolved WsDecision.disabled_404 = disabled

abbrev pub probed : WsKey → ResolvedTelegramInit → Shared → WsBackoff × WsDecision → Fate × Shared
probed key resolved shared (backoff, decision) =
    (fate_of key resolved decision, record shared { backoff = backoff })

unfoldable pub route_dc : Str → ℕ → ℕ → ResolvedTelegramInit → Shared → Option ℕ → Fate × Shared
unfolding unknown_dc_action handle_unknown_dc
route_dc host port now resolved shared none =
    (handle_unknown_dc host port resolved.packet (unknown_dc_action (is_ipv6 host)), shared)
route_dc host port now resolved shared (some dc) =
    let key : WsKey = (dc, resolved.info.is_media) in
    probed key resolved shared (begin_probe key now shared.backoff)

-- From the resolved packet on.
unfoldable pub route_resolved : Str → ℕ → ℕ → ResolvedTelegramInit → Shared → Fate × Shared
unfolding route_dc
route_resolved host port now resolved shared =
    let learned = remember_telegram_ipv6 host (is_ipv6 host) resolved.info shared.learned in
    let shared' = record shared { learned = learned } in
    if is_http_transport resolved.packet
    then (http_rejected, shared')
    else route_dc host port now resolved shared' resolved.info.dc

module _ (c : Cipher) where
  abbrev pub route_init :
      Str → ℕ → ℕ → Shared → Outcome InitReadError (List ℕ) × Stream → Fate × Shared × Stream
  route_init host port now shared (ok packet, s) =
      let (fate, shared') =
        route_resolved host port now (resolve_telegram_init c host shared.learned packet) shared in
      (fate, shared', s)
  route_init host port now shared (err e, s) = (no_init e, shared, s)
  route_init host port now shared (pending, s) = (no_init timeout, shared, s)
  route_init host port now shared (panicked, s) = (init_panicked, shared, s)

  abbrev pub route_command :
      ℕ → Shared → Outcome SocksError SocksCommand × Stream → Fate × Shared × Stream
  route_command now shared (ok (connect host port), s) =
      if not (is_telegram_ip host)
      then (passthrough host port, shared, s)
      else route_init host port now shared (read_telegram_init s)
  route_command now shared (err e, s) = (invalid_socks e, shared, s)
  route_command now shared (pending, s) = (no_handshake, shared, s)
  route_command now shared (panicked, s) = (handshake_panicked, shared, s)

  -- The first part of `route_client`.
  unfoldable pub route_client :
      Option SocksAuthConfig → ℕ → Shared → Stream → Fate × Shared × Stream
  unfolding read_telegram_init route_resolved
  route_client auth now shared s = route_command now shared (handle_socks5_handshake auth s)

-- The loop of `connect_ws_route`, over what `RawWsClient::connect` answers for a domain: `none` is a connection.
unfoldable pub connect_loop : (Str → Option WsError) → List Str → Bool → Option Str × Bool
connect_loop answer [] all_404 = (none, all_404)
connect_loop answer (domain ∷ domains) all_404 = elim (answer domain) [
  | none ↦ (some domain, all_404)
  | some e ↦ connect_loop answer domains (
      if elim (status_code e) [ some status ↦ status == 404 | none ↦ false ]
      then all_404
      else false)
]

unfoldable pub connect_ws_route : (Str → Option WsError) → ℕ → Bool → Option Str × Bool
unfolding connect_loop
connect_ws_route answer dc is_media = connect_loop answer (ws_domains dc is_media) true

-- The rest of `route_client`: the domain that the client is bridged with, and the table after it. `now` is the
-- moment at which the route was asked for.
unfoldable pub conclude : WsKey → ℕ → Option Str × Bool → WsBackoff → Option Str × WsBackoff
conclude key now (some domain, all_404) b = (some domain, clear key b)
conclude key now (none, true) b = (none, disable_404 key b)
conclude key now (none, false) b = (none, record_failure key now b)
