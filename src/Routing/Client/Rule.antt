-- ===== src/Routing/Client/Rule.antt =====
-- Where the clients of src/modules/routing.rs end up, against the rule of `route_decision`.
use telegram_socks_ws_proxy.Base.{
  ℕ, ◌≡◌, refl, ◌==◌, Bool, true, false, Bool-cases, Option, none, some, inl, inr, List,
}
use telegram_socks_ws_proxy.Base.Utf8.{Str, codes}
use telegram_socks_ws_proxy.Base.Stream.{Stream, ok}
use telegram_socks_ws_proxy.Telegram.Cipher.{Cipher}
use telegram_socks_ws_proxy.Telegram.Catalog.{is_telegram_ip}
use telegram_socks_ws_proxy.Socks.{SocksAuthConfig, connect, handle_socks5_handshake, is_ipv6}
use telegram_socks_ws_proxy.Routing.Backoff.{
  WsKey, WsBackoff, WsDecision, probe_now, probe_in_flight, begin_probe,
}
use telegram_socks_ws_proxy.Routing.Resolve.{ResolvedTelegramInit, resolve_telegram_init}
use telegram_socks_ws_proxy.Routing.Client.{
  is_http_transport, route_decision, unknown_dc_action, handle_unknown_dc, UnknownDcAction,
  read_telegram_init, Shared, Fate, fate_of, probed, route_dc, route_resolved, route_client,
}

-- The word of `route_decision` for a fate, where it has one.
abbrev pub decision_word : Fate → Option Str
decision_word (Fate.passthrough host port) = some (codes "tcp_passthrough")
decision_word (Fate.passthrough_with host port packet) = some (codes "unknown_dc")
decision_word Fate.unknown_closed = some (codes "unknown_dc")
decision_word Fate.in_cooldown = some (codes "ws_only")
decision_word Fate.disabled = some (codes "ws_only")
decision_word (Fate.attempt key resolved) = some (codes "ws_only")
decision_word (Fate.invalid_socks e) = none
decision_word Fate.no_handshake = none
decision_word Fate.handshake_panicked = none
decision_word (Fate.no_init e) = none
decision_word Fate.init_panicked = none
decision_word Fate.http_rejected = none

abbrev pub has_dc : Option ℕ → Bool
has_dc none = false
has_dc (some dc) = true

probed-word :
    (key : WsKey) (resolved : ResolvedTelegramInit) (shared : Shared) (r : WsBackoff × WsDecision)
    → decision_word (probed key resolved shared r).0 ≡ some (codes "ws_only")
unfolding fate_of
probed-word key resolved shared (b, probe_now) = refl
probed-word key resolved shared (b, probe_in_flight) = refl
probed-word key resolved shared (b, WsDecision.cooldown) = refl
probed-word key resolved shared (b, WsDecision.disabled_404) = refl

route_dc-word :
    (host : Str) (port now : ℕ) (resolved : ResolvedTelegramInit) (shared : Shared) (o : Option ℕ)
    → is_telegram_ip host ≡ true
    → (port == 0) ≡ false
    → decision_word (route_dc host port now resolved shared o).0
      ≡ some (route_decision host port (has_dc o))
unfolding route_dc route_decision handle_unknown_dc
route_dc-word host port now resolved shared (some dc) telegram used =
    rw (telegram, used)
      (probed-word (dc, resolved.info.is_media) resolved shared
        (begin_probe (dc, resolved.info.is_media) now shared.backoff))
route_dc-word host port now resolved shared none telegram used =
    rw telegram (by_action (unknown_dc_action (is_ipv6 host)))
  where
    by_action :
        (a : UnknownDcAction)
        → decision_word (handle_unknown_dc host port resolved.packet a) ≡ some (codes "unknown_dc")
    by_action UnknownDcAction.close = refl
    by_action UnknownDcAction.direct_passthrough = refl

route_decision-elsewhere :
    (host : Str) (port : ℕ) (known : Bool)
    → is_telegram_ip host ≡ false
    → route_decision host port known ≡ codes "tcp_passthrough"
unfolding route_decision
route_decision-elsewhere host port known elsewhere = rw elsewhere

-- A client that completes the handshake for a port that is not 0, and then sends an init packet that is no HTTP request,
-- comes where the rule of `route_decision` says.
pub route_client-route_decision :
    (c : Cipher) (auth : Option SocksAuthConfig) (now : ℕ) (shared : Shared) (s s₁ s₂ : Stream)
    (host : Str) (port : ℕ) (packet : List ℕ)
    → handle_socks5_handshake auth s ≡ (ok (connect host port), s₁)
    → read_telegram_init s₁ ≡ (ok packet, s₂)
    → is_http_transport (resolve_telegram_init c host shared.learned packet).packet ≡ false
    → (port == 0) ≡ false
    → decision_word (route_client c auth now shared s).0
      ≡ some (
          route_decision host port
            (has_dc (resolve_telegram_init c host shared.learned packet).info.dc))
unfolding route_client route_resolved
route_client-route_decision c auth now shared s s₁ s₂ host port packet shaken init not_http used =
    elim (Bool-cases (is_telegram_ip host)) [
      | inl telegram ↦
          rw (shaken, telegram, init, not_http)
            (route_dc-word host port now (resolve_telegram_init c host shared.learned packet) _ _
              telegram used)
      | inr elsewhere ↦ rw (
        shaken,
        elsewhere,
        route_decision-elsewhere host port
            (has_dc (resolve_telegram_init c host shared.learned packet).info.dc) elsewhere,
      )
    ]
