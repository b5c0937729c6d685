-- ===== src/Routing/Client/Decisions.antt =====
-- Which clients of src/modules/routing.rs go on to the WebSocket route, and what they leave in the shared table.
use telegram_socks_ws_proxy.Base.{
  ℕ, ◌≡◌, refl, sym, ap, ◌∙◌, subst, true, false, Bool-cases, Option, none, some, inl, inr, ◌⊎◌,
  List,
}
use telegram_socks_ws_proxy.Base.Utf8.{Str}
use telegram_socks_ws_proxy.Base.Stream.{Stream, Outcome, ok, err, pending, panicked}
use telegram_socks_ws_proxy.Telegram.Cipher.{Cipher}
use telegram_socks_ws_proxy.Telegram.Catalog.{is_telegram_ip}
use telegram_socks_ws_proxy.Socks.{
  SocksAuthConfig, SocksCommand, connect, SocksError, handle_socks5_handshake, is_ipv6,
}
use telegram_socks_ws_proxy.Routing.Backoff.{
  WsKey, WsBackoff, WsDecision, probe_now, probe_in_flight, begin_probe,
}
use telegram_socks_ws_proxy.Routing.Ipv6Cache.{Ipv6Cache}
use telegram_socks_ws_proxy.Routing.Resolve.{
  ResolvedTelegramInit, resolve_telegram_init, remember_telegram_ipv6,
}
use telegram_socks_ws_proxy.Routing.Resolve.Consistent.{
  IsDc, IsValidCache, remember_telegram_ipv6-IsValidCache,
}
use telegram_socks_ws_proxy.Routing.Client.{
  is_http_transport, unknown_dc_action, handle_unknown_dc, UnknownDcAction, InitReadError,
  read_telegram_init, Shared, Fate, fate_of, probed, route_dc, route_resolved, route_init,
  route_command, route_client,
}

probed-attempt :
    (key k : WsKey) (resolved r : ResolvedTelegramInit) (shared : Shared)
    (p : WsBackoff × WsDecision)
    → (probed key resolved shared p).0 ≡ Fate.attempt k r
    → (key ≡ k) × (resolved ≡ r) × ((p.1 ≡ probe_now) ⊎ (p.1 ≡ probe_in_flight))
unfolding fate_of
probed-attempt key k resolved r shared (b, probe_now) h = (cc, cc, inl refl)
probed-attempt key k resolved r shared (b, probe_in_flight) h = (cc, cc, inr refl)
probed-attempt key k resolved r shared (b, WsDecision.cooldown) h = cc
probed-attempt key k resolved r shared (b, WsDecision.disabled_404) h = cc

-- What holds of a client that goes on to the WebSocket route: `shared` is the state that it met.
abbrev pub IsAdmitted : ℕ → Shared → WsKey → ResolvedTelegramInit → Shared → Type 0
IsAdmitted now shared key resolved shared' =
    IsDc key.0
    × (resolved.info.dc ≡ some key.0)
    × (resolved.info.is_media ≡ key.1)
    × (is_http_transport resolved.packet ≡ false)
    × (((begin_probe key now shared.backoff).1 ≡ probe_now)
        ⊎ ((begin_probe key now shared.backoff).1 ≡ probe_in_flight))
    × (shared'.backoff ≡ (begin_probe key now shared.backoff).0)

pub route_dc-attempt :
    (host : Str) (port now : ℕ) (resolved r : ResolvedTelegramInit) (shared : Shared) (o : Option ℕ)
    (key : WsKey)
    → (route_dc host port now resolved shared o).0 ≡ Fate.attempt key r
    → (o ≡ some key.0)
      × (resolved.info.is_media ≡ key.1)
      × (resolved ≡ r)
      × (((begin_probe key now shared.backoff).1 ≡ probe_now)
          ⊎ ((begin_probe key now shared.backoff).1 ≡ probe_in_flight))
      × ((route_dc host port now resolved shared o).1.backoff
          ≡ (begin_probe key now shared.backoff).0)
unfolding route_dc handle_unknown_dc
route_dc-attempt host port now resolved r shared none key h =
    absurd (by_action (unknown_dc_action (is_ipv6 host)) h)
  where
    by_action :
        (a : UnknownDcAction)
        → ¬ (handle_unknown_dc host port resolved.packet a ≡ Fate.attempt key r)
    by_action UnknownDcAction.close h = cc
    by_action UnknownDcAction.direct_passthrough h = cc
route_dc-attempt host port now resolved r shared (some dc) key h =
    let k : WsKey = (dc, resolved.info.is_media) in
    let (same, packet, allowed) =
      probed-attempt k key resolved r shared (begin_probe k now shared.backoff) h in
    (
      ap (λ (j : WsKey). some j.0) same,
      ap (λ (j : WsKey). j.1) same,
      packet,
      subst
          (λ j.
            ((begin_probe j now shared.backoff).1 ≡ probe_now)
            ⊎ ((begin_probe j now shared.backoff).1 ≡ probe_in_flight))
          same allowed,
      ap (λ j. (begin_probe j now shared.backoff).0) same,
    )

pub rejected-not_attempt :
    (key : WsKey) (r : ResolvedTelegramInit) → ¬ (Fate.http_rejected ≡ Fate.attempt key r)
rejected-not_attempt key r h = cc

pub passed-not_attempt :
    (host : Str) (port : ℕ) (key : WsKey) (r : ResolvedTelegramInit)
    → ¬ (Fate.passthrough host port ≡ Fate.attempt key r)
passed-not_attempt host port key r h = cc

route_resolved-attempt :
    (host : Str) (port now : ℕ) (resolved r : ResolvedTelegramInit) (shared : Shared) (key : WsKey)
    → ((dc : ℕ) → resolved.info.dc ≡ some dc → IsDc dc)
    → (route_resolved host port now resolved shared).0 ≡ Fate.attempt key r
    → IsAdmitted now shared key r (route_resolved host port now resolved shared).1
unfolding route_resolved
route_resolved-attempt host port now resolved r shared key range h =
    elim (Bool-cases (is_http_transport resolved.packet)) [
      | inl http ↦ absurd (rejected-not_attempt key r (rw http at h))
      | inr other ↦
          let learned : Ipv6Cache =
            remember_telegram_ipv6 host (is_ipv6 host) resolved.info shared.learned in
          let (dc, media, same, allowed, after) =
            route_dc-attempt host port now resolved r (record shared { learned = learned })
              resolved.info.dc key (rw other at h) in
          (
            range key.0 dc,
            ap (λ (x : ResolvedTelegramInit). x.info.dc) (sym same) ∙ dc,
            ap (λ (x : ResolvedTelegramInit). x.info.is_media) (sym same) ∙ media,
            ap (λ (x : ResolvedTelegramInit). is_http_transport x.packet) (sym same) ∙ other,
            allowed,
            rw other after,
          )
    ]

module _ (c : Cipher) (now : ℕ) (shared : Shared) (key : WsKey) (r : ResolvedTelegramInit)
    (valid : IsValidCache shared.learned) where
  route_init-attempt :
      (host : Str) (port : ℕ) (o : Outcome InitReadError (List ℕ) × Stream)
      → (route_init c host port now shared o).0 ≡ Fate.attempt key r
      → IsAdmitted now shared key r (route_init c host port now shared o).1
  route_init-attempt host port (ok packet, s) h =
      route_resolved-attempt host port now (resolve_telegram_init c host shared.learned packet) r
        shared key (remember_telegram_ipv6-IsValidCache c host true shared.learned packet valid).0 h
  route_init-attempt host port (err e, s) h = cc
  route_init-attempt host port (pending, s) h = cc
  route_init-attempt host port (panicked, s) h = cc

  route_command-attempt :
      (o : Outcome SocksError SocksCommand × Stream)
      → (route_command c now shared o).0 ≡ Fate.attempt key r
      → IsAdmitted now shared key r (route_command c now shared o).1
  route_command-attempt (ok (connect host port), s) h = elim (Bool-cases (is_telegram_ip host)) [
    | inl telegram ↦
        rw telegram (route_init-attempt host port (read_telegram_init s) (rw telegram at h))
    | inr elsewhere ↦ absurd (passed-not_attempt host port key r (rw elsewhere at h))
  ]
  route_command-attempt (err e, s) h = cc
  route_command-attempt (pending, s) h = cc
  route_command-attempt (panicked, s) h = cc

-- While every learned data centre is one from 1 to 5, a client goes on to the WebSocket route of a
-- key only if the key is that of its resolved packet, with a data centre from 1 to 5, the packet
-- is no HTTP request, and the shared table answered it by a probe, granted or in flight; the table
-- is then the one that this call left.
pub route_client-attempt :
    (c : Cipher) (auth : Option SocksAuthConfig) (now : ℕ) (shared : Shared) (s : Stream)
    (key : WsKey) (resolved : ResolvedTelegramInit)
    → IsValidCache shared.learned
    → (route_client c auth now shared s).0 ≡ Fate.attempt key resolved
    → IsAdmitted now shared key resolved (route_client c auth now shared s).1
unfolding route_client
route_client-attempt c auth now shared s key resolved valid h =
    route_command-attempt c now shared key resolved valid (handle_socks5_handshake auth s) h
