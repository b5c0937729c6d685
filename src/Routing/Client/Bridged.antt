-- ===== src/Routing/Client/Bridged.antt =====
-- A client of src/modules/routing.rs from its handshake to the bridge: what of its bytes reaches the server.
use telegram_socks_ws_proxy.Base.{
  ℕ, ◌≡◌, refl, ap, subst, Bool, true, false, Bool-cases, Option, none, some, inl, inr, ◌⊎◌, List,
  ◌++◌, length,
}
use telegram_socks_ws_proxy.Base.Utf8.{Str}
use telegram_socks_ws_proxy.Base.Stream.{
  Stream, IoError, Outcome, ok, err, pending, panicked, read_exact,
}
use telegram_socks_ws_proxy.Base.Stream.Laws.{read_exact-ok}
use telegram_socks_ws_proxy.Telegram.Cipher.{Cipher, IsStreamCipher}
use telegram_socks_ws_proxy.Telegram.Init.{TelegramInitInfo, extract_dc, patch_init_dc}
use telegram_socks_ws_proxy.Telegram.Splitter
use telegram_socks_ws_proxy.Telegram.Catalog.{TelegramIpEntry, is_telegram_ip}
use telegram_socks_ws_proxy.Socks.{
  SocksAuthConfig, SocksCommand, connect, SocksError, handle_socks5_handshake, is_ipv6,
}
use telegram_socks_ws_proxy.Routing.Backoff.{WsKey}
use telegram_socks_ws_proxy.Routing.Ipv6Cache.{Ipv6Cache}
use telegram_socks_ws_proxy.Routing.Resolve.{
  ResolvedTelegramInit, entry_dc, known_entry, patched_with, resolve_info, resolve_telegram_init,
  remember_telegram_ipv6,
}
use telegram_socks_ws_proxy.Routing.Client.{
  is_http_transport, InitReadError, io, with_timeout, read_telegram_init, Shared, Fate,
  route_resolved, route_init, route_command, route_client,
}
use telegram_socks_ws_proxy.Routing.Client.Decisions.{
  route_dc-attempt, rejected-not_attempt, passed-not_attempt,
}
use telegram_socks_ws_proxy.Relay.{Bridge, Turn, bridge_ws_tcp, run}
use telegram_socks_ws_proxy.Relay.Downlink.{ServerFrame, server_bytes, AllSmall}
use telegram_socks_ws_proxy.Relay.Faithful.{IsFaithful, bridge-IsFaithful}

-- The bridge of a client whose route is connected.
unfoldable pub bridge_route :
    (c : Cipher) → Stream → Stream → ResolvedTelegramInit → Outcome IoError (Bridge c)
bridge_route c client ws resolved =
    bridge_ws_tcp c client ws resolved.packet (Splitter.new c resolved.packet)

-- The packet that goes on: the one that came, or that one with a data centre patched in.
abbrev pub IsResolved : Cipher → List ℕ → ResolvedTelegramInit → Type 0
IsResolved c packet resolved =
    ((resolved.patched ≡ false) × (resolved.packet ≡ packet))
    ⊎ ((resolved.patched ≡ true) × (dc : ℕ) × (resolved.packet ≡ patch_init_dc c packet dc))

patched_with-IsResolved :
    (c : Cipher) (packet : List ℕ) (info : TelegramInitInfo) (o : Option TelegramIpEntry)
    → IsResolved c packet (patched_with c packet info o)
unfolding patched_with
patched_with-IsResolved c packet info none = inl (refl, refl)
patched_with-IsResolved c packet info (some entry) = inr (refl, entry_dc entry, refl)

resolve_info-IsResolved :
    (c : Cipher) (host : Str) (cache : Ipv6Cache) (packet : List ℕ) (dc : Option ℕ)
    (is_media : Bool)
    → IsResolved c packet
        (resolve_info c host cache packet (record { dc = dc; is_media = is_media }))
unfolding resolve_info
resolve_info-IsResolved c host cache packet none is_media =
    patched_with-IsResolved c packet (record { dc = none; is_media = is_media })
      (known_entry host cache)
resolve_info-IsResolved c host cache packet (some dc) is_media = inl (refl, refl)

resolve_telegram_init-IsResolved :
    (c : Cipher) (host : Str) (cache : Ipv6Cache) (packet : List ℕ)
    → IsResolved c packet (resolve_telegram_init c host cache packet)
unfolding resolve_telegram_init
resolve_telegram_init-IsResolved c host cache packet =
    resolve_info-IsResolved c host cache packet (extract_dc c packet).dc
      (extract_dc c packet).is_media

route_resolved-same :
    (host : Str) (port now : ℕ) (resolved r : ResolvedTelegramInit) (shared : Shared) (key : WsKey)
    → (route_resolved host port now resolved shared).0 ≡ Fate.attempt key r
    → resolved ≡ r
unfolding route_resolved
route_resolved-same host port now resolved r shared key h =
    elim (Bool-cases (is_http_transport resolved.packet)) [
      | inl http ↦ absurd (rejected-not_attempt key r (rw http at h))
      | inr other ↦
          let learned : Ipv6Cache =
            remember_telegram_ipv6 host (is_ipv6 host) resolved.info shared.learned in
          let (dc, media, same, allowed, after) =
            route_dc-attempt host port now resolved r (record shared { learned = learned })
              resolved.info.dc key (rw other at h) in
          same
    ]

read_telegram_init-ok :
    (s : Stream) (packet : List ℕ) (s' : Stream)
    → read_telegram_init s ≡ (ok packet, s')
    → (length packet ≡ 64)
      × (s.incoming ≡ packet ++ s'.incoming)
      × (s' ≡ record s { incoming = s'.incoming })
unfolding read_telegram_init
read_telegram_init-ok s packet s' h = read_exact-ok io 64 s (inner (read_exact io 64 s) h)
  where
    inner :
        (r : Outcome InitReadError (List ℕ) × Stream)
        → with_timeout r ≡ (ok packet, s')
        → r ≡ (ok packet, s')
    inner (ok p, t) e = e
    inner (err x, t) e = cc
    inner (pending, t) e = cc
    inner (panicked, t) e = cc

-- What a client sent that goes on to the route: `t` is its connection behind the handshake.
abbrev pub Arrives :
    (c : Cipher) → Option SocksAuthConfig → Stream → ResolvedTelegramInit → Stream → Type 0
Arrives c auth s resolved s' =
    (host : Str) × (port : ℕ) × (t : Stream) × (packet : List ℕ) × (handle_socks5_handshake auth s
      ≡ (ok (connect host port), t))
    × (length packet ≡ 64)
    × (t.incoming ≡ packet ++ s'.incoming)
    × (s'.sent ≡ t.sent)
    × IsResolved c packet resolved

module _ (c : Cipher) (now : ℕ) (shared : Shared) (key : WsKey) (r : ResolvedTelegramInit) where
  abbrev InitArrives : Stream → Stream → Type 0
  InitArrives t s' =
      (packet : List ℕ) × (length packet ≡ 64)
      × (t.incoming ≡ packet ++ s'.incoming)
      × (s'.sent ≡ t.sent)
      × IsResolved c packet r

  route_init-Arrives :
      (host : Str) (port : ℕ) (t : Stream) (o : Outcome InitReadError (List ℕ) × Stream)
      → read_telegram_init t ≡ o
      → (route_init c host port now shared o).0 ≡ Fate.attempt key r
      → InitArrives t (route_init c host port now shared o).2
  route_init-Arrives host port t (ok packet, s) e h =
      let resolved = resolve_telegram_init c host shared.learned packet in
      let (size, front, same) = read_telegram_init-ok t packet s e in
      (
        packet,
        size,
        front,
        ap (λ (u : Stream). u.sent) same,
        subst (IsResolved c packet) (route_resolved-same host port now resolved r shared key h)
            (resolve_telegram_init-IsResolved c host shared.learned packet),
      )
  route_init-Arrives host port t (err x, s) e h = cc
  route_init-Arrives host port t (pending, s) e h = cc
  route_init-Arrives host port t (panicked, s) e h = cc

  route_command-Arrives :
      (auth : Option SocksAuthConfig) (s : Stream) (o : Outcome SocksError SocksCommand × Stream)
      → handle_socks5_handshake auth s ≡ o
      → (route_command c now shared o).0 ≡ Fate.attempt key r
      → Arrives c auth s r (route_command c now shared o).2
  route_command-Arrives auth s (ok (connect host port), t) e h =
      elim (Bool-cases (is_telegram_ip host)) [
        | inl telegram ↦
            let (packet, size, front, same, resolved) =
              route_init-Arrives host port t (read_telegram_init t) refl (rw telegram at h) in
            rw telegram (host, port, t, packet, e, size, front, same, resolved)
        | inr elsewhere ↦ absurd (passed-not_attempt host port key r (rw elsewhere at h))
      ]
  route_command-Arrives auth s (err x, t) e h = cc
  route_command-Arrives auth s (pending, t) e h = cc
  route_command-Arrives auth s (panicked, t) e h = cc

-- A client that goes on to the route of a key has completed the handshake and sent 64 bytes behind
-- it, which go on as they came, or with a data centre patched in. If its route is connected, the
-- server sends whole frames without a mask, of less than 2 ^ 63 bytes, each of them data (binary,
-- text or continuation, final or not), a ping, a pong or a close, and a write goes through whole or
-- fails, then at every moment of every schedule the bridge is faithful to that packet with the rest
-- of the client behind it, and to the frames.
pub route_client-IsFaithful :
    (c : Cipher) (laws : IsStreamCipher c) (auth : Option SocksAuthConfig) (now : ℕ)
    (shared : Shared) (s ws : Stream) (key : WsKey) (resolved : ResolvedTelegramInit)
    (fs : List ServerFrame) (ts : List Turn) (b : Bridge c)
    → (route_client c auth now shared s).0 ≡ Fate.attempt key resolved
    → AllSmall fs
    → ws.incoming ≡ server_bytes fs
    → bridge_route c (route_client c auth now shared s).2 ws resolved ≡ ok b
    → Arrives c auth s resolved (route_client c auth now shared s).2
      × IsFaithful c
          (resolved.packet ++ (route_client c auth now shared s).2.incoming)
          fs
          ws.sent
          (route_client c auth now shared s).2.sent
          (run c ts b)
unfolding route_client bridge_route
route_client-IsFaithful c laws auth now shared s ws key resolved fs ts b h small arriving bridged =
    let client = (route_client c auth now shared s).2 in
    (
      route_command-Arrives c now shared key resolved auth s (handle_socks5_handshake auth s) refl
          h,
      bridge-IsFaithful c laws fs client ws resolved.packet (Splitter.new c resolved.packet) ts b
          small arriving bridged,
    )
