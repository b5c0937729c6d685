-- ===== src/Routing/System/Alone.antt =====
-- src/modules/routing.rs: a task that no other comes between, against `route_client` in one piece.
use telegram_socks_ws_proxy.Base.{
  ℕ, zero, suc, ◌≡◌, refl, ap, sym, Bool-cases, Option, none, some, inl, inr, List,
}
use telegram_socks_ws_proxy.Base.Utf8.{Str}
use telegram_socks_ws_proxy.Base.Stream.{Stream, Outcome, ok, err, pending, panicked}
use telegram_socks_ws_proxy.Telegram.Cipher.{Cipher}
use telegram_socks_ws_proxy.Telegram.Catalog.{is_telegram_ip}
use telegram_socks_ws_proxy.Ws.Types.{WsError}
use telegram_socks_ws_proxy.Socks.{
  SocksAuthConfig, SocksCommand, connect, SocksError, handle_socks5_handshake, is_ipv6,
}
use telegram_socks_ws_proxy.Routing.Backoff.{
  WsKey, WsBackoff, WsDecision, probe_now, probe_in_flight, begin_probe,
}
use telegram_socks_ws_proxy.Routing.Resolve.{
  ResolvedTelegramInit, resolve_telegram_init, remember_telegram_ipv6,
}
use telegram_socks_ws_proxy.Routing.Client.{
  UnknownDcAction, unknown_dc_action, handle_unknown_dc, is_http_transport, InitReadError,
  read_telegram_init, Shared, Fate, fate_of, probed, route_dc, route_resolved, route_init,
  route_command, route_client,
}
use telegram_socks_ws_proxy.Routing.System.{
  Client, accepted, waiting, resolved, attempting, ended, decided, received_init, admitted, keyed,
  advance,
}

-- Where a task stands once `route_client` has decided so much.
abbrev pub task_of : ℕ → Fate → Client
task_of now (Fate.attempt key r) = attempting key now r
task_of now (Fate.invalid_socks e) = ended (Fate.invalid_socks e)
task_of now Fate.no_handshake = waiting
task_of now Fate.handshake_panicked = ended Fate.handshake_panicked
task_of now (Fate.passthrough host port) = ended (Fate.passthrough host port)
task_of now (Fate.no_init e) = ended (Fate.no_init e)
task_of now Fate.init_panicked = ended Fate.init_panicked
task_of now Fate.http_rejected = ended Fate.http_rejected
task_of now (Fate.passthrough_with host port packet) =
    ended (Fate.passthrough_with host port packet)
task_of now Fate.unknown_closed = ended Fate.unknown_closed
task_of now Fate.in_cooldown = ended Fate.in_cooldown
task_of now Fate.disabled = ended Fate.disabled

unknown_task :
    (now : ℕ) (host : Str) (port : ℕ) (packet : List ℕ) (a : UnknownDcAction)
    → task_of now (handle_unknown_dc host port packet a)
      ≡ ended (handle_unknown_dc host port packet a)
unfolding handle_unknown_dc
unknown_task now host port packet UnknownDcAction.close = refl
unknown_task now host port packet UnknownDcAction.direct_passthrough = refl

module _ (c : Cipher) (auth : Option SocksAuthConfig) (answer : Str → Option WsError)
    (now : ℕ) where
  -- Steps of one task at one moment.
  unfoldable pub rounds : ℕ → Shared → Client → Client × Shared
  rounds zero shared x = (x, shared)
  rounds (suc n) shared x =
      let (y, shared') = advance c auth answer now shared x in rounds n shared' y

  rounds-ended :
      (n : ℕ) (shared : Shared) (f : Fate) → rounds n shared (ended f) ≡ (ended f, shared)
  unfolding rounds advance
  rounds-ended zero shared f = refl
  rounds-ended (suc n) shared f = rounds-ended n shared f

  rounds-waiting : (n : ℕ) (shared : Shared) → rounds n shared waiting ≡ (waiting, shared)
  unfolding rounds advance
  rounds-waiting zero shared = refl
  rounds-waiting (suc n) shared = rounds-waiting n shared

  decided_lem :
      (key : WsKey) (r : ResolvedTelegramInit) (shared : Shared) (p : WsBackoff × WsDecision)
      → ◌≡◌ {A = Client × Shared}
          (decided key now r p.1, record shared { backoff = p.0 })
          (task_of now (probed key r shared p).0, (probed key r shared p).1)
  unfolding fate_of
  decided_lem key r shared (b, probe_now) = refl
  decided_lem key r shared (b, probe_in_flight) = refl
  decided_lem key r shared (b, WsDecision.cooldown) = refl
  decided_lem key r shared (b, WsDecision.disabled_404) = refl

  keyed_lem :
      (host : Str) (port : ℕ) (r : ResolvedTelegramInit) (shared : Shared) (o : Option ℕ)
      → rounds 1 shared (keyed host port now r o)
        ≡ (task_of now (route_dc host port now r shared o).0, (route_dc host port now r shared o).1)
  unfolding rounds advance route_dc
  keyed_lem host port r shared none =
      ap (λ x. (x, shared))
        (sym (unknown_task now host port r.packet (unknown_dc_action (is_ipv6 host))))
  keyed_lem host port r shared (some dc) =
      decided_lem (dc, r.info.is_media) r shared
        (begin_probe (dc, r.info.is_media) now shared.backoff)

  resolved_lem :
      (host : Str) (port : ℕ) (r : ResolvedTelegramInit) (shared : Shared)
      → rounds 3 shared (resolved host port r) ≡ (
        task_of now (route_resolved host port now r shared).0,
        (route_resolved host port now r shared).1,
      )
  unfolding rounds advance route_resolved
  resolved_lem host port r shared = elim (Bool-cases (is_http_transport r.packet)) [
    | inl http ↦ rw http (rounds-ended 1 _ Fate.http_rejected)
    | inr other ↦ rw other (
        keyed_lem host port r
          (record shared {
            learned = remember_telegram_ipv6 host (is_ipv6 host) r.info shared.learned;
          })
          r.info.dc)
  ]

  received_init_lem :
      (host : Str) (port : ℕ) (shared : Shared) (o : Outcome InitReadError (List ℕ) × Stream)
      → rounds 4 shared (received_init host port o.0) ≡ (
        task_of now (route_init c host port now shared o).0,
        (route_init c host port now shared o).1,
      )
  unfolding rounds advance
  received_init_lem host port shared (ok packet, s) =
      resolved_lem host port (resolve_telegram_init c host shared.learned packet) shared
  received_init_lem host port shared (err e, s) = rounds-ended 4 shared (Fate.no_init e)
  received_init_lem host port shared (pending, s) =
      rounds-ended 4 shared (Fate.no_init InitReadError.timeout)
  received_init_lem host port shared (panicked, s) = rounds-ended 4 shared Fate.init_panicked

  admitted_lem :
      (shared : Shared) (o : Outcome SocksError SocksCommand × Stream)
      → rounds 4 shared (admitted o)
        ≡ (task_of now (route_command c now shared o).0, (route_command c now shared o).1)
  admitted_lem shared (ok (connect host port), s) = elim (Bool-cases (is_telegram_ip host)) [
    | inl telegram ↦ rw telegram (received_init_lem host port shared (read_telegram_init s))
    | inr elsewhere ↦ rw elsewhere (rounds-ended 4 shared (Fate.passthrough host port))
  ]
  admitted_lem shared (err e, s) = rounds-ended 4 shared (Fate.invalid_socks e)
  admitted_lem shared (pending, s) = rounds-waiting 4 shared
  admitted_lem shared (panicked, s) = rounds-ended 4 shared Fate.handshake_panicked

  -- Five steps of a task that no other comes between, from its connection on and at one moment,
  -- come to the fate that `route_client` in one piece gives the client, and leave the shared tables
  -- as it does.
  pub rounds-route_client :
      (shared : Shared) (s : Stream)
      → rounds 5 shared (accepted s)
        ≡ (task_of now (route_client c auth now shared s).0, (route_client c auth now shared s).1)
  unfolding rounds advance route_client
  rounds-route_client shared s = admitted_lem shared (handle_socks5_handshake auth s)
