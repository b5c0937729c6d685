-- ===== src/Routing/System.antt =====
-- src/modules/routing.rs: the clients of a process, each of which runs `route_client` in a task of its own. A step of
-- a client takes it over one access to what all share, the learned addresses, the clock or the backoff table, so that
-- the others come between any two of them.
pub mod Invariant
pub mod Calls
pub mod Table
pub mod Closed
pub mod Alone
pub mod Served
use telegram_socks_ws_proxy.Base.{ℕ, ◌+◌, ◌≡◌, ◌==◌, if◌then◌else◌, Option, none, some, List, not}
use telegram_socks_ws_proxy.Base.Utf8.{Str}
use telegram_socks_ws_proxy.Base.Stream.{Stream, Outcome, ok, err, pending, panicked}
use telegram_socks_ws_proxy.Telegram.Cipher.{Cipher}
use telegram_socks_ws_proxy.Telegram.Catalog.{is_telegram_ip}
use telegram_socks_ws_proxy.Ws.Types.{WsError}
use telegram_socks_ws_proxy.Socks.{
  SocksAuthConfig, SocksCommand, connect, SocksError, handle_socks5_handshake, is_ipv6,
}
use telegram_socks_ws_proxy.Routing.Backoff.{
  WsKey, WsBackoff, WsDecision, probe_now, probe_in_flight, begin_probe,
}
use telegram_socks_ws_proxy.Routing.Backoff
use telegram_socks_ws_proxy.Routing.Ipv6Cache.{Ipv6Cache}
use telegram_socks_ws_proxy.Routing.Resolve.{
  ResolvedTelegramInit, resolve_telegram_init, remember_telegram_ipv6,
}
use telegram_socks_ws_proxy.Routing.Client.{
  is_http_transport, unknown_dc_action, handle_unknown_dc, InitReadError, read_telegram_init,
  Shared, Fate, connect_ws_route, conclude,
}

-- Where a task stands in `route_client`.
pub data Client : Type 0 where
  -- no task
  absent : Client
  -- from here on: the connection as it will be read
  accepted : Stream → Client
  -- its handshake waits for ever: it has no timeout
  waiting : Client
  -- it has the init packet for a Telegram host
  received : Str → ℕ → List ℕ → Client
  resolved : Str → ℕ → ResolvedTelegramInit → Client
  remembered : Str → ℕ → ResolvedTelegramInit → Client
  -- it knows its key, and `now`
  timed : WsKey → ℕ → ResolvedTelegramInit → Client
  attempting : WsKey → ℕ → ResolvedTelegramInit → Client
  -- the route's domain that it is bridged with, if one connected
  concluded : WsKey → ResolvedTelegramInit → Option Str → Client
  -- it ended before the WebSocket route
  ended : Fate → Client

abbrev pub received_init : Str → ℕ → Outcome InitReadError (List ℕ) → Client
received_init host port (ok packet) = received host port packet
received_init host port (err e) = ended (Fate.no_init e)
received_init host port pending = ended (Fate.no_init InitReadError.timeout)
received_init host port panicked = ended Fate.init_panicked

abbrev pub admitted : Outcome SocksError SocksCommand × Stream → Client
admitted (ok (connect host port), s) =
    if not (is_telegram_ip host)
    then ended (Fate.passthrough host port)
    else received_init host port (read_telegram_init s).0
admitted (err e, s) = ended (Fate.invalid_socks e)
admitted (pending, s) = waiting
admitted (panicked, s) = ended Fate.handshake_panicked

abbrev pub keyed : Str → ℕ → ℕ → ResolvedTelegramInit → Option ℕ → Client
keyed host port now r none =
    ended (handle_unknown_dc host port r.packet (unknown_dc_action (is_ipv6 host)))
keyed host port now r (some dc) = timed (dc, r.info.is_media) now r

abbrev pub decided : WsKey → ℕ → ResolvedTelegramInit → WsDecision → Client
decided key at r probe_now = attempting key at r
decided key at r probe_in_flight = attempting key at r
decided key at r WsDecision.cooldown = ended Fate.in_cooldown
decided key at r WsDecision.disabled_404 = ended Fate.disabled

abbrev pub with_backoff : Shared → WsBackoff → Shared
with_backoff shared b = record shared { backoff = b }

-- One step of a task at the moment `now`, where `answer` is what `RawWsClient::connect` answers for a domain.
unfoldable pub advance :
    Cipher → Option SocksAuthConfig → (Str → Option WsError) → ℕ → Shared → Client → Client × Shared
advance c auth answer now shared absent = (absent, shared)
advance c auth answer now shared waiting = (waiting, shared)
advance c auth answer now shared (accepted s) = (admitted (handle_socks5_handshake auth s), shared)
advance c auth answer now shared (received host port packet) =
    (resolved host port (resolve_telegram_init c host shared.learned packet), shared)
advance c auth answer now shared (resolved host port r) = (
  remembered host port r,
  record shared { learned = remember_telegram_ipv6 host (is_ipv6 host) r.info shared.learned },
)
advance c auth answer now shared (remembered host port r) = (
  if is_http_transport r.packet then ended Fate.http_rejected else keyed host port now r r.info.dc,
  shared,
)
advance c auth answer now shared (timed key at r) =
    let (b, decision) = begin_probe key at shared.backoff in
    (decided key at r decision, with_backoff shared b)
advance c auth answer now shared (attempting key at r) =
    let (domain, b) = conclude key at (connect_ws_route answer key.0 key.1) shared.backoff in
    (concluded key r domain, with_backoff shared b)
advance c auth answer now shared (concluded key r domain) = (concluded key r domain, shared)
advance c auth answer now shared (ended fate) = (ended fate, shared)

-- A process: its clock, what its tasks share, and the tasks by number.
pub record System : Type 0 where
  pub now : ℕ
  pub shared : Shared
  pub clients : ℕ → Client

-- A process that starts: the tables are empty.
abbrev pub fresh : ℕ → System
fresh t = record {
  now = t;
  shared = record { backoff = Backoff.default; learned = record { entries = λ ip. none } };
  clients = λ i. absent;
}

abbrev pub with_client : ℕ → Client → (ℕ → Client) → ℕ → Client
with_client i x clients j = if j == i then x else clients j

module _ (c : Cipher) (auth : Option SocksAuthConfig) where
  abbrev pub moved : System → ℕ → Client × Shared → System
  moved σ i (x, shared) = record {
    now = σ.now;
    shared = shared;
    clients = with_client i x σ.clients;
  }

  infix 40 ◌⟶◌ ◌⟶*◌
  pub data ◌⟶◌ : System → System → Type 0 where
    -- time passes
    tick : {σ : System} (d : ℕ) → σ ⟶ record σ { now = σ.now + d }
    -- a connection is accepted
    accept :
        {σ : System} (i : ℕ) (s : Stream)
        → σ.clients i ≡ absent
        → σ ⟶ record σ { clients = with_client i (accepted s) σ.clients }
    -- a task goes on
    act :
        {σ : System} (i : ℕ) (answer : Str → Option WsError)
        → σ ⟶ moved σ i (advance c auth answer σ.now σ.shared (σ.clients i))

  pub data ◌⟶*◌ : System → System → Type 0 where
    no_step : {σ : System} → σ ⟶* σ
    and_then : {σ τ υ : System} → σ ⟶ τ → τ ⟶* υ → σ ⟶* υ
