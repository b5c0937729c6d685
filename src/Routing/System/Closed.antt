-- ===== src/Routing/System/Closed.antt =====
-- src/modules/routing.rs: what a cooldown, and "ws disabled for runtime", come to in a process.
use telegram_socks_ws_proxy.Base.{
  ℕ, ◌≤◌, ◌≡◌, refl, arith, sym, ap, ◌∙◌, subst, Bool, true, false, Bool-cases, Option, none, some,
  inl, inr, List,
}
use telegram_socks_ws_proxy.Base.Utf8.{Str}
use telegram_socks_ws_proxy.Base.Stream.{Stream, Outcome, ok, err, pending, panicked}
use telegram_socks_ws_proxy.Telegram.Cipher.{Cipher}
use telegram_socks_ws_proxy.Telegram.Catalog.{is_telegram_ip}
use telegram_socks_ws_proxy.Ws.Types.{WsError}
use telegram_socks_ws_proxy.Socks.{
  SocksAuthConfig, SocksCommand, connect, SocksError, handle_socks5_handshake,
}
use telegram_socks_ws_proxy.Routing.Backoff.{
  WsKey, key_eq, WsState, WsDecision, probe_now, probe_in_flight, WsBackoff, begin_probe, keeps,
}
use telegram_socks_ws_proxy.Routing.Backoff.View.{key_eq→eq, decision_of}
use telegram_socks_ws_proxy.Routing.Backoff.Trace.{
  Event, cleared, failed, disabled, began, step-keeps, decision_while,
}
use telegram_socks_ws_proxy.Routing.Backoff.Trace
use telegram_socks_ws_proxy.Routing.Resolve.{ResolvedTelegramInit}
use telegram_socks_ws_proxy.Routing.Client.{
  is_http_transport, InitReadError, read_telegram_init, Shared, connect_ws_route,
}
use telegram_socks_ws_proxy.Routing.System.{
  Client, absent, accepted, waiting, received, resolved, remembered, timed, attempting, concluded,
  ended, received_init, admitted, keyed, decided, advance, System, ◌⟶◌, ◌⟶*◌, tick, accept, act,
  no_step, and_then,
}
use telegram_socks_ws_proxy.Routing.System.Calls.{concluding, calls, advance-calls}
use telegram_socks_ws_proxy.Routing.System.Invariant.{
  with_client-each, IsSound, IsSoundSystem, step-IsSoundSystem, step-later, run-later,
}

-- The task has no attempt at the route under way.
unfoldable pub IsElsewhere : WsKey → Client → Type 0
IsElsewhere k absent = Unit
IsElsewhere k waiting = Unit
IsElsewhere k (accepted s) = Unit
IsElsewhere k (received host port packet) = Unit
IsElsewhere k (resolved host port r) = Unit
IsElsewhere k (remembered host port r) = Unit
IsElsewhere k (timed key at r) = Unit
IsElsewhere k (attempting key at r) = key_eq k key ≡ false
IsElsewhere k (concluded key r domain) = Unit
IsElsewhere k (ended fate) = Unit

-- The states that turn a task away.
abbrev pub IsBlocking : WsState → Type 0
IsBlocking (WsState.probing until) = ⊥
IsBlocking (WsState.cooldown until) = Unit
IsBlocking WsState.disabled_404 = Unit

-- The route is in that state, and no task has an attempt at it under way.
abbrev pub IsClosed : WsKey → WsState → System → Type 0
IsClosed k s σ = (σ.shared.backoff.states k ≡ some s) × ((i : ℕ) → IsElsewhere k (σ.clients i))

received_init-IsElsewhere :
    (k : WsKey) (host : Str) (port : ℕ) (o : Outcome InitReadError (List ℕ))
    → IsElsewhere k (received_init host port o)
unfolding IsElsewhere
received_init-IsElsewhere k host port (ok packet) = tt
received_init-IsElsewhere k host port (err e) = tt
received_init-IsElsewhere k host port pending = tt
received_init-IsElsewhere k host port panicked = tt

admitted-IsElsewhere :
    (k : WsKey) (o : Outcome SocksError SocksCommand × Stream) → IsElsewhere k (admitted o)
unfolding IsElsewhere
admitted-IsElsewhere k (ok (connect host port), s) = elim (Bool-cases (is_telegram_ip host)) [
  | inl telegram ↦ rw telegram (received_init-IsElsewhere k host port (read_telegram_init s).0)
  | inr elsewhere ↦ rw elsewhere tt
]
admitted-IsElsewhere k (err e, s) = tt
admitted-IsElsewhere k (pending, s) = tt
admitted-IsElsewhere k (panicked, s) = tt

keyed-IsElsewhere :
    (k : WsKey) (host : Str) (port now : ℕ) (r : ResolvedTelegramInit) (o : Option ℕ)
    → IsElsewhere k (keyed host port now r o)
unfolding IsElsewhere
keyed-IsElsewhere k host port now r none = tt
keyed-IsElsewhere k host port now r (some dc) = tt

decided-IsElsewhere :
    (k key : WsKey) (at : ℕ) (r : ResolvedTelegramInit) (d : WsDecision)
    → key_eq k key ≡ false
    → IsElsewhere k (decided key at r d)
unfolding IsElsewhere
decided-IsElsewhere k key at r probe_now h = h
decided-IsElsewhere k key at r probe_in_flight h = h
decided-IsElsewhere k key at r WsDecision.cooldown h = tt
decided-IsElsewhere k key at r WsDecision.disabled_404 h = tt

-- The answer for a closed route.
closed_answer :
    (k key : WsKey) (s : WsState) (at : ℕ) (b : WsBackoff)
    → keeps at s ≡ true
    → b.states k ≡ some s
    → key_eq k key ≡ true
    → (begin_probe key at b).1 ≡ decision_of (some s)
closed_answer k key s at b running h same =
    subst (λ j. (begin_probe j at b).1 ≡ decision_of (some s)) (key_eq→eq k key same)
      (decision_while k s at b running h)

blocked-IsElsewhere :
    (k key : WsKey) (at : ℕ) (r : ResolvedTelegramInit) (s : WsState)
    → IsBlocking s
    → IsElsewhere k (decided key at r (decision_of (some s)))
unfolding IsElsewhere
blocked-IsElsewhere k key at r (WsState.probing until) blocks = absurd blocks
blocked-IsElsewhere k key at r (WsState.cooldown until) blocks = tt
blocked-IsElsewhere k key at r WsState.disabled_404 blocks = tt

concluding-keeps :
    (k key : WsKey) (s : WsState) (at : ℕ) (r : Option Str × Bool) (b : WsBackoff)
    → key_eq k key ≡ false
    → b.states k ≡ some s
    → (Trace.step (concluding key at r) b).states k ≡ some s
concluding-keeps k key s at (some domain, all_404) b other h =
    step-keeps k s (cleared key) b other h
concluding-keeps k key s at (none, true) b other h = step-keeps k s (disabled key) b other h
concluding-keeps k key s at (none, false) b other h = step-keeps k s (failed key at) b other h

-- What runs at a moment ran before it.
keeps_earlier : (now t : ℕ) (s : WsState) → now ≤ t → keeps t s ≡ true → keeps now s ≡ true
unfolding keeps
keeps_earlier now t (WsState.probing until) le h = ground arith
keeps_earlier now t (WsState.cooldown until) le h = ground arith
keeps_earlier now t WsState.disabled_404 le h = refl

calls-keeps :
    (k : WsKey) (s : WsState) (answer : Str → Option WsError) (now : ℕ) (x : Client) (b : WsBackoff)
    → keeps now s ≡ true
    → IsSound now x
    → IsElsewhere k x
    → b.states k ≡ some s
    → (Trace.run (calls answer x) b).states k ≡ some s
unfolding Trace.run IsElsewhere IsSound
calls-keeps k s answer now absent b running sound away h = h
calls-keeps k s answer now waiting b running sound away h = h
calls-keeps k s answer now (accepted stream) b running sound away h = h
calls-keeps k s answer now (received host port packet) b running sound away h = h
calls-keeps k s answer now (resolved host port r) b running sound away h = h
calls-keeps k s answer now (remembered host port r) b running sound away h = h
calls-keeps k s answer now (timed key at r) b running sound away h =
    step-keeps k s (began key at) b (keeps_earlier at now s sound.0 running) h
calls-keeps k s answer now (attempting key at r) b running sound away h =
    concluding-keeps k key s at (connect_ws_route answer key.0 key.1) b away h
calls-keeps k s answer now (concluded key r domain) b running sound away h = h
calls-keeps k s answer now (ended fate) b running sound away h = h

module _ (c : Cipher) (auth : Option SocksAuthConfig) (k : WsKey) (s : WsState)
    (blocks : IsBlocking s) where
  advance-IsElsewhere :
      (answer : Str → Option WsError) (now : ℕ) (shared : Shared) (x : Client)
      → keeps now s ≡ true
      → IsSound now x
      → shared.backoff.states k ≡ some s
      → IsElsewhere k x
      → IsElsewhere k (advance c auth answer now shared x).0
  unfolding IsElsewhere IsSound advance
  advance-IsElsewhere answer now shared absent running sound h away = tt
  advance-IsElsewhere answer now shared waiting running sound h away = tt
  advance-IsElsewhere answer now shared (accepted stream) running sound h away =
      admitted-IsElsewhere k (handle_socks5_handshake auth stream)
  advance-IsElsewhere answer now shared (received host port packet) running sound h away = tt
  advance-IsElsewhere answer now shared (resolved host port r) running sound h away = tt
  advance-IsElsewhere answer now shared (remembered host port r) running sound h away =
      elim (Bool-cases (is_http_transport r.packet)) [
        | inl http ↦ rw http tt
        | inr other ↦ rw other (keyed-IsElsewhere k host port now r r.info.dc)
      ]
  advance-IsElsewhere answer now shared (timed key at r) running sound h away =
      elim (Bool-cases (key_eq k key)) [
        | inl same ↦
            subst (λ d. IsElsewhere k (decided key at r d))
              (sym (
                closed_answer k key s at shared.backoff (keeps_earlier at now s sound.0 running) h
                  same))
              (blocked-IsElsewhere k key at r s blocks)
        | inr other ↦ decided-IsElsewhere k key at r (begin_probe key at shared.backoff).1 other
      ]
  advance-IsElsewhere answer now shared (attempting key at r) running sound h away = tt
  advance-IsElsewhere answer now shared (concluded key r domain) running sound h away = tt
  advance-IsElsewhere answer now shared (ended fate) running sound h away = tt

  step-IsClosed :
      (σ τ : System)
      → ◌⟶◌ c auth σ τ
      → IsSoundSystem σ
      → keeps σ.now s ≡ true
      → IsClosed k s σ
      → IsClosed k s τ
  unfolding IsElsewhere
  step-IsClosed σ _ (tick d) sound running h = h
  step-IsClosed σ _ (accept i stream free) sound running (h, away) =
      (h, with_client-each (IsElsewhere k) i (accepted stream) σ.clients tt away)
  step-IsClosed σ _ (act i answer) sound running (h, away) = (
    ap (λ (b : WsBackoff). b.states k) (advance-calls c auth answer σ.now σ.shared (σ.clients i))
        ∙ calls-keeps k s answer σ.now (σ.clients i) σ.shared.backoff running (sound.1 i) (away i)
            h,
    with_client-each (IsElsewhere k) i (advance c auth answer σ.now σ.shared (σ.clients i)).0
        σ.clients
        (advance-IsElsewhere answer σ.now σ.shared (σ.clients i) running (sound.1 i) h (away i))
        away,
  )

  -- While every address learned is of a data centre from 1 to 5 and every task is sound: once a
  -- route is in cooldown or disabled by a 404, and no task has an attempt at it under way,
  -- both hold until the cooldown is over, or for ever, whatever the tasks of the process do: none of
  -- them attempts that route in that time.
  pub run-IsClosed :
      (σ τ : System)
      → ◌⟶*◌ c auth σ τ
      → IsSoundSystem σ
      → keeps τ.now s ≡ true
      → IsClosed k s σ
      → IsClosed k s τ
  run-IsClosed σ τ no_step sound running h = h
  run-IsClosed σ τ (and_then {τ = υ} first more) sound running h =
      let later = run-later c auth υ τ more in
      let running' = keeps_earlier υ.now τ.now s later running in
      run-IsClosed υ τ more (step-IsSoundSystem c auth σ υ first sound) running (
        step-IsClosed σ υ first sound
          (keeps_earlier σ.now υ.now s (step-later c auth σ υ first) running') h)
