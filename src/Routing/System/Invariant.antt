-- ===== src/Routing/System/Invariant.antt =====
-- What holds of every task of src/modules/routing.rs, and of the addresses learned, in every run of a process.
use telegram_socks_ws_proxy.Base.{
  ℕ, ◌+◌, ◌≤◌, ◌≡◌, refl, arith, ◌==◌, false, Bool-cases, Option, none, some, inl, inr, List,
}
use telegram_socks_ws_proxy.Base.Utf8.{Str}
use telegram_socks_ws_proxy.Base.Stream.{Stream, Outcome, ok, err, pending, panicked}
use telegram_socks_ws_proxy.Telegram.Cipher.{Cipher}
use telegram_socks_ws_proxy.Telegram.Catalog.{is_telegram_ip}
use telegram_socks_ws_proxy.Ws.Types.{WsError}
use telegram_socks_ws_proxy.Socks.{
  SocksAuthConfig, SocksCommand, connect, SocksError, handle_socks5_handshake, is_ipv6,
}
use telegram_socks_ws_proxy.Routing.Backoff.{
  WsKey, WsDecision, probe_now, probe_in_flight, begin_probe,
}
use telegram_socks_ws_proxy.Routing.Resolve.{ResolvedTelegramInit}
use telegram_socks_ws_proxy.Routing.Resolve.Consistent.{
  IsDc, IsValidCache, resolve_telegram_init-IsDc, remember_info-IsValidCache,
}
use telegram_socks_ws_proxy.Routing.Client.{
  is_http_transport, InitReadError, read_telegram_init, Shared,
}
use telegram_socks_ws_proxy.Routing.System.{
  Client, absent, accepted, waiting, received, resolved, remembered, timed, attempting, concluded,
  ended, received_init, admitted, keyed, decided, advance, System, fresh, with_client, ◌⟶◌, ◌⟶*◌,
  tick, accept, act, no_step, and_then,
}

-- What a task on the WebSocket route knows: its key is that of its packet, which is no HTTP request.
abbrev pub IsKeyed : WsKey → ResolvedTelegramInit → Type 0
IsKeyed key r =
    IsDc key.0
    × (r.info.dc ≡ some key.0)
    × (r.info.is_media ≡ key.1)
    × (is_http_transport r.packet ≡ false)

abbrev pub IsRanged : ResolvedTelegramInit → Type 0
IsRanged r = (dc : ℕ) → r.info.dc ≡ some dc → IsDc dc

unfoldable pub IsSound : ℕ → Client → Type 0
IsSound now absent = Unit
IsSound now waiting = Unit
IsSound now (accepted s) = Unit
IsSound now (received host port packet) = Unit
IsSound now (resolved host port r) = IsRanged r
IsSound now (remembered host port r) = IsRanged r
IsSound now (timed key at r) = (at ≤ now) × IsKeyed key r
IsSound now (attempting key at r) = (at ≤ now) × IsKeyed key r
IsSound now (concluded key r domain) = IsKeyed key r
IsSound now (ended fate) = Unit

pub IsSound-later : (now t : ℕ) (x : Client) → now ≤ t → IsSound now x → IsSound t x
unfolding IsSound
IsSound-later now t absent le h = tt
IsSound-later now t waiting le h = tt
IsSound-later now t (accepted s) le h = tt
IsSound-later now t (received host port packet) le h = tt
IsSound-later now t (resolved host port r) le h = h
IsSound-later now t (remembered host port r) le h = h
IsSound-later now t (timed key at r) le h = (omega arith, h.1)
IsSound-later now t (attempting key at r) le h = (omega arith, h.1)
IsSound-later now t (concluded key r domain) le h = h
IsSound-later now t (ended fate) le h = tt

received_init-IsSound :
    (now : ℕ) (host : Str) (port : ℕ) (o : Outcome InitReadError (List ℕ))
    → IsSound now (received_init host port o)
unfolding IsSound
received_init-IsSound now host port (ok packet) = tt
received_init-IsSound now host port (err e) = tt
received_init-IsSound now host port pending = tt
received_init-IsSound now host port panicked = tt

admitted-IsSound :
    (now : ℕ) (o : Outcome SocksError SocksCommand × Stream) → IsSound now (admitted o)
unfolding IsSound
admitted-IsSound now (ok (connect host port), s) = elim (Bool-cases (is_telegram_ip host)) [
  | inl telegram ↦ rw telegram (received_init-IsSound now host port (read_telegram_init s).0)
  | inr elsewhere ↦ rw elsewhere tt
]
admitted-IsSound now (err e, s) = tt
admitted-IsSound now (pending, s) = tt
admitted-IsSound now (panicked, s) = tt

keyed-IsSound :
    (host : Str) (port now : ℕ) (r : ResolvedTelegramInit) (o : Option ℕ)
    → IsRanged r
    → is_http_transport r.packet ≡ false
    → r.info.dc ≡ o
    → IsSound now (keyed host port now r o)
unfolding IsSound
keyed-IsSound host port now r none ranged other e = tt
keyed-IsSound host port now r (some dc) ranged other e =
    (omega arith, (ranged dc e, e, refl, other))

decided-IsSound :
    (now : ℕ) (key : WsKey) (at : ℕ) (r : ResolvedTelegramInit) (d : WsDecision)
    → at ≤ now
    → IsKeyed key r
    → IsSound now (decided key at r d)
unfolding IsSound
decided-IsSound now key at r probe_now le h = (le, h)
decided-IsSound now key at r probe_in_flight le h = (le, h)
decided-IsSound now key at r WsDecision.cooldown le h = tt
decided-IsSound now key at r WsDecision.disabled_404 le h = tt

module _ (c : Cipher) (auth : Option SocksAuthConfig) where
  advance-IsSound :
      (answer : Str → Option WsError) (now : ℕ) (shared : Shared) (x : Client)
      → IsValidCache shared.learned
      → IsSound now x
      → IsSound now (advance c auth answer now shared x).0
        × IsValidCache (advance c auth answer now shared x).1.learned
  unfolding IsSound advance
  advance-IsSound answer now shared absent valid h = (tt, valid)
  advance-IsSound answer now shared waiting valid h = (tt, valid)
  advance-IsSound answer now shared (accepted s) valid h =
      (admitted-IsSound now (handle_socks5_handshake auth s), valid)
  advance-IsSound answer now shared (received host port packet) valid h =
      (resolve_telegram_init-IsDc c host shared.learned packet valid, valid)
  advance-IsSound answer now shared (resolved host port r) valid h =
      (h, remember_info-IsValidCache host (is_ipv6 host) shared.learned r.info valid h)
  advance-IsSound answer now shared (remembered host port r) valid h =
      elim (Bool-cases (is_http_transport r.packet)) [
        | inl http ↦ rw http (tt, valid)
        | inr other ↦ rw other (keyed-IsSound host port now r r.info.dc h other refl, valid)
      ]
  advance-IsSound answer now shared (timed key at r) valid h =
      (decided-IsSound now key at r (begin_probe key at shared.backoff).1 h.0 h.1, valid)
  advance-IsSound answer now shared (attempting key at r) valid h = (h.1, valid)
  advance-IsSound answer now shared (concluded key r domain) valid h = (h, valid)
  advance-IsSound answer now shared (ended fate) valid h = (tt, valid)

-- Every address learned is of a data centre from 1 to 5, and every task is sound.
abbrev pub IsSoundSystem : System → Type 0
IsSoundSystem σ = IsValidCache σ.shared.learned × ((i : ℕ) → IsSound σ.now (σ.clients i))

pub with_client-each :
    (P : Client → Type 0) (i : ℕ) (x : Client) (clients : ℕ → Client)
    → P x
    → ((j : ℕ) → P (clients j))
    → (j : ℕ) → P (with_client i x clients j)
with_client-each P i x clients h rest j = elim (Bool-cases (j == i)) [
  | inl same ↦ rw same h
  | inr other ↦ rw other (rest j)
]

module _ (c : Cipher) (auth : Option SocksAuthConfig) where
  -- The clock does not go back.
  pub step-later : (σ τ : System) → ◌⟶◌ c auth σ τ → σ.now ≤ τ.now
  step-later σ _ (tick d) = omega arith
  step-later σ _ (accept i s free) = omega arith
  step-later σ _ (act i answer) = omega arith

  pub run-later : (σ τ : System) → ◌⟶*◌ c auth σ τ → σ.now ≤ τ.now
  run-later σ _ no_step = omega arith
  run-later σ τ (and_then {τ = υ} s more) = omega (arith, step-later σ υ s, run-later υ τ more)

  pub step-IsSoundSystem : (σ τ : System) → ◌⟶◌ c auth σ τ → IsSoundSystem σ → IsSoundSystem τ
  unfolding IsSound
  step-IsSoundSystem σ _ (tick d) (valid, each) =
      (valid, λ i. IsSound-later σ.now (σ.now + d) (σ.clients i) (omega arith) (each i))
  step-IsSoundSystem σ _ (accept i s free) (valid, each) =
      (valid, with_client-each (IsSound σ.now) i (accepted s) σ.clients tt each)
  step-IsSoundSystem σ _ (act i answer) (valid, each) =
      let (sound, still) =
        advance-IsSound c auth answer σ.now σ.shared (σ.clients i) valid (each i) in
      (
        still,
        with_client-each (IsSound σ.now) i (advance c auth answer σ.now σ.shared (σ.clients i)).0
            σ.clients sound each,
      )

  pub run-IsSoundSystem : (σ τ : System) → IsSoundSystem σ → ◌⟶*◌ c auth σ τ → IsSoundSystem τ
  run-IsSoundSystem σ τ h no_step = h
  run-IsSoundSystem σ τ h (and_then {τ = υ} s more) =
      run-IsSoundSystem υ τ (step-IsSoundSystem σ υ s h) more

  -- In every state that a process reaches from its start, whatever the order in which its tasks
  -- take their steps: every address learned is of a data centre from 1 to 5; and every task on the
  -- WebSocket route, before, during and after its attempt, has the key of its own packet, with a
  -- data centre from 1 to 5, and that packet is no HTTP request.
  pub reachable-IsSoundSystem : (t : ℕ) (σ : System) → ◌⟶*◌ c auth (fresh t) σ → IsSoundSystem σ
  unfolding IsSound
  reachable-IsSoundSystem t σ run = run-IsSoundSystem (fresh t) σ (λ ip entry h. cc, λ i. tt) run
