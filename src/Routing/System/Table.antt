-- ===== src/Routing/System/Table.antt =====
-- What the backoff table of src/modules/routing/backoff.rs holds in every run of a process.
use telegram_socks_ws_proxy.Base.{
  ℕ, ◌+◌, ◌≤◌, ◌≡◌, refl, sym, ◌∙◌, subst, arith, if◌then◌else◌, Bool, true, false, Bool-cases,
  ◌&&◌, Option, none, some, inl, inr, ◌⊎◌, le→ltb-false,
}
use telegram_socks_ws_proxy.Base.Utf8.{Str}
use telegram_socks_ws_proxy.Telegram.Cipher.{Cipher}
use telegram_socks_ws_proxy.Ws.Types.{WsError}
use telegram_socks_ws_proxy.Socks.{SocksAuthConfig}
use telegram_socks_ws_proxy.Routing.Backoff.{
  WsKey, key_eq, WsState, probe_now, probing, WsBackoff, retained, retain, begin_probe,
  record_failure, disable_404, clear, keeps, ws_attempt_window, ws_failure_cooldown,
}
use telegram_socks_ws_proxy.Routing.Backoff.View.{
  key_eq→eq, decide_lem, is_free, live, decision_of, begin_probe_lem,
}
use telegram_socks_ws_proxy.Routing.Backoff.Trace.{Event, began, failed, disabled, cleared}
use telegram_socks_ws_proxy.Routing.Backoff.Trace
use telegram_socks_ws_proxy.Routing.Resolve.Consistent.{IsDc}
use telegram_socks_ws_proxy.Routing.Client.{connect_ws_route}
use telegram_socks_ws_proxy.Routing.System.Calls.{concluding, calls, advance-calls}
use telegram_socks_ws_proxy.Routing.System.{
  Client, absent, accepted, waiting, received, resolved, remembered, timed, attempting, concluded,
  ended, System, fresh, ◌⟶◌, ◌⟶*◌, tick, accept, act, no_step, and_then,
}
use telegram_socks_ws_proxy.Routing.System.Invariant.{
  IsSound, IsSoundSystem, step-IsSoundSystem, reachable-IsSoundSystem,
}

-- No state of the table lasts longer than the windows allow.
unfoldable pub IsBounded : ℕ → WsState → Type 0
IsBounded now (probing until) = until ≤ now + ws_attempt_window
IsBounded now (WsState.cooldown until) = until ≤ now + ws_failure_cooldown
IsBounded now WsState.disabled_404 = Unit

IsBounded-later : (now t : ℕ) (s : WsState) → now ≤ t → IsBounded now s → IsBounded t s
unfolding IsBounded
IsBounded-later now t (probing until) le h = omega arith
IsBounded-later now t (WsState.cooldown until) le h = omega arith
IsBounded-later now t WsState.disabled_404 le h = tt

abbrev pub IsSoundEntry : ℕ → WsKey → Option WsState → Type 0
IsSoundEntry now k none = Unit
IsSoundEntry now k (some s) = IsDc k.0 × IsBounded now s

abbrev pub IsSoundTable : ℕ → WsBackoff → Type 0
IsSoundTable now b = (k : WsKey) → IsSoundEntry now k (b.states k)

-- What the tasks guarantee of their calls.
abbrev pub IsSoundCall : ℕ → Event → Type 0
IsSoundCall now (began key at) = IsDc key.0 × (at ≤ now)
IsSoundCall now (failed key at) = IsDc key.0 × (at ≤ now)
IsSoundCall now (disabled key) = IsDc key.0
IsSoundCall now (cleared key) = Unit

inserted-IsSound :
    (now : ℕ) (key k : WsKey) (s : WsState) (o : Option WsState)
    → IsDc key.0
    → IsBounded now s
    → IsSoundEntry now k o
    → (b : Bool) → key_eq k key ≡ b
    → IsSoundEntry now k (if b then some s else o)
inserted-IsSound now key k s o dc bounded h true e =
    (subst (λ (j : WsKey). IsDc j.0) (sym (key_eq→eq k key e)) dc, bounded)
inserted-IsSound now key k s o dc bounded h false e = h

retained-IsSound :
    (now t : ℕ) (k : WsKey) (o : Option WsState)
    → IsSoundEntry now k o
    → IsSoundEntry now k (retained t o)
unfolding retained
retained-IsSound now t k none h = tt
retained-IsSound now t k (some s) h = elim (Bool-cases (keeps t s)) [
  | inl kept ↦ rw kept h
  | inr over ↦ rw over tt
]

with_true : (a : Bool) → (a && true) ≡ a
with_true true = refl
with_true false = refl

with_false : (a : Bool) → (a && false) ≡ false
with_false true = refl
with_false false = refl

call-IsSoundTable :
    (now : ℕ) (e : Event) (b : WsBackoff)
    → IsSoundCall now e
    → IsSoundTable now b
    → IsSoundTable now (Trace.step e b)
unfolding Trace.step record_failure disable_404 clear IsBounded begin_probe retain
call-IsSoundTable now (began key at) b call h k =
    let o = retained at (b.states key) in
    let (_, after) = decide_lem key k at (retain at b) o in
    subst (IsSoundEntry now k) (sym after) (elim (Bool-cases (is_free o)) [
      | inl free ↦
          rw (free, with_true (key_eq k key))
            (inserted-IsSound now key k (probing (at + ws_attempt_window)) _ call.0
              (omega (arith, call.1)) (retained-IsSound now at k (b.states k) (h k)) _ refl)
      | inr busy ↦
          rw (busy, with_false (key_eq k key)) (retained-IsSound now at k (b.states k) (h k))
    ])
call-IsSoundTable now (failed key at) b call h k =
    inserted-IsSound now key k (WsState.cooldown (at + ws_failure_cooldown)) (b.states k) call.0
      (omega (arith, call.1)) (h k) _ refl
call-IsSoundTable now (disabled key) b call h k =
    inserted-IsSound now key k WsState.disabled_404 (b.states k) call tt (h k) _ refl
call-IsSoundTable now (cleared key) b call h k = elim (Bool-cases (key_eq k key)) [
  | inl same ↦ rw same tt
  | inr other ↦ rw other (h k)
]

concluding-IsSoundCall :
    (now : ℕ) (key : WsKey) (at : ℕ) (r : Option Str × Bool)
    → IsDc key.0
    → at ≤ now
    → IsSoundCall now (concluding key at r)
concluding-IsSoundCall now key at (some domain, all_404) dc le = tt
concluding-IsSoundCall now key at (none, true) dc le = dc
concluding-IsSoundCall now key at (none, false) dc le = (dc, le)

calls-IsSoundTable :
    (answer : Str → Option WsError) (now : ℕ) (x : Client) (b : WsBackoff)
    → IsSound now x
    → IsSoundTable now b
    → IsSoundTable now (Trace.run (calls answer x) b)
unfolding Trace.run IsSound
calls-IsSoundTable answer now absent b sound h = h
calls-IsSoundTable answer now waiting b sound h = h
calls-IsSoundTable answer now (accepted s) b sound h = h
calls-IsSoundTable answer now (received host port packet) b sound h = h
calls-IsSoundTable answer now (resolved host port r) b sound h = h
calls-IsSoundTable answer now (remembered host port r) b sound h = h
calls-IsSoundTable answer now (timed key at r) b (le, keyed) h =
    call-IsSoundTable now (began key at) b (keyed.0, le) h
calls-IsSoundTable answer now (attempting key at r) b (le, keyed) h =
    call-IsSoundTable now (concluding key at (connect_ws_route answer key.0 key.1)) b
      (concluding-IsSoundCall now key at (connect_ws_route answer key.0 key.1) keyed.0 le) h
calls-IsSoundTable answer now (concluded key r domain) b sound h = h
calls-IsSoundTable answer now (ended fate) b sound h = h

entry-later :
    (now t : ℕ) (k : WsKey) (o : Option WsState)
    → now ≤ t
    → IsSoundEntry now k o
    → IsSoundEntry t k o
entry-later now t k none le h = tt
entry-later now t k (some s) le h = (h.0, IsBounded-later now t s le h.1)

free_later :
    (now later : ℕ) (k : WsKey) (b : WsBackoff)
    → IsSoundEntry now k (b.states k)
    → now + ws_failure_cooldown ≤ later
    → ((begin_probe k later b).1 ≡ probe_now) ⊎ (b.states k ≡ some WsState.disabled_404)
unfolding live retained keeps IsBounded
free_later now later k b sound le = by_state (b.states k) refl sound
  where
    answer : (begin_probe k later b).1 ≡ decision_of (retained later (b.states k))
    answer = (begin_probe_lem k k later later b (omega arith)).0

    by_state :
        (o : Option WsState)
        → b.states k ≡ o
        → IsSoundEntry now k o
        → ((begin_probe k later b).1 ≡ probe_now) ⊎ (b.states k ≡ some WsState.disabled_404)
    by_state none e h = inl (answer ∙ rw e)
    by_state (some (probing until)) e h =
        inl (answer ∙ rw (e, le→ltb-false later until (omega (arith, h.1))))
    by_state (some (WsState.cooldown until)) e h =
        inl (answer ∙ rw (e, le→ltb-false later until (omega (arith, h.1))))
    by_state (some WsState.disabled_404) e h = inr e

module _ (c : Cipher) (auth : Option SocksAuthConfig) where
  step-IsSoundTable :
      (σ τ : System)
      → ◌⟶◌ c auth σ τ
      → IsSoundSystem σ
      → IsSoundTable σ.now σ.shared.backoff
      → IsSoundTable τ.now τ.shared.backoff
  step-IsSoundTable σ _ (tick d) sound h =
      λ k. entry-later σ.now (σ.now + d) k (σ.shared.backoff.states k) (omega arith) (h k)
  step-IsSoundTable σ _ (accept i s free) sound h = h
  step-IsSoundTable σ _ (act i answer) sound h =
      subst (IsSoundTable σ.now) (sym (advance-calls c auth answer σ.now σ.shared (σ.clients i)))
        (calls-IsSoundTable answer σ.now (σ.clients i) σ.shared.backoff (sound.1 i) h)

  run-IsSoundTable :
      (σ τ : System)
      → ◌⟶*◌ c auth σ τ
      → IsSoundSystem σ
      → IsSoundTable σ.now σ.shared.backoff
      → IsSoundTable τ.now τ.shared.backoff
  run-IsSoundTable σ τ no_step sound h = h
  run-IsSoundTable σ τ (and_then {τ = υ} s more) sound h =
      run-IsSoundTable υ τ more (step-IsSoundSystem c auth σ υ s sound)
        (step-IsSoundTable σ υ s sound h)

  -- In every state that a process reaches from its start the backoff table has a state for none
  -- but the ten routes of the data centres from 1 to 5, and none of its deadlines is further ahead
  -- than the attempt window, for a probe, or the cooldown.
  pub reachable-IsSoundTable :
      (t : ℕ) (σ : System) → ◌⟶*◌ c auth (fresh t) σ → IsSoundTable σ.now σ.shared.backoff
  reachable-IsSoundTable t σ run =
      run-IsSoundTable (fresh t) σ run (reachable-IsSoundSystem c auth t (fresh t) no_step)
        (λ k. tt)

  -- Whatever has happened in a process, a route that is asked for once the cooldown has passed from
  -- now on, with no call on the table meanwhile, is free, or it is disabled by a 404.
  pub reachable-free :
      (t : ℕ) (σ : System) (k : WsKey) (later : ℕ)
      → ◌⟶*◌ c auth (fresh t) σ
      → σ.now + ws_failure_cooldown ≤ later
      → ((begin_probe k later σ.shared.backoff).1 ≡ probe_now)
        ⊎ (σ.shared.backoff.states k ≡ some WsState.disabled_404)
  reachable-free t σ k later run le =
      free_later σ.now later k σ.shared.backoff (reachable-IsSoundTable t σ run k) le
