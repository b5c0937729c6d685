-- ===== src/Routing/Backoff/Trace.antt =====
-- Sequences of calls of src/modules/routing/backoff.rs by concurrent clients.
use telegram_socks_ws_proxy.Base.{
  ℕ, ◌+◌, ◌≤◌, ◌<◌, ◌≡◌, refl, arith, true, false, ◌&&◌, Option, none, some, All, List, ap, sym,
  ◌∙◌, Bool-cases, inl, inr, lt→ltb, le→ltb-false, [], ◌∷◌,
}
use telegram_socks_ws_proxy.Routing.Backoff.{
  WsKey, key_eq, WsState, WsDecision, probing, probe_now, probe_in_flight, WsBackoff, keeps,
  retained, retain, begin_probe, record_failure, disable_404, clear, ws_attempt_window,
  ws_failure_cooldown,
}
use telegram_socks_ws_proxy.Routing.Backoff.View.{
  key_eq_refl, key_eq→eq, decision_of, is_free, decide_lem,
}

-- A call on the shared table.
pub data Event : Type 0 where
  began : WsKey → ℕ → Event
  failed : WsKey → ℕ → Event
  disabled : WsKey → Event
  cleared : WsKey → Event

unfoldable pub step : Event → WsBackoff → WsBackoff
step (began k now) b = (begin_probe k now b).0
step (failed k now) b = record_failure k now b
step (disabled k) b = disable_404 k b
step (cleared k) b = clear k b

unfoldable pub run : List Event → WsBackoff → WsBackoff
run [] b = b
run (e ∷ es) b = run es (step e b)

-- The call does not write route `k`, and comes while the state `s` still runs.
abbrev pub Spares : WsKey → WsState → Event → Type 0
Spares k s (began j now) = keeps now s ≡ true
Spares k s (failed j now) = key_eq k j ≡ false
Spares k s (disabled j) = key_eq k j ≡ false
Spares k s (cleared j) = key_eq k j ≡ false

retained_running : (now : ℕ) (s : WsState) → keeps now s ≡ true → retained now (some s) ≡ some s
unfolding retained
retained_running now s h = rw h

running_busy :
    (k j : WsKey) (s : WsState) (f : WsKey → Option WsState)
    → f k ≡ some s
    → ¬ ((key_eq k j && is_free (f j)) ≡ true)
running_busy k j s f e c = let same = key_eq→eq k j (ground arith) in ground (arith, ap f same)

retained_over : (now : ℕ) (s : WsState) → keeps now s ≡ false → retained now (some s) ≡ none
unfolding retained
retained_over now s h = rw h

begin_probe-keeps :
    (k j : WsKey) (s : WsState) (now : ℕ) (b : WsBackoff)
    → keeps now s ≡ true
    → b.states k ≡ some s
    → (begin_probe j now b).0.states k ≡ some s
unfolding begin_probe
begin_probe-keeps k j s now b h e =
    let kept = ap (retained now) e ∙ retained_running now s h in
    let (_, after) = decide_lem j k now (retain now b) (retained now (b.states j)) in
    elim (Bool-cases (key_eq k j && is_free (retained now (b.states j)))) [
      | inl c ↦ absurd (running_busy k j s (λ i. retained now (b.states i)) kept c)
      | inr c ↦ after ∙ rw c kept
    ]

pub step-keeps :
    (k : WsKey) (s : WsState) (e : Event) (b : WsBackoff)
    → Spares k s e
    → b.states k ≡ some s
    → (step e b).states k ≡ some s
unfolding step record_failure disable_404 clear
step-keeps k s (began j now) b h e = begin_probe-keeps k j s now b h e
step-keeps k s (failed j now) b h e = ground arith
step-keeps k s (disabled j) b h e = ground arith
step-keeps k s (cleared j) b h e = ground arith

run-keeps :
    (k : WsKey) (s : WsState) (es : List Event) (b : WsBackoff)
    → All (Spares k s) es
    → b.states k ≡ some s
    → (run es b).states k ≡ some s
unfolding run
run-keeps k s [] b h e = e
run-keeps k s (x ∷ es) b h e = run-keeps k s es (step x b) h.1 (step-keeps k s x b h.0 e)

decision_of-probe_now : (s : Option WsState) → decision_of s ≡ probe_now → s ≡ none
decision_of-probe_now none e = refl
decision_of-probe_now (some (probing until)) e = cc
decision_of-probe_now (some (WsState.cooldown until)) e = cc
decision_of-probe_now (some WsState.disabled_404) e = cc

granted_state :
    (k : WsKey) (t : ℕ) (b : WsBackoff)
    → (begin_probe k t b).1 ≡ probe_now
    → (begin_probe k t b).0.states k ≡ some (probing (t + ws_attempt_window))
unfolding begin_probe
granted_state k t b e =
    let (answer, after) = decide_lem k k t (retain t b) (retained t (b.states k)) in
    let free = decision_of-probe_now _ (sym answer ∙ e) in after ∙ rw (key_eq_refl k, free)

pub decision_while :
    (k : WsKey) (s : WsState) (now : ℕ) (b : WsBackoff)
    → keeps now s ≡ true
    → b.states k ≡ some s
    → (begin_probe k now b).1 ≡ decision_of (some s)
unfolding begin_probe
decision_while k s now b h e =
    (decide_lem k k now (retain now b) (retained now (b.states k))).0
    ∙ ap decision_of (ap (retained now) e ∙ retained_running now s h)

decision_after :
    (k : WsKey) (s : WsState) (now : ℕ) (b : WsBackoff)
    → keeps now s ≡ false
    → b.states k ≡ some s
    → (begin_probe k now b).1 ≡ probe_now
unfolding begin_probe retained
decision_after k s now b h e =
    (decide_lem k k now (retain now b) (retained now (b.states k))).0
    ∙ ap decision_of (ap (retained now) e ∙ retained_over now s h)

-- Once a failure is recorded, the route is closed for the whole cooldown, whatever other clients
-- do meanwhile, so long as none of them records, disables or clears that same route and none
-- begins a probe after the cooldown's end.
pub cooldown-lasts :
    (k : WsKey) (t₀ t : ℕ) (b : WsBackoff) (es : List Event)
    → All (Spares k (WsState.cooldown (t₀ + ws_failure_cooldown))) es
    → t < t₀ + ws_failure_cooldown
    → (begin_probe k t (run es (record_failure k t₀ b))).1 ≡ WsDecision.cooldown
unfolding record_failure keeps
cooldown-lasts k t₀ t b es h lt =
    let s = WsState.cooldown (t₀ + ws_failure_cooldown) in
    decision_while k s t _ (lt→ltb _ _ lt)
      (run-keeps k s es (record_failure k t₀ b) h (rw (key_eq_refl k)))

-- Once the cooldown has passed the route may be probed again, whatever the state before the
-- failure was: a permanent disablement by a 404 is replaced by the cooldown as well.
pub cooldown-ends :
    (k : WsKey) (t₀ t : ℕ) (b : WsBackoff) (es : List Event)
    → All (Spares k (WsState.cooldown (t₀ + ws_failure_cooldown))) es
    → t₀ + ws_failure_cooldown ≤ t
    → (begin_probe k t (run es (record_failure k t₀ b))).1 ≡ probe_now
unfolding record_failure keeps
cooldown-ends k t₀ t b es h le =
    let s = WsState.cooldown (t₀ + ws_failure_cooldown) in
    decision_after k s t _ (le→ltb-false _ _ le)
      (run-keeps k s es (record_failure k t₀ b) h (rw (key_eq_refl k)))

-- A granted probe is the only one granted for its route during the attempt window, whatever other
-- clients do meanwhile, so long as none of them records, disables or clears that same route and
-- none begins a probe after the window's end.
pub probe-IsExclusive :
    (k : WsKey) (t₀ t : ℕ) (b : WsBackoff) (es : List Event)
    → (begin_probe k t₀ b).1 ≡ probe_now
    → All (Spares k (probing (t₀ + ws_attempt_window))) es
    → t < t₀ + ws_attempt_window
    → (begin_probe k t (run es (begin_probe k t₀ b).0)).1 ≡ probe_in_flight
unfolding keeps
probe-IsExclusive k t₀ t b es granted h lt =
    decision_while k _ t _ (lt→ltb _ _ lt) (run-keeps k _ es _ h (granted_state k t₀ b granted))

-- A route disabled by a 404 stays disabled for ever, if no client records a failure for it or
-- clears it later.
pub disabled-lasts :
    (k : WsKey) (t : ℕ) (b : WsBackoff) (es : List Event)
    → All (Spares k WsState.disabled_404) es
    → (begin_probe k t (run es (disable_404 k b))).1 ≡ WsDecision.disabled_404
unfolding disable_404 keeps
disabled-lasts k t b es h =
    decision_while k WsState.disabled_404 t _ refl
      (run-keeps k WsState.disabled_404 es (disable_404 k b) h (rw (key_eq_refl k)))
