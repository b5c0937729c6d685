-- ===== src/Main/Life.antt =====
-- When the program of src/main.rs ends, and which connections it serves until then.
use telegram_socks_ws_proxy.Base.{
  ℕ, ◌+◌, ◌<◌, ◌≤◌, ◌≡◌, refl, ap, arith, true, Bool-cases, Option, none, some, inl, inr, ◌⊎◌, List,
  [], ◌∷◌, ◌++◌,
}
use telegram_socks_ws_proxy.Main.{
  Event, accepted, accept_failed, signal, Exit, running, server_exited, shutdown, server_error,
  is_over, shutdown_delay, select, run_main,
}

module _ {ℓ κ} {E : Type ℓ} {A : Type κ} where
  -- The connections among the events.
  abbrev pub connections : List (ℕ × Event E A) → List A
  connections [] = []
  connections ((t, accepted stream) ∷ events) = stream ∷ connections events
  connections ((t, accept_failed e) ∷ events) = connections events
  connections ((t, signal) ∷ events) = connections events

  -- None of them is a loop that fails.
  abbrev pub NoFailure : List (ℕ × Event E A) → Type 0
  NoFailure [] = Unit
  NoFailure ((t, accepted stream) ∷ events) = NoFailure events
  NoFailure ((t, accept_failed e) ∷ events) = ⊥
  NoFailure ((t, signal) ∷ events) = NoFailure events

  -- The moment of the first signal.
  abbrev pub first_signal : List (ℕ × Event E A) → Option ℕ
  first_signal [] = none
  first_signal ((t, accepted stream) ∷ events) = first_signal events
  first_signal ((t, accept_failed e) ∷ events) = first_signal events
  first_signal ((t, signal) ∷ events) = some t

  abbrev pub AllBefore : ℕ → List (ℕ × Event E A) → Type 0
  AllBefore end [] = Unit
  AllBefore end ((t, e) ∷ events) = (t < end) × AllBefore end events

  -- What comes behind the first signal comes within 200 ms of it.
  abbrev pub InTime : List (ℕ × Event E A) → Type 0
  InTime [] = Unit
  InTime ((t, accepted stream) ∷ events) = InTime events
  InTime ((t, accept_failed e) ∷ events) = InTime events
  InTime ((t, signal) ∷ events) = AllBefore (t + 200_000_000) events

  -- Nothing comes next, or something at the moment `end` or later.
  abbrev pub Waits : ℕ → List (ℕ × Event E A) → Type (ℓ ⊔ κ)
  Waits end back =
      (back ≡ [])
      ⊎ ((t : ℕ) × (e : Event E A) × (rest : List (ℕ × Event E A)) × (back ≡ (t, e) ∷ rest)
          × (end ≤ t))

  -- What comes next, `back`, brings the exit, where `first` is the first signal so far.
  abbrev pub Brings : Option ℕ → List (ℕ × Event E A) → Exit E → Type (ℓ ⊔ κ)
  Brings first back running = (first ≡ none) × (back ≡ [])
  Brings first back server_exited = (back ≡ []) × ⊥
  Brings first back shutdown = (t₀ : ℕ) × (first ≡ some t₀) × Waits (t₀ + 200_000_000) back
  Brings first back (server_error e) =
      (t : ℕ) × (rest : List (ℕ × Event E A)) × (back ≡ (t, accept_failed e) ∷ rest)
      × ((t₀ : ℕ) → first ≡ some t₀ → t < t₀ + 200_000_000)

  abbrev pub IsLife : List (ℕ × Event E A) → List A × Exit E → Type (ℓ ⊔ κ)
  IsLife events (served, exit) =
      (front : List (ℕ × Event E A)) × (back : List (ℕ × Event E A)) × (events ≡ front ++ back)
      × NoFailure front
      × InTime front
      × (served ≡ connections front)
      × Brings (first_signal front) back exit

  -- The same behind the first signal, at `t₀`.
  abbrev IsRest : ℕ → List (ℕ × Event E A) → List A × Exit E → Type (ℓ ⊔ κ)
  IsRest t₀ events (served, exit) =
      (front : List (ℕ × Event E A)) × (back : List (ℕ × Event E A)) × (events ≡ front ++ back)
      × NoFailure front
      × AllBefore (t₀ + 200_000_000) front
      × (served ≡ connections front)
      × Brings (some t₀) back exit

  late :
      (t₀ t : ℕ) (e : Event E A) (rest : List (ℕ × Event E A))
      → is_over (some (t₀ + shutdown_delay)) t ≡ true
      → IsRest t₀ ((t, e) ∷ rest) ([], shutdown)
  late t₀ t e rest h = ([], _, refl, tt, tt, refl, (t₀, refl, inr (t, e, rest, refl, ground arith)))

  select-IsRest :
      (t₀ : ℕ) (events : List (ℕ × Event E A))
      → IsRest t₀ events (select (some (t₀ + shutdown_delay)) events)
  unfolding select
  select-IsRest t₀ [] = ([], [], refl, tt, tt, refl, (t₀, refl, inl refl))
  select-IsRest t₀ ((t, accepted stream) ∷ events) =
      elim (Bool-cases (is_over (some (t₀ + shutdown_delay)) t)) [
        | inl over ↦ rw over (late t₀ t (accepted stream) events over)
        | inr early ↦
            let (front, back, split, quiet, before, served, brings) = select-IsRest t₀ events in
            rw early (
              (t, accepted stream) ∷ front,
              back,
              ap (λ l. (t, accepted stream) ∷ l) split,
              quiet,
              (ground arith, before),
              ap (λ l. stream ∷ l) served,
              brings,
            )
      ]
  select-IsRest t₀ ((t, accept_failed e) ∷ events) =
      elim (Bool-cases (is_over (some (t₀ + shutdown_delay)) t)) [
        | inl over ↦ rw over (late t₀ t (accept_failed e) events over)
        | inr early ↦
            let soon : t < t₀ + 200_000_000 = ground arith in
            rw early (
              [],
              _,
              refl,
              tt,
              tt,
              refl,
              (t, events, refl, λ t₁ same. let t_same : t₀ ≡ t₁ = cc in rw (← t_same) soon),
            )
      ]
  select-IsRest t₀ ((t, signal) ∷ events) =
      elim (Bool-cases (is_over (some (t₀ + shutdown_delay)) t)) [
        | inl over ↦ rw over (late t₀ t signal events over)
        | inr early ↦
            let (front, back, split, quiet, before, served, brings) = select-IsRest t₀ events in
            rw early (
              (t, signal) ∷ front,
              back,
              ap (λ l. (t, signal) ∷ l) split,
              quiet,
              (ground arith, before),
              served,
              brings,
            )
      ]

  select-IsLife : (events : List (ℕ × Event E A)) → IsLife events (select none events)
  unfolding select
  select-IsLife [] = ([], [], refl, tt, tt, refl, (refl, refl))
  select-IsLife ((t, accepted stream) ∷ events) =
      let (front, back, split, quiet, in_time, served, brings) = select-IsLife events in
      (
        (t, accepted stream) ∷ front,
        back,
        ap (λ l. (t, accepted stream) ∷ l) split,
        quiet,
        in_time,
        ap (λ l. stream ∷ l) served,
        brings,
      )
  select-IsLife ((t, accept_failed e) ∷ events) =
      ([], _, refl, tt, tt, refl, (t, events, refl, λ t₀ h. cc))
  select-IsLife ((t, signal) ∷ events) =
      let (front, back, split, quiet, before, served, brings) = select-IsRest t events in
      ((t, signal) ∷ front, back, ap (λ l. (t, signal) ∷ l) split, quiet, before, served, brings)

  -- With a listener at least, the events fall into a front that is handled and a back that is not.
  -- The front has no failure of a listener's accept, and after its first signal only events that
  -- come within 200 ms of that signal; the program serves exactly the connections of the front. It
  -- keeps running if the front is all and has no signal. It ends with an error if that failure
  -- comes next, within the 200 ms if there was a signal; and it shuts down if there was one and
  -- nothing comes next, or something 200 ms after it or later.
  pub run_main-IsLife {μ} :
      {L : Type μ} (listener : L) (listeners : List L) (events : List (ℕ × Event E A))
      → IsLife events (run_main (listener ∷ listeners) events)
  unfolding run_main
  run_main-IsLife listener listeners events = select-IsLife events
