-- ===== src/Routing/Client/Attempts.antt =====
-- How an attempt of src/modules/routing.rs to reach a data centre over its domains ends, and what it leaves to
-- the next client of the route.
use telegram_socks_ws_proxy.Base.{
  ℕ, ◌+◌, ◌≡◌, refl, ap, ◌∙◌, arith, ◌==◌, ltb, if◌then◌else◌, Bool, true, false, Bool-cases, ◌&&◌,
  ◌||◌, Option, none, some, inl, inr, List, [], ◌∷◌, ◌++◌,
}
use telegram_socks_ws_proxy.Base.Utf8.{Str}
use telegram_socks_ws_proxy.Telegram.Catalog.{ws_domains}
use telegram_socks_ws_proxy.Ws.Types.{WsError, status_code}
use telegram_socks_ws_proxy.Routing.Backoff.{
  WsKey, WsState, WsBackoff, WsDecision, probe_now, retained, keeps, begin_probe, record_failure,
  disable_404, clear, ws_failure_cooldown,
}
use telegram_socks_ws_proxy.Routing.Backoff.View.{live, decision_of, begin_probe_lem, key_eq_refl}
use telegram_socks_ws_proxy.Routing.Client.{connect_loop, connect_ws_route, conclude}

abbrev pub connects : Option WsError → Bool
connects none = true
connects (some e) = false

abbrev pub is_404 : Option WsError → Bool
is_404 none = false
is_404 (some e) = elim (status_code e) [ some status ↦ status == 404 | none ↦ false ]

abbrev pub any : (Str → Bool) → List Str → Bool
any f [] = false
any f (d ∷ ds) = f d || any f ds

abbrev pub all : (Str → Bool) → List Str → Bool
all f [] = true
all f (d ∷ ds) = f d && all f ds

gather : (a b z : Bool) → ((if a then b else false) && z) ≡ (b && (a && z))
gather true b z = refl
gather false true z = refl
gather false false z = refl

module _ (answer : Str → Option WsError) where
  -- Unless a domain connects the loop ends without a client, and tells whether all answered 404.
  connect_loop-none :
      (domains : List Str) (all_404 : Bool)
      → any (λ d. connects (answer d)) domains ≡ false
      → connect_loop answer domains all_404
        ≡ (none, all_404 && all (λ d. is_404 (answer d)) domains)
  unfolding connect_loop
  connect_loop-none [] true h = refl
  connect_loop-none [] false h = refl
  connect_loop-none (d ∷ ds) all_404 h = by_answer (connect_loop-none ds) (answer d) refl h
    where
      by_answer :
          ((acc : Bool)
            → any (λ d. connects (answer d)) ds ≡ false
            → connect_loop answer ds acc ≡ (none, acc && all (λ d. is_404 (answer d)) ds))
          → (o : Option WsError) → answer d ≡ o
          → (connects o || any (λ d. connects (answer d)) ds) ≡ false
          → ◌≡◌ {A = Option Str × Bool}
              (elim o [
                | none ↦ (some d, all_404)
                | some e ↦ connect_loop answer ds (
                    if elim (status_code e) [ some status ↦ status == 404 | none ↦ false ]
                    then all_404
                    else false)
              ])
              (none, all_404 && (is_404 o && all (λ d. is_404 (answer d)) ds))
      by_answer again none e h = cc
      by_answer again (some x) e h =
          again (if is_404 (some x) then all_404 else false) h
          ∙ ap (λ b. (none, b)) (gather (is_404 (some x)) all_404 _)

  -- If a domain connects, the loop ends with the first one that does.
  connect_loop-some :
      (domains : List Str) (all_404 : Bool)
      → any (λ d. connects (answer d)) domains ≡ true
      → (front : List Str) × (domain : Str) × (back : List Str) × (b : Bool) × (domains
          ≡ front ++ (domain ∷ back))
        × (any (λ d. connects (answer d)) front ≡ false)
        × (answer domain ≡ none)
        × (connect_loop answer domains all_404 ≡ (some domain, b))
  unfolding connect_loop
  connect_loop-some [] all_404 h = cc
  connect_loop-some (d ∷ ds) all_404 h = by_answer (connect_loop-some ds) (answer d) refl h
    where
      by_answer :
          ((acc : Bool)
            → any (λ d. connects (answer d)) ds ≡ true
            → (front : List Str) × (domain : Str) × (back : List Str) × (b : Bool) × (ds
                ≡ front ++ (domain ∷ back))
              × (any (λ d. connects (answer d)) front ≡ false)
              × (answer domain ≡ none)
              × (connect_loop answer ds acc ≡ (some domain, b)))
          → (o : Option WsError) → answer d ≡ o
          → (connects o || any (λ d. connects (answer d)) ds) ≡ true
          → (front : List Str) × (domain : Str) × (back : List Str) × (b : Bool) × (d ∷ ds
              ≡ front ++ (domain ∷ back))
            × (any (λ d. connects (answer d)) front ≡ false)
            × (answer domain ≡ none)
            × (◌≡◌ {A = Option Str × Bool}
                (elim o [
                  | none ↦ (some d, all_404)
                  | some e ↦ connect_loop answer ds (
                      if elim (status_code e) [ some status ↦ status == 404 | none ↦ false ]
                      then all_404
                      else false)
                ])
                (some domain, b))
      by_answer again none e h = ([], d, ds, all_404, refl, refl, e, refl)
      by_answer again (some x) e h =
          let (front, domain, back, b, split, before, here, ends) =
            again (if is_404 (some x) then all_404 else false) h in
          (d ∷ front, domain, back, b, ap (λ l. d ∷ l) split, rw e before, here, ends)

-- What the next client of a route is told at a moment, by what the domains answered at the attempt.
abbrev pub next_decision : (Str → Option WsError) → List Str → ℕ → ℕ → WsDecision
next_decision answer domains now t =
    if any (λ d. connects (answer d)) domains
    then probe_now
    else if all (λ d. is_404 (answer d)) domains
    then WsDecision.disabled_404
    else if ltb t (now + ws_failure_cooldown)
    then WsDecision.cooldown
    else probe_now

module _ (key : WsKey) (now t : ℕ) (b : WsBackoff) where
  pub decision-clear : (begin_probe key t (clear key b)).1 ≡ probe_now
  unfolding live retained clear
  decision-clear =
      (begin_probe_lem key key t t (clear key b) (omega arith)).0 ∙ rw (key_eq_refl key)

  decision-disable_404 : (begin_probe key t (disable_404 key b)).1 ≡ WsDecision.disabled_404
  unfolding live retained keeps disable_404
  decision-disable_404 =
      (begin_probe_lem key key t t (disable_404 key b) (omega arith)).0 ∙ rw (key_eq_refl key)

  decision-record_failure :
      (begin_probe key t (record_failure key now b)).1
      ≡ (if ltb t (now + ws_failure_cooldown) then WsDecision.cooldown else probe_now)
  unfolding live retained keeps record_failure
  decision-record_failure =
      (begin_probe_lem key key t t (record_failure key now b) (omega arith)).0
      ∙ rw (key_eq_refl key) (still (ltb t (now + ws_failure_cooldown)))
    where
      still :
          (c : Bool)
          → decision_of (if c then some (WsState.cooldown (now + ws_failure_cooldown)) else none)
            ≡ (if c then WsDecision.cooldown else probe_now)
      still true = refl
      still false = refl

  decision-conclude-none :
      (all_404 : Bool)
      → (begin_probe key t (conclude key now (none, all_404) b).1).1 ≡ (
          if all_404
          then WsDecision.disabled_404
          else if ltb t (now + ws_failure_cooldown)
          then WsDecision.cooldown
          else probe_now)
  unfolding conclude
  decision-conclude-none true = decision-disable_404
  decision-conclude-none false = decision-record_failure

  -- After an attempt the next client of the route, whenever it asks, is told by what the domains answered: it may probe
  -- at once if one connected; the route is disabled if all answered 404; and otherwise it is in cooldown until the cooldown
  -- has passed since the attempt was asked for.
  pub conclude-connect_ws_route :
      (answer : Str → Option WsError)
      → (begin_probe key t (conclude key now (connect_ws_route answer key.0 key.1) b).1).1
        ≡ next_decision answer (ws_domains key.0 key.1) now t
  unfolding connect_ws_route conclude
  conclude-connect_ws_route answer =
      elim (Bool-cases (any (λ d. connects (answer d)) (ws_domains key.0 key.1))) [
        | inl reached ↦
            let (front, domain, back, x, split, before, here, ends) =
              connect_loop-some answer (ws_domains key.0 key.1) true reached in
            rw (ends, reached) decision-clear
        | inr failed ↦
            rw (connect_loop-none answer (ws_domains key.0 key.1) true failed, failed)
              (decision-conclude-none (all (λ d. is_404 (answer d)) (ws_domains key.0 key.1)))
      ]

-- If one of the route's domains connects, an attempt takes the first one that does.
pub connect_ws_route-first :
    (answer : Str → Option WsError) (dc : ℕ) (is_media : Bool)
    → any (λ d. connects (answer d)) (ws_domains dc is_media) ≡ true
    → (front : List Str) × (domain : Str) × (back : List Str) × (b : Bool) × (ws_domains dc is_media
        ≡ front ++ (domain ∷ back))
      × (any (λ d. connects (answer d)) front ≡ false)
      × (answer domain ≡ none)
      × (connect_ws_route answer dc is_media ≡ (some domain, b))
unfolding connect_ws_route
connect_ws_route-first answer dc is_media h =
    connect_loop-some answer (ws_domains dc is_media) true h
