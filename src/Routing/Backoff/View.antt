-- ===== src/Routing/Backoff/View.antt =====
-- What the backoff table in src/modules/routing/backoff.rs stands for at a moment: the states that
-- have not run out.
use telegram_socks_ws_proxy.Base.{
  ℕ, ◌+◌, ◌≤◌, ◌≡◌, refl, arith, if◌then◌else◌, Bool, true, false, ◌&&◌, Option, none, some,
  ==_refl, ap, ◌∙◌,
}
use telegram_socks_ws_proxy.Routing.Backoff.{
  WsKey, key_eq, WsState, WsDecision, probing, probe_now, probe_in_flight, WsBackoff, retained,
  retain, decide, begin_probe, ws_attempt_window,
}

-- The state of a route at a moment, or `none` if it is free.
unfoldable pub live : ℕ → WsBackoff → WsKey → Option WsState
unfolding retained
live now b k = retained now (b.states k)

abbrev pub decision_of : Option WsState → WsDecision
decision_of none = probe_now
decision_of (some (probing until)) = probe_in_flight
decision_of (some (WsState.cooldown until)) = WsDecision.cooldown
decision_of (some WsState.disabled_404) = WsDecision.disabled_404

abbrev pub is_free : Option WsState → Bool
is_free none = true
is_free (some s) = false

pub key_eq_refl : (k : WsKey) → key_eq k k ≡ true
key_eq_refl (dc, true) = rw (==_refl dc)
key_eq_refl (dc, false) = rw (==_refl dc)

pub key_eq→eq : (j k : WsKey) → key_eq j k ≡ true → j ≡ k
key_eq→eq (a, true) (b, true) h = ground arith
key_eq→eq (a, true) (b, false) h = ground arith
key_eq→eq (a, false) (b, true) h = ground arith
key_eq→eq (a, false) (b, false) h = ground arith

-- What has run out at a moment has run out later.
retained_again :
    (now t : ℕ) (s : Option WsState) → now ≤ t → retained t (retained now s) ≡ retained t s
unfolding retained
retained_again now t none h = refl
retained_again now t (some (probing until)) h = ground arith
retained_again now t (some (WsState.cooldown until)) h = ground arith
retained_again now t (some WsState.disabled_404) h = refl

pub decide_lem :
    (k j : WsKey) (now : ℕ) (b : WsBackoff) (s : Option WsState)
    → ((decide k now b s).1 ≡ decision_of s)
      × ((decide k now b s).0.states j ≡ (
          if key_eq j k && is_free s then some (probing (now + ws_attempt_window)) else b.states j))
unfolding decide
decide_lem k j now b none = ground arith
decide_lem k j now b (some (probing until)) = ground arith
decide_lem k j now b (some (WsState.cooldown until)) = ground arith
decide_lem k j now b (some WsState.disabled_404) = ground arith

retained_if :
    (t : ℕ) (c : Bool) (x y : Option WsState) {z : Option WsState}
    → retained t y ≡ z
    → retained t (if c then x else y) ≡ (if c then retained t x else z)
retained_if t true x y e = refl
retained_if t false x y e = e

-- `begin_probe` answers by the state of its route at that moment: it grants a probe exactly if the
-- route is free, and else names the state that blocks it.
-- Seen from any later moment it has changed one thing: a free route is now being probed, for the
-- attempt window. No other route and no state still running is touched.
pub begin_probe_lem :
    (k j : WsKey) (now t : ℕ) (b : WsBackoff)
    → now ≤ t
    → ((begin_probe k now b).1 ≡ decision_of (live now b k))
      × (live t (begin_probe k now b).0 j ≡ (
          if key_eq j k && is_free (live now b k)
          then retained t (some (probing (now + ws_attempt_window)))
          else live t b j))
unfolding begin_probe live
begin_probe_lem k j now t b h =
    let (answer, after) = decide_lem k j now (retain now b) (retained now (b.states k)) in
    (
      answer,
      ap (retained t) after
          ∙ retained_if t (key_eq j k && is_free (retained now (b.states k))) _ _
              (retained_again now t (b.states j) h),
    )
