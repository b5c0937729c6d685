-- ===== src/Relay/Ended/Turns.antt =====
-- The turns of src/modules/relay.rs's two tasks bring each of them nearer to its end.
use telegram_socks_ws_proxy.Base.{
  ℕ, suc, ◌+◌, ◌-◌, ◌≤◌, arith, ◌≡◌, refl, sym, ap, ◌∙◌, subst, List, [], ◌∷◌,
}
use telegram_socks_ws_proxy.Base.Stream.{stalled}
use telegram_socks_ws_proxy.Telegram.Cipher.{Cipher, IsStreamCipher}
use telegram_socks_ws_proxy.Relay.{
  Bridge, Turn, up_turn, down_turn, Down, receiving, answering, down_done, down_failed,
  down_panicked, up_round, down_round, turn, run,
}
use telegram_socks_ws_proxy.Relay.Messages.{bytes_of, pongs_of}
use telegram_socks_ws_proxy.Relay.Uplink.{up_round-UpStep}
use telegram_socks_ws_proxy.Relay.Faithful.{IsFaithful, turn-IsFaithful}
use telegram_socks_ws_proxy.Relay.Ended.Uplink.{up_left, up_round-UpWithin}
use telegram_socks_ws_proxy.Relay.Ended.Downlink.{down_left, down_round-DownWithin}
use telegram_socks_ws_proxy.Relay.Downlink.{ServerFrame, AllSmall}
use telegram_socks_ws_proxy.Relay.Downlink.Sides.{AllSmall-suffix, DownKept, DownSide}
use telegram_socks_ws_proxy.Relay.Downlink.Rounds.{down_round-DownStep}

abbrev pub up_turns : List Turn → ℕ
up_turns [] = 0
up_turns (up_turn n ∷ ts) = suc (up_turns ts)
up_turns (down_turn ∷ ts) = up_turns ts

abbrev pub down_turns : List Turn → ℕ
down_turns [] = 0
down_turns (up_turn n ∷ ts) = down_turns ts
down_turns (down_turn ∷ ts) = suc (down_turns ts)

-- What a turn leaves of the rounds of the two tasks.
abbrev pub Nears : (c : Cipher) → Turn → Bridge c → Bridge c → Type 0
Nears c t b b' =
    (b'.client.ending ≡ b.client.ending)
    × (b'.ws.ending ≡ b.ws.ending)
    × (up_left c b'.client.incoming b'.up ≤ up_left c b.client.incoming b.up - up_turns (t ∷ []))
    × (down_left c b'.ws.incoming b'.down ≤ down_left c b.ws.incoming b.down - down_turns (t ∷ []))

module _ (c : Cipher) (laws : IsStreamCipher c) (all : List ℕ) (fs : List ServerFrame)
    (small : AllSmall fs) (sent before : List ℕ) where
  pub up_round-Nears :
      (n : ℕ) (b : Bridge c)
      → IsFaithful c all fs sent before b
      → ¬ (b.client.ending ≡ stalled)
      → Nears c (up_turn n) b (up_round c n b b.up)
  up_round-Nears n b (ms, w, up, down) live =
      let (ms', (w', i, e), none_of, kept, d, up') =
        up_round-UpStep c laws all (bytes_of ms) n b b.up refl up in
      let (e', h) = up_round-UpWithin c laws n b b.up refl live in
      (e', e, h, rw (i, d) (omega arith))

  pub down_round-Nears :
      (b : Bridge c) (down : Down c)
      → b.down ≡ down
      → IsFaithful c all fs sent before b
      → ¬ (b.ws.ending ≡ stalled)
      → Nears c down_turn b (down_round c b down)
  down_round-Nears b down d (ms, w, up, side) live =
      let side' = subst (DownSide c fs before (pongs_of ms) b.ws.incoming b.client.sent) d side in
      let (ms', w', none_of, i, e, u, side'') =
        down_round-DownStep c fs before (pongs_of ms) b down small d side' in
      let (taken, todo, dropped, unanswered, split, arriving, delivered, answered, kept) = side in
      let (e', h) =
        down_round-DownWithin c b down todo d
          (AllSmall-suffix taken todo (subst AllSmall (sym split) small)) arriving live in
      (e, e', rw (i, u) (omega arith), omega (arith, h, ap (down_left c b.ws.incoming) d))

  -- A task that panics is no part of a faithful bridge.
  pub no_panic : (b : Bridge c) → b.down ≡ down_panicked → ¬ IsFaithful c all fs sent before b
  no_panic b d
        (
          ms,
          w,
          up,
          (taken, todo, dropped, unanswered, split, arriving, delivered, answered, kept),
        ) =
      subst (DownKept c taken todo dropped unanswered) d kept

  pub turn-Nears :
      (t : Turn) (b : Bridge c) (down : Down c)
      → b.down ≡ down
      → IsFaithful c all fs sent before b
      → ¬ (b.client.ending ≡ stalled)
      → ¬ (b.ws.ending ≡ stalled)
      → Nears c t b (turn c t b down)
  unfolding turn
  turn-Nears t b down_panicked d h live live' = absurd (no_panic b d h)
  turn-Nears (up_turn n) b (receiving bytes packets) d h live live' = up_round-Nears n b h live
  turn-Nears (up_turn n) b (answering p bytes packets) d h live live' = up_round-Nears n b h live
  turn-Nears (up_turn n) b (down_done stats) d h live live' = up_round-Nears n b h live
  turn-Nears (up_turn n) b (down_failed e) d h live live' = up_round-Nears n b h live
  turn-Nears down_turn b (receiving bytes packets) d h live live' =
      down_round-Nears b (receiving bytes packets) d h live'
  turn-Nears down_turn b (answering p bytes packets) d h live live' =
      down_round-Nears b (answering p bytes packets) d h live'
  turn-Nears down_turn b (down_done stats) d h live live' =
      down_round-Nears b (down_done stats) d h live'
  turn-Nears down_turn b (down_failed e) d h live live' =
      down_round-Nears b (down_failed e) d h live'

  up_turns-cons : (t : Turn) (ts : List Turn) → up_turns (t ∷ ts) ≡ up_turns (t ∷ []) + up_turns ts
  up_turns-cons (up_turn n) ts = omega arith
  up_turns-cons down_turn ts = omega arith

  down_turns-cons :
      (t : Turn) (ts : List Turn) → down_turns (t ∷ ts) ≡ down_turns (t ∷ []) + down_turns ts
  down_turns-cons (up_turn n) ts = omega arith
  down_turns-cons down_turn ts = omega arith

  -- A schedule that is long enough for both tasks leaves no rounds.
  pub run-left :
      (ts : List Turn) (b : Bridge c)
      → IsFaithful c all fs sent before b
      → ¬ (b.client.ending ≡ stalled)
      → ¬ (b.ws.ending ≡ stalled)
      → up_left c b.client.incoming b.up ≤ up_turns ts
      → down_left c b.ws.incoming b.down ≤ down_turns ts
      → (up_left c (run c ts b).client.incoming (run c ts b).up ≤ 0)
        × (down_left c (run c ts b).ws.incoming (run c ts b).down ≤ 0)
  unfolding run
  run-left [] b h live live' m n = (m, n)
  run-left (t ∷ ts) b h live live' m n =
      let b' = turn c t b b.down in
      let (e, e', k, k') = turn-Nears t b b.down refl h live live' in
      run-left ts b' (turn-IsFaithful c laws all fs small sent before t b b.down refl h)
        (λ q. live (sym e ∙ q)) (λ q. live' (sym e' ∙ q)) (omega (arith, k, m, up_turns-cons t ts))
        (omega (arith, k', n, down_turns-cons t ts))
