-- ===== src/Relay/Success/Runs.antt =====
-- A bridge between src/modules/relay.rs's two tasks that has writes enough keeps them, whatever the schedule.
use telegram_socks_ws_proxy.Base.{ℕ, ◌+◌, ◌≤◌, ◌≡◌, refl, sym, ap, ◌∙◌, subst, arith, List, [], ◌∷◌}
use telegram_socks_ws_proxy.Base.Stream.{Stream, closed, stalled}
use telegram_socks_ws_proxy.Telegram.Cipher.{Cipher, IsStreamCipher}
use telegram_socks_ws_proxy.Relay.{
  Bridge, Turn, up_turn, down_turn, Down, receiving, answering, down_done, down_failed,
  down_panicked, up_round, down_round, turn, run,
}
use telegram_socks_ws_proxy.Relay.Messages.{pongs_of, bytes_of}
use telegram_socks_ws_proxy.Relay.Uplink.{up_round-UpStep}
use telegram_socks_ws_proxy.Relay.Downlink.{ServerFrame, AllSmall}
use telegram_socks_ws_proxy.Relay.Downlink.Sides.{DownSide, AllSmall-suffix}
use telegram_socks_ws_proxy.Relay.Downlink.Rounds.{down_round-DownStep}
use telegram_socks_ws_proxy.Relay.Faithful.{IsFaithful, turn-IsFaithful}
use telegram_socks_ws_proxy.Relay.Ended.Turns.{Nears, turn-Nears}
use telegram_socks_ws_proxy.Relay.Success.Uplink.{
  up_need, UpLives, up_round-UpFits, up_round-writes,
}
use telegram_socks_ws_proxy.Relay.Success.Downlink.{
  down_need, client_need, DownLives, down_round-DownFits,
}

-- No task has failed, and there are writes enough for what is left.
abbrev pub Fits : (c : Cipher) → Bridge c → Type 0
Fits c b =
    (up_need c b.client.incoming b.up + down_need c b.ws.incoming b.down ≤ b.ws.writes)
    × (client_need c b.ws.incoming b.down ≤ b.client.writes)
    × UpLives c b.up
    × DownLives c b.down
    × (b.client.ending ≡ closed)
    × (b.ws.ending ≡ closed)

module _ (c : Cipher) (laws : IsStreamCipher c) (all : List ℕ) (fs : List ServerFrame)
    (small : AllSmall fs) (sent before : List ℕ) where
  not_stalled : (s : Stream) → s.ending ≡ closed → ¬ (s.ending ≡ stalled)
  not_stalled s e e' = cc

  turn-Nears-closed :
      (t : Turn) (b : Bridge c)
      → IsFaithful c all fs sent before b
      → Fits c b
      → Nears c t b (turn c t b b.down)
  turn-Nears-closed t b h (w, w', l, l', e, e') =
      turn-Nears c laws all fs small sent before t b b.down refl h (not_stalled b.client e)
        (not_stalled b.ws e')

  up_round-Fits :
      (n : ℕ) (b : Bridge c)
      → IsFaithful c all fs sent before b
      → (up_round c n b b.up).client.ending ≡ b.client.ending
      → Fits c b
      → Fits c (up_round c n b b.up)
  up_round-Fits n b (ms, w, up, down) i (h, h', l, l', e, e') =
      let (ms', (w', inc, end), none_of, kept, d, up') =
        up_round-UpStep c laws all (bytes_of ms) n b b.up refl up in
      let (k, lives) =
        up_round-UpFits c laws (down_need c b.ws.incoming b.down) n b b.up refl e h l in
      (
        rw (inc, d) k,
        rw (inc, d, up_round-writes c n b b.up) h',
        lives,
        subst (DownLives c) (sym d) l',
        i ∙ e,
        end ∙ e',
      )

  down_round-Fits :
      (b : Bridge c) (down : Down c)
      → b.down ≡ down
      → IsFaithful c all fs sent before b
      → (down_round c b down).ws.ending ≡ b.ws.ending
      → Fits c b
      → Fits c (down_round c b down)
  down_round-Fits b down d (ms, w, up, side) i' (h, h', l, l', e, e') =
      let side' = subst (DownSide c fs before (pongs_of ms) b.ws.incoming b.client.sent) d side in
      let (ms', w', none_of, i, end, u, side'') =
        down_round-DownStep c fs before (pongs_of ms) b down small d side' in
      let (taken, todo, dropped, unanswered, split, arriving, delivered, answered, kept) = side in
      let k = up_need c b.client.incoming b.up in
      let same = ap (down_need c b.ws.incoming) d in
      let (x, y, z) =
        down_round-DownFits c k b down todo d
          (AllSmall-suffix taken todo (subst AllSmall (sym split) small)) arriving e'
          (omega (arith, h, same))
          (subst (λ q. client_need c b.ws.incoming q ≤ b.client.writes) d h')
          (subst (DownLives c) d l') in
      (rw (i, u) (omega (arith, x)), y, subst (UpLives c) (sym u) l, z, end ∙ e, i' ∙ e')

  turn-Fits :
      (t : Turn) (b : Bridge c) (down : Down c)
      → b.down ≡ down
      → IsFaithful c all fs sent before b
      → Nears c t b (turn c t b down)
      → Fits c b
      → Fits c (turn c t b down)
  unfolding turn
  turn-Fits t b down_panicked d h near fits = fits
  turn-Fits (up_turn n) b (receiving x y) d h (i, i', m, m') fits = up_round-Fits n b h i fits
  turn-Fits (up_turn n) b (answering p x y) d h (i, i', m, m') fits = up_round-Fits n b h i fits
  turn-Fits (up_turn n) b (down_done stats) d h (i, i', m, m') fits = up_round-Fits n b h i fits
  turn-Fits (up_turn n) b (down_failed e) d h (i, i', m, m') fits = up_round-Fits n b h i fits
  turn-Fits down_turn b (receiving x y) d h (i, i', m, m') fits =
      down_round-Fits b (receiving x y) d h i' fits
  turn-Fits down_turn b (answering p x y) d h (i, i', m, m') fits =
      down_round-Fits b (answering p x y) d h i' fits
  turn-Fits down_turn b (down_done stats) d h (i, i', m, m') fits =
      down_round-Fits b (down_done stats) d h i' fits
  turn-Fits down_turn b (down_failed e) d h (i, i', m, m') fits =
      down_round-Fits b (down_failed e) d h i' fits

  pub run-Fits :
      (ts : List Turn) (b : Bridge c)
      → IsFaithful c all fs sent before b
      → Fits c b
      → Fits c (run c ts b)
  unfolding run
  run-Fits [] b h fits = fits
  run-Fits (t ∷ ts) b h fits =
      run-Fits ts (turn c t b b.down)
        (turn-IsFaithful c laws all fs small sent before t b b.down refl h)
        (turn-Fits t b b.down refl h (turn-Nears-closed t b h fits) fits)
