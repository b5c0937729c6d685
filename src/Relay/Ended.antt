-- ===== src/Relay/Ended.antt =====
-- The bridge of src/modules/relay.rs when it has come out: that it comes out, and what it has done then.
pub mod Complete
pub mod Uplink
pub mod Downlink
pub mod Turns
use telegram_socks_ws_proxy.Relay.Ended.Turns.{
  up_turns, down_turns, Nears, turn-Nears, no_panic, run-left,
}
use telegram_socks_ws_proxy.Base.{
  ℕ, zero, suc, ◌+◌, ◌-◌, ◌≤◌, ◌<◌, arith, length, ◌≡◌, refl, sym, ap, ◌∙◌, subst, Option, none,
  some, List, [], ◌∷◌, ◌++◌, append-nil, append_assoc, ◌⊎◌, inl, inr,
}
use telegram_socks_ws_proxy.Base.Stream.{
  Stream, IoError, stalled, Outcome, ok, err, pending, panicked, next_key,
}
use telegram_socks_ws_proxy.Telegram.Cipher.{Cipher, IsStreamCipher}
use telegram_socks_ws_proxy.Telegram.Splitter.{MtProtoMessageSplitter}
use telegram_socks_ws_proxy.Ws.Types.{WsError}
use telegram_socks_ws_proxy.Ws.Client.{send}
use telegram_socks_ws_proxy.Relay.{
  Bridge, BridgeStats, Turn, up_turn, down_turn, Up, reading, up_done, up_failed, Down, receiving,
  answering, down_done, down_failed, down_panicked, up_round, down_round, turn, run, started,
  bridge_ws_tcp, result,
}
use telegram_socks_ws_proxy.Relay.Messages.{
  Message, binary, wire, bytes_of, pongs_of, wire-append, bytes_of-append, pongs_of-append, Writes,
  Transmits, send-Transmits,
}
use telegram_socks_ws_proxy.Relay.Uplink.{UpSide, UpStep, up_round-UpStep}
use telegram_socks_ws_proxy.Relay.Faithful.{
  IsFaithful, turn-IsFaithful, bridge-IsFaithful, Starts, bridge_ws_tcp-Starts, Starts-IsFaithful,
}
use telegram_socks_ws_proxy.Relay.Ended.Complete.{IsComplete, done-IsComplete}
use telegram_socks_ws_proxy.Relay.Ended.Uplink.{up_left, up_round-UpWithin}
use telegram_socks_ws_proxy.Relay.Ended.Downlink.{down_left, down_round-DownWithin}
use telegram_socks_ws_proxy.Relay.Downlink.{ServerFrame, server_bytes, AllSmall}
use telegram_socks_ws_proxy.Relay.Downlink.Sides.{
  AllSmall-suffix, DownKept, DownSide, DownStep, EndsWithClose, data_of, pings_of,
}
use telegram_socks_ws_proxy.Relay.Downlink.Rounds.{down_round-DownStep}

-- What a bridge that has come out has done: it returns its statistics only if all was done.
abbrev pub IsOutcome :
    List ℕ
    → List ServerFrame
    → List ℕ
    → List ℕ
    → Stream
    → Stream
    → Option (Outcome IoError (BridgeStats × BridgeStats))
    → Type 0
IsOutcome all fs sent before client ws none = ⊥
IsOutcome all fs sent before client ws (some (ok stats)) = IsComplete all fs sent before client ws
IsOutcome all fs sent before client ws (some (err e)) = Unit
IsOutcome all fs sent before client ws (some pending) = ⊥
IsOutcome all fs sent before client ws (some panicked) = ⊥

left-IsOutcome :
    (c : Cipher) (all : List ℕ) (fs : List ServerFrame) (sent before : List ℕ) (b : Bridge c)
    (up : Up c) (down : Down c)
    → b.up ≡ up
    → b.down ≡ down
    → IsFaithful c all fs sent before b
    → up_left c b.client.incoming up ≤ 0
    → down_left c b.ws.incoming down ≤ 0
    → IsOutcome all fs sent before b.client b.ws (result c up down)
unfolding result
left-IsOutcome c all fs sent before b (up_done s) (down_done s') u d h m n =
    done-IsComplete c all fs sent before b s s' u d h
left-IsOutcome c all fs sent before b (up_done s) (down_failed e) u d h m n = tt
left-IsOutcome c all fs sent before b (up_failed e) (down_done s) u d h m n = tt
left-IsOutcome c all fs sent before b (up_failed e) (down_failed e') u d h m n = tt
left-IsOutcome c all fs sent before b (reading x y z) down u d h m n = absurd (omega (arith, m))
left-IsOutcome c all fs sent before b up (receiving x y) u d h m n = absurd (omega (arith, n))
left-IsOutcome c all fs sent before b up (answering p x y) u d h m n = absurd (omega (arith, n))
left-IsOutcome c all fs sent before b up down_panicked u d
      (ms, w, up', (taken, todo, dropped, unanswered, split, arriving, delivered, answered, kept)) m
      n =
    absurd (subst (DownKept c taken todo dropped unanswered) d kept)

-- If the server sends whole frames without a mask, of less than 2 ^ 63 bytes, each of them data
-- (binary, text or continuation, final or not), a ping, a pong or a close, neither peer stays
-- silent for ever, and a write never waits, but goes through whole or fails, the bridge comes out
-- under any schedule that gives each task one more round than its connection has bytes, and without
-- a panic. If it returns its statistics, then the messages that it wrote to the server carry the
-- init packet and all that the client sent, and answer every ping taken; the client got the data of
-- the frames taken; and those are all frames, or end with a close.
pub bridge-IsOutcome :
    (c : Cipher) (laws : IsStreamCipher c) (fs : List ServerFrame) (client ws : Stream)
    (init : List ℕ) (splitter : Option (MtProtoMessageSplitter c)) (ts : List Turn) (b : Bridge c)
    → AllSmall fs
    → ws.incoming ≡ server_bytes fs
    → ¬ (client.ending ≡ stalled)
    → ¬ (ws.ending ≡ stalled)
    → bridge_ws_tcp c client ws init splitter ≡ ok b
    → length client.incoming < up_turns ts
    → length ws.incoming < down_turns ts
    → IsOutcome
        (init ++ client.incoming)
        fs
        ws.sent
        client.sent
        (run c ts b).client
        (run c ts b).ws
        (result c (run c ts b).up (run c ts b).down)
bridge-IsOutcome c laws fs client ws init splitter ts b small arriving live live' h m n =
    let start = bridge_ws_tcp-Starts c client ws init splitter b h in
    let faithful = Starts-IsFaithful c fs client ws init splitter b arriving start in
    let ended = bridge-IsFaithful c laws fs client ws init splitter ts b small arriving h in
    let (ws', (w, i, e), same) = start in
    let (x, y) =
      run-left c laws (init ++ client.incoming) fs small ws.sent client.sent ts b faithful
        (λ q. live (ap (λ (s : Bridge c). s.client.ending) same ∙ q))
        (λ q. live' (sym e ∙ ap (λ (s : Bridge c). s.ws.ending) same ∙ q))
        (omega (arith, m, ap (λ (s : Bridge c). up_left c s.client.incoming s.up) same))
        (omega
          (arith, n, ap length i, ap (λ (s : Bridge c). down_left c s.ws.incoming s.down) same)) in
    left-IsOutcome c (init ++ client.incoming) fs ws.sent client.sent (run c ts b) (run c ts b).up
      (run c ts b).down refl refl ended x y
