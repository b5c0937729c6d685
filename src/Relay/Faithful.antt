-- ===== src/Relay/Faithful.antt =====
-- Both tasks of src/modules/relay.rs under any schedule: what has come of the client's bytes and the server's frames.
use telegram_socks_ws_proxy.Base.{
  ℕ, ◌≡◌, refl, sym, ap, ◌∙◌, subst, Option, List, [], ◌∷◌, ◌++◌, append-nil, append_assoc,
}
use telegram_socks_ws_proxy.Base.Stream.{Stream, Outcome, ok, err, pending, panicked, next_key}
use telegram_socks_ws_proxy.Telegram.Cipher.{Cipher, IsStreamCipher}
use telegram_socks_ws_proxy.Telegram.Splitter.{MtProtoMessageSplitter}
use telegram_socks_ws_proxy.Ws.Types.{WsError}
use telegram_socks_ws_proxy.Ws.Client.{send}
use telegram_socks_ws_proxy.Relay.{
  Bridge, Turn, up_turn, down_turn, reading, Down, receiving, answering, down_done, down_failed,
  down_panicked, up_round, down_round, turn, run, started, bridge_ws_tcp,
}
use telegram_socks_ws_proxy.Relay.Messages.{
  Message, binary, wire, bytes_of, pongs_of, wire-append, bytes_of-append, pongs_of-append, Writes,
  Transmits, send-Transmits,
}
use telegram_socks_ws_proxy.Relay.Uplink.{UpSide, UpStep, up_round-UpStep}
use telegram_socks_ws_proxy.Relay.Downlink.{ServerFrame, server_bytes, AllSmall}
use telegram_socks_ws_proxy.Relay.Downlink.Sides.{DownSide, DownStep}
use telegram_socks_ws_proxy.Relay.Downlink.Rounds.{down_round-DownStep}

-- `ms` is what the bridge has written behind `sent`: `all` and the answers to the server's pings, each in order.
abbrev pub IsFaithful :
    (c : Cipher) → List ℕ → List ServerFrame → List ℕ → List ℕ → Bridge c → Type 0
IsFaithful c all fs sent before b =
    (ms : List Message) × (b.ws.sent ≡ sent ++ wire ms)
    × UpSide c all (bytes_of ms) b.client.incoming b.up
    × DownSide c fs before (pongs_of ms) b.ws.incoming b.client.sent b.down

module _ (c : Cipher) (laws : IsStreamCipher c) (all : List ℕ) (fs : List ServerFrame)
    (small : AllSmall fs) (sent before : List ℕ) where
  after_up :
      (b b' : Bridge c) (ms : List Message)
      → b.ws.sent ≡ sent ++ wire ms
      → DownSide c fs before (pongs_of ms) b.ws.incoming b.client.sent b.down
      → UpStep c all (bytes_of ms) b b'
      → IsFaithful c all fs sent before b'
  after_up b b' ms w down (ms', (w', i, e), none_of, kept, d, up) = (
    ms ++ ms',
    w'
        ∙ ap (λ l. l ++ wire ms') w
        ∙ append_assoc sent (wire ms) (wire ms')
        ∙ ap (λ l. sent ++ l) (sym (wire-append ms ms')),
    rw (bytes_of-append ms ms') up,
    rw (pongs_of-append ms ms', none_of, append-nil, i, kept, d) down,
  )

  after_down :
      (b b' : Bridge c) (ms : List Message)
      → b.ws.sent ≡ sent ++ wire ms
      → UpSide c all (bytes_of ms) b.client.incoming b.up
      → DownStep c fs before (pongs_of ms) b b'
      → IsFaithful c all fs sent before b'
  after_down b b' ms w up (ms', w', none_of, i, e, u, down) = (
    ms ++ ms',
    w'
        ∙ ap (λ l. l ++ wire ms') w
        ∙ append_assoc sent (wire ms) (wire ms')
        ∙ ap (λ l. sent ++ l) (sym (wire-append ms ms')),
    rw (bytes_of-append ms ms', none_of, append-nil, i, u) up,
    rw (pongs_of-append ms ms') down,
  )

  after_down_turn :
      (b : Bridge c) (down : Down c)
      → b.down ≡ down
      → IsFaithful c all fs sent before b
      → IsFaithful c all fs sent before (down_round c b down)
  after_down_turn b down d (ms, w, u, side) = after_down b (down_round c b down) ms w u (
      down_round-DownStep c fs before (pongs_of ms) b down small d
        (subst (DownSide c fs before (pongs_of ms) b.ws.incoming b.client.sent) d side))

  after_up_turn :
      (n : ℕ) (b : Bridge c)
      → IsFaithful c all fs sent before b
      → IsFaithful c all fs sent before (up_round c n b b.up)
  after_up_turn n b (ms, w, up, down) =
      after_up b (up_round c n b b.up) ms w down
        (up_round-UpStep c laws all (bytes_of ms) n b b.up refl up)

  pub turn-IsFaithful :
      (t : Turn) (b : Bridge c) (down : Down c)
      → b.down ≡ down
      → IsFaithful c all fs sent before b
      → IsFaithful c all fs sent before (turn c t b down)
  unfolding turn
  turn-IsFaithful (up_turn n) b (receiving bytes packets) d h = after_up_turn n b h
  turn-IsFaithful (up_turn n) b (answering p bytes packets) d h = after_up_turn n b h
  turn-IsFaithful (up_turn n) b (down_done stats) d h = after_up_turn n b h
  turn-IsFaithful (up_turn n) b (down_failed e) d h = after_up_turn n b h
  turn-IsFaithful (up_turn n) b down_panicked d h = h
  turn-IsFaithful down_turn b (receiving bytes packets) d h =
      after_down_turn b (receiving bytes packets) d h
  turn-IsFaithful down_turn b (answering p bytes packets) d h =
      after_down_turn b (answering p bytes packets) d h
  turn-IsFaithful down_turn b (down_done stats) d h = after_down_turn b (down_done stats) d h
  turn-IsFaithful down_turn b (down_failed e) d h = after_down_turn b (down_failed e) d h
  turn-IsFaithful down_turn b down_panicked d h = h

  pub run-IsFaithful :
      (ts : List Turn) (b : Bridge c)
      → IsFaithful c all fs sent before b
      → IsFaithful c all fs sent before (run c ts b)
  unfolding run
  run-IsFaithful [] b h = h
  run-IsFaithful (t ∷ ts) b h =
      run-IsFaithful ts (turn c t b b.down) (turn-IsFaithful t b b.down refl h)

-- The bridge at its start: the init packet is written, and nothing is read yet.
abbrev pub Starts :
    (c : Cipher) → Stream → Stream → List ℕ → Option (MtProtoMessageSplitter c) → Bridge c → Type 0
Starts c client ws init splitter b =
    (ws' : Stream) × Writes ws (binary init (next_key ws.entropy) ∷ []) ws'
    × (record { client = client; ws = ws'; up = reading splitter 0 0; down = receiving 0 0 } ≡ b)

started-Starts :
    (c : Cipher) (client ws : Stream) (init : List ℕ) (splitter : Option (MtProtoMessageSplitter c))
    (b : Bridge c)
    → (r : Outcome WsError (Unit {0}) × Stream) → Transmits ws (binary init (next_key ws.entropy)) r
    → started c client splitter r ≡ ok b
    → Starts c client ws init splitter b
started-Starts c client ws init splitter b (ok u, ws') w h = (ws', w, cc)
started-Starts c client ws init splitter b (err x, ws') w h = cc
started-Starts c client ws init splitter b (pending, ws') w h = cc
started-Starts c client ws init splitter b (panicked, ws') w h = cc

pub bridge_ws_tcp-Starts :
    (c : Cipher) (client ws : Stream) (init : List ℕ) (splitter : Option (MtProtoMessageSplitter c))
    (b : Bridge c)
    → bridge_ws_tcp c client ws init splitter ≡ ok b
    → Starts c client ws init splitter b
unfolding bridge_ws_tcp
bridge_ws_tcp-Starts c client ws init splitter b =
    started-Starts c client ws init splitter b (send init ws) (send-Transmits init ws)

pub Starts-IsFaithful :
    (c : Cipher) (fs : List ServerFrame) (client ws : Stream) (init : List ℕ)
    (splitter : Option (MtProtoMessageSplitter c)) (b : Bridge c)
    → ws.incoming ≡ server_bytes fs
    → Starts c client ws init splitter b
    → IsFaithful c (init ++ client.incoming) fs ws.sent client.sent b
Starts-IsFaithful c fs client ws init splitter b arriving (ws', (w, i, e), same) =
    subst (IsFaithful c (init ++ client.incoming) fs ws.sent client.sent) same (
      binary init (next_key ws.entropy) ∷ [],
      w,
      ([], ap (λ l. l ++ client.incoming) (append-nil init), refl),
      ([], fs, [], [], refl, i ∙ arriving, refl, refl, (refl, refl)),
    )

-- If the server sends whole frames without a mask, of less than 2 ^ 63 bytes, each of them data
-- (binary, text or continuation, final or not), a ping, a pong or a close, and a write goes through
-- whole or fails, then at every moment of every schedule the messages that the bridge wrote to the
-- server carry the init packet and the bytes of the client in order, up to those still to be read;
-- the pongs among them answer the pings taken in order, up to one still to be answered; and the
-- client has the data of the frames taken, in order. Only a task that has failed leaves a gap:
-- bytes that went down with a write, or a ping without its answer.
pub bridge-IsFaithful :
    (c : Cipher) (laws : IsStreamCipher c) (fs : List ServerFrame) (client ws : Stream)
    (init : List ℕ) (splitter : Option (MtProtoMessageSplitter c)) (ts : List Turn) (b : Bridge c)
    → AllSmall fs
    → ws.incoming ≡ server_bytes fs
    → bridge_ws_tcp c client ws init splitter ≡ ok b
    → IsFaithful c (init ++ client.incoming) fs ws.sent client.sent (run c ts b)
bridge-IsFaithful c laws fs client ws init splitter ts b small arriving h =
    run-IsFaithful c laws (init ++ client.incoming) fs small ws.sent client.sent ts b (
      Starts-IsFaithful c fs client ws init splitter b arriving
        (bridge_ws_tcp-Starts c client ws init splitter b h))
