-- ===== src/Relay/Ended/Downlink.antt =====
-- A round of the task from the WebSocket brings it nearer to its end.
use telegram_socks_ws_proxy.Base.{
  ℕ, zero, suc, ◌+◌, ◌≤◌, ◌-◌, ◌≡◌, refl, ap, ◌∙◌, arith, Option, some, List, [], ◌∷◌, length,
  length-append, inl, inr,
}
use telegram_socks_ws_proxy.Base.Stream.{
  Stream, Ending, closed, broken, stalled, Outcome, ok, err, pending, panicked, write_all, shutdown,
  next_key,
}
use telegram_socks_ws_proxy.Base.Utf8.{codes}
use telegram_socks_ws_proxy.Telegram.Cipher.{Cipher}
use telegram_socks_ws_proxy.Ws.Types.{WsError}
use telegram_socks_ws_proxy.Ws.Frame.{parse_close_payload}
use telegram_socks_ws_proxy.Ws.Frame.RoundTrip.{plain_frame}
use telegram_socks_ws_proxy.Ws.Client.{send_control_frame, recv_frame}
use telegram_socks_ws_proxy.Relay.{
  Bridge, BridgeStats, Down, receiving, answering, down_done, down_failed, down_panicked,
  same_error, add_u64, close_reason, after_write, after_shutdown, after_recv, after_answer,
  down_round,
}
use telegram_socks_ws_proxy.Relay.Messages.{Message, Transmits, send_control_frame-Transmits}
use telegram_socks_ws_proxy.Relay.Downlink.{
  ServerFrame, data_frame, ping, pong, close, at_end, server_bytes, head_of, payload_of, AllSmall,
  deliver, recv_frame-deliver,
}

-- The rounds that are left at most; a frame is two bytes or more.
abbrev pub down_left : (c : Cipher) → List ℕ → Down c → ℕ
down_left c incoming (receiving bytes packets) = suc (length incoming)
down_left c incoming (answering p bytes packets) = suc (suc (length incoming))
down_left c incoming (down_done stats) = 0
down_left c incoming (down_failed e) = 0
down_left c incoming down_panicked = 0

abbrev pub DownWithin : (c : Cipher) → Ending → ℕ → Bridge c → Type 0
DownWithin c e n b = (b.ws.ending ≡ e) × (down_left c b.ws.incoming b.down ≤ n)

pub frame_bytes :
    (f : ServerFrame) (fs : List ServerFrame)
    → 2 + length (server_bytes fs) ≤ length (server_bytes (f ∷ fs))
frame_bytes f fs =
    omega (arith, length-append (plain_frame (head_of f) (payload_of f)) (server_bytes fs))

module _ (c : Cipher) where
  after_shutdown-DownWithin :
      (w n : ℕ) (b : Bridge c) (s : Stream) (stats : BridgeStats)
      → DownWithin c b.ws.ending n
          (after_shutdown c b stats (shutdown same_error (record s { writes = w })))
  unfolding after_shutdown shutdown
  after_shutdown-DownWithin zero n b s stats = (refl, omega arith)
  after_shutdown-DownWithin (suc k) n b s stats = (refl, omega arith)

  after_write-DownWithin :
      (w : ℕ) (b : Bridge c) (s : Stream) (payload : List ℕ) (bytes packets : ℕ)
      → DownWithin c b.ws.ending
          (suc (length b.ws.incoming))
          (after_write c b bytes packets (write_all same_error payload (record s { writes = w })))
  unfolding after_write write_all
  after_write-DownWithin zero b s payload bytes packets = (refl, omega arith)
  after_write-DownWithin (suc k) b s payload bytes packets = (refl, omega arith)

  after_deliver-DownWithin :
      (b : Bridge c) (n bytes packets : ℕ) (todo : List ServerFrame)
      → ¬ (b.ws.ending ≡ stalled)
      → length (server_bytes todo) ≤ n
      → DownWithin c b.ws.ending n (after_recv c b bytes packets (some (deliver todo b.ws)))
  unfolding after_recv
  after_deliver-DownWithin b n bytes packets [] live h = by_ending b.ws.ending live
    where
      by_ending :
          (e : Ending)
          → ¬ (e ≡ stalled)
          → DownWithin c b.ws.ending n
              (after_recv c b bytes packets (some (at_end e, record b.ws { incoming = [] })))
      by_ending closed live =
          after_shutdown-DownWithin b.client.writes n
            (record b { ws = record b.ws { incoming = [] } }) b.client
            (record { bytes = bytes; packets = packets; end_reason = codes "ws_eof" })
      by_ending broken live = (refl, omega arith)
      by_ending stalled live = absurd (live refl)
  after_deliver-DownWithin b n bytes packets (data_frame final kind p ∷ todo) live h =
      let (e, k) =
        after_write-DownWithin b.client.writes
          (record b { ws = record b.ws { incoming = server_bytes todo } }) b.client p
          (add_u64 bytes (length p)) (add_u64 packets 1) in
      (e, omega (arith, h, k, frame_bytes (data_frame final kind p) todo))
  after_deliver-DownWithin b n bytes packets (ping p ∷ todo) live h =
      (refl, omega (arith, h, frame_bytes (ping p) todo))
  after_deliver-DownWithin b n bytes packets (pong p ∷ todo) live h =
      after_deliver-DownWithin b n bytes packets todo live
        (omega (arith, h, frame_bytes (pong p) todo))
  after_deliver-DownWithin b n bytes packets (close p ∷ todo) live h =
      after_shutdown-DownWithin b.client.writes n
        (record b { ws = record b.ws { incoming = server_bytes todo } }) b.client
        (record {
          bytes = bytes;
          packets = packets;
          end_reason = close_reason (parse_close_payload p);
        })

  after_answer-DownWithin :
      (b : Bridge c) (p : List ℕ) (random : Option (List ℕ)) (bytes packets : ℕ)
      → (r : Outcome WsError (Unit {0}) × Stream) → Transmits b.ws (Message.pong p random) r
      → DownWithin c b.ws.ending (suc (length b.ws.incoming)) (after_answer c b bytes packets r)
  unfolding after_answer
  after_answer-DownWithin b p random bytes packets (ok u, ws) (w, i, e) =
      (e, omega (arith, ap length i))
  after_answer-DownWithin b p random bytes packets (err x, ws) (inl (w, i, e)) = (e, omega arith)
  after_answer-DownWithin b p random bytes packets (err x, ws) (inr (w, i, e)) = (e, omega arith)
  after_answer-DownWithin b p random bytes packets (pending, ws) h = absurd h
  after_answer-DownWithin b p random bytes packets (panicked, ws) h = absurd h

  pub down_round-DownWithin :
      (b : Bridge c) (down : Down c) (todo : List ServerFrame)
      → b.down ≡ down
      → AllSmall todo
      → b.ws.incoming ≡ server_bytes todo
      → ¬ (b.ws.ending ≡ stalled)
      → DownWithin c b.ws.ending (down_left c b.ws.incoming down - 1) (down_round c b down)
  unfolding down_round
  down_round-DownWithin b (receiving bytes packets) todo d small arriving live =
      let received =
        ap (λ l. recv_frame (record b.ws { incoming = l })) arriving
        ∙ recv_frame-deliver todo b.ws small in
      let (e, k) =
        after_deliver-DownWithin b (length (server_bytes todo)) bytes packets todo live
          (omega arith) in
      rw received (e, omega (arith, k, ap length arriving))
  down_round-DownWithin b (answering p bytes packets) todo d small arriving live =
      let (e, k) =
        after_answer-DownWithin b p (next_key b.ws.entropy) bytes packets
          (send_control_frame 0xA p b.ws) (send_control_frame-Transmits p b.ws) in
      (e, omega (arith, k))
  down_round-DownWithin b (down_done stats) todo d small arriving live = (refl, rw d (omega arith))
  down_round-DownWithin b (down_failed e) todo d small arriving live = (refl, rw d (omega arith))
  down_round-DownWithin b down_panicked todo d small arriving live = (refl, rw d (omega arith))
