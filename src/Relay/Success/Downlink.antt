-- ===== src/Relay/Success/Downlink.antt =====
-- The task from the WebSocket does not fail while both connections take its writes.
use telegram_socks_ws_proxy.Base.{
  ℕ, zero, suc, ◌+◌, ◌≤◌, ◌≡◌, ap, ◌∙◌, arith, some, List, [], ◌∷◌, length,
}
use telegram_socks_ws_proxy.Base.Stream.{
  Stream, Ending, closed, broken, stalled, write_all, shutdown, flush, getrandom,
}
use telegram_socks_ws_proxy.Base.Utf8.{codes}
use telegram_socks_ws_proxy.Telegram.Cipher.{Cipher}
use telegram_socks_ws_proxy.Ws.Frame.{parse_close_payload}
use telegram_socks_ws_proxy.Ws.Client.{send_control_frame, recv_frame}
use telegram_socks_ws_proxy.Relay.{
  Bridge, BridgeStats, Down, receiving, answering, down_done, down_failed, down_panicked,
  same_error, add_u64, close_reason, after_write, after_shutdown, after_recv, after_answer,
  down_round,
}
use telegram_socks_ws_proxy.Relay.Downlink.{
  ServerFrame, data_frame, ping, pong, close, at_end, server_bytes, AllSmall, deliver,
  recv_frame-deliver,
}
use telegram_socks_ws_proxy.Relay.Ended.Downlink.{frame_bytes}

-- The writes that the task still makes at most: two to answer a ping, which has two bytes or more.
abbrev pub down_need : (c : Cipher) → List ℕ → Down c → ℕ
down_need c incoming (receiving bytes packets) = length incoming
down_need c incoming (answering p bytes packets) = 2 + length incoming
down_need c incoming (down_done stats) = 0
down_need c incoming (down_failed e) = 0
down_need c incoming down_panicked = 0

-- To the client: one for a frame, and one to close.
abbrev pub client_need : (c : Cipher) → List ℕ → Down c → ℕ
client_need c incoming (receiving bytes packets) = 1 + length incoming
client_need c incoming (answering p bytes packets) = 1 + length incoming
client_need c incoming (down_done stats) = 0
client_need c incoming (down_failed e) = 0
client_need c incoming down_panicked = 0

abbrev pub DownLives : (c : Cipher) → Down c → Type 0
DownLives c (receiving bytes packets) = Unit
DownLives c (answering p bytes packets) = Unit
DownLives c (down_done stats) = Unit
DownLives c (down_failed e) = ⊥
DownLives c down_panicked = ⊥

-- `k` writes to the WebSocket are for others.
abbrev pub DownFits : (c : Cipher) → ℕ → Bridge c → Type 0
DownFits c k b =
    (down_need c b.ws.incoming b.down + k ≤ b.ws.writes)
    × (client_need c b.ws.incoming b.down ≤ b.client.writes)
    × DownLives c b.down

module _ (c : Cipher) (k : ℕ) where
  after_shutdown-DownFits :
      (w : ℕ) (b : Bridge c) (s : Stream) (stats : BridgeStats)
      → 1 ≤ w
      → k ≤ b.ws.writes
      → DownFits c k (after_shutdown c b stats (shutdown same_error (record s { writes = w })))
  unfolding after_shutdown shutdown
  after_shutdown-DownFits zero b s stats h h' = absurd (omega (arith, h))
  after_shutdown-DownFits (suc w) b s stats h h' = (omega (arith, h'), omega arith, tt)

  after_write-DownFits :
      (w : ℕ) (b : Bridge c) (s : Stream) (payload : List ℕ) (bytes packets : ℕ)
      → 2 + length b.ws.incoming ≤ w
      → length b.ws.incoming + k ≤ b.ws.writes
      → DownFits c k
          (after_write c b bytes packets (write_all same_error payload (record s { writes = w })))
  unfolding after_write write_all
  after_write-DownFits zero b s payload bytes packets h h' = absurd (omega (arith, h))
  after_write-DownFits (suc w) b s payload bytes packets h h' = (h', omega (arith, h), tt)

  after_deliver-DownFits :
      (b : Bridge c) (n bytes packets : ℕ) (todo : List ServerFrame)
      → b.ws.ending ≡ closed
      → length (server_bytes todo) ≤ n
      → n + k ≤ b.ws.writes
      → 1 + n ≤ b.client.writes
      → DownFits c k (after_recv c b bytes packets (some (deliver todo b.ws)))
  unfolding after_recv
  after_deliver-DownFits b n bytes packets [] ends h h' h'' = by_ending b.ws.ending ends
    where
      by_ending :
          (e : Ending)
          → e ≡ closed
          → DownFits c k
              (after_recv c b bytes packets (some (at_end e, record b.ws { incoming = [] })))
      by_ending closed ends =
          after_shutdown-DownFits b.client.writes (record b { ws = record b.ws { incoming = [] } })
            b.client (record { bytes = bytes; packets = packets; end_reason = codes "ws_eof" })
            (omega (arith, h'')) (omega (arith, h'))
      by_ending broken ends = cc
      by_ending stalled ends = cc
  after_deliver-DownFits b n bytes packets (data_frame final kind p ∷ todo) ends h h' h'' =
      after_write-DownFits b.client.writes
        (record b { ws = record b.ws { incoming = server_bytes todo } }) b.client p
        (add_u64 bytes (length p)) (add_u64 packets 1)
        (omega (arith, h, h'', frame_bytes (data_frame final kind p) todo))
        (omega (arith, h, h', frame_bytes (data_frame final kind p) todo))
  after_deliver-DownFits b n bytes packets (ping p ∷ todo) ends h h' h'' = (
    omega (arith, h, h', frame_bytes (ping p) todo),
    omega (arith, h, h'', frame_bytes (ping p) todo),
    tt,
  )
  after_deliver-DownFits b n bytes packets (pong p ∷ todo) ends h h' h'' =
      after_deliver-DownFits b n bytes packets todo ends
        (omega (arith, h, frame_bytes (pong p) todo)) h' h''
  after_deliver-DownFits b n bytes packets (close p ∷ todo) ends h h' h'' =
      after_shutdown-DownFits b.client.writes
        (record b { ws = record b.ws { incoming = server_bytes todo } }) b.client
        (record {
          bytes = bytes;
          packets = packets;
          end_reason = close_reason (parse_close_payload p);
        })
        (omega (arith, h'')) (omega (arith, h'))

  after_answer-DownFits :
      (w : ℕ) (b : Bridge c) (p : List ℕ) (bytes packets : ℕ)
      → 2 + length b.ws.incoming + k ≤ w
      → 1 + length b.ws.incoming ≤ b.client.writes
      → DownFits c k
          (after_answer c b bytes packets (send_control_frame 0xA p (record b.ws { writes = w })))
  unfolding after_answer send_control_frame getrandom write_all flush
  after_answer-DownFits zero b p bytes packets h h' = absurd (omega (arith, h))
  after_answer-DownFits (suc zero) b p bytes packets h h' = absurd (omega (arith, h))
  after_answer-DownFits (suc (suc w)) b p bytes packets h h' = (omega (arith, h), h', tt)

  pub down_round-DownFits :
      (b : Bridge c) (down : Down c) (todo : List ServerFrame)
      → b.down ≡ down
      → AllSmall todo
      → b.ws.incoming ≡ server_bytes todo
      → b.ws.ending ≡ closed
      → down_need c b.ws.incoming down + k ≤ b.ws.writes
      → client_need c b.ws.incoming down ≤ b.client.writes
      → DownLives c down
      → DownFits c k (down_round c b down)
  unfolding down_round
  down_round-DownFits b (receiving bytes packets) todo d small arriving ends h h' lives =
      let received =
        ap (λ l. recv_frame (record b.ws { incoming = l })) arriving
        ∙ recv_frame-deliver todo b.ws small in
      rw received (
        after_deliver-DownFits b (length (server_bytes todo)) bytes packets todo ends (omega arith)
          (omega (arith, h, ap length arriving)) (omega (arith, h', ap length arriving)))
  down_round-DownFits b (answering p bytes packets) todo d small arriving ends h h' lives =
      after_answer-DownFits b.ws.writes b p bytes packets h h'
  down_round-DownFits b (down_done stats) todo d small arriving ends h h' lives =
      (rw d (omega (arith, h)), rw d (omega arith), rw d tt)
  down_round-DownFits b (down_failed e) todo d small arriving ends h h' lives = absurd lives
  down_round-DownFits b down_panicked todo d small arriving ends h h' lives = absurd lives
