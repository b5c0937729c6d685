-- ===== src/Relay/Ended/Uplink.antt =====
-- A round of the task from the client brings it nearer to its end.
use telegram_socks_ws_proxy.Base.{
  ℕ, zero, suc, ◌≤◌, ◌-◌, min, ◌≡◌, refl, ap, ◌∙◌, arith, Option, List, [], ◌∷◌, length,
  length-append,
}
use telegram_socks_ws_proxy.Base.Stream.{
  Stream, IoError, Ending, stalled, Outcome, ok, err, pending, panicked, read, shutdown,
}
use telegram_socks_ws_proxy.Base.Stream.Reads.{Reads, read-Reads}
use telegram_socks_ws_proxy.Telegram.Cipher.{Cipher, IsStreamCipher}
use telegram_socks_ws_proxy.Telegram.Splitter.{MtProtoMessageSplitter}
use telegram_socks_ws_proxy.Ws.Types.{WsError}
use telegram_socks_ws_proxy.Ws.Client.{close}
use telegram_socks_ws_proxy.Relay.{
  Bridge, Up, reading, up_done, up_failed, same_error, send_parts, add_u64, after_send, after_split,
  after_close, after_read, up_round,
}
use telegram_socks_ws_proxy.Relay.Messages.{SendsParts, send_parts-SendsParts}
use telegram_socks_ws_proxy.Relay.Uplink.{split_chunk-concat}

-- The rounds that are left at most.
abbrev pub up_left : (c : Cipher) → List ℕ → Up c → ℕ
up_left c incoming (reading splitter bytes packets) = suc (length incoming)
up_left c incoming (up_done stats) = 0
up_left c incoming (up_failed e) = 0

abbrev pub UpWithin : (c : Cipher) → Ending → ℕ → Bridge c → Type 0
UpWithin c e n b = (b.client.ending ≡ e) × (up_left c b.client.incoming b.up ≤ n)

module _ (c : Cipher) (laws : IsStreamCipher c) where
  after_send-UpWithin :
      (b : Bridge c) (parts : List (List ℕ)) (splitter : Option (MtProtoMessageSplitter c))
      (bytes packets : ℕ)
      → (r : Outcome WsError (Unit {0}) × Stream) → SendsParts b.ws parts r
      → UpWithin c b.client.ending
          (suc (length b.client.incoming))
          (after_send c b splitter bytes packets r)
  unfolding after_send
  after_send-UpWithin b parts splitter bytes packets (ok u, ws) h = (refl, omega arith)
  after_send-UpWithin b parts splitter bytes packets (err e, ws) h = (refl, omega arith)
  after_send-UpWithin b parts splitter bytes packets (pending, ws) h = absurd h
  after_send-UpWithin b parts splitter bytes packets (panicked, ws) h = absurd h

  after_close-UpWithin :
      (w : ℕ) (b : Bridge c) (bytes packets : ℕ)
      → UpWithin c b.client.ending 0
          (after_close c b bytes packets (close (record b.ws { writes = w })))
  unfolding after_close close shutdown
  after_close-UpWithin zero b bytes packets = (refl, omega arith)
  after_close-UpWithin (suc k) b bytes packets = (refl, omega arith)

  after_read-UpWithin :
      (b : Bridge c) (splitter : Option (MtProtoMessageSplitter c)) (bytes packets : ℕ)
      → ¬ (b.client.ending ≡ stalled)
      → (r : Outcome IoError (List ℕ) × Stream) → Reads b.client r
      → UpWithin c b.client.ending
          (length b.client.incoming)
          (after_read c b splitter bytes packets r)
  unfolding after_read after_split
  after_read-UpWithin b splitter bytes packets live (ok [], s) (same, i, closing) =
      let (e, h) = after_close-UpWithin b.ws.writes (record b { client = s }) bytes packets in
      (e ∙ ap (λ (t : Stream). t.ending) same, omega (arith, h))
  after_read-UpWithin b splitter bytes packets live (ok (x ∷ xs), s) (front, same) =
      let (parts, splitter', split, joined, few) =
        split_chunk-concat c laws [] [] splitter (x ∷ xs) (omega arith) in
      let (e, h) =
        after_send-UpWithin (record b { client = s }) parts splitter'
          (add_u64 bytes (length (x ∷ xs))) (add_u64 packets 1) (send_parts parts b.ws)
          (send_parts-SendsParts parts b.ws) in
      rw split (
        e ∙ ap (λ (t : Stream). t.ending) same,
        omega (arith, h, ap length front, length-append xs s.incoming),
      )
  after_read-UpWithin b splitter bytes packets live (err x, s) same =
      (ap (λ (t : Stream). t.ending) same, omega arith)
  after_read-UpWithin b splitter bytes packets live (pending, s) (same, e) = absurd (live e)
  after_read-UpWithin b splitter bytes packets live (panicked, s) h = absurd h

  pub up_round-UpWithin :
      (n : ℕ) (b : Bridge c) (up : Up c)
      → b.up ≡ up
      → ¬ (b.client.ending ≡ stalled)
      → UpWithin c b.client.ending (up_left c b.client.incoming up - 1) (up_round c n b up)
  unfolding up_round
  up_round-UpWithin n b (reading splitter bytes packets) u live =
      let (e, h) =
        after_read-UpWithin b splitter bytes packets live
          (read same_error (min (suc n) 32768) b.client)
          (read-Reads same_error (min (suc n) 32768) b.client (omega arith)) in
      (e, omega (arith, h))
  up_round-UpWithin n b (up_done stats) u live = (refl, rw u (omega arith))
  up_round-UpWithin n b (up_failed e) u live = (refl, rw u (omega arith))
