-- ===== src/Relay/Success/Uplink.antt =====
-- The task from the client does not fail while the WebSocket takes its writes.
use telegram_socks_ws_proxy.Base.{
  ℕ, zero, suc, ◌+◌, ◌*◌, ◌≤◌, min, ◌≡◌, refl, ap, ◌∙◌, arith, Option, none, some, List, [], ◌∷◌,
  length, length-append, take,
}
use telegram_socks_ws_proxy.Base.Stream.{
  Stream, IoError, closed, Outcome, ok, err, pending, panicked, read, shutdown, getrandom,
  write_all, flush,
}
use telegram_socks_ws_proxy.Base.Stream.Reads.{Reads, read-Reads}
use telegram_socks_ws_proxy.Telegram.Cipher.{Cipher, IsStreamCipher}
use telegram_socks_ws_proxy.Telegram.Splitter.{MtProtoMessageSplitter, split}
use telegram_socks_ws_proxy.Ws.Types.{WsError}
use telegram_socks_ws_proxy.Ws.Client.{close, send}
use telegram_socks_ws_proxy.Relay.{
  Bridge, Up, reading, up_done, up_failed, same_error, send_parts, split_chunk, add_u64, after_send,
  after_split, after_close, after_read, up_round,
}
use telegram_socks_ws_proxy.Relay.Uplink.{split_chunk-concat}

-- The writes that the task still makes at most: two for each byte, and one to close.
abbrev pub up_need : (c : Cipher) → List ℕ → Up c → ℕ
up_need c incoming (reading splitter bytes packets) = 2 * length incoming + 1
up_need c incoming (up_done stats) = 0
up_need c incoming (up_failed e) = 0

abbrev pub UpLives : (c : Cipher) → Up c → Type 0
UpLives c (reading splitter bytes packets) = Unit
UpLives c (up_done stats) = Unit
UpLives c (up_failed e) = ⊥

-- `k` writes are for others.
abbrev pub UpFits : (c : Cipher) → ℕ → Bridge c → Type 0
UpFits c k b = (up_need c b.client.incoming b.up + k ≤ b.ws.writes) × UpLives c b.up

send-writes :
    (part : List ℕ) (w : ℕ) (s : Stream)
    → (t : Stream) × (send part (record s { writes = suc (suc w) }) ≡ (ok tt, t)) × (t.writes ≡ w)
unfolding send getrandom write_all flush
send-writes part w s = ((send part (record s { writes = suc (suc w) })).1, refl, refl)

send_parts-writes :
    (parts : List (List ℕ)) (w n : ℕ) (s : Stream)
    → 2 * length parts + n ≤ w
    → (t : Stream) × (send_parts parts (record s { writes = w }) ≡ (ok tt, t)) × (n ≤ t.writes)
unfolding send_parts
send_parts-writes [] w n s h = (record s { writes = w }, refl, omega (arith, h))
send_parts-writes (part ∷ parts) zero n s h = absurd (omega (arith, h))
send_parts-writes (part ∷ parts) (suc zero) n s h = absurd (omega (arith, h))
send_parts-writes (part ∷ parts) (suc (suc w)) n s h =
    let (t, e, k) = send-writes part w s in
    let (u, e', k') = send_parts-writes parts t.writes n t (omega (arith, h, k)) in
    (u, rw (e, e') refl, k')

module _ (c : Cipher) (laws : IsStreamCipher c) (k : ℕ) where
  after_send-UpFits :
      (b : Bridge c) (splitter : Option (MtProtoMessageSplitter c)) (bytes packets : ℕ)
      (ws : Stream)
      → 2 * length b.client.incoming + 1 + k ≤ ws.writes
      → UpFits c k (after_send c b splitter bytes packets (ok tt, ws))
  unfolding after_send
  after_send-UpFits b splitter bytes packets ws h = (h, tt)

  after_close-UpFits :
      (w : ℕ) (b : Bridge c) (bytes packets : ℕ)
      → 1 + k ≤ w
      → UpFits c k (after_close c b bytes packets (close (record b.ws { writes = w })))
  unfolding after_close close shutdown
  after_close-UpFits zero b bytes packets h = absurd (omega (arith, h))
  after_close-UpFits (suc w) b bytes packets h = (omega (arith, h), tt)

  after_read-UpFits :
      (b : Bridge c) (splitter : Option (MtProtoMessageSplitter c)) (bytes packets : ℕ)
      → 2 * length b.client.incoming + 1 + k ≤ b.ws.writes
      → (r : Outcome IoError (List ℕ) × Stream) → Reads b.client r
      → ((xs : List ℕ) × (s : Stream) × (r ≡ (ok xs, s)))
      → UpFits c k (after_read c b splitter bytes packets r)
  unfolding after_read after_split
  after_read-UpFits b splitter bytes packets h (ok [], s) (same, i, closing) goes =
      after_close-UpFits b.ws.writes (record b { client = s }) bytes packets (omega (arith, h))
  after_read-UpFits b splitter bytes packets h (ok (x ∷ xs), s) (front, same) goes =
      let (parts, splitter', split, joined, few) =
        split_chunk-concat c laws [] [] splitter (x ∷ xs) (omega arith) in
      let left = 2 * length s.incoming + 1 + k in
      let (t, e, enough) =
        send_parts-writes parts b.ws.writes left b.ws
          (omega (arith, h, few, ap length front, length-append xs s.incoming)) in
      rw (split, e)
        (after_send-UpFits (record b { client = s }) splitter' (add_u64 bytes (length (x ∷ xs)))
          (add_u64 packets 1) t enough)
  after_read-UpFits b splitter bytes packets h (err x, s) same (xs, t, e) = cc
  after_read-UpFits b splitter bytes packets h (pending, s) same (xs, t, e) = cc
  after_read-UpFits b splitter bytes packets h (panicked, s) same (xs, t, e) = cc

  read-closed :
      (i : List ℕ) (limit : ℕ) (s : Stream)
      → (xs : List ℕ) × (t : Stream) × (read same_error limit
            (record s { incoming = i; ending = closed })
          ≡ (ok xs, t))
  unfolding read
  read-closed [] limit s = ([], record s { incoming = []; ending = closed }, refl)
  read-closed (x ∷ i) limit s = (
    (take limit (x ∷ i)),
    (read same_error limit (record s { incoming = x ∷ i; ending = closed })).1,
    refl,
  )

  pub up_round-UpFits :
      (n : ℕ) (b : Bridge c) (up : Up c)
      → b.up ≡ up
      → b.client.ending ≡ closed
      → up_need c b.client.incoming up + k ≤ b.ws.writes
      → UpLives c up
      → UpFits c k (up_round c n b up)
  unfolding up_round
  up_round-UpFits n b (reading splitter bytes packets) u ends h lives =
      let (xs, t, e) = read-closed b.client.incoming (min (suc n) 32768) b.client in
      after_read-UpFits b splitter bytes packets h (read same_error (min (suc n) 32768) b.client)
        (read-Reads same_error (min (suc n) 32768) b.client (omega arith))
        (
          xs,
          t,
          ap (λ x. read same_error (min (suc n) 32768) (record b.client { ending = x })) ends ∙ e,
        )
  up_round-UpFits n b (up_done stats) u ends h lives = (rw u (omega (arith, h)), rw u tt)
  up_round-UpFits n b (up_failed x) u ends h lives = absurd lives

-- The rounds of this task write nothing to the client.
after_send-client :
    (c : Cipher) (b : Bridge c) (splitter : Option (MtProtoMessageSplitter c)) (bytes packets : ℕ)
    (r : Outcome WsError (Unit {0}) × Stream)
    → (after_send c b splitter bytes packets r).client ≡ b.client
unfolding after_send
after_send-client c b splitter bytes packets (ok u, ws) = refl
after_send-client c b splitter bytes packets (err e, ws) = refl
after_send-client c b splitter bytes packets (pending, ws) = refl
after_send-client c b splitter bytes packets (panicked, ws) = refl

after_split-client :
    (c : Cipher) (b : Bridge c) (bytes packets : ℕ)
    (o : Option (List (List ℕ) × Option (MtProtoMessageSplitter c)))
    → (after_split c b bytes packets o).client ≡ b.client
unfolding after_split
after_split-client c b bytes packets none = refl
after_split-client c b bytes packets (some (parts, splitter)) =
    after_send-client c b splitter bytes packets (send_parts parts b.ws)

after_close-client :
    (c : Cipher) (b : Bridge c) (bytes packets : ℕ) (r : Outcome WsError (Unit {0}) × Stream)
    → (after_close c b bytes packets r).client ≡ b.client
unfolding after_close
after_close-client c b bytes packets (ok u, ws) = refl
after_close-client c b bytes packets (err e, ws) = refl
after_close-client c b bytes packets (pending, ws) = refl
after_close-client c b bytes packets (panicked, ws) = refl

after_read-writes :
    (c : Cipher) (b : Bridge c) (splitter : Option (MtProtoMessageSplitter c)) (bytes packets : ℕ)
    (r : Outcome IoError (List ℕ) × Stream)
    → Reads b.client r
    → (after_read c b splitter bytes packets r).client.writes ≡ b.client.writes
unfolding after_read
after_read-writes c b splitter bytes packets (ok [], s) (same, i, closing) =
    ap (λ (t : Stream). t.writes)
      (after_close-client c (record b { client = s }) bytes packets (close b.ws) ∙ same)
after_read-writes c b splitter bytes packets (ok (x ∷ xs), s) (front, same) =
    ap (λ (t : Stream). t.writes)
      (after_split-client c (record b { client = s }) (add_u64 bytes (length (x ∷ xs)))
          (add_u64 packets 1) (split_chunk c splitter (x ∷ xs))
        ∙ same)
after_read-writes c b splitter bytes packets (err x, s) same = ap (λ (t : Stream). t.writes) same
after_read-writes c b splitter bytes packets (pending, s) same = refl
after_read-writes c b splitter bytes packets (panicked, s) h = absurd h

pub up_round-writes :
    (c : Cipher) (n : ℕ) (b : Bridge c) (up : Up c)
    → (up_round c n b up).client.writes ≡ b.client.writes
unfolding up_round
up_round-writes c n b (reading splitter bytes packets) =
    after_read-writes c b splitter bytes packets (read same_error (min (suc n) 32768) b.client)
      (read-Reads same_error (min (suc n) 32768) b.client (omega arith))
up_round-writes c n b (up_done stats) = refl
up_round-writes c n b (up_failed e) = refl
