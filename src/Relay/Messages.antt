-- ===== src/Relay/Messages.antt =====
-- What the bridge of src/modules/relay.rs writes to the WebSocket, as messages, and what one write adds to it.
use telegram_socks_ws_proxy.Base.{
  ℕ, zero, suc, ◌≡◌, refl, sym, ap, ◌∙◌, Option, List, [], ◌∷◌, ◌++◌, append-nil, append_assoc, ◌⊎◌,
  inl, inr, concat,
}
use telegram_socks_ws_proxy.Base.Stream.{
  Stream, Outcome, ok, err, pending, panicked, bind_outcome, ◌>>=◌, ◌>>◌, write_all, flush,
  getrandom, next_key,
}
use telegram_socks_ws_proxy.Ws.Types.{WsError, io}
use telegram_socks_ws_proxy.Ws.Frame.{build_frame, build_frame_with_opcode}
use telegram_socks_ws_proxy.Ws.Client.{send, send_control_frame}
use telegram_socks_ws_proxy.Relay.{send_parts}

-- A frame to the server, with the answer of `getrandom` for its mask.
pub data Message : Type 0 where
  binary : List ℕ → Option (List ℕ) → Message
  pong : List ℕ → Option (List ℕ) → Message

abbrev pub wire : List Message → List ℕ
wire [] = []
wire (binary payload random ∷ ms) = build_frame payload random ++ wire ms
wire (pong payload random ∷ ms) = build_frame_with_opcode 0xA payload random ++ wire ms

abbrev pub bytes_of : List Message → List ℕ
bytes_of [] = []
bytes_of (binary payload random ∷ ms) = payload ++ bytes_of ms
bytes_of (pong payload random ∷ ms) = bytes_of ms

abbrev pub pongs_of : List Message → List (List ℕ)
pongs_of [] = []
pongs_of (binary payload random ∷ ms) = pongs_of ms
pongs_of (pong payload random ∷ ms) = payload ∷ pongs_of ms

pub wire-append : (ms ms' : List Message) → wire (ms ++ ms') ≡ wire ms ++ wire ms'
wire-append [] ms' = refl
wire-append (binary p r ∷ ms) ms' = rw (wire-append ms ms', append_assoc)
wire-append (pong p r ∷ ms) ms' = rw (wire-append ms ms', append_assoc)

pub bytes_of-append : (ms ms' : List Message) → bytes_of (ms ++ ms') ≡ bytes_of ms ++ bytes_of ms'
bytes_of-append [] ms' = refl
bytes_of-append (binary p r ∷ ms) ms' = rw (bytes_of-append ms ms', append_assoc)
bytes_of-append (pong p r ∷ ms) ms' = bytes_of-append ms ms'

pub pongs_of-append : (ms ms' : List Message) → pongs_of (ms ++ ms') ≡ pongs_of ms ++ pongs_of ms'
pongs_of-append [] ms' = refl
pongs_of-append (binary p r ∷ ms) ms' = pongs_of-append ms ms'
pongs_of-append (pong p r ∷ ms) ms' = ap (λ l. p ∷ l) (pongs_of-append ms ms')

-- The messages are all that was written, and nothing was read.
abbrev pub Writes : Stream → List Message → Stream → Type 0
Writes s ms s' = (s'.sent ≡ s.sent ++ wire ms) × (s'.incoming ≡ s.incoming) × (s'.ending ≡ s.ending)

pub Writes-none : (s : Stream) → Writes s [] s
Writes-none s = (sym (append-nil s.sent), refl, refl)

pub Writes-append :
    (s s' s'' : Stream) (ms ms' : List Message)
    → Writes s ms s'
    → Writes s' ms' s''
    → Writes s (ms ++ ms') s''
Writes-append s s' s'' ms ms' (w, i, e) (w', i', e') = (
  w'
      ∙ ap (λ l. l ++ wire ms') w
      ∙ append_assoc s.sent (wire ms) (wire ms')
      ∙ ap (λ l. s.sent ++ l) (sym (wire-append ms ms')),
  i' ∙ i,
  e' ∙ e,
)

-- A write of one frame: it goes through, or it fails and the frame is on the connection or is not.
abbrev pub Transmits : Stream → Message → Outcome WsError (Unit {0}) × Stream → Type 0
Transmits s m (ok u, s') = Writes s (m ∷ []) s'
Transmits s m (err e, s') = Writes s [] s' ⊎ Writes s (m ∷ []) s'
Transmits s m (pending, s') = ⊥
Transmits s m (panicked, s') = ⊥

-- A frame drawn, written and flushed, as `send` and `send_control_frame` do.
module _ (m : Message) (bytes : Option (List ℕ) → List ℕ) where
  transmit-Transmits :
      (w : ℕ) (s : Stream)
      → wire (m ∷ []) ≡ bytes (next_key s.entropy) ++ []
      → Transmits s m (
          (getrandom >>= λ random. write_all io (bytes random) >> flush io)
            (record s { writes = w }))
  unfolding getrandom write_all flush
  transmit-Transmits zero s e = inl (sym (append-nil s.sent), refl, refl)
  transmit-Transmits (suc zero) s e =
      inr
        (ap (λ l. s.sent ++ l) (sym (append-nil (bytes (next_key s.entropy))) ∙ sym e), refl, refl)
  transmit-Transmits (suc (suc k)) s e =
      (ap (λ l. s.sent ++ l) (sym (append-nil (bytes (next_key s.entropy))) ∙ sym e), refl, refl)

pub send-Transmits :
    (payload : List ℕ) (s : Stream)
    → Transmits s (binary payload (next_key s.entropy)) (send payload s)
unfolding send
send-Transmits payload s =
    transmit-Transmits (binary payload (next_key s.entropy)) (build_frame payload) s.writes s refl

pub send_control_frame-Transmits :
    (payload : List ℕ) (s : Stream)
    → Transmits s (pong payload (next_key s.entropy)) (send_control_frame 0xA payload s)
unfolding send_control_frame
send_control_frame-Transmits payload s =
    transmit-Transmits (pong payload (next_key s.entropy)) (build_frame_with_opcode 0xA payload)
      s.writes s refl

-- The sending of parts: what was written holds their bytes, in order, all of them unless a write failed.
abbrev pub SendsParts : Stream → List (List ℕ) → Outcome WsError (Unit {0}) × Stream → Type 0
SendsParts s parts (ok u, s') =
    (ms : List Message) × Writes s ms s' × (bytes_of ms ≡ concat parts) × (pongs_of ms ≡ [])
SendsParts s parts (err e, s') =
    (ms : List Message) × (lost : List ℕ) × Writes s ms s'
    × (bytes_of ms ++ lost ≡ concat parts)
    × (pongs_of ms ≡ [])
SendsParts s parts (pending, s') = ⊥
SendsParts s parts (panicked, s') = ⊥

-- One part sent, and then the others.
SendsParts-cons :
    (s s' : Stream) (part : List ℕ) (random : Option (List ℕ)) (parts : List (List ℕ))
    → Writes s (binary part random ∷ []) s'
    → (r : Outcome WsError (Unit {0}) × Stream) → SendsParts s' parts r
    → SendsParts s (part ∷ parts) r
SendsParts-cons s s' part random parts w (ok u, t) (ms, later, same, none_of) = (
  binary part random ∷ ms,
  Writes-append s s' t (binary part random ∷ []) ms w later,
  ap (λ l. part ++ l) same,
  none_of,
)
SendsParts-cons s s' part random parts w (err e, t) (ms, lost, later, same, none_of) = (
  binary part random ∷ ms,
  lost,
  Writes-append s s' t (binary part random ∷ []) ms w later,
  append_assoc part (bytes_of ms) lost ∙ ap (λ l. part ++ l) same,
  none_of,
)
SendsParts-cons s s' part random parts w (pending, t) h = absurd h
SendsParts-cons s s' part random parts w (panicked, t) h = absurd h

sent_part :
    (s : Stream) (part : List ℕ) (random : Option (List ℕ)) (parts : List (List ℕ))
    → ((t : Stream) → SendsParts t parts (send_parts parts t))
    → (r : Outcome WsError (Unit {0}) × Stream) → Transmits s (binary part random) r
    → SendsParts s (part ∷ parts) (bind_outcome r (λ u. send_parts parts))
sent_part s part random parts rest (ok u, s') w =
    SendsParts-cons s s' part random parts w (send_parts parts s') (rest s')
sent_part s part random parts rest (err e, s') (inl w) = ([], part ++ concat parts, w, refl, refl)
sent_part s part random parts rest (err e, s') (inr w) =
    (binary part random ∷ [], concat parts, w, ap (λ l. l ++ concat parts) (append-nil part), refl)
sent_part s part random parts rest (pending, s') h = absurd h
sent_part s part random parts rest (panicked, s') h = absurd h

pub send_parts-SendsParts :
    (parts : List (List ℕ)) (s : Stream) → SendsParts s parts (send_parts parts s)
unfolding send_parts
send_parts-SendsParts [] s = ([], Writes-none s, refl, refl)
send_parts-SendsParts (part ∷ parts) s =
    sent_part s part (next_key s.entropy) parts (send_parts-SendsParts parts) (send part s)
      (send-Transmits part s)
