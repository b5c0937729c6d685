-- ===== src/Ws/Frame/Reads.antt =====
-- What `read_frame` of src/modules/ws.rs takes from the connection, on any input.
use telegram_socks_ws_proxy.Base.{
  ℕ, ◌^◌, ◌≤◌, ◌<◌, ◌≡◌, refl, sym, ◌∙◌, subst, arith, ltb, ◌==◌, Bool, false, true, Bool-cases,
  inl, inr, bit_and, List, [], ◌∷◌, ◌++◌, Option, none, some, length, le→ltb-false, not, get_or,
  ◌⊎◌,
}
use telegram_socks_ws_proxy.Base.Stream.{
  Stream, Outcome, ok, err, panicked, pending, Ending, closed, broken, stalled, read_exact,
  bind_outcome, unexpected_eof, return, run_out,
}
use telegram_socks_ws_proxy.Base.Stream.Laws.{
  Takes, Takes-refl, Takes-trans, bind-ok, read_exact-Takes, read_exact-err, read_exact-front,
  ok-state, ok-value,
}
use telegram_socks_ws_proxy.Ws.Types.{WsError, io, WsFrame}
use telegram_socks_ws_proxy.Ws.Frame.{
  read_length, read_mask, allocate, read_frame_body, read_frame, header_or_end, after_header,
  to_be_bytes, from_be_bytes,
}
use telegram_socks_ws_proxy.Ws.Frame.Bytes.{from_be-to_be, length-to_be}

Takes-same : {n : ℕ} (s : Stream) {t t' : Stream} → t ≡ t' → Takes n s t → Takes n s t'
Takes-same {n} s e h = subst (Takes n s) e h

Takes-less : {n m : ℕ} (s s' : Stream) → m ≤ n → Takes n s s' → Takes m s s'
Takes-less s s' le (u, h, e, f) = (u, omega arith, e, f)

read_ext-Takes :
    (n : ℕ) (s : Stream) {len : ℕ} {s' : Stream}
    → bind_outcome (read_exact io n s) (λ ext. return (from_be_bytes ext)) ≡ (ok len, s')
    → Takes 0 s s'
read_ext-Takes n s h =
    let (ext, s₁, read, done) = bind-ok (read_exact io n s) (λ ext. return (from_be_bytes ext)) h in
    Takes-same s (ok-state done) (Takes-less s s₁ (omega arith) (read_exact-Takes io n s read))

read_length-Takes :
    (code : ℕ) (s : Stream) {len : ℕ} {s' : Stream}
    → read_length code s ≡ (ok len, s')
    → Takes 0 s s'
unfolding read_length
read_length-Takes code s h = elim (Bool-cases (code == 126)) [
  | inl two ↦ read_ext-Takes 2 s (rw two at h)
  | inr more ↦ elim (Bool-cases (code == 127)) [
    | inl eight ↦ read_ext-Takes 8 s (rw (more, eight) at h)
    | inr small ↦ Takes-same s (ok-state (rw (more, small) at h)) (Takes-refl s)
  ]
]

read_mask-Takes :
    (masked : Bool) (s : Stream) {mask : List ℕ} {s' : Stream}
    → read_mask masked s ≡ (ok mask, s')
    → Takes 0 s s'
unfolding read_mask
read_mask-Takes true s {mask} {s'} h = Takes-less s s' (omega arith) (read_exact-Takes io 4 s h)
read_mask-Takes false s h = Takes-same s (ok-state h) (Takes-refl s)

allocate-Takes :
    (n : ℕ) (s : Stream) {u : Unit {0}} {s' : Stream} → allocate n s ≡ (ok u, s') → Takes 0 s s'
unfolding allocate
allocate-Takes n s h = elim (Bool-cases (ltb n (2 ^ 63))) [
  | inl fits ↦ Takes-same s (ok-state (rw fits at h)) (Takes-refl s)
  | inr large ↦ absurd (panicked-not_ok (rw large at h))
]
  where
    panicked-not_ok :
        {t t' : Stream} {v : Unit {0}}
        → ¬ (◌≡◌ {A = Outcome WsError (Unit {0}) × Stream} (panicked, t) (ok v, t'))
    panicked-not_ok e = cc

read_frame_body-ok :
    (a b : ℕ) (s : Stream) {f : Option WsFrame} {s' : Stream}
    → read_frame_body a b s ≡ (ok f, s')
    → Takes 0 s s' × ((frame : WsFrame) × (f ≡ some frame))
unfolding read_frame_body
read_frame_body-ok a b s h =
    let (n, s₁, length_read, h₁) = bind-ok (read_length (bit_and b 0x7f) s) _ h in
    let (mask, s₂, mask_read, h₂) = bind-ok (read_mask (not (bit_and b 0x80 == 0)) s₁) _ h₁ in
    let (u, s₃, allocated, h₃) = bind-ok (allocate n s₂) _ h₂ in
    let (payload, s₄, payload_read, h₄) = bind-ok (read_exact io n s₃) _ h₃ in
    let first =
      Takes-trans s s₁ s₂ (read_length-Takes _ s length_read) (read_mask-Takes _ s₁ mask_read) in
    let later =
      Takes-trans s₂ s₃ s₄ (allocate-Takes n s₂ allocated)
        (read_exact-Takes io n s₃ payload_read) in
    (
      Takes-same s (ok-state h₄) (Takes-less s s₄ (omega arith) (Takes-trans s s₂ s₄ first later)),
      some_frame h₄,
    )
  where
    some_frame :
        {frame : WsFrame} {f : Option WsFrame} {t t' : Stream}
        → ◌≡◌ {A = Outcome WsError (Option WsFrame) × Stream} (ok (some frame), t) (ok f, t')
        → (g : WsFrame) × (f ≡ some g)
    some_frame {frame} e = (frame, cc)

eof-closed :
    (e : Ending) → run_out {E = WsError} {A = List ℕ} io e ≡ err (io unexpected_eof) → e ≡ closed
eof-closed closed h = refl
eof-closed broken h = cc
eof-closed stalled h = cc

-- The two outcomes of a read of the header that are not errors.
header_or_end-ok :
    (s : Stream) {hdr : Option (List ℕ)} {s' : Stream}
    → header_or_end (read_exact io 2 s) ≡ (ok hdr, s')
    → ((h : List ℕ) × (hdr ≡ some h) × Takes 2 s s')
      ⊎ ((hdr ≡ none)
          × (length s.incoming < 2)
          × (s.ending ≡ closed)
          × (s' ≡ record s { incoming = [] }))
header_or_end-ok s {hdr} {s'} h = by_outcome (read_exact io 2 s) refl h
  where
    by_outcome :
        (r : Outcome WsError (List ℕ) × Stream)
        → read_exact io 2 s ≡ r
        → header_or_end r ≡ (ok hdr, s')
        → ((x : List ℕ) × (hdr ≡ some x) × Takes 2 s s')
          ⊎ ((hdr ≡ none)
              × (length s.incoming < 2)
              × (s.ending ≡ closed)
              × (s' ≡ record s { incoming = [] }))
    by_outcome (ok x, t) e p = inl (x, cc, Takes-same s (ok-state p) (read_exact-Takes io 2 s e))
    by_outcome (err (io unexpected_eof), t) e p =
        let (short, rest, out) = read_exact-err io 2 s e in
        inr (cc, short, eof-closed s.ending out, sym (ok-state p) ∙ rest)
    by_outcome (err _, t) e p = cc
    by_outcome (pending, t) e p = cc
    by_outcome (panicked, t) e p = cc

-- `read_frame` says that the stream has ended only if the peer has closed it with less than a
-- header left. Any frame that it returns has taken at least two bytes, and nothing but reading was
-- done.
pub read_frame-ok :
    (s : Stream) {r : Option WsFrame} {s' : Stream}
    → read_frame s ≡ (ok r, s')
    → ((f : WsFrame) × (r ≡ some f) × Takes 2 s s')
      ⊎ ((r ≡ none) × (length s.incoming < 2) × (s.ending ≡ closed))
unfolding read_frame
read_frame-ok s {r} {s'} h =
    let (hdr, s₁, first, later) = bind-ok (header_or_end (read_exact io 2 s)) after_header h in
    by_header hdr s₁ later (header_or_end-ok s first)
  where
    by_header :
        (hdr : Option (List ℕ)) (s₁ : Stream)
        → after_header hdr s₁ ≡ (ok r, s')
        → ((h : List ℕ) × (hdr ≡ some h) × Takes 2 s s₁)
          ⊎ ((hdr ≡ none)
              × (length s.incoming < 2)
              × (s.ending ≡ closed)
              × (s₁ ≡ record s { incoming = [] }))
        → ((f : WsFrame) × (r ≡ some f) × Takes 2 s s')
          ⊎ ((r ≡ none) × (length s.incoming < 2) × (s.ending ≡ closed))
    by_header none s₁ p (inl (x, e, t)) = cc
    by_header none s₁ p (inr (e, short, end, same)) = inr (sym (ok-value p), short, end)
    by_header (some x) s₁ p (inl (y, e, t)) =
        let (later, (f, is_f)) = read_frame_body-ok (get_or x 0 0) (get_or x 1 0) s₁ p in
        inl (f, is_f, Takes-less s s' (omega arith) (Takes-trans s s₁ s' t later))
    by_header (some x) s₁ p (inr (e, _, _, _)) = cc

-- An unmasked frame that announces 2 ^ 63 bytes or more panics the task, whatever opcode it has and whatever
-- follows: the header of a frame is enough.
pub read_frame-panics :
    (a n : ℕ) (rest : List ℕ) (s : Stream)
    → 2 ^ 63 ≤ n
    → n < 2 ^ 64
    → read_frame (record s { incoming = a ∷ 127 ∷ (to_be_bytes 8 n ++ rest) })
      ≡ (panicked, record s { incoming = rest })
unfolding read_frame read_length allocate
read_frame-panics a n rest s large fits = rw (
  read_exact-front io 2 (a ∷ 127 ∷ []) (to_be_bytes 8 n ++ rest) s refl,
  read_exact-front io 8 (to_be_bytes 8 n) rest s (length-to_be 8 n),
  from_be-to_be 8 n fits,
  le→ltb-false n (2 ^ 63) large,
)
