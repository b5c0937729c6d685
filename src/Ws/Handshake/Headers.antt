-- ===== src/Ws/Handshake/Headers.antt =====
-- What the header reader takes from a connection: a prefix up to the first blank line, and nothing behind it.
use telegram_socks_ws_proxy.Base.{
  ℕ, zero, suc, ◌<◌, ◌≤◌, ◌≡◌, refl, sym, ap, ◌∙◌, arith, Bool, true, false, not, Bool-cases,
  and-true, leb, ◌&&◌, inl, inr, List, [], ◌∷◌, ◌++◌, append-nil, append_assoc, length,
}
use telegram_socks_ws_proxy.Base.Stream.{
  Stream, Ending, closed, broken, stalled, Outcome, ok, err, pending, panicked, read, bind_outcome,
}
use telegram_socks_ws_proxy.Base.Text.{ends_with}
use telegram_socks_ws_proxy.Ws.Types.{WsError}
use telegram_socks_ws_proxy.Ws.Handshake.{
  crlf, two_crlf, max_handshake_header_size, is_complete, push_byte, header_loop, check_size,
  read_handshake_headers,
}

-- No prefix of `bytes` behind `header` completes it, except perhaps all of them.
unfoldable pub is_open : List ℕ → List ℕ → Bool
is_open header [] = true
is_open header (b ∷ []) = true
is_open header (b ∷ c ∷ bytes) =
    not (is_complete (header ++ (b ∷ []))) && is_open (header ++ (b ∷ [])) (c ∷ bytes)

not-true : (b : Bool) → not b ≡ true → b ≡ false
not-true true h = sym h
not-true false h = refl

header_loop-front :
    (bytes header rest : List ℕ) (room : ℕ) (s : Stream)
    → 0 < length bytes
    → length bytes ≤ room
    → is_open header bytes ≡ true
    → is_complete (header ++ bytes) ≡ true
    → header_loop room header (record s { incoming = bytes ++ rest })
      ≡ (ok (header ++ bytes), record s { incoming = rest })
unfolding header_loop push_byte read is_open
header_loop-front [] header rest room s h fits below full = absurd (omega arith)
header_loop-front (b ∷ bytes) header rest zero s h fits below full = absurd (omega arith)
header_loop-front (b ∷ []) header rest (suc room) s h fits below full = rw full refl
header_loop-front (b ∷ c ∷ bytes) header rest (suc room) s h fits below full =
    let (more, below') = and-true (not (is_complete (header ++ (b ∷ [])))) below in
    rw
      (
        not-true _ more,
        header_loop-front (c ∷ bytes) (header ++ (b ∷ [])) rest room s (omega arith)
            (omega (arith, fits)) below' (rw (append_assoc header (b ∷ []) (c ∷ bytes)) full),
        append_assoc header (b ∷ []) (c ∷ bytes),
      )
      refl

incomplete : ¬ (is_complete [] ≡ true)
unfolding is_complete
incomplete h = cc

complete-ends : (header : List ℕ) → is_complete header ≡ true → ends_with two_crlf header ≡ true
unfolding is_complete
complete-ends header full =
    let (enough, tests) = and-true (leb 2 (length header)) full in
    (and-true (ends_with crlf header && leb 4 (length header)) tests).1

-- The reader stops behind the first blank line, whatever follows.
pub read_handshake_headers-front :
    (header rest : List ℕ) (s : Stream)
    → is_open [] header ≡ true
    → is_complete header ≡ true
    → length header ≤ max_handshake_header_size
    → read_handshake_headers (record s { incoming = header ++ rest })
      ≡ (ok header, record s { incoming = rest })
unfolding read_handshake_headers check_size
read_handshake_headers-front [] rest s below full fits = absurd (incomplete full)
read_handshake_headers-front (b ∷ header) rest s below full fits =
    rw
      (
        header_loop-front (b ∷ header) [] rest max_handshake_header_size s (omega arith) fits below
            full,
        complete-ends (b ∷ header) full,
      )
      refl

-- What a header is that was read from behind `front`.
abbrev pub ReadsHeader : List ℕ → ℕ → Stream → Outcome WsError (List ℕ) × Stream → Type 0
ReadsHeader front room s (ok header, s') =
    (used : List ℕ) × (header ≡ front ++ used)
    × (length used ≤ room)
    × (s.incoming ≡ used ++ s'.incoming)
    × (s' ≡ record s { incoming = s'.incoming })
ReadsHeader front room s (err e, s') = Unit
ReadsHeader front room s (pending, s') = Unit
ReadsHeader front room s (panicked, s') = ⊥

-- One byte more, and then the rest.
ReadsHeader-cons :
    (b : ℕ) (i front : List ℕ) (room : ℕ) (s : Stream) (r : Outcome WsError (List ℕ) × Stream)
    → ReadsHeader (front ++ (b ∷ [])) room (record s { incoming = i }) r
    → ReadsHeader front (suc room) (record s { incoming = b ∷ i }) r
ReadsHeader-cons b i front room s (ok header, s') (used, e, h, i', same) =
    (b ∷ used, e ∙ append_assoc front (b ∷ []) used, omega (arith, h), ap (λ l. b ∷ l) i', same)
ReadsHeader-cons b i front room s (err e, s') h = tt
ReadsHeader-cons b i front room s (pending, s') h = tt
ReadsHeader-cons b i front room s (panicked, s') h = h

header_loop-ReadsHeader :
    (room : ℕ) (i front : List ℕ) (s : Stream)
    → ReadsHeader front room
        (record s { incoming = i })
        (header_loop room front (record s { incoming = i }))
unfolding header_loop push_byte read
header_loop-ReadsHeader zero i front s = ([], sym (append-nil front), omega arith, refl, refl)
header_loop-ReadsHeader (suc room) [] front s = by_ending s.ending
  where
    by_ending :
        (e : Ending)
        → ReadsHeader front
            (suc room)
            (record s { incoming = []; ending = e })
            (header_loop (suc room) front (record s { incoming = []; ending = e }))
    by_ending closed = tt
    by_ending broken = tt
    by_ending stalled = tt
header_loop-ReadsHeader (suc room) (b ∷ i) front s =
    elim (Bool-cases (is_complete (front ++ (b ∷ [])))) [
      | inl full ↦ rw full (b ∷ [], refl, omega arith, refl, refl)
      | inr more ↦ rw more (
          ReadsHeader-cons b i front room s
            (header_loop room (front ++ (b ∷ [])) (record s { incoming = i }))
            (header_loop-ReadsHeader room i (front ++ (b ∷ [])) s))
    ]

-- The header is what was read, its size is bounded, and it ends with a blank line.
abbrev pub IsHeader : Stream → Outcome WsError (List ℕ) × Stream → Type 0
IsHeader s (ok header, s') =
    (s.incoming ≡ header ++ s'.incoming)
    × (s' ≡ record s { incoming = s'.incoming })
    × (length header ≤ max_handshake_header_size)
    × (ends_with two_crlf header ≡ true)
IsHeader s (err e, s') = Unit
IsHeader s (pending, s') = Unit
IsHeader s (panicked, s') = ⊥

check_size-IsHeader :
    (s : Stream) (r : Outcome WsError (List ℕ) × Stream)
    → ReadsHeader [] max_handshake_header_size s r
    → IsHeader s (bind_outcome r check_size)
unfolding check_size
check_size-IsHeader s (ok header, s') (used, e, h, i, same) =
    elim (Bool-cases (ends_with two_crlf header)) [
      | inl full ↦
          rw full
            (i ∙ ap (λ l. l ++ s'.incoming) (sym e), same, omega (arith, h, ap length e), full)
      | inr open_end ↦ rw open_end tt
    ]
check_size-IsHeader s (err e, s') h = tt
check_size-IsHeader s (pending, s') h = tt
check_size-IsHeader s (panicked, s') h = h

pub read_handshake_headers-IsHeader : (s : Stream) → IsHeader s (read_handshake_headers s)
unfolding read_handshake_headers
read_handshake_headers-IsHeader s =
    check_size-IsHeader s (header_loop max_handshake_header_size [] s)
      (header_loop-ReadsHeader max_handshake_header_size s.incoming [] s)
