-- ===== src/Ws/Handshake/RoundTrip.antt =====
-- A response, written as text, and read by `parse_handshake_response` of src/modules/ws.rs.
use telegram_socks_ws_proxy.Base.{
  ℕ, ◌<◌, ◌≡◌, refl, ap, ◌∙◌, arith, ◌==◌, false, none, some, List, [], ◌∷◌, ◌++◌, append_assoc,
  All, All-append, inl, inr,
}
use telegram_socks_ws_proxy.Base.Utf8.{Str, codes, from_utf8_ascii, from_utf8_lossy_ascii}
use telegram_socks_ws_proxy.Base.Text.{
  is_whitespace, trim_start, trim, split_once-append, split_by, not_empty, split_whitespace,
  trim_end_matches,
}
use telegram_socks_ws_proxy.Base.Decimal.{
  IsDigit, to_string, to_string-digits, to_string-IsDigit, parse_u16, parse_u16-to_string,
}
use telegram_socks_ws_proxy.Ws.Handshake.LastValue.{
  Header, response_of, set_headers, set_headers-response_of,
}
use telegram_socks_ws_proxy.Ws.Types.{handshake}
use telegram_socks_ws_proxy.Ws.Handshake.{
  WsHandshakeResponse, default_response, status_of, parse_status, set_header, parse_header,
  header_line, is_last_line, parse_lines, parse_handshake_response,
}
use telegram_socks_ws_proxy.Ws.Handshake.Exchange.{line}

abbrev pub header_text : Header → Str
header_text (name, value) = name ++ (b':' ∷ b' ' ∷ value)

abbrev pub header_lines : List Header → Str
header_lines [] = line [] []
header_lines (h ∷ hs) = line (header_text h) (header_lines hs)

abbrev pub response_text : ℕ → Str → List Header → Str
response_text status reason headers =
    line (codes "HTTP/1.1 " ++ (to_string status ++ (b' ' ∷ reason))) (header_lines headers)

-- ASCII, and no end of a line.
abbrev pub IsInLine : ℕ → Type 0
IsInLine c = (c < 0x80) × ((c == 10) ≡ false) × ((c == 13) ≡ false)

abbrev pub IsHeaderLine : Header → Type 0
IsHeaderLine (name, value) =
    All IsInLine name
    × All (λ c. (c == b':') ≡ false) name
    × All IsInLine value
    × (trim value ≡ value)

split_by-line :
    (s rest : Str)
    → All IsInLine s
    → split_by (λ b. b == 10) (line s rest) ≡ (s ++ (13 ∷ [])) ∷ split_by (λ b. b == 10) rest
unfolding split_by
split_by-line [] rest h = refl
split_by-line (c ∷ s) rest (one, h) = rw (one.1, split_by-line s rest h) refl

trim_end_matches-end : (s : Str) → All IsInLine s → trim_end_matches 13 (s ++ (13 ∷ [])) ≡ s
unfolding trim_end_matches
trim_end_matches-end [] h = refl
trim_end_matches-end (c ∷ []) (one, h) = rw one.2
trim_end_matches-end (c ∷ d ∷ s) (one, h) = rw (trim_end_matches-end (d ∷ s) h)

ascii-end : (s : Str) → All IsInLine s → All (λ b. b < 0x80) (s ++ (13 ∷ []))
ascii-end [] h = omega arith
ascii-end (c ∷ s) (one, h) = (one.0, ascii-end s h)

trim-space : (s : Str) → trim (b' ' ∷ s) ≡ trim s
unfolding trim trim_start is_whitespace
trim-space s = refl

pub header_text-IsInLine : (h : Header) → IsHeaderLine h → All IsInLine (header_text h)
header_text-IsInLine (name, value) (n, colon, v, trimmed) =
    All-append IsInLine name (b':' ∷ b' ' ∷ value) n
      ((omega arith, refl, refl), ((omega arith, refl, refl), v))

header_line-text :
    (name value : Str)
    → IsHeaderLine (name, value)
    → header_line (header_text (name, value) ++ (13 ∷ [])) ≡ some (name, b' ' ∷ value)
unfolding header_line
header_line-text name value (n, colon, v, trimmed) =
    let inside = header_text-IsInLine (name, value) (n, colon, v, trimmed) in
    rw
      (
        from_utf8_ascii (header_text (name, value) ++ (13 ∷ [])) (ascii-end _ inside),
        trim_end_matches-end (header_text (name, value)) inside,
      )
      (split_once-append b':' name (b' ' ∷ value) colon)

not_last : (name value : Str) → is_last_line (header_text (name, value) ++ (13 ∷ [])) ≡ false
not_last [] value = refl
not_last (c ∷ []) value = refl
not_last (c ∷ d ∷ name) value = refl

parse_lines-header_lines :
    (headers : List Header) (response : WsHandshakeResponse)
    → All IsHeaderLine headers
    → parse_lines (split_by (λ b. b == 10) (header_lines headers)) response
      ≡ inr (set_headers response headers)
unfolding parse_lines split_by parse_header
parse_lines-header_lines [] response h = refl
parse_lines-header_lines ((name, value) ∷ headers) response (one, h) =
    rw
      (
        split_by-line (header_text (name, value)) (header_lines headers)
            (header_text-IsInLine (name, value) one),
        not_last name value,
        header_line-text name value one,
        trim-space value,
        one.3,
      )
      (parse_lines-header_lines headers (set_header response name value) h)

split_by-word :
    (s t : Str)
    → All (λ c. is_whitespace c ≡ false) s
    → split_by is_whitespace (s ++ (b' ' ∷ t)) ≡ s ∷ split_by is_whitespace t
unfolding split_by is_whitespace
split_by-word [] t h = refl
split_by-word (c ∷ s) t (one, h) = rw (one, split_by-word s t h)

digit-IsInLine : (c : ℕ) → IsDigit c → IsInLine c × (is_whitespace c ≡ false)
unfolding is_whitespace
digit-IsInLine c (lo, hi) = ((omega arith, ground arith, ground arith), ground arith)

digits-IsInLine : (s : Str) → All IsDigit s → All IsInLine s
digits-IsInLine [] h = tt
digits-IsInLine (c ∷ s) (one, h) = ((digit-IsInLine c one).0, digits-IsInLine s h)

digits-no_space : (s : Str) → All IsDigit s → All (λ c. is_whitespace c ≡ false) s
digits-no_space [] h = tt
digits-no_space (c ∷ s) (one, h) = ((digit-IsInLine c one).1, digits-no_space s h)

abbrev pub status_line : ℕ → Str → Str
status_line status reason = codes "HTTP/1.1 " ++ (to_string status ++ (b' ' ∷ reason))

pub status_line-IsInLine :
    (status : ℕ) (reason : Str) → All IsInLine reason → All IsInLine (status_line status reason)
status_line-IsInLine status reason h =
    All-append IsInLine (codes "HTTP/1.1 ") (to_string status ++ (b' ' ∷ reason)) (ground arith) (
      All-append IsInLine (to_string status) (b' ' ∷ reason)
        (digits-IsInLine (to_string status) (to_string-IsDigit status))
        ((omega arith, refl, refl), h))

not_empty-digits :
    (status : ℕ) (words : List Str)
    → not_empty (to_string status ∷ words) ≡ to_string status ∷ not_empty words
not_empty-digits status words = let (c, s, text, digits) = to_string-digits status in rw text refl

split_whitespace-status_line :
    (status : ℕ) (reason : Str)
    → split_whitespace (codes "HTTP/1.1 " ++ (to_string status ++ (b' ' ∷ reason)))
      ≡ codes "HTTP/1.1" ∷ to_string status ∷ split_whitespace reason
unfolding split_whitespace split_by is_whitespace
split_whitespace-status_line status reason =
    ap (λ words. not_empty (codes "HTTP/1.1" ∷ words))
      (split_by-word (to_string status) reason
        (digits-no_space (to_string status) (to_string-IsDigit status)))
    ∙ ap (λ words. codes "HTTP/1.1" ∷ words)
        (not_empty-digits status (split_by is_whitespace reason))

status_of-words :
    (version text : Str) (words : List Str) {status : ℕ}
    → parse_u16 text ≡ some status
    → status_of (version ∷ text ∷ words) ≡ inr status
unfolding status_of
status_of-words version text words parsed =
    ap (λ o. elim o [ some n ↦ inr n | none ↦ inl (handshake (codes "bad status")) ]) parsed

parse_status-status_line :
    (status : ℕ) (reason : Str)
    → status < 65536
    → All IsInLine reason
    → parse_status (status_line status reason ++ (13 ∷ [])) ≡ inr status
unfolding parse_status
parse_status-status_line status reason small h =
    ap (λ text. status_of (split_whitespace text))
      (from_utf8_lossy_ascii (status_line status reason ++ (13 ∷ []))
          (ascii-end (status_line status reason) (status_line-IsInLine status reason h))
        ∙ ap (λ s. codes "HTTP/1.1 " ++ s)
            (append_assoc (to_string status) (b' ' ∷ reason) (13 ∷ [])))
    ∙ ap status_of (split_whitespace-status_line status (reason ++ (13 ∷ [])))
    ∙ status_of-words (codes "HTTP/1.1") (to_string status) (split_whitespace (reason ++ (13 ∷ [])))
        (parse_u16-to_string status small)

-- A response comes back from its text, if its status is below 65536, its reason, names and values
-- are ASCII with no end of a line, the names have no colon, and the values no white space around
-- them: with that status, and with the values of the last headers that are named Location, Upgrade,
-- Connection, Sec-WebSocket-Accept and Sec-WebSocket-Protocol, in any case of their letters.
pub parse_handshake_response-response_text :
    (status : ℕ) (reason : Str) (headers : List Header)
    → status < 65536
    → All IsInLine reason
    → All IsHeaderLine headers
    → parse_handshake_response (response_text status reason headers)
      ≡ inr (response_of status headers)
unfolding parse_handshake_response
parse_handshake_response-response_text status reason headers small plain known =
    rw
      (
        split_by-line (status_line status reason) (header_lines headers)
            (status_line-IsInLine status reason plain),
        parse_status-status_line status reason small plain,
      )
      (parse_lines-header_lines headers (default_response status) known
        ∙ ap inr (set_headers-response_of status headers))
