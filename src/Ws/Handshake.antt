-- ===== src/Ws/Handshake.antt =====
-- src/modules/ws.rs: the opening handshake. The connection of TCP and TLS, SHA-1 and Base64 are parameters; a text
-- that is written to the connection stands for its bytes in UTF-8.
pub mod Headers
pub mod Exchange
pub mod Checks
pub mod Connect
pub mod LastValue
pub mod RoundTrip
pub mod Answered
pub mod Blank
use telegram_socks_ws_proxy.Base.{
  ℕ, zero, suc, ◌==◌, ltb, leb, if◌then◌else◌, Bool, true, false, ◌&&◌, Option, none, some, List,
  [], ◌∷◌, ◌++◌, length, ◌⊎◌, inl, inr,
}
use telegram_socks_ws_proxy.Base.Utf8.{Str, codes, from_utf8, from_utf8_lossy}
use telegram_socks_ws_proxy.Base.Text.{
  trim, split_once, split_by, split_whitespace, trim_end_matches, eq_str, eq_ignore_ascii_case,
  ends_with, any,
}
use telegram_socks_ws_proxy.Base.Decimal.{parse_u16}
use telegram_socks_ws_proxy.Base.Stream.{
  Stream, Io, Outcome, ok, err, pending, panicked, ◌>>=◌, ◌>>◌, return, fail, read, write_all,
  flush, getrandom,
}
use telegram_socks_ws_proxy.Ws.Types.{WsError, handshake, http_status, io}
use mathlib.Core.List
use mathlib.Core.Option

pub record WsHandshake : Type 0 where
  pub status : ℕ
  pub redirected : Bool
  pub location : Option Str

pub record WsHandshakeRequest : Type 0 where
  pub payload : Str
  pub expected_accept : Str

pub record WsHandshakeResponse : Type 0 where
  pub status : ℕ
  pub location : Option Str
  pub upgrade : Option Str
  pub connection : Option Str
  pub accept : Option Str
  pub protocol : Option Str

abbrev pub max_handshake_header_size : ℕ
max_handshake_header_size = 8192

abbrev pub crlf : Str
crlf = 13 ∷ 10 ∷ []

abbrev pub two_crlf : Str
two_crlf = 13 ∷ 10 ∷ 13 ∷ 10 ∷ []

-- What `?` does with the result of a plain function.
abbrev pub from_result {ℓ} : {A : Type ℓ} → WsError ⊎ A → Io WsError A
from_result (inl e) = fail e
from_result (inr a) = return a

abbrev pub bind_result {ℓ κ} :
    {A : Type ℓ} {B : Type κ} → WsError ⊎ A → (A → WsError ⊎ B) → WsError ⊎ B
bind_result (inl e) f = inl e
bind_result (inr a) f = f a

-- The body of the loop over the bytes, and its two tests.
unfoldable pub is_complete : List ℕ → Bool
unfolding ends_with
is_complete header =
    let len = length header in
    leb 2 len && (ends_with crlf header && leb 4 len && ends_with two_crlf header)

unfoldable pub push_byte : (List ℕ → Io WsError (List ℕ)) → List ℕ → List ℕ → Io WsError (List ℕ)
unfolding is_complete
push_byte again header [] = fail (handshake (codes "connection closed"))
push_byte again header (b ∷ bs) =
    let header' = header ++ (b ∷ []) in
    if is_complete header' then return header' else again header'

-- The loop, with the room that is left in the header.
unfoldable pub header_loop : ℕ → List ℕ → Io WsError (List ℕ)
unfolding push_byte
header_loop zero header = return header
header_loop (suc room) header = read io 1 >>= push_byte (header_loop room) header

unfoldable pub check_size : List ℕ → Io WsError (List ℕ)
unfolding ends_with
check_size header =
    if ends_with two_crlf header
    then return header
    else fail (handshake (codes "oversized_handshake_headers"))

unfoldable pub read_handshake_headers : Io WsError (List ℕ)
read_handshake_headers = header_loop max_handshake_header_size [] >>= check_size

unfoldable pub status_of : List Str → WsError ⊎ ℕ
unfolding parse_u16
status_of [] = inl (handshake (codes "bad response"))
status_of (version ∷ []) = inl (handshake (codes "bad response"))
status_of (version ∷ status ∷ parts) = elim (parse_u16 status) [
  | some n ↦ inr n
  | none ↦ inl (handshake (codes "bad status"))
]

unfoldable pub parse_status : List ℕ → WsError ⊎ ℕ
unfolding status_of split_whitespace from_utf8_lossy
parse_status line = status_of (split_whitespace (from_utf8_lossy line))

abbrev pub first_line : List (List ℕ) → List ℕ
first_line [] = []
first_line (line ∷ lines) = line

abbrev pub later_lines : List (List ℕ) → List (List ℕ)
later_lines [] = []
later_lines (line ∷ lines) = lines

unfoldable pub set_header : WsHandshakeResponse → Str → Str → WsHandshakeResponse
unfolding eq_ignore_ascii_case
set_header response name value =
    if eq_ignore_ascii_case name (codes "location")
    then record response { location = some value }
    else if eq_ignore_ascii_case name (codes "upgrade")
    then record response { upgrade = some value }
    else if eq_ignore_ascii_case name (codes "connection")
    then record response { connection = some value }
    else if eq_ignore_ascii_case name (codes "sec-websocket-accept")
    then record response { accept = some value }
    else if eq_ignore_ascii_case name (codes "sec-websocket-protocol")
    then record response { protocol = some value }
    else response

unfoldable pub parse_header :
    WsHandshakeResponse → Option (Str × Str) → WsError ⊎ WsHandshakeResponse
unfolding set_header trim
parse_header response none = inl (handshake (codes "malformed_handshake_header"))
parse_header response (some (name, value)) = inr (set_header response name (trim value))

abbrev pub is_last_line : List ℕ → Bool
is_last_line [] = true
is_last_line (b ∷ []) = b == 13
is_last_line (b ∷ c ∷ line) = false

unfoldable pub header_line : List ℕ → Option (Str × Str)
unfolding from_utf8 split_once trim_end_matches
header_line line = split_once b':' (trim_end_matches 13 (Option.get_or (from_utf8 line) []))

unfoldable pub parse_lines : List (List ℕ) → WsHandshakeResponse → WsError ⊎ WsHandshakeResponse
unfolding parse_header header_line
parse_lines [] response = inr response
parse_lines (line ∷ lines) response =
    if is_last_line line
    then inr response
    else bind_result (parse_header response (header_line line)) (parse_lines lines)

abbrev pub default_response : ℕ → WsHandshakeResponse
default_response status = record {
  status = status;
  location = none;
  upgrade = none;
  connection = none;
  accept = none;
  protocol = none;
}

unfoldable pub parse_handshake_response : List ℕ → WsError ⊎ WsHandshakeResponse
unfolding parse_status parse_lines split_by
parse_handshake_response header =
    let lines = split_by (λ b. b == 10) header in
    bind_result (parse_status (first_line lines))
      (λ status. parse_lines (later_lines lines) (default_response status))

unfoldable pub has_header_token : Str → Str → Bool
unfolding any trim split_by eq_ignore_ascii_case
has_header_token value token =
    any (λ part. eq_ignore_ascii_case (trim part) token) (split_by (λ c. c == b',') value)
