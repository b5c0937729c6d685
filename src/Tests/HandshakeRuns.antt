-- ===== src/Tests/HandshakeRuns.antt =====
-- An opening handshake of src/modules/ws.rs, and its theorems at concrete inputs.
use telegram_socks_ws_proxy.Base.{
  ℕ, ◌≡◌, refl, arith, true, false, take, none, some, List, [], ◌∷◌, ◌++◌, inr, All, length, ◌≤◌,
}
use telegram_socks_ws_proxy.Base.Utf8.{Str, codes}
use telegram_socks_ws_proxy.Base.Text.{trim, eq_str, ends_with, is_whitespace, eq_ignore_ascii_case}
use telegram_socks_ws_proxy.Base.Stream.{Stream, closed, ok}
use telegram_socks_ws_proxy.Ws.Handshake.{
  WsHandshakeResponse, is_complete, parse_handshake_response, has_header_token, set_header,
  max_handshake_header_size,
}
use telegram_socks_ws_proxy.Ws.Handshake.Exchange.{
  line, websocket_accept, build_handshake_request_with_key, connect,
}
use telegram_socks_ws_proxy.Ws.Handshake.Headers.{is_open}
use telegram_socks_ws_proxy.Ws.Handshake.Checks.{IsValid}
use telegram_socks_ws_proxy.Ws.Handshake.RoundTrip.{
  response_text, IsInLine, IsHeaderLine, parse_handshake_response-response_text,
}
use telegram_socks_ws_proxy.Ws.Handshake.LastValue.{Header, response_of}
use telegram_socks_ws_proxy.Ws.Handshake.Answered.{connect-response_text}
use telegram_socks_ws_proxy.Base.Decimal.{to_string}

-- Stand-ins for Base64 and SHA-1.
abbrev encode : List ℕ → Str
encode bytes = bytes

abbrev sha1 : List ℕ → List ℕ
sha1 bytes = take 3 bytes

abbrev header : List ℕ
header = line (codes "HTTP/1.1 101 Switching Protocols") (
    line (codes "Upgrade: WebSocket") (
      line (codes "Connection: keep-alive, Upgrade") (
        line (codes "Sec-WebSocket-Accept: key")
          (line (codes "Sec-WebSocket-Protocol: binary") (line [] [])))))

abbrev response : WsHandshakeResponse
response = record {
  status = 101;
  location = none;
  upgrade = some (codes "WebSocket");
  connection = some (codes "keep-alive, Upgrade");
  accept = some (codes "key");
  protocol = some (codes "binary");
}

header_open : is_open [] header ≡ true
unfolding is_open is_complete ends_with eq_str
header_open = refl

header_complete : is_complete header ≡ true
unfolding is_complete ends_with eq_str
header_complete = refl

header_parsed : parse_handshake_response header ≡ inr response
unfolding parse_handshake_response
header_parsed = refl

abbrev domain : Str
domain = codes "kws2.web.telegram.org"

abbrev key : List ℕ
key = codes "key"

abbrev server : Stream
server = record {
  incoming = header ++ (0x8A ∷ 0x00 ∷ []);
  ending = closed;
  sent = [];
  writes = 4;
  shut = false;
  entropy = some key ∷ [];
}

abbrev opened : Stream
opened = record {
  incoming = 0x8A ∷ 0x00 ∷ [];
  ending = closed;
  sent = (build_handshake_request_with_key encode sha1 [] domain key).payload;
  writes = 2;
  shut = false;
  entropy = [];
}

response-IsValid : IsValid response (websocket_accept encode sha1 [] key)
unfolding eq_ignore_ascii_case has_header_token websocket_accept is_whitespace
response-IsValid =
    (codes "WebSocket", codes "keep-alive, Upgrade", refl, refl, refl, refl, refl, refl)

abbrev reason : Str
reason = codes "Switching Protocols"

abbrev headers : List Header
headers =
    (codes "Upgrade", codes "WebSocket")
    ∷ (codes "Server", codes "nginx")
    ∷ (codes "CONNECTION", codes "close")
    ∷ (codes "Connection", codes "keep-alive, Upgrade")
    ∷ (codes "Sec-WebSocket-Accept", codes "key")
    ∷ (codes "Sec-WebSocket-Protocol", codes "binary")
    ∷ []

reason-plain : All IsInLine reason
reason-plain = ground arith

headers-known : All IsHeaderLine headers
unfolding trim is_whitespace
headers-known = ground arith

parse_handshake_response-response_text_example :
    parse_handshake_response (response_text 101 reason headers) ≡ inr (response_of 101 headers)
parse_handshake_response-response_text_example =
    parse_handshake_response-response_text 101 reason headers (omega arith) reason-plain
      headers-known

headers-IsValid : IsValid (response_of 101 headers) (websocket_accept encode sha1 [] key)
unfolding eq_ignore_ascii_case has_header_token websocket_accept is_whitespace set_header
headers-IsValid =
    (codes "WebSocket", codes "keep-alive, Upgrade", refl, refl, refl, refl, refl, refl)

text_size : length (response_text 101 reason headers) ≤ max_handshake_header_size
unfolding to_string
text_size = omega arith

connect-response_text_example :
    connect encode sha1 []
      (ok (record server { incoming = response_text 101 reason headers ++ (0x8A ∷ 0x00 ∷ []) }))
      domain
    ≡ ok opened
connect-response_text_example =
    connect-response_text encode sha1 [] domain 2 (record server { incoming = []; entropy = [] })
      key [] reason headers (0x8A ∷ 0x00 ∷ []) reason-plain headers-known text_size headers-IsValid
