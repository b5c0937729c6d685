-- ===== src/Ws/Handshake/Answered.antt =====
-- A server that answers the opening handshake of src/modules/ws.rs with a response in its usual form.
use telegram_socks_ws_proxy.Ws.Handshake.Blank.{response_text-open, response_text_complete}
use telegram_socks_ws_proxy.Base.{
  ℕ, suc, ◌≤◌, ◌≡◌, refl, arith, Option, some, List, ◌∷◌, ◌++◌, length, All,
}
use telegram_socks_ws_proxy.Base.Utf8.{Str}
use telegram_socks_ws_proxy.Base.Stream.{Stream, ok}
use telegram_socks_ws_proxy.Ws.Handshake.{max_handshake_header_size}
use telegram_socks_ws_proxy.Ws.Handshake.Exchange.{
  websocket_accept, build_handshake_request_with_key, connect,
}
use telegram_socks_ws_proxy.Ws.Handshake.Checks.{IsValid}
use telegram_socks_ws_proxy.Ws.Handshake.Connect.{connect-answered}
use telegram_socks_ws_proxy.Ws.Handshake.RoundTrip.{
  response_text, IsInLine, IsHeaderLine, parse_handshake_response-response_text,
}
use telegram_socks_ws_proxy.Ws.Handshake.LastValue.{Header, response_of}

module _ (encode : List ℕ → Str) (sha1 : List ℕ → List ℕ) (random_error : Str) where
  -- If getrandom and both writes go through, a client connects to a server whose answer is the text of a response of
  -- at most 8192 bytes with the status 101, whose lines are ASCII, and whose headers, each with its last value, are
  -- the four that belong to the key; what the server sends behind it is still to be read.
  pub connect-response_text :
      (domain : Str) (w : ℕ) (s : Stream) (key : List ℕ) (keys : List (Option (List ℕ)))
      (reason : Str) (headers : List Header) (rest : List ℕ)
      → All IsInLine reason
      → All IsHeaderLine headers
      → length (response_text 101 reason headers) ≤ max_handshake_header_size
      → IsValid (response_of 101 headers) (websocket_accept encode sha1 random_error (encode key))
      → connect encode sha1 random_error
          (ok (record s {
            incoming = response_text 101 reason headers ++ rest;
            writes = suc (suc w);
            entropy = some key ∷ keys;
          }))
          domain
        ≡ ok (record s {
          incoming = rest;
          sent =
              s.sent
              ++ (build_handshake_request_with_key encode sha1 random_error domain
                  (encode key)).payload;
          writes = w;
          entropy = keys;
        })
  connect-response_text domain w s key keys reason headers rest plain known size valid =
      connect-answered encode sha1 random_error domain w s key keys
        (response_text 101 reason headers) rest (response_of 101 headers)
        (response_text-open 101 reason headers plain known)
        (response_text_complete 101 reason headers) size
        (parse_handshake_response-response_text 101 reason headers (omega arith) plain known) refl
        valid
