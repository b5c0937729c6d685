-- ===== src/Ws/Handshake/Connect.antt =====
-- `RawWsClient::connect`: what it has checked of a server, and that it connects to one that answers as it should.
use telegram_socks_ws_proxy.Base.{
  ℕ, suc, ◌≤◌, ◌≡◌, refl, true, Option, some, List, [], ◌∷◌, ◌++◌, length, inr,
}
use telegram_socks_ws_proxy.Base.Utf8.{Str}
use telegram_socks_ws_proxy.Base.Stream.{Stream, ok, write_all, flush, getrandom, next_key}
use telegram_socks_ws_proxy.Ws.Handshake.{
  WsHandshake, WsHandshakeRequest, WsHandshakeResponse, max_handshake_header_size, is_complete,
  parse_handshake_response,
}
use telegram_socks_ws_proxy.Ws.Handshake.Exchange.{
  websocket_key, websocket_accept, build_handshake_request_with_key, build_handshake_request,
  handshake_of, check_response, exchange, perform_handshake, upgraded, connect,
}
use telegram_socks_ws_proxy.Ws.Handshake.Checks.{IsValid, validate_handshake_response-inr}
use telegram_socks_ws_proxy.Ws.Handshake.Headers.{is_open, read_handshake_headers-front}

module _ (encode : List ℕ → Str) (sha1 : List ℕ → List ℕ) (random_error : Str) where
  -- What a client that is connected has sent and seen; the rest of what the server sends is still to be read.
  abbrev pub Connected : Str → Stream → Stream → Type 0
  Connected domain s s' =
      (key header : List ℕ) × (response : WsHandshakeResponse) × (next_key s.entropy ≡ some key)
      × (s'.sent
          ≡ s.sent
            ++ (build_handshake_request_with_key encode sha1 random_error domain
                (encode key)).payload)
      × (s.incoming ≡ header ++ s'.incoming)
      × (length header ≤ max_handshake_header_size)
      × (parse_handshake_response header ≡ inr response)
      × (response.status ≡ 101)
      × IsValid response (websocket_accept encode sha1 random_error (encode key))

  -- A server whose answer passes is connected to, and what it sends behind the answer is kept.
  exchange-answered :
      (w : ℕ) (request : WsHandshakeRequest) (s : Stream) (header rest : List ℕ)
      (response : WsHandshakeResponse) (hs : WsHandshake)
      → is_open [] header ≡ true
      → is_complete header ≡ true
      → length header ≤ max_handshake_header_size
      → parse_handshake_response header ≡ inr response
      → check_response encode sha1 random_error request.expected_accept response ≡ inr hs
      → exchange encode sha1 random_error request
          (record s { incoming = header ++ rest; writes = suc (suc w) })
        ≡ (ok hs, record s { incoming = rest; sent = s.sent ++ request.payload; writes = w })
  unfolding exchange write_all flush
  exchange-answered w request s header rest response hs below full size parsed checked =
      rw
        (
          read_handshake_headers-front header rest
              (record s { sent = s.sent ++ request.payload; writes = w }) below full size,
          parsed,
          checked,
        )
        refl

  -- If getrandom and both writes go through, a client connects to a server whose answer, up to its first blank
  -- line, has at most 8192 bytes and is read as a response with the status 101 and the four headers that belong
  -- to the key; what the server sends behind it is still to be read.
  pub connect-answered :
      (domain : Str) (w : ℕ) (s : Stream) (key : List ℕ) (keys : List (Option (List ℕ)))
      (header rest : List ℕ) (response : WsHandshakeResponse)
      → is_open [] header ≡ true
      → is_complete header ≡ true
      → length header ≤ max_handshake_header_size
      → parse_handshake_response header ≡ inr response
      → response.status ≡ 101
      → IsValid response (websocket_accept encode sha1 random_error (encode key))
      → connect encode sha1 random_error
          (ok (record s {
            incoming = header ++ rest;
            writes = suc (suc w);
            entropy = some key ∷ keys;
          }))
          domain
        ≡ ok (record s {
          incoming = rest;
          sent =
              s.sent
              ++ (build_handshake_request_with_key encode sha1 random_error domain
                  (encode key)).payload;
          writes = w;
          entropy = keys;
        })
  unfolding connect perform_handshake getrandom build_handshake_request
      build_handshake_request_with_key websocket_key upgraded check_response
  connect-answered domain w s key keys header rest response below full size parsed status valid =
      let request = build_handshake_request_with_key encode sha1 random_error domain (encode key) in
      let accept = websocket_accept encode sha1 random_error (encode key) in
      let hs = handshake_of encode sha1 random_error response in
      let checked : check_response encode sha1 random_error accept response ≡ inr hs =
        rw (status, validate_handshake_response-inr response accept valid) refl in
      rw
        (
          exchange-answered w request (record s { entropy = keys }) header rest response hs below
              full size parsed checked,
          status,
        )
        refl
