-- ===== src/Ws/Handshake/Exchange.antt =====
-- src/modules/ws.rs: the checks of a response, the request, and the handshake as a whole.
use telegram_socks_ws_proxy.Base.{
  ℕ, ◌==◌, ltb, leb, if◌then◌else◌, ◌&&◌, Option, none, some, List, [], ◌++◌, ◌⊎◌, inl, inr,
}
use telegram_socks_ws_proxy.Base.Utf8.{Str, codes}
use telegram_socks_ws_proxy.Base.Text.{eq_str, eq_ignore_ascii_case}
use telegram_socks_ws_proxy.Base.Stream.{
  Stream, IoError, Io, Outcome, ok, err, pending, panicked, ◌>>=◌, ◌>>◌, write_all, flush,
  getrandom,
}
use telegram_socks_ws_proxy.Ws.Types.{WsError, handshake, http_status, io, tls, timeout}
use telegram_socks_ws_proxy.Ws.Handshake.{
  WsHandshake, WsHandshakeRequest, WsHandshakeResponse, crlf, from_result, bind_result,
  read_handshake_headers, parse_handshake_response, has_header_token,
}

-- The four matches of `validate_handshake_response`.
unfoldable pub check_upgrade : Option Str → WsError ⊎ Unit {0}
unfolding eq_ignore_ascii_case
check_upgrade none = inl (handshake (codes "missing_upgrade"))
check_upgrade (some value) =
    if eq_ignore_ascii_case value (codes "websocket")
    then inr tt
    else inl (handshake (codes "missing_upgrade"))

unfoldable pub check_connection : Option Str → WsError ⊎ Unit {0}
unfolding has_header_token
check_connection none = inl (handshake (codes "missing_connection_upgrade"))
check_connection (some value) =
    if has_header_token value (codes "upgrade")
    then inr tt
    else inl (handshake (codes "missing_connection_upgrade"))

unfoldable pub check_accept : Option Str → Str → WsError ⊎ Unit {0}
unfolding eq_str
check_accept none expected_accept = inl (handshake (codes "missing_ws_accept"))
check_accept (some value) expected_accept =
    if eq_str value expected_accept then inr tt else inl (handshake (codes "invalid_ws_accept"))

unfoldable pub check_protocol : Option Str → WsError ⊎ Unit {0}
unfolding eq_str
check_protocol none = inl (handshake (codes "missing_ws_protocol"))
check_protocol (some value) =
    if eq_str value (codes "binary")
    then inr tt
    else inl (handshake (codes "unexpected_ws_protocol"))

unfoldable pub validate_handshake_response : WsHandshakeResponse → Str → WsError ⊎ Unit {0}
unfolding check_upgrade check_connection check_accept check_protocol
validate_handshake_response response expected_accept =
    bind_result (check_upgrade response.upgrade) (λ u.
      bind_result (check_connection response.connection) (λ u.
        bind_result (check_accept response.accept expected_accept)
          (λ u. check_protocol response.protocol)))

abbrev pub ws_guid : Str
ws_guid = codes "258EAFA5-E914-47DA-95CA-C5AB0DC85B11"

abbrev pub line : Str → Str → Str
line text rest = text ++ (crlf ++ rest)

-- The Base64 encoding, the SHA-1 digest, and the text of an error of `getrandom`.
module _ (encode : List ℕ → Str) (sha1 : List ℕ → List ℕ) (random_error : Str) where
  unfoldable pub websocket_key : Option (List ℕ) → WsError ⊎ Str
  websocket_key none = inl (handshake (codes "ws key generation failed: " ++ random_error))
  websocket_key (some key) = inr (encode key)

  unfoldable pub websocket_accept : Str → Str
  websocket_accept key = encode (sha1 (key ++ ws_guid))

  unfoldable pub build_handshake_request_with_key : Str → Str → WsHandshakeRequest
  unfolding websocket_accept
  build_handshake_request_with_key domain key = record {
    payload = line (codes "GET /apiws HTTP/1.1") (
        line (codes "Host: " ++ domain) (
          line (codes "Upgrade: websocket") (
            line (codes "Connection: Upgrade") (
              line (codes "Cache-Control: no-cache") (
                line (codes "Pragma: no-cache") (
                  line (codes "Sec-WebSocket-Key: " ++ key) (
                    line (codes "Sec-WebSocket-Version: 13") (
                      line (codes "Sec-WebSocket-Protocol: binary") (
                        line (codes "Origin: https://web.telegram.org") (
                          line (codes "Accept-Encoding: gzip, deflate, br, zstd") (
                            line
                              (codes
                                "User-Agent: Mozilla/5.0 (X11; Linux x86_64) AppleWebKit/537.36 (KHTML, like Gecko) Chrome/145.0.0.0 Safari/537.36")
                              (line
                                (codes
                                  "Sec-WebSocket-Extensions: permessage-deflate; client_max_window_bits")
                                (line [] [])))))))))))));
    expected_accept = websocket_accept key;
  }

  unfoldable pub build_handshake_request : Str → Option (List ℕ) → WsError ⊎ WsHandshakeRequest
  unfolding websocket_key build_handshake_request_with_key
  build_handshake_request domain random =
      bind_result (websocket_key random) (λ key. inr (build_handshake_request_with_key domain key))

  abbrev pub handshake_of : WsHandshakeResponse → WsHandshake
  handshake_of response = record {
    status = response.status;
    redirected = leb 301 response.status && ltb response.status 400;
    location = response.location;
  }

  unfoldable pub check_response : Str → WsHandshakeResponse → WsError ⊎ WsHandshake
  unfolding validate_handshake_response
  check_response expected_accept response =
      if response.status == 101
      then bind_result (validate_handshake_response response expected_accept)
          (λ u. inr (handshake_of response))
      else inr (handshake_of response)

  unfoldable pub exchange : WsHandshakeRequest → Io WsError WsHandshake
  unfolding read_handshake_headers parse_handshake_response check_response
  exchange request = do
    write_all io request.payload
    flush io
    header ← read_handshake_headers
    response ← from_result (parse_handshake_response header)
    from_result (check_response request.expected_accept response)

  unfoldable pub perform_handshake : Str → Io WsError WsHandshake
  unfolding build_handshake_request exchange
  perform_handshake domain = do
    random ← getrandom
    request ← from_result (build_handshake_request domain random)
    exchange request

  -- `RawWsClient::connect` with the result of `connect_raw`; a client is its connection.
  unfoldable pub upgraded : Outcome WsError WsHandshake × Stream → Outcome WsError Stream
  upgraded (ok hs, s) = if hs.status == 101 then ok s else err (http_status hs.status hs.location)
  upgraded (err e, s) = err e
  upgraded (pending, s) = pending
  upgraded (panicked, s) = panicked

  unfoldable pub connect : Outcome WsError Stream → Str → Outcome WsError Stream
  unfolding perform_handshake upgraded
  connect (ok s) domain = upgraded (perform_handshake domain s)
  connect (err e) domain = err e
  connect pending domain = pending
  connect panicked domain = panicked

  -- The function `handshake`, with the result of `connect_raw`; its connection is dropped.
  unfoldable pub handshake_over : Outcome WsError Stream → Str → Outcome WsError WsHandshake
  unfolding perform_handshake
  handshake_over (ok s) domain = (perform_handshake domain s).0
  handshake_over (err e) domain = err e
  handshake_over pending domain = pending
  handshake_over panicked domain = panicked

-- What `timeout` makes of a call: `none` when the time is up.
abbrev pub Timed {ℓ κ} : Type ℓ → Type κ → Type (ℓ ⊔ κ)
Timed E A = Option (E ⊎ A)

-- `connect_raw`: the opening of a TCP connection, the check of a server name and the TLS handshake are parameters.
module _ {Name : Type 0} (tcp_connect : Str → ℕ → Timed IoError Stream)
    (server_name : Str → Str ⊎ Name) (tls_connect : Name → Stream → Timed Str Stream) where
  abbrev pub after_tls : Timed Str Stream → Outcome WsError Stream
  after_tls none = err timeout
  after_tls (some (inl e)) = err (tls e)
  after_tls (some (inr stream)) = ok stream

  abbrev pub after_name : Stream → Str ⊎ Name → Outcome WsError Stream
  after_name tcp (inl e) = err (tls (codes "invalid server name: " ++ e))
  after_name tcp (inr name) = after_tls (tls_connect name tcp)

  abbrev pub after_tcp : Str → Timed IoError Stream → Outcome WsError Stream
  after_tcp domain none = err timeout
  after_tcp domain (some (inl e)) = err (io e)
  after_tcp domain (some (inr tcp)) = after_name tcp (server_name domain)

  unfoldable pub connect_raw : Str → Outcome WsError Stream
  connect_raw domain = after_tcp domain (tcp_connect domain 443)
