-- ===== src/Ws/Handshake/LastValue.antt =====
-- What the headers of a response leave in the record of src/modules/ws.rs: of each name its last value.
use telegram_socks_ws_proxy.Base.{
  ℕ, ◌≡◌, refl, ap, ◌∙◌, arith, Bool, Bool-cases, true, false, if◌then◌else◌, map, Option, none,
  some, List, [], ◌∷◌, inl, inr,
}
use telegram_socks_ws_proxy.Base.Utf8.{Str, codes}
use telegram_socks_ws_proxy.Base.Text.{eq_str, eq_str→≡, eq_ignore_ascii_case, to_ascii_lowercase}
use telegram_socks_ws_proxy.Ws.Handshake.{WsHandshakeResponse, default_response, set_header}

-- A name and its value.
abbrev pub Header : Type 0
Header = Str × Str

-- The value of the last header of a name, which is given in lower case.
abbrev pub last_value : Str → List Header → Option Str
last_value key [] = none
last_value key ((name, value) ∷ headers) = elim (last_value key headers) [
  | some last ↦ some last
  | none ↦ if eq_ignore_ascii_case name key then some value else none
]

-- The response that has this status and these headers.
abbrev pub response_of : ℕ → List Header → WsHandshakeResponse
response_of status headers = record {
  status = status;
  location = last_value (codes "location") headers;
  upgrade = last_value (codes "upgrade") headers;
  connection = last_value (codes "connection") headers;
  accept = last_value (codes "sec-websocket-accept") headers;
  protocol = last_value (codes "sec-websocket-protocol") headers;
}

abbrev pub set_headers : WsHandshakeResponse → List Header → WsHandshakeResponse
set_headers response [] = response
set_headers response ((name, value) ∷ headers) =
    set_headers (set_header response name value) headers

-- The value of a field that had `before`, and then the headers.
abbrev over : Option Str → Option Str → Option Str
over (some last) before = some last
over none before = before

-- A name stands for one field at most.
other_name :
    (name key other : Str)
    → map to_ascii_lowercase key ≡ key
    → eq_ignore_ascii_case name key ≡ true
    → eq_ignore_ascii_case name other ≡ eq_str key (map to_ascii_lowercase other)
unfolding eq_ignore_ascii_case
other_name name key other lower same =
    let whole : map to_ascii_lowercase name ≡ key =
      eq_str→≡ (map to_ascii_lowercase name) (map to_ascii_lowercase key) same ∙ lower in
    ap (λ l. eq_str l (map to_ascii_lowercase other)) whole

set_header-location :
    (response : WsHandshakeResponse) (name value : Str)
    → (set_header response name value).location
      ≡ (if eq_ignore_ascii_case name (codes "location") then some value else response.location)
unfolding set_header eq_str to_ascii_lowercase
set_header-location response name value =
    elim (Bool-cases (eq_ignore_ascii_case name (codes "location"))) [
      | inl same ↦ rw (same) refl
      | inr other ↦ rw other (ground arith)
    ]

set_header-upgrade :
    (response : WsHandshakeResponse) (name value : Str)
    → (set_header response name value).upgrade
      ≡ (if eq_ignore_ascii_case name (codes "upgrade") then some value else response.upgrade)
unfolding set_header eq_str to_ascii_lowercase
set_header-upgrade response name value =
    elim (Bool-cases (eq_ignore_ascii_case name (codes "upgrade"))) [
      | inl same ↦ rw (other_name name (codes "upgrade") (codes "location") refl same, same) refl
      | inr other ↦ rw other (ground arith)
    ]

set_header-connection :
    (response : WsHandshakeResponse) (name value : Str)
    → (set_header response name value).connection
      ≡ (if eq_ignore_ascii_case name (codes "connection") then some value else response.connection)
unfolding set_header eq_str to_ascii_lowercase
set_header-connection response name value =
    elim (Bool-cases (eq_ignore_ascii_case name (codes "connection"))) [
      | inl same ↦
          rw
            (
              other_name name (codes "connection") (codes "location") refl same,
              other_name name (codes "connection") (codes "upgrade") refl same,
              same,
            )
            refl
      | inr other ↦ rw other (ground arith)
    ]

set_header-accept :
    (response : WsHandshakeResponse) (name value : Str)
    → (set_header response name value).accept ≡ (
        if eq_ignore_ascii_case name (codes "sec-websocket-accept")
        then some value
        else response.accept)
unfolding set_header eq_str to_ascii_lowercase
set_header-accept response name value =
    elim (Bool-cases (eq_ignore_ascii_case name (codes "sec-websocket-accept"))) [
      | inl same ↦
          rw
            (
              other_name name (codes "sec-websocket-accept") (codes "location") refl same,
              other_name name (codes "sec-websocket-accept") (codes "upgrade") refl same,
              other_name name (codes "sec-websocket-accept") (codes "connection") refl same,
              same,
            )
            refl
      | inr other ↦ rw other (ground arith)
    ]

set_header-protocol :
    (response : WsHandshakeResponse) (name value : Str)
    → (set_header response name value).protocol ≡ (
        if eq_ignore_ascii_case name (codes "sec-websocket-protocol")
        then some value
        else response.protocol)
unfolding set_header eq_str to_ascii_lowercase
set_header-protocol response name value =
    elim (Bool-cases (eq_ignore_ascii_case name (codes "sec-websocket-protocol"))) [
      | inl same ↦
          rw
            (
              other_name name (codes "sec-websocket-protocol") (codes "location") refl same,
              other_name name (codes "sec-websocket-protocol") (codes "upgrade") refl same,
              other_name name (codes "sec-websocket-protocol") (codes "connection") refl same,
              other_name name (codes "sec-websocket-protocol") (codes "sec-websocket-accept") refl
                  same,
              same,
            )
            refl
      | inr other ↦ rw other (ground arith)
    ]

over-last_value :
    (key name value : Str) (headers : List Header) (before : Option Str)
    → over (last_value key headers) (if eq_ignore_ascii_case name key then some value else before)
      ≡ over (last_value key ((name, value) ∷ headers)) before
over-last_value key name value headers before =
    by_last (last_value key headers) (eq_ignore_ascii_case name key)
  where
    by_last :
        (o : Option Str) (b : Bool)
        → over o (if b then some value else before)
          ≡ over (elim o [ some last ↦ some last | none ↦ if b then some value else none ]) before
    by_last (some last) b = refl
    by_last none true = refl
    by_last none false = refl

-- Setting the headers one after another leaves a field with the last value of its name.
set_headers-field :
    (key : Str) (field : WsHandshakeResponse → Option Str)
    → ((response : WsHandshakeResponse) (name value : Str)
        → field (set_header response name value)
          ≡ (if eq_ignore_ascii_case name key then some value else field response))
    → (headers : List Header) (response : WsHandshakeResponse)
    → field (set_headers response headers) ≡ over (last_value key headers) (field response)
set_headers-field key field one [] response = refl
set_headers-field key field one ((name, value) ∷ headers) response =
    set_headers-field key field one headers (set_header response name value)
    ∙ ap (over (last_value key headers)) (one response name value)
    ∙ over-last_value key name value headers (field response)

over-none : (o : Option Str) → over o none ≡ o
over-none none = refl
over-none (some last) = refl

set_header-status :
    (response : WsHandshakeResponse) (name value : Str)
    → (set_header response name value).status ≡ response.status
unfolding set_header
set_header-status response name value = ground arith

set_headers-status :
    (response : WsHandshakeResponse) (headers : List Header)
    → (set_headers response headers).status ≡ response.status
set_headers-status response [] = refl
set_headers-status response ((name, value) ∷ headers) =
    set_headers-status (set_header response name value) headers
    ∙ set_header-status response name value

response-ext :
    (a b : WsHandshakeResponse)
    → a.status ≡ b.status
    → a.location ≡ b.location
    → a.upgrade ≡ b.upgrade
    → a.connection ≡ b.connection
    → a.accept ≡ b.accept
    → a.protocol ≡ b.protocol
    → a ≡ b
response-ext a b status location upgrade connection accept protocol = cc

pub set_headers-response_of :
    (status : ℕ) (headers : List Header)
    → set_headers (default_response status) headers ≡ response_of status headers
set_headers-response_of status headers =
    let start = default_response status in
    response-ext (set_headers start headers) (response_of status headers)
      (set_headers-status start headers)
      (set_headers-field (codes "location") (λ (r : WsHandshakeResponse). r.location)
          set_header-location headers start
        ∙ over-none (last_value (codes "location") headers))
      (set_headers-field (codes "upgrade") (λ (r : WsHandshakeResponse). r.upgrade)
          set_header-upgrade headers start
        ∙ over-none (last_value (codes "upgrade") headers))
      (set_headers-field (codes "connection") (λ (r : WsHandshakeResponse). r.connection)
          set_header-connection headers start
        ∙ over-none (last_value (codes "connection") headers))
      (set_headers-field (codes "sec-websocket-accept") (λ (r : WsHandshakeResponse). r.accept)
          set_header-accept headers start
        ∙ over-none (last_value (codes "sec-websocket-accept") headers))
      (set_headers-field (codes "sec-websocket-protocol") (λ (r : WsHandshakeResponse). r.protocol)
          set_header-protocol headers start
        ∙ over-none (last_value (codes "sec-websocket-protocol") headers))
