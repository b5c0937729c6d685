-- ===== src/Socks/Messages.antt =====
-- The messages of a client to src/modules/socks.rs, and what the steps of the handshake make of each.
use telegram_socks_ws_proxy.Base.{
  ℕ, suc, ◌+◌, ◌*◌, ◌/◌, ◌%◌, ◌≡◌, refl, arith, true, Option, some, List, [], ◌∷◌, ◌++◌, length,
}
use telegram_socks_ws_proxy.Base.Utf8.{Str, from_utf8}
use telegram_socks_ws_proxy.Base.Stream.{Stream, ok, ◌>>◌, write_all}
use telegram_socks_ws_proxy.Base.Stream.Laws.{read_exact-front}
use telegram_socks_ws_proxy.Net.Ip.{ipv4_text, ipv6_text}
use telegram_socks_ws_proxy.Socks.{
  SocksAuthConfig, connect, io, contains, from_string, read_auth_field, groups_of,
  read_target_address, selected_method, authenticate, read_connect, read_request, select_method,
  handle_socks5_handshake,
}

-- What a client asks for: four octets, the bytes of a name, or eight groups of 16 bits.
pub data Target : Type 0 where
  ipv4 : ℕ → ℕ → ℕ → ℕ → Target
  domain : List ℕ → Target
  ipv6 : List ℕ → Target

abbrev pub group_bytes : List ℕ → List ℕ
group_bytes [] = []
group_bytes (g ∷ gs) = (g / 256) ∷ (g % 256) ∷ group_bytes gs

abbrev pub atyp : Target → ℕ
atyp (ipv4 a b c d) = 0x01
atyp (domain bytes) = 0x03
atyp (ipv6 groups) = 0x04

abbrev pub target_bytes : Target → List ℕ
target_bytes (ipv4 a b c d) = a ∷ b ∷ c ∷ d ∷ []
target_bytes (domain bytes) = length bytes ∷ bytes
target_bytes (ipv6 groups) = group_bytes groups

-- The text that a target stands for.
abbrev pub IsTarget : Target → Str → Type 0
IsTarget (ipv4 a b c d) text = text ≡ ipv4_text a b c d
IsTarget (domain bytes) text = from_utf8 bytes ≡ some text
IsTarget (ipv6 groups) text = (length groups ≡ 8) × (text ≡ ipv6_text groups)

abbrev pub request : Target → ℕ → List ℕ → List ℕ
request target port rest =
    0x05 ∷ 0x01 ∷ 0x00 ∷ atyp target ∷ (target_bytes target ++ ((port / 256) ∷ (port % 256) ∷ rest))

abbrev pub greeting : List ℕ → List ℕ → List ℕ
greeting methods rest = 0x05 ∷ length methods ∷ (methods ++ rest)

abbrev pub login : List ℕ → List ℕ → List ℕ → List ℕ
login username password rest =
    0x01 ∷ length username ∷ (username ++ (length password ∷ (password ++ rest)))

abbrev pub granted : List ℕ
granted = 0x05 ∷ 0x00 ∷ 0x00 ∷ 0x01 ∷ 0 ∷ 0 ∷ 0 ∷ 0 ∷ 0 ∷ 0 ∷ []

pub groups_of-group_bytes : (gs : List ℕ) → groups_of (group_bytes gs) ≡ gs
unfolding groups_of
groups_of-group_bytes [] = refl
groups_of-group_bytes (g ∷ gs) =
    let low : g / 256 * 256 + g % 256 ≡ g = omega arith in rw (low, groups_of-group_bytes gs)

pub length-group_bytes : (gs : List ℕ) → length (group_bytes gs) ≡ 2 * length gs
length-group_bytes [] = refl
length-group_bytes (g ∷ gs) = omega (arith, length-group_bytes gs)

pub read_auth_field_lem :
    (bytes rest : List ℕ) (s : Stream) {text : Str}
    → from_utf8 bytes ≡ some text
    → read_auth_field (record s { incoming = length bytes ∷ (bytes ++ rest) })
      ≡ (ok text, record s { incoming = rest })
unfolding read_auth_field from_string
read_auth_field_lem bytes rest s valid = rw (
  read_exact-front io 1 (length bytes ∷ []) (bytes ++ rest) s refl,
  read_exact-front io (length bytes) bytes rest s refl,
  valid,
)

pub read_target_address_lem :
    (target : Target) (rest : List ℕ) (s : Stream) {text : Str}
    → IsTarget target text
    → read_target_address (atyp target) (record s { incoming = target_bytes target ++ rest })
      ≡ (ok text, record s { incoming = rest })
unfolding read_target_address from_string
read_target_address_lem (ipv4 a b c d) rest s e =
    rw (read_exact-front io 4 (a ∷ b ∷ c ∷ d ∷ []) rest s refl, e)
read_target_address_lem (domain bytes) rest s valid = rw (
  read_exact-front io 1 (length bytes ∷ []) (bytes ++ rest) s refl,
  read_exact-front io (length bytes) bytes rest s refl,
  valid,
)
read_target_address_lem (ipv6 groups) rest s (eight, e) = rw (
  read_exact-front io 16 (group_bytes groups) rest s (omega (arith, length-group_bytes groups)),
  groups_of-group_bytes groups,
  e,
)

pub read_request_lem :
    (target : Target) (port k : ℕ) (rest : List ℕ) (s : Stream) {text : Str}
    → IsTarget target text
    → read_request (record s { incoming = request target port rest; writes = suc k })
      ≡ (ok (connect text port), record s { incoming = rest; sent = s.sent ++ granted; writes = k })
unfolding read_request read_connect write_all
read_request_lem target port k rest s h =
    let word : port / 256 * 256 + port % 256 ≡ port = omega arith in
    rw (
      read_exact-front io 4 (0x05 ∷ 0x01 ∷ 0x00 ∷ atyp target ∷ [])
          (target_bytes target ++ ((port / 256) ∷ (port % 256) ∷ rest))
          (record s { writes = suc k }) refl,
      read_target_address_lem target ((port / 256) ∷ (port % 256) ∷ rest)
          (record s { writes = suc k }) h,
      read_exact-front io 2 ((port / 256) ∷ (port % 256) ∷ []) rest (record s { writes = suc k })
          refl,
      word,
    )

pub select_method_lem :
    (auth : Option SocksAuthConfig) (methods : List ℕ) (k : ℕ) (s : Stream)
    → contains methods (selected_method auth) ≡ true
    → select_method auth methods (record s { writes = suc k })
      ≡ (ok tt, record s { sent = s.sent ++ (0x05 ∷ selected_method auth ∷ []); writes = k })
unfolding select_method write_all
select_method_lem auth methods k s offered = rw offered

-- The greeting and the choice of the method, with what follows them.
pub greet :
    (auth : Option SocksAuthConfig) (methods rest : List ℕ) (k : ℕ) (s : Stream)
    → contains methods (selected_method auth) ≡ true
    → handle_socks5_handshake auth (record s { incoming = greeting methods rest; writes = suc k })
      ≡ (authenticate auth >> read_request) (record s {
        incoming = rest;
        sent = s.sent ++ (0x05 ∷ selected_method auth ∷ []);
        writes = k;
      })
unfolding handle_socks5_handshake
greet auth methods rest k s offered = rw (
  read_exact-front io 2 (0x05 ∷ length methods ∷ []) (methods ++ rest) (record s { writes = suc k })
      refl,
  read_exact-front io (length methods) methods rest (record s { writes = suc k }) refl,
  select_method_lem auth methods k (record s { incoming = rest }) offered,
)
