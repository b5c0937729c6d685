-- ===== src/Socks.antt =====
-- src/modules/socks.rs: the SOCKS5 handshake with a client, and the configuration of its users.
pub mod Users
pub mod Accepts
pub mod Messages
pub mod Guards
pub mod LoggedIn
pub mod Typed
use telegram_socks_ws_proxy.Base.{
  ℕ, zero, suc, ◌+◌, ◌*◌, ◌==◌, leb, if◌then◌else◌, Bool, true, false, not, ◌&&◌, ◌||◌, Option,
  none, some, List, [], ◌∷◌, ◌++◌, get_or, map, ◌⊎◌, inl, inr,
}
use telegram_socks_ws_proxy.Base.Text.{eq_str}
use telegram_socks_ws_proxy.Base.Utf8.{Str, codes, from_utf8}
use telegram_socks_ws_proxy.Base.Stream.{
  Stream, IoError, Io, Outcome, ok, err, pending, panicked, ◌>>=◌, ◌>>◌, return, fail, read_exact,
  write_all,
}
use telegram_socks_ws_proxy.Net.Ip.{ipv4_text, ipv6_text}

pub record SocksUser : Type 0 where
  pub username : Str
  pub password : Str

pub record SocksAuthConfig : Type 0 where
  pub users : List SocksUser

pub data SocksCommand : Type 0 where
  -- the target's host and port
  connect : Str → ℕ → SocksCommand

-- `parse_error` without its message.
pub data SocksError : Type 0 where
  unsupported_version no_acceptable_method authentication_failed unsupported_command : SocksError
  unsupported_address_type parse_error : SocksError
  io : IoError → SocksError

unfoldable pub contains : List ℕ → ℕ → Bool
contains [] x = false
contains (y ∷ ys) x = y == x || contains ys x

unfoldable pub from_string : Option Str → Io SocksError Str
from_string (some s) = return s
from_string none = fail parse_error

unfoldable pub read_auth_field : Io SocksError Str
unfolding from_string
read_auth_field = do
  len ← read_exact io 1
  value ← read_exact io (get_or len 0 0)
  from_string (from_utf8 value)

-- `auth.users.iter().any(..)`
unfoldable pub accepts : List SocksUser → Str → Str → Bool
unfolding eq_str
accepts [] username password = false
accepts (user ∷ users) username password =
    eq_str user.username username && eq_str user.password password
    || accepts users username password

-- A write whose error is dropped.
abbrev pub written : Outcome SocksError (Unit {0}) × Stream → Outcome SocksError (Unit {0}) × Stream
written (ok u, s) = (ok u, s)
written (err e, s) = (ok tt, s)
written (pending, s) = (pending, s)
written (panicked, s) = (panicked, s)

abbrev pub write_ignoring : List ℕ → Io SocksError (Unit {0})
write_ignoring bytes s = written (write_all io bytes s)

unfoldable pub check_credentials : SocksAuthConfig → Str → Str → Io SocksError (Unit {0})
unfolding accepts
check_credentials auth username password =
    let accepted = accepts auth.users username password in
    do
      write_all io (0x01 ∷ (if accepted then 0x00 else 0x01) ∷ [])
      if accepted then return tt else fail authentication_failed

unfoldable pub authenticate_user : SocksAuthConfig → Io SocksError (Unit {0})
unfolding read_auth_field check_credentials
authenticate_user auth = do
  version ← read_exact io 1
  if get_or version 0 0 == 0x01
      then (do
        username ← read_auth_field
        password ← read_auth_field
        check_credentials auth username password)
      else (do write_ignoring (0x01 ∷ 0x01 ∷ []); fail authentication_failed)

-- `Ipv4Addr::from([u8; 4])` and `Ipv6Addr::from([u8; 16])`, written out.
unfoldable pub groups_of : List ℕ → List ℕ
groups_of [] = []
groups_of (a ∷ []) = []
groups_of (a ∷ b ∷ rest) = (a * 256 + b) ∷ groups_of rest

unfoldable pub read_target_address : ℕ → Io SocksError Str
unfolding from_string
read_target_address atyp =
    if atyp == 0x01
    then (do
      addr ← read_exact io 4
      return (ipv4_text (get_or addr 0 0) (get_or addr 1 0) (get_or addr 2 0) (get_or addr 3 0)))
    else if atyp == 0x03
    then (do
      len ← read_exact io 1
      domain ← read_exact io (get_or len 0 0)
      from_string (from_utf8 domain))
    else if atyp == 0x04
    then (do addr ← read_exact io 16; return (ipv6_text (groups_of addr)))
    else fail unsupported_address_type

abbrev pub selected_method : Option SocksAuthConfig → ℕ
selected_method none = 0x00
selected_method (some auth) = 0x02

unfoldable pub authenticate : Option SocksAuthConfig → Io SocksError (Unit {0})
unfolding authenticate_user
authenticate none = return tt
authenticate (some auth) = authenticate_user auth

unfoldable pub read_connect : ℕ → Io SocksError SocksCommand
unfolding read_target_address
read_connect atyp = do
  target ← read_target_address atyp
  port ← read_exact io 2
  let target_port = get_or port 0 0 * 256 + get_or port 1 0
  write_all io (0x05 ∷ 0x00 ∷ 0x00 ∷ 0x01 ∷ 0 ∷ 0 ∷ 0 ∷ 0 ∷ 0 ∷ 0 ∷ [])
  return (connect target target_port)

unfoldable pub read_request : Io SocksError SocksCommand
unfolding read_connect
read_request = do
  req ← read_exact io 4
  if get_or req 0 0 == 0x05 && get_or req 1 0 == 0x01 && get_or req 2 0 == 0x00
      then read_connect (get_or req 3 0)
      else (do
        write_all io (0x05 ∷ 0x07 ∷ 0x00 ∷ 0x01 ∷ 0 ∷ 0 ∷ 0 ∷ 0 ∷ 0 ∷ 0 ∷ [])
        fail unsupported_command)

unfoldable pub select_method : Option SocksAuthConfig → List ℕ → Io SocksError (Unit {0})
unfolding contains
select_method auth methods =
    if contains methods (selected_method auth)
    then write_all io (0x05 ∷ selected_method auth ∷ [])
    else (do write_all io (0x05 ∷ 0xFF ∷ []); fail no_acceptable_method)

unfoldable pub handle_socks5_handshake : Option SocksAuthConfig → Io SocksError SocksCommand
unfolding select_method authenticate read_request
handle_socks5_handshake auth = do
  hdr ← read_exact io 2
  if get_or hdr 0 0 == 0x05
      then (do
        methods ← read_exact io (get_or hdr 1 0)
        select_method auth methods
        authenticate auth
        read_request)
      else fail unsupported_version

unfoldable pub format_socks5_fail_reply : ℕ → List ℕ
format_socks5_fail_reply reason = 0x05 ∷ reason ∷ 0x00 ∷ 0x01 ∷ 0 ∷ 0 ∷ 0 ∷ 0 ∷ 0 ∷ 0 ∷ []

unfoldable pub is_ipv6 : Str → Bool
unfolding contains
is_ipv6 dst = contains dst b':'
