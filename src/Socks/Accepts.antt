-- ===== src/Socks/Accepts.antt =====
-- The conversation of src/modules/socks.rs with a client that keeps to the protocol, from the client's side.
use telegram_socks_ws_proxy.Socks.LoggedIn.{Among-accepts, Unknown-accepts}
use telegram_socks_ws_proxy.Socks.Messages.{
  Target, IsTarget, request, greeting, login, granted, read_auth_field_lem, read_request_lem, greet,
}
use telegram_socks_ws_proxy.Base.{
  ℕ, suc, ◌≡◌, refl, ◌∙◌, true, none, some, All, Among, List, [], ◌∷◌, ◌++◌, length, append_assoc,
}
use telegram_socks_ws_proxy.Base.Utf8.{Str, from_utf8}
use telegram_socks_ws_proxy.Base.Stream.{Stream, ok, err, write_all}
use telegram_socks_ws_proxy.Base.Stream.Laws.{read_exact-front}
use telegram_socks_ws_proxy.Socks.{
  SocksAuthConfig, SocksUser, connect, io, contains, check_credentials, authenticate_user,
  authentication_failed, authenticate, handle_socks5_handshake,
}

-- Without configured users, a client that offers to go without authentication is granted its
-- target, whichever of the three forms that has, if the two replies go through: exactly they are
-- sent, and exactly the messages of the client are read.
pub handshake-open :
    (methods : List ℕ) (target : Target) (port k : ℕ) (rest : List ℕ) (s : Stream) {text : Str}
    → contains methods 0x00 ≡ true
    → IsTarget target text
    → handle_socks5_handshake none
        (record s { incoming = greeting methods (request target port rest); writes = suc (suc k) })
      ≡ (
        ok (connect text port),
        record s { incoming = rest; sent = s.sent ++ (0x05 ∷ 0x00 ∷ granted); writes = k },
      )
unfolding authenticate
handshake-open methods target port k rest s offered h =
    greet none methods (request target port rest) (suc k) s offered
    ∙ read_request_lem target port k rest (record s { sent = s.sent ++ (0x05 ∷ 0x00 ∷ []) }) h
    ∙ rw append_assoc

-- The answer to a login: granted or refused by the configured users.
authenticate_user_lem :
    (auth : SocksAuthConfig) (username password rest : List ℕ) (k : ℕ) (s : Stream)
    {user pass : Str}
    → from_utf8 username ≡ some user
    → from_utf8 password ≡ some pass
    → authenticate_user auth (record s { incoming = login username password rest; writes = suc k })
      ≡ check_credentials auth user pass (record s { incoming = rest; writes = suc k })
unfolding authenticate_user
authenticate_user_lem auth username password rest k s named known = rw (
  read_exact-front io 1 (0x01 ∷ [])
      (length username ∷ (username ++ (length password ∷ (password ++ rest))))
      (record s { writes = suc k }) refl,
  read_auth_field_lem username (length password ∷ (password ++ rest)) (record s { writes = suc k })
      named,
  read_auth_field_lem password rest (record s { writes = suc k }) known,
)

-- With configured users, a client that offers the username method and logs in with the username and
-- the password of one of them, whichever that is, is granted its target, whichever of the three
-- forms that has, if the three replies go through: exactly they are sent, and exactly the messages
-- of the client are read.
pub handshake-login :
    (auth : SocksAuthConfig) (methods username password : List ℕ) (target : Target) (port k : ℕ)
    (rest : List ℕ) (s : Stream) (user : SocksUser) {text : Str}
    → contains methods 0x02 ≡ true
    → Among user auth.users
    → from_utf8 username ≡ some user.username
    → from_utf8 password ≡ some user.password
    → IsTarget target text
    → handle_socks5_handshake (some auth) (record s {
      incoming = greeting methods (login username password (request target port rest));
      writes = suc (suc (suc k));
    })
      ≡ (
        ok (connect text port),
        record s {
          incoming = rest;
          sent = s.sent ++ (0x05 ∷ 0x02 ∷ 0x01 ∷ 0x00 ∷ granted);
          writes = k;
        },
      )
unfolding authenticate check_credentials write_all
handshake-login auth methods username password target port k rest s user offered among named known
      h =
    greet (some auth) methods (login username password (request target port rest)) (suc (suc k)) s
      offered
    ∙ rw (
      authenticate_user_lem auth username password (request target port rest) (suc k)
          (record s { sent = s.sent ++ (0x05 ∷ 0x02 ∷ []) }) named known,
      Among-accepts auth.users user among,
      read_request_lem target port k rest
          (record s { sent = (s.sent ++ (0x05 ∷ 0x02 ∷ [])) ++ (0x01 ∷ 0x00 ∷ []) }) h,
      append_assoc s.sent,
      append_assoc s.sent,
    )

-- With configured users, a login whose username and password no one of them has is refused with the
-- status 1, if the client offers the username method and the two replies go through, and nothing
-- behind it is read, whatever the client wants next.
pub handshake-refused :
    (auth : SocksAuthConfig) (methods username password : List ℕ) (k : ℕ) (rest : List ℕ)
    (s : Stream) (user pass : Str)
    → contains methods 0x02 ≡ true
    → from_utf8 username ≡ some user
    → from_utf8 password ≡ some pass
    → All (λ (u : SocksUser). ¬ ((u.username ≡ user) × (u.password ≡ pass))) auth.users
    → handle_socks5_handshake (some auth) (record s {
      incoming = greeting methods (login username password rest);
      writes = suc (suc k);
    })
      ≡ (
        err authentication_failed,
        record s { incoming = rest; sent = s.sent ++ (0x05 ∷ 0x02 ∷ 0x01 ∷ 0x01 ∷ []); writes = k },
      )
unfolding authenticate check_credentials write_all
handshake-refused auth methods username password k rest s user pass offered named known unknown =
    greet (some auth) methods (login username password rest) (suc k) s offered
    ∙ rw (
      authenticate_user_lem auth username password rest k
          (record s { sent = s.sent ++ (0x05 ∷ 0x02 ∷ []) }) named known,
      Unknown-accepts auth.users user pass unknown,
      append_assoc,
    )
