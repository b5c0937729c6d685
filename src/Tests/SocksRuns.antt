-- ===== src/Tests/SocksRuns.antt =====
-- The unit tests of src/modules/socks.rs, and its theorems at concrete inputs.
use telegram_socks_ws_proxy.Base.{
  ℕ, suc, ◌≡◌, refl, arith, true, false, none, some, List, [], ◌∷◌, ◌++◌, Among, inr,
}
use telegram_socks_ws_proxy.Base.Utf8.{codes, from_utf8}
use telegram_socks_ws_proxy.Base.Stream.{Stream, closed, ok, err, read_exact, write_all}
use telegram_socks_ws_proxy.Net.Ip.{ipv4_text}
use telegram_socks_ws_proxy.Socks.{
  SocksUser, SocksAuthConfig, connect, handle_socks5_handshake, authentication_failed,
  no_acceptable_method, contains, is_ipv6,
}
use telegram_socks_ws_proxy.Socks.Messages.{ipv4, domain, greeting, login, request, granted}
use telegram_socks_ws_proxy.Socks.Accepts.{handshake-open, handshake-login, handshake-refused}
use telegram_socks_ws_proxy.Socks.Guards.{handshake-authenticated}
use telegram_socks_ws_proxy.Socks.Typed.{IsCommand, IsBytes, handle_socks5_handshake-IsCommand}
use telegram_socks_ws_proxy.Socks.Users.{parse_socks_auth, users_text, is_plain, is_separator}
use telegram_socks_ws_proxy.Base.Text.{is_whitespace}
use telegram_socks_ws_proxy.Socks.Users.RoundTrip.{parse_socks_auth-users_text}

abbrev quiet : Stream
quiet = record { incoming = []; ending = closed; sent = []; writes = 9; shut = false; entropy = [] }

abbrev alice : SocksUser
alice = record { username = codes "alice"; password = codes "secret" }

abbrev bob : SocksUser
bob = record { username = codes "bob"; password = codes "two" }

abbrev config : SocksAuthConfig
config = record { users = alice ∷ bob ∷ [] }

parse_socks5_connect_ipv4 :
    (handle_socks5_handshake none (record quiet {
      incoming = 5 ∷ 2 ∷ 0 ∷ 2 ∷ 5 ∷ 1 ∷ 0 ∷ 1 ∷ 127 ∷ 0 ∷ 0 ∷ 1 ∷ 0x1F ∷ 0x90 ∷ [];
    })).0
    ≡ ok (connect (codes "127.0.0.1") 8080)
unfolding handle_socks5_handshake read_exact write_all ipv4_text
parse_socks5_connect_ipv4 = refl

rejects_when_client_does_not_offer_auth_method :
    (handle_socks5_handshake (some config) (record quiet { incoming = 5 ∷ 1 ∷ 0 ∷ [] })).0
    ≡ err no_acceptable_method
unfolding handle_socks5_handshake read_exact write_all
rejects_when_client_does_not_offer_auth_method = refl

ipv6_check : is_ipv6 (codes "2001:db8::1") ≡ true
unfolding is_ipv6
ipv6_check = refl

handshake-open_example :
    handle_socks5_handshake none (record quiet {
      incoming = greeting (2 ∷ 0 ∷ []) (request (ipv4 127 0 0 1) 8080 (9 ∷ []));
      writes = suc (suc 1);
    })
    ≡ (
      ok (connect (ipv4_text 127 0 0 1) 8080),
      record quiet { incoming = 9 ∷ []; sent = [] ++ (5 ∷ 0 ∷ granted); writes = 1 },
    )
unfolding contains
handshake-open_example =
    handshake-open (2 ∷ 0 ∷ []) (ipv4 127 0 0 1) 8080 1 (9 ∷ []) quiet refl refl

handshake-login_example :
    handle_socks5_handshake (some config) (record quiet {
      incoming =
          greeting
            (2 ∷ [])
            (login (codes "bob") (codes "two") (request (domain (codes "t.me")) 443 []));
      writes = suc (suc (suc 0));
    })
    ≡ (
      ok (connect (codes "t.me") 443),
      record quiet { incoming = []; sent = [] ++ (5 ∷ 2 ∷ 1 ∷ 0 ∷ granted); writes = 0 },
    )
unfolding contains from_utf8
handshake-login_example =
    handshake-login config (2 ∷ []) (codes "bob") (codes "two") (domain (codes "t.me")) 443 0 []
      quiet bob refl (Among.later Among.here) refl refl refl

handshake-refused_example :
    handle_socks5_handshake (some config) (record quiet {
      incoming = greeting (2 ∷ []) (login (codes "alice") (codes "two") (7 ∷ []));
      writes = suc (suc 0);
    })
    ≡ (
      err authentication_failed,
      record quiet { incoming = 7 ∷ []; sent = [] ++ (5 ∷ 2 ∷ 1 ∷ 1 ∷ []); writes = 0 },
    )
unfolding contains from_utf8
handshake-refused_example =
    handshake-refused config (2 ∷ []) (codes "alice") (codes "two") 0 (7 ∷ []) quiet (codes "alice")
      (codes "two") refl refl refl (λ (n, p). cc, (λ (n, p). cc, tt))

abbrev logged_in : Stream
logged_in = record quiet {
  incoming =
      greeting (2 ∷ [])
        (login (codes "bob") (codes "two") (request (domain (codes "t.me")) 443 []));
  writes = suc (suc (suc 0));
}

handshake-authenticated_example :
    (methods username password rest : List ℕ) × (user : SocksUser) × (logged_in.incoming
      ≡ greeting methods (login username password rest))
    × (contains methods 0x02 ≡ true)
    × Among user config.users
    × (from_utf8 username ≡ some user.username)
    × (from_utf8 password ≡ some user.password)
handshake-authenticated_example = handshake-authenticated config logged_in handshake-login_example

-- Their names are plain.
abbrev al : SocksUser
al = record { username = codes "al"; password = codes "s:1" }

abbrev bo : SocksUser
bo = record { username = codes "bo"; password = codes "t" }

parse_socks_auth-users_text_example :
    parse_socks_auth (users_text al (bo ∷ [])) ≡ inr (some (record { users = al ∷ bo ∷ [] }))
unfolding is_plain is_whitespace is_separator
parse_socks_auth-users_text_example =
    parse_socks_auth-users_text al (bo ∷ [])
      (refl, refl, ((refl, refl), ((refl, refl), tt)), (refl, (refl, (refl, tt))))
      ((refl, refl, ((refl, refl), ((refl, refl), tt)), (refl, tt)), tt)

abbrev named : Stream
named = record quiet {
  incoming =
      5 ∷ 1 ∷ 0 ∷ 5 ∷ 1 ∷ 0 ∷ 3 ∷ 5 ∷ 0xE2 ∷ 0x82 ∷ 0xAC ∷ 0x2E ∷ 0x65 ∷ 0x1F ∷ 0x90 ∷ 7 ∷ [];
}

abbrev named_after : Stream
named_after = record quiet {
  incoming = 7 ∷ [];
  sent = 5 ∷ 0 ∷ 5 ∷ 0 ∷ 0 ∷ 1 ∷ 0 ∷ 0 ∷ 0 ∷ 0 ∷ 0 ∷ 0 ∷ [];
  writes = 7;
}

named_target :
    handle_socks5_handshake none named
    ≡ (ok (connect (0x20AC ∷ 0x2E ∷ 0x65 ∷ []) 8080), named_after)
unfolding handle_socks5_handshake read_exact write_all from_utf8
named_target = refl

handle_socks5_handshake-IsCommand_example :
    IsCommand (connect (0x20AC ∷ 0x2E ∷ 0x65 ∷ []) 8080) × IsBytes (7 ∷ [])
handle_socks5_handshake-IsCommand_example =
    handle_socks5_handshake-IsCommand none named (connect (0x20AC ∷ 0x2E ∷ 0x65 ∷ []) 8080)
      named_after (omega arith) named_target
