-- ===== src/Ws/Handshake/Checks.antt =====
-- What a handshake that goes through has seen, and that one goes through with a server that answers as it should.
use telegram_socks_ws_proxy.Base.{
  ℕ, zero, suc, ◌≤◌, ◌≡◌, refl, sym, ap, ◌∙◌, subst, Bool, true, false, if◌then◌else◌, Option, none,
  some, List, ◌++◌, length, ◌⊎◌, inl, inr,
}
use telegram_socks_ws_proxy.Base.Utf8.{Str, codes}
use telegram_socks_ws_proxy.Base.Text.{eq_str→≡, eq_str_refl, eq_ignore_ascii_case}
use telegram_socks_ws_proxy.Base.Stream.{Stream, Outcome, ok, write_all, flush}
use telegram_socks_ws_proxy.Base.Stream.Laws.{bind-ok}
use telegram_socks_ws_proxy.Ws.Types.{WsError}
use telegram_socks_ws_proxy.Ws.Handshake.{
  WsHandshake, WsHandshakeRequest, WsHandshakeResponse, max_handshake_header_size, from_result,
  bind_result, read_handshake_headers, parse_handshake_response, has_header_token,
}
use telegram_socks_ws_proxy.Ws.Handshake.Exchange.{
  check_upgrade, check_connection, check_accept, check_protocol, validate_handshake_response,
  check_response, exchange,
}
use telegram_socks_ws_proxy.Ws.Handshake.Headers.{IsHeader, read_handshake_headers-IsHeader}

pub bind_result-inr {ℓ κ} :
    {A : Type ℓ} {B : Type κ} (r : WsError ⊎ A) (f : A → WsError ⊎ B) {b : B}
    → bind_result r f ≡ inr b
    → (a : A) × (r ≡ inr a) × (f a ≡ inr b)
bind_result-inr (inl e) f h = cc
bind_result-inr (inr a) f h = (a, refl, h)

pub from_result-ok {ℓ} :
    {A : Type ℓ} (r : WsError ⊎ A) (s : Stream) {a : A} {s' : Stream}
    → ◌≡◌ {A = Outcome WsError A × Stream} (from_result r s) (ok a, s')
    → (r ≡ inr a) × (s ≡ s')
from_result-ok (inl e) s h = cc
from_result-ok (inr a) s h = (cc, ap (λ r. r.1) h)

-- A test that has gone through was true.
if-inr : (c : Bool) (e : WsError) {u : Unit {0}} → (if c then inr tt else inl e) ≡ inr u → c ≡ true
if-inr true e h = refl
if-inr false e h = cc

-- What a response holds that passes.
abbrev pub IsValid : WsHandshakeResponse → Str → Type 0
IsValid response expected_accept =
    (upgrade connection : Str) × (response.upgrade ≡ some upgrade)
    × (eq_ignore_ascii_case upgrade (codes "websocket") ≡ true)
    × (response.connection ≡ some connection)
    × (has_header_token connection (codes "upgrade") ≡ true)
    × (response.accept ≡ some expected_accept)
    × (response.protocol ≡ some (codes "binary"))

check_upgrade-inr :
    (o : Option Str) {u : Unit {0}}
    → check_upgrade o ≡ inr u
    → (value : Str) × (o ≡ some value) × (eq_ignore_ascii_case value (codes "websocket") ≡ true)
unfolding check_upgrade
check_upgrade-inr none h = cc
check_upgrade-inr (some value) h = (value, refl, if-inr _ _ h)

check_connection-inr :
    (o : Option Str) {u : Unit {0}}
    → check_connection o ≡ inr u
    → (value : Str) × (o ≡ some value) × (has_header_token value (codes "upgrade") ≡ true)
unfolding check_connection
check_connection-inr none h = cc
check_connection-inr (some value) h = (value, refl, if-inr _ _ h)

check_accept-inr :
    (o : Option Str) (accept : Str) {u : Unit {0}} → check_accept o accept ≡ inr u → o ≡ some accept
unfolding check_accept
check_accept-inr none accept h = cc
check_accept-inr (some value) accept h = ap some (eq_str→≡ value accept (if-inr _ _ h))

check_protocol-inr :
    (o : Option Str) {u : Unit {0}} → check_protocol o ≡ inr u → o ≡ some (codes "binary")
unfolding check_protocol
check_protocol-inr none h = cc
check_protocol-inr (some value) h = ap some (eq_str→≡ value (codes "binary") (if-inr _ _ h))

pub validate_handshake_response-IsValid :
    (response : WsHandshakeResponse) (expected_accept : Str) {u : Unit {0}}
    → validate_handshake_response response expected_accept ≡ inr u
    → IsValid response expected_accept
unfolding validate_handshake_response
validate_handshake_response-IsValid response expected_accept h =
    let (u₁, a, h₁) = bind_result-inr (check_upgrade response.upgrade) _ h in
    let (u₂, b, h₂) = bind_result-inr (check_connection response.connection) _ h₁ in
    let (u₃, c, h₃) = bind_result-inr (check_accept response.accept expected_accept) _ h₂ in
    let (upgrade, up, same) = check_upgrade-inr response.upgrade a in
    let (connection, con, token) = check_connection-inr response.connection b in
    (
      upgrade,
      connection,
      up,
      same,
      con,
      token,
      check_accept-inr response.accept expected_accept c,
      check_protocol-inr response.protocol h₃,
    )

pub validate_handshake_response-inr :
    (response : WsHandshakeResponse) (expected_accept : Str)
    → IsValid response expected_accept
    → validate_handshake_response response expected_accept ≡ inr tt
unfolding validate_handshake_response check_upgrade check_connection check_accept check_protocol
validate_handshake_response-inr response expected_accept
      (upgrade, connection, up, same, con, token, acc, pro) =
    rw (up, same, con, token, acc, pro, eq_str_refl) refl

module _ (encode : List ℕ → Str) (sha1 : List ℕ → List ℕ) (random_error : Str) where
  pub exchange-ok :
      (w : ℕ) (request : WsHandshakeRequest) (s : Stream) {hs : WsHandshake} {s' : Stream}
      → exchange encode sha1 random_error request (record s { writes = w }) ≡ (ok hs, s')
      → (header : List ℕ) × (response : WsHandshakeResponse) × (s.incoming ≡ header ++ s'.incoming)
        × (s'.sent ≡ s.sent ++ request.payload)
        × (length header ≤ max_handshake_header_size)
        × (parse_handshake_response header ≡ inr response)
        × (check_response encode sha1 random_error request.expected_accept response ≡ inr hs)
  unfolding exchange write_all flush
  exchange-ok zero request s h = cc
  exchange-ok (suc zero) request s h = cc
  exchange-ok (suc (suc k)) request s h =
      let asked : Stream = record s { sent = s.sent ++ request.payload; writes = k } in
      let (header, s₁, e, h₁) = bind-ok (read_handshake_headers asked) _ h in
      let (response, s₂, e', h₂) =
        bind-ok (from_result (parse_handshake_response header) s₁) _ h₁ in
      let (parsed, same) = from_result-ok (parse_handshake_response header) s₁ e' in
      let (checked, same') =
        from_result-ok (check_response encode sha1 random_error request.expected_accept response) s₂
          h₂ in
      let (front, read, size, blank) =
        subst (IsHeader asked) e (read_handshake_headers-IsHeader asked) in
      let last = same ∙ same' in
      (
        header,
        response,
        front ∙ ap (λ (t : Stream). header ++ t.incoming) last,
        sym (ap (λ (t : Stream). t.sent) last) ∙ ap (λ (t : Stream). t.sent) read,
        size,
        parsed,
        checked,
      )
