-- ===== src/Socks/LoggedIn.antt =====
-- What a client must have sent before the log-in of src/modules/socks.rs succeeds.
use telegram_socks_ws_proxy.Base.{
  ℕ, ◌≡◌, sym, ap, ◌∙◌, ◌==◌, ==_iff, Among, and-true, or-true, Bool, true, false, Bool-cases, ◌&&◌,
  ◌||◌, All, refl, Option, none, some, inl, inr, List, [], ◌∷◌, ◌++◌, length, get_or,
}
use telegram_socks_ws_proxy.Base.Utf8.{Str, from_utf8}
use telegram_socks_ws_proxy.Base.Stream.{
  Stream, Io, Outcome, ok, err, pending, panicked, bind_outcome, ◌>>=◌, ◌>>◌, fail, read_exact,
}
use telegram_socks_ws_proxy.Base.Stream.Laws.{
  read_exact-bind, read_one-bind, if-cases, bind-ok, ok-state, ok-value,
}
use telegram_socks_ws_proxy.Base.Text.{eq_str, eq_str→≡, eq_str_refl}
use telegram_socks_ws_proxy.Socks.{
  SocksUser, SocksAuthConfig, SocksError, io, from_string, read_auth_field, accepts,
  check_credentials, authenticate_user, authentication_failed, write_ignoring,
}
use telegram_socks_ws_proxy.Socks.Messages.{login}

from_string-ok :
    (t : Option Str) (s : Stream) {text : Str} {s' : Stream}
    → from_string t s ≡ (ok text, s')
    → (t ≡ some text) × (s' ≡ s)
unfolding from_string
from_string-ok none s h = cc
from_string-ok (some t) s h = (ap some (ok-value h), sym (ok-state h))

read_auth_field-bind :
    {B : Type 0} (s : Stream) (f : Str → Io SocksError B) {b : B} {s' : Stream}
    → bind_outcome (read_auth_field s) f ≡ (ok b, s')
    → (bytes rest : List ℕ) × (text : Str) × (from_utf8 bytes ≡ some text)
      × (s.incoming ≡ length bytes ∷ (bytes ++ rest))
      × (f text (record s { incoming = rest }) ≡ (ok b, s'))
unfolding read_auth_field
read_auth_field-bind s f h =
    let (text, s₁, e, go_on) = bind-ok (read_auth_field s) f h in
    let (len, tail, front₁, e₁) =
      read_one-bind io s
        (λ len. read_exact io (get_or len 0 0) >>= λ value. from_string (from_utf8 value)) e in
    let (bytes, rest, size, front₂, e₂) =
      read_exact-bind io len (record s { incoming = tail }) (λ value. from_string (from_utf8 value))
        e₁ in
    let (valid, same) = from_string-ok (from_utf8 bytes) (record s { incoming = rest }) e₂ in
    (
      bytes,
      rest,
      text,
      valid,
      front₁ ∙ ap (λ l. len ∷ l) front₂ ∙ ap (λ n. n ∷ (bytes ++ rest)) (sym size),
      ap (f text) (sym same) ∙ go_on,
    )

or-true-right : (a : Bool) {b : Bool} → b ≡ true → (a || b) ≡ true
or-true-right true h = refl
or-true-right false h = h

All-Among {ℓ κ} :
    {A : Type ℓ} (P : A → Type κ) (xs : List A) → All P xs → (a : A) → Among a xs → P a
All-Among P [] ps a among = elim among [ ]
All-Among P (x ∷ xs) (p, ps) _ Among.here = p
All-Among P (x ∷ xs) (p, ps) a (Among.later among) = All-Among P xs ps a among

accepts-Among :
    (users : List SocksUser) (username password : Str)
    → accepts users username password ≡ true
    → (user : SocksUser) × Among user users
      × (user.username ≡ username)
      × (user.password ≡ password)
unfolding accepts
accepts-Among [] username password h = cc
accepts-Among (user ∷ users) username password h =
    elim (or-true (eq_str user.username username && eq_str user.password password) h) [
      | inl here ↦
          let (name, pass) = and-true (eq_str user.username username) here in
          (user, Among.here, eq_str→≡ _ _ name, eq_str→≡ _ _ pass)
      | inr there ↦
          let (found, among, name, pass) = accepts-Among users username password there in
          (found, Among.later among, name, pass)
    ]

-- A user among those that are configured is accepted, wherever it stands.
pub Among-accepts :
    (users : List SocksUser) (user : SocksUser)
    → Among user users
    → accepts users user.username user.password ≡ true
unfolding accepts
Among-accepts [] user among = elim among [ ]
Among-accepts (user ∷ users) _ Among.here =
    rw (eq_str_refl user.username, eq_str_refl user.password) refl
Among-accepts (other ∷ users) user (Among.later among) =
    let is_other = eq_str other.username user.username && eq_str other.password user.password in
    or-true-right is_other (Among-accepts users user among)

-- A login that none of the configured users has is not accepted.
pub Unknown-accepts :
    (users : List SocksUser) (username password : Str)
    → All (λ (user : SocksUser). ¬ ((user.username ≡ username) × (user.password ≡ password))) users
    → accepts users username password ≡ false
Unknown-accepts users username password unknown =
    elim (Bool-cases (accepts users username password)) [
      | inl right ↦
          let (user, among, name, pass) = accepts-Among users username password right in
          absurd (All-Among _ users unknown user among (name, pass))
      | inr wrong ↦ wrong
    ]

pub fails-not_ok :
    {A B : Type 0} (r : Outcome SocksError A × Stream) (e : SocksError) {b : B} {s' : Stream}
    → ¬ (bind_outcome r (λ a. fail e) ≡ (ok b, s'))
fails-not_ok (ok a, s) e h = cc
fails-not_ok (err e', s) e h = cc
fails-not_ok (pending, s) e h = cc
fails-not_ok (panicked, s) e h = cc

check_credentials-ok :
    (auth : SocksAuthConfig) (username password : Str) (s : Stream) {u : Unit {0}} {s' : Stream}
    → check_credentials auth username password s ≡ (ok u, s')
    → accepts auth.users username password ≡ true
unfolding check_credentials
check_credentials-ok auth username password s h =
    elim (Bool-cases (accepts auth.users username password)) [
      | inl right ↦ right
      | inr wrong ↦ absurd (fails-not_ok _ _ (rw wrong at h))
    ]

logged_in :
    (auth : SocksAuthConfig) (s : Stream) {u : Unit {0}} {s' : Stream}
    → (read_auth_field >>= λ username.
          read_auth_field >>= λ password. check_credentials auth username password)
        s
      ≡ (ok u, s')
    → (username password rest : List ℕ) × (user : SocksUser) × (s.incoming
        ≡ length username ∷ (username ++ (length password ∷ (password ++ rest))))
      × Among user auth.users
      × (from_utf8 username ≡ some user.username)
      × (from_utf8 password ≡ some user.password)
logged_in auth s h =
    let (username, tail, name, named, front₁, h₁) = read_auth_field-bind s _ h in
    let (password, rest, pass, known, front₂, h₂) =
      read_auth_field-bind (record s { incoming = tail }) _ h₁ in
    let (user, among, n, p) =
      accepts-Among auth.users name pass
        (check_credentials-ok auth name pass (record s { incoming = rest }) h₂) in
    (
      username,
      password,
      rest,
      user,
      front₁ ∙ ap (λ l. length username ∷ (username ++ l)) front₂,
      among,
      named ∙ ap some (sym n),
      known ∙ ap some (sym p),
    )

pub authenticate_user-ok :
    (auth : SocksAuthConfig) (s : Stream) {u : Unit {0}} {s' : Stream}
    → authenticate_user auth s ≡ (ok u, s')
    → (username password rest : List ℕ) × (user : SocksUser) × (s.incoming
        ≡ login username password rest)
      × Among user auth.users
      × (from_utf8 username ≡ some user.username)
      × (from_utf8 password ≡ some user.password)
unfolding authenticate_user
authenticate_user-ok auth s {u} {s'} h =
    let (version, tail, front, h₁) = read_one-bind io s _ h in
    elim (if-cases (version == 0x01) log_in
      (write_ignoring (0x01 ∷ 0x01 ∷ []) >> fail authentication_failed)
      (record s { incoming = tail }) h₁) [
        | inl (right, h₂) ↦
            let (username, password, rest, user, behind, among, named, known) =
              logged_in auth (record s { incoming = tail }) h₂ in
            (
              username,
              password,
              rest,
              user,
              front ∙ ap (λ v. v ∷ tail) ((==_iff version 1).0 right) ∙ ap (λ l. 1 ∷ l) behind,
              among,
              named,
              known,
            )
        | inr (wrong, h₂) ↦ absurd (
            fails-not_ok (write_ignoring (0x01 ∷ 0x01 ∷ []) (record s { incoming = tail }))
              authentication_failed h₂)
      ]
  where
    log_in : Io SocksError (Unit {0})
    log_in = read_auth_field >>= λ username.
        read_auth_field >>= λ password. check_credentials auth username password
