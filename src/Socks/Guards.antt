-- ===== src/Socks/Guards.antt =====
-- What a client must have sent before the handshake of src/modules/socks.rs succeeds.
use telegram_socks_ws_proxy.Socks.LoggedIn.{authenticate_user-ok, fails-not_ok}
use telegram_socks_ws_proxy.Base.{
  ℕ, ◌≡◌, sym, ap, ◌∙◌, ◌==◌, ==_iff, Among, true, Option, some, inl, inr, List, [], ◌∷◌, ◌++◌,
  length,
}
use telegram_socks_ws_proxy.Base.Utf8.{from_utf8}
use telegram_socks_ws_proxy.Base.Stream.{Stream, Io, ok, ◌>>=◌, ◌>>◌, fail, read_exact, write_all}
use telegram_socks_ws_proxy.Base.Stream.Laws.{read_exact-bind, read_two-bind, if-cases, bind-ok}
use telegram_socks_ws_proxy.Base.Stream.Writes.{write_all-ok}
use telegram_socks_ws_proxy.Socks.{
  SocksUser, SocksAuthConfig, SocksCommand, SocksError, io, contains, authenticate_user,
  authenticate, no_acceptable_method, unsupported_version, selected_method, read_request,
  select_method, handle_socks5_handshake,
}
use telegram_socks_ws_proxy.Socks.Messages.{greeting, login}

select_method-ok :
    (auth : Option SocksAuthConfig) (methods : List ℕ) (s : Stream) {u : Unit {0}} {s' : Stream}
    → select_method auth methods s ≡ (ok u, s')
    → (contains methods (selected_method auth) ≡ true) × (s'.incoming ≡ s.incoming)
unfolding select_method
select_method-ok auth methods s h =
    elim (if-cases (contains methods (selected_method auth))
      (write_all io (0x05 ∷ selected_method auth ∷ []))
      (write_all io (0x05 ∷ 0xFF ∷ []) >> fail no_acceptable_method) s h) [
        | inl (offered, h₁) ↦ (offered, write_all-ok io (0x05 ∷ selected_method auth ∷ []) s h₁)
        | inr (missing, h₁) ↦
            absurd (fails-not_ok (write_all io (0x05 ∷ 0xFF ∷ []) s) no_acceptable_method h₁)
      ]

failure-not_ok :
    (e : SocksError) (s : Stream) {c : SocksCommand} {s' : Stream}
    → ¬ (fail {A = SocksCommand} e s ≡ (ok c, s'))
failure-not_ok e s h = cc

-- With configured users the handshake succeeds only for a client that offered the username method and then
-- logged in with the name and the password of a configured user.
pub handshake-authenticated :
    (auth : SocksAuthConfig) (s : Stream) {command : SocksCommand} {s' : Stream}
    → handle_socks5_handshake (some auth) s ≡ (ok command, s')
    → (methods username password rest : List ℕ) × (user : SocksUser) × (s.incoming
        ≡ greeting methods (login username password rest))
      × (contains methods 0x02 ≡ true)
      × Among user auth.users
      × (from_utf8 username ≡ some user.username)
      × (from_utf8 password ≡ some user.password)
unfolding handle_socks5_handshake authenticate
handshake-authenticated auth s h =
    let (version, count, tail, front, h₁) = read_two-bind io s _ h in
    elim (if-cases (version == 0x05) (read_exact io count >>= negotiate) (fail unsupported_version)
      (record s { incoming = tail }) h₁) [
        | inr (wrong, h₂) ↦
            absurd (failure-not_ok unsupported_version (record s { incoming = tail }) h₂)
        | inl (right, h₂) ↦
            let (methods, behind, size, front₂, h₃) =
              read_exact-bind io count (record s { incoming = tail }) negotiate h₂ in
            let (u, s₁, e₁, h₄) =
              bind-ok (select_method (some auth) methods (record s { incoming = behind }))
                (λ u. authenticate_user auth >> read_request) h₃ in
            let (v, s₂, e₂, h₅) = bind-ok (authenticate_user auth s₁) (λ v. read_request) h₄ in
            let (offered, same) =
              select_method-ok (some auth) methods (record s { incoming = behind }) e₁ in
            let (username, password, rest, user, front₃, among, named, known) =
              authenticate_user-ok auth s₁ e₂ in
            (
              methods,
              username,
              password,
              rest,
              user,
              front
                  ∙ ap (λ v. v ∷ count ∷ tail) ((==_iff version 5).0 right)
                  ∙ ap (λ n. 5 ∷ n ∷ tail) (sym size)
                  ∙ ap (λ l. 5 ∷ length methods ∷ l)
                      (front₂ ∙ ap (λ l. methods ++ l) (sym same ∙ front₃)),
              offered,
              among,
              named,
              known,
            )
      ]
  where
    negotiate : List ℕ → Io SocksError SocksCommand
    negotiate methods =
        select_method (some auth) methods >> (authenticate_user auth >> read_request)
