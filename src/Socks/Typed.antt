-- ===== src/Socks/Typed.antt =====
-- What the values are that the handshake of src/modules/socks.rs reads from bytes.
use telegram_socks_ws_proxy.Base.{
  ℕ, zero, suc, ◌<◌, ◌≡◌, refl, sym, subst, arith, ◌==◌, if◌then◌else◌, Bool, true, false, ◌&&◌,
  Option, none, some, inl, List, [], ◌∷◌, All, All-left, All-right, length, get_or,
}
use telegram_socks_ws_proxy.Base.Utf8.{Str, from_utf8}
use telegram_socks_ws_proxy.Base.Utf8.Scalar.{IsScalar, from_utf8-IsScalar}
use telegram_socks_ws_proxy.Base.Stream.{
  Stream, Io, ok, ◌>>=◌, ◌>>◌, return, fail, read_exact, write_all,
}
use telegram_socks_ws_proxy.Base.Stream.Laws.{bind-ok, ok-state, ok-value, read_exact-ok}
use telegram_socks_ws_proxy.Base.Stream.Writes.{write_all-ok}
use telegram_socks_ws_proxy.Net.Ip.Ascii.{IsAscii, IsGroups, ipv4_text-IsAscii, ipv6_text-IsAscii}
use telegram_socks_ws_proxy.Socks.{
  SocksAuthConfig, SocksCommand, connect, SocksError, io, from_string, read_auth_field,
  check_credentials, authenticate_user, groups_of, read_target_address, authenticate, read_connect,
  read_request, select_method, handle_socks5_handshake, contains, selected_method,
  no_acceptable_method, unsupported_command,
}

abbrev pub IsBytes : List ℕ → Type 0
IsBytes bytes = All (λ b. b < 256) bytes

-- On a connection that brings bytes the program succeeds with a value of the predicate only, and bytes are left.
abbrev Gives : {A : Type 0} → (A → Type 0) → Io SocksError A → Type 0
Gives {A} P m =
    (s : Stream) (a : A) (s' : Stream)
    → IsBytes s.incoming
    → m s ≡ (ok a, s')
    → P a × IsBytes s'.incoming

abbrev Anything : {A : Type 0} → A → Type 0
Anything a = Unit

bind-Gives :
    {A B : Type 0} (P : A → Type 0) (Q : B → Type 0) (m : Io SocksError A) (f : A → Io SocksError B)
    → Gives P m
    → ((a : A) → P a → Gives Q (f a))
    → Gives Q (m >>= f)
bind-Gives P Q m f first next s b s' bytes h =
    let (a, s₁, e, h₁) = bind-ok (m s) f h in
    let (good, left) = first s a s₁ bytes e in next a good s₁ b s' left h₁

return-Gives : {A : Type 0} (P : A → Type 0) (a : A) → P a → Gives P (return a)
return-Gives P a good s b s' bytes h =
    (subst P (ok-value h) good, subst (λ (t : Stream). IsBytes t.incoming) (ok-state h) bytes)

fail-Gives : {A : Type 0} (P : A → Type 0) (e : SocksError) → Gives P (fail e)
fail-Gives P e s a s' bytes h = cc

failed :
    {A : Type 0} (e : SocksError) (s : Stream) {a : A} {s' : Stream} → ¬ (fail e s ≡ (ok a, s'))
failed e s h = cc

if-Gives :
    {A : Type 0} (P : A → Type 0) (b : Bool) (m n : Io SocksError A)
    → Gives P m
    → Gives P n
    → Gives P (if b then m else n)
if-Gives P true m n h k = h
if-Gives P false m n h k = k

abbrev IsRead : ℕ → List ℕ → Type 0
IsRead n bytes = (length bytes ≡ n) × IsBytes bytes

read_exact-Gives : (n : ℕ) → Gives (IsRead n) (read_exact io n)
read_exact-Gives n s bytes s' h e =
    let (size, front, same) = read_exact-ok io n s e in
    let both = subst IsBytes front h in
    (
      (size, All-left (λ b. b < 256) bytes s'.incoming both),
      All-right (λ b. b < 256) bytes s'.incoming both,
    )

write_all-Gives : (bytes : List ℕ) → Gives Anything (write_all io bytes)
write_all-Gives bytes s u s' h e = (tt, subst IsBytes (sym (write_all-ok io bytes s e)) h)

from_string-Gives : (bytes : List ℕ) → Gives (All IsScalar) (from_string (from_utf8 bytes))
unfolding from_string
from_string-Gives bytes = by_text (from_utf8 bytes) (from_utf8-IsScalar bytes)
  where
    by_text :
        (o : Option Str)
        → ((text : Str) → o ≡ some text → All IsScalar text)
        → Gives (All IsScalar) (from_string o)
    by_text none h = fail-Gives (All IsScalar) SocksError.parse_error
    by_text (some text) h = return-Gives (All IsScalar) text (h text refl)

field-Gives :
    (n : ℕ) → Gives (All IsScalar) (read_exact io n >>= λ value. from_string (from_utf8 value))
field-Gives n =
    bind-Gives (IsRead n) (All IsScalar) (read_exact io n) (λ value. from_string (from_utf8 value))
      (read_exact-Gives n) (λ bytes h. from_string-Gives bytes)

read_auth_field-Gives : Gives (All IsScalar) read_auth_field
unfolding read_auth_field
read_auth_field-Gives =
    bind-Gives (IsRead 1) (All IsScalar) (read_exact io 1) _ (read_exact-Gives 1)
      (λ len h. field-Gives (get_or len 0 0))

refuse-Gives :
    {A B : Type 0} (Q : B → Type 0) (m : Io SocksError A) (e : SocksError) → Gives Q (m >> fail e)
refuse-Gives Q m e s b s' bytes h =
    let (a, s₁, first, h₁) = bind-ok (m s) (λ a. fail e) h in absurd (failed e s₁ h₁)

check_credentials-Gives :
    (auth : SocksAuthConfig) (username password : Str)
    → Gives Anything (check_credentials auth username password)
unfolding check_credentials
check_credentials-Gives auth username password =
    bind-Gives Anything Anything _ _ (write_all-Gives _)
      (λ u h. if-Gives Anything _ _ _ (return-Gives Anything tt tt) (fail-Gives Anything _))

authenticate_user-Gives : (auth : SocksAuthConfig) → Gives Anything (authenticate_user auth)
unfolding authenticate_user
authenticate_user-Gives auth =
    bind-Gives (IsRead 1) Anything (read_exact io 1) _ (read_exact-Gives 1) (λ version h.
      if-Gives Anything (get_or version 0 0 == 0x01) _ _
        (bind-Gives (All IsScalar) Anything read_auth_field _ read_auth_field-Gives (λ username hu.
          bind-Gives (All IsScalar) Anything read_auth_field _ read_auth_field-Gives
            (λ password hp. check_credentials-Gives auth username password)))
        (refuse-Gives Anything _ _))

authenticate-Gives : (auth : Option SocksAuthConfig) → Gives Anything (authenticate auth)
unfolding authenticate
authenticate-Gives none = return-Gives Anything tt tt
authenticate-Gives (some auth) = authenticate_user-Gives auth

select_method-Gives :
    (auth : Option SocksAuthConfig) (methods : List ℕ) → Gives Anything (select_method auth methods)
unfolding select_method
select_method-Gives auth methods =
    if-Gives Anything (contains methods (selected_method auth)) _ _
      (write_all-Gives (0x05 ∷ selected_method auth ∷ []))
      (refuse-Gives Anything (write_all io (0x05 ∷ 0xFF ∷ [])) no_acceptable_method)

byte_at : (bytes : List ℕ) (i : ℕ) → IsBytes bytes → get_or bytes i 0 < 256
byte_at [] i h = omega arith
byte_at (b ∷ bs) zero (one, h) = one
byte_at (b ∷ bs) (suc i) (one, h) = byte_at bs i h

groups_of-IsGroups : (bytes : List ℕ) → IsBytes bytes → IsGroups (groups_of bytes)
unfolding groups_of
groups_of-IsGroups [] h = tt
groups_of-IsGroups (a ∷ []) h = tt
groups_of-IsGroups (a ∷ b ∷ rest) (ha, (hb, h)) = (omega arith, groups_of-IsGroups rest h)

ascii-IsScalar : (s : Str) → IsAscii s → All IsScalar s
ascii-IsScalar [] h = tt
ascii-IsScalar (c ∷ s) (one, h) = (inl (omega arith), ascii-IsScalar s h)

read_target_address-Gives : (atyp : ℕ) → Gives (All IsScalar) (read_target_address atyp)
unfolding read_target_address
read_target_address-Gives atyp =
    if-Gives (All IsScalar) _ _ _
      (bind-Gives (IsRead 4) (All IsScalar) (read_exact io 4) _ (read_exact-Gives 4) (λ addr h.
        return-Gives (All IsScalar) _ (
          ascii-IsScalar _ (
            ipv4_text-IsAscii (get_or addr 0 0) (get_or addr 1 0) (get_or addr 2 0)
              (get_or addr 3 0) (byte_at addr 0 h.1) (byte_at addr 1 h.1) (byte_at addr 2 h.1)
              (byte_at addr 3 h.1)))))
      (if-Gives (All IsScalar) _ _ _
        (bind-Gives (IsRead 1) (All IsScalar) (read_exact io 1) _ (read_exact-Gives 1)
          (λ len h. field-Gives (get_or len 0 0)))
        (if-Gives (All IsScalar) _ _ _
          (bind-Gives (IsRead 16) (All IsScalar) (read_exact io 16) _ (read_exact-Gives 16)
            (λ addr h. return-Gives (All IsScalar) _ (
              ascii-IsScalar _ (ipv6_text-IsAscii (groups_of addr) (groups_of-IsGroups addr h.1)))))
          (fail-Gives (All IsScalar) _)))

-- The target's host is a text, and its port a `u16`.
abbrev pub IsCommand : SocksCommand → Type 0
IsCommand (connect host port) = All IsScalar host × (port < 65536)

read_connect-Gives : (atyp : ℕ) → Gives IsCommand (read_connect atyp)
unfolding read_connect
read_connect-Gives atyp =
    bind-Gives (All IsScalar) IsCommand (read_target_address atyp) _
      (read_target_address-Gives atyp)
      (λ target text.
        bind-Gives (IsRead 2) IsCommand (read_exact io 2) _ (read_exact-Gives 2) (λ port h.
          bind-Gives Anything IsCommand _ _ (write_all-Gives _) (λ u done.
            return-Gives IsCommand _
              (text, omega (arith, byte_at port 0 h.1, byte_at port 1 h.1)))))

read_request-Gives : Gives IsCommand read_request
unfolding read_request
read_request-Gives =
    bind-Gives (IsRead 4) IsCommand (read_exact io 4) _ (read_exact-Gives 4) (λ req h.
      if-Gives IsCommand
        (get_or req 0 0 == 0x05 && get_or req 1 0 == 0x01 && get_or req 2 0 == 0x00) _ _
        (read_connect-Gives (get_or req 3 0))
        (refuse-Gives IsCommand
          (write_all io (0x05 ∷ 0x07 ∷ 0x00 ∷ 0x01 ∷ 0 ∷ 0 ∷ 0 ∷ 0 ∷ 0 ∷ 0 ∷ []))
          unsupported_command))

-- If the connection brings bytes and the handshake succeeds, then the target's port is below 65536,
-- its host consists of Unicode scalar values, and what is left of the connection are bytes.
pub handle_socks5_handshake-IsCommand :
    (auth : Option SocksAuthConfig) (s : Stream) (command : SocksCommand) (s' : Stream)
    → IsBytes s.incoming
    → handle_socks5_handshake auth s ≡ (ok command, s')
    → IsCommand command × IsBytes s'.incoming
unfolding handle_socks5_handshake
handle_socks5_handshake-IsCommand auth =
    bind-Gives (IsRead 2) IsCommand (read_exact io 2) _ (read_exact-Gives 2) (λ hdr h.
      if-Gives IsCommand _ _ _
        (bind-Gives (IsRead (get_or hdr 1 0)) IsCommand (read_exact io (get_or hdr 1 0)) _
          (read_exact-Gives (get_or hdr 1 0))
          (λ methods hm.
            bind-Gives Anything IsCommand _ _ (select_method-Gives auth methods) (λ u hu.
              bind-Gives Anything IsCommand _ _ (authenticate-Gives auth)
                (λ v hv. read_request-Gives))))
        (fail-Gives IsCommand _))
