-- ===== src/Socks/Users/RoundTrip.antt =====
-- A list of users, written as text, and read by `parse_socks_auth` of src/modules/socks.rs.
use telegram_socks_ws_proxy.Base.{
  ℕ, ◌≡◌, refl, Bool, true, false, not, and-true, some, List, [], ◌∷◌, ◌++◌, inr, All, All-append,
}
use telegram_socks_ws_proxy.Base.Utf8.{Str}
use telegram_socks_ws_proxy.Socks.{SocksUser}
use telegram_socks_ws_proxy.Base.Text.{
  is_whitespace, trim_start, trim_end, trim, is_empty, split_once, split_once-append,
}
use telegram_socks_ws_proxy.Socks.Users.{
  is_separator, split_entries, parse_user, parse_entries, parse_socks_auth, push_user, is_plain,
  IsPlain, user_text, users_text,
}

abbrev HasNoSpace : Str → Type 0
HasNoSpace s = All (λ c. is_whitespace c ≡ false) s

abbrev HasNoSeparator : Str → Type 0
HasNoSeparator s = All (λ c. is_separator c ≡ false) s

All-map : (P Q : ℕ → Type 0) (s : Str) → ((c : ℕ) → P c → Q c) → All P s → All Q s
All-map P Q [] f h = tt
All-map P Q (c ∷ s) f (one, h) = (f c one, All-map P Q s f h)

trim_end-HasNoSpace : (s : Str) → HasNoSpace s → trim_end s ≡ s
unfolding trim_end
trim_end-HasNoSpace [] h = refl
trim_end-HasNoSpace (c ∷ []) (one, h) = rw one
trim_end-HasNoSpace (c ∷ d ∷ s) (one, h) = rw (trim_end-HasNoSpace (d ∷ s) h)

trim-HasNoSpace : (s : Str) → HasNoSpace s → trim s ≡ s
unfolding trim trim_start
trim-HasNoSpace [] h = trim_end-HasNoSpace [] h
trim-HasNoSpace (c ∷ s) h = rw (h.0, trim_end-HasNoSpace (c ∷ s) h)

split_entries-last : (s : Str) → HasNoSeparator s → split_entries s ≡ s ∷ []
unfolding split_entries
split_entries-last [] h = refl
split_entries-last (c ∷ s) (one, h) = rw (one, split_entries-last s h)

split_entries-append :
    (s t : Str) → HasNoSeparator s → split_entries (s ++ (b',' ∷ t)) ≡ s ∷ split_entries t
unfolding split_entries is_separator
split_entries-append [] t h = refl
split_entries-append (c ∷ s) t (one, h) = rw (one, split_entries-append s t h)

is_empty-append : (s t : Str) → is_empty s ≡ false → is_empty (s ++ t) ≡ false
is_empty-append [] t h = cc
is_empty-append (c ∷ s) t h = refl

not-true : (b : Bool) → not b ≡ true → b ≡ false
not-true true h = cc
not-true false h = refl

plain : (c : ℕ) → is_plain c ≡ true → (is_whitespace c ≡ false) × (is_separator c ≡ false)
unfolding is_plain
plain c h =
    let (space, separator) = and-true (not (is_whitespace c)) h in
    (not-true _ space, not-true _ separator)

colon-plain : (is_whitespace b':' ≡ false) × (is_separator b':' ≡ false)
unfolding is_whitespace is_separator
colon-plain = (refl, refl)

comma-plain : is_whitespace b',' ≡ false
unfolding is_whitespace
comma-plain = refl

parse_entries-none : parse_entries [] ≡ inr []
unfolding parse_entries
parse_entries-none = refl

user_text-plain :
    (user : SocksUser)
    → IsPlain user
    → HasNoSpace (user_text user) × HasNoSeparator (user_text user)
user_text-plain user (n, p, hu, hp) = (
  All-append _ user.username (b':' ∷ user.password)
      (All-map _ _ user.username (λ c h. (plain c h.0).0) hu)
      (colon-plain.0, All-map _ _ user.password (λ c h. (plain c h).0) hp),
  All-append _ user.username (b':' ∷ user.password)
      (All-map _ _ user.username (λ c h. (plain c h.0).1) hu)
      (colon-plain.1, All-map _ _ user.password (λ c h. (plain c h).1) hp),
)

parse_user-text :
    (user : SocksUser)
    → IsPlain user
    → parse_user (user_text user) (split_once b':' (user_text user)) ≡ inr user
unfolding parse_user
parse_user-text user (n, p, hu, hp) = rw (
  split_once-append b':' user.username user.password (All-map _ _ user.username (λ c h. h.1) hu),
  n,
  p,
)

users_text-HasNoSpace :
    (user : SocksUser) (rest : List SocksUser)
    → IsPlain user
    → All IsPlain rest
    → HasNoSpace (users_text user rest) × (is_empty (users_text user rest) ≡ false)
users_text-HasNoSpace user [] h hs =
    ((user_text-plain user h).0, is_empty-append user.username _ h.0)
users_text-HasNoSpace user (next ∷ rest) h (h', hs) = (
  All-append _ (user_text user) (b',' ∷ users_text next rest) (user_text-plain user h).0
      (comma-plain, (users_text-HasNoSpace next rest h' hs).0),
  is_empty-append (user_text user) _ (is_empty-append user.username _ h.0),
)

parse_entries-step :
    (user : SocksUser) (rest : List Str)
    → IsPlain user
    → parse_entries (user_text user ∷ rest) ≡ push_user (inr user) (parse_entries rest)
unfolding parse_entries
parse_entries-step user rest h = rw (
  trim-HasNoSpace (user_text user) (user_text-plain user h).0,
  is_empty-append user.username (b':' ∷ user.password) h.0,
  parse_user-text user h,
)

parse_entries-users_text :
    (user : SocksUser) (rest : List SocksUser)
    → IsPlain user
    → All IsPlain rest
    → parse_entries (split_entries (users_text user rest)) ≡ inr (user ∷ rest)
parse_entries-users_text user [] h hs = rw (
  split_entries-last (user_text user) (user_text-plain user h).1,
  parse_entries-step user [] h,
  parse_entries-none,
)
parse_entries-users_text user (next ∷ rest) h (h', hs) = rw (
  split_entries-append (user_text user) (users_text next rest) (user_text-plain user h).1,
  parse_entries-step user (split_entries (users_text next rest)) h,
  parse_entries-users_text next rest h' hs,
)

-- Users whose names and passwords are not empty and hold no white space and no separator, and whose names hold no
-- colon, come back in order from their text.
pub parse_socks_auth-users_text :
    (user : SocksUser) (rest : List SocksUser)
    → IsPlain user
    → All IsPlain rest
    → parse_socks_auth (users_text user rest) ≡ inr (some (record { users = user ∷ rest }))
unfolding parse_socks_auth
parse_socks_auth-users_text user rest h hs =
    let (no_space, not_empty) = users_text-HasNoSpace user rest h hs in
    rw (
      trim-HasNoSpace (users_text user rest) no_space,
      not_empty,
      parse_entries-users_text user rest h hs,
    )
