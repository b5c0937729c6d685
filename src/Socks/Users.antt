-- ===== src/Socks/Users.antt =====
-- `parse_socks_auth` of src/modules/socks.rs.
pub mod RoundTrip
use telegram_socks_ws_proxy.Base.{
  ℕ, ◌≡◌, refl, ap, ◌∙◌, arith, ◌==◌, leb, if◌then◌else◌, Bool, true, false, Bool-cases, not, ◌&&◌,
  ◌||◌, Option, none, some, List, [], ◌∷◌, ◌++◌, map, ◌⊎◌, inl, inr, All,
}
use telegram_socks_ws_proxy.Base.Utf8.{Str, codes}
use telegram_socks_ws_proxy.Base.Text.{
  is_whitespace, trim_start, trim_end, trim, is_empty, cons_first, split_once,
}
use telegram_socks_ws_proxy.Socks.{SocksUser, SocksAuthConfig}
use mathlib.Core.Option

unfoldable pub is_separator : ℕ → Bool
is_separator c = c == b',' || c == 10 || c == b';'

unfoldable pub split_entries : Str → List Str
split_entries [] = [] ∷ []
split_entries (c ∷ s) =
    let rest = split_entries s in if is_separator c then [] ∷ rest else cons_first c rest

unfoldable pub parse_user : Str → Option (Str × Str) → Str ⊎ SocksUser
parse_user entry none =
    inl (codes "invalid SOCKS auth entry `" ++ (entry ++ codes "`: expected user:pass"))
parse_user entry (some (username, password)) =
    if is_empty username
    then inl (codes "SOCKS auth username cannot be empty")
    else if is_empty password
    then inl (codes "SOCKS auth password cannot be empty for user `" ++ (username ++ codes "`"))
    else inr (record { username = username; password = password })

abbrev pub push_user : Str ⊎ SocksUser → Str ⊎ List SocksUser → Str ⊎ List SocksUser
push_user (inl e) later = inl e
push_user (inr user) (inl e) = inl e
push_user (inr user) (inr users) = inr (user ∷ users)

-- The loop over the entries: trimmed, and the empty ones passed over.
unfoldable pub parse_entries : List Str → Str ⊎ List SocksUser
unfolding trim split_once parse_user
parse_entries [] = inr []
parse_entries (raw ∷ rest) =
    let entry = trim raw in
    let later = parse_entries rest in
    if is_empty entry then later else push_user (parse_user entry (split_once b':' entry)) later

abbrev pub config_of : Str ⊎ List SocksUser → Str ⊎ Option SocksAuthConfig
config_of (inl e) = inl e
config_of (inr []) = inr none
config_of (inr (user ∷ users)) = inr (some (record { users = user ∷ users }))

unfoldable pub parse_socks_auth : Str → Str ⊎ Option SocksAuthConfig
unfolding trim split_entries parse_entries
parse_socks_auth input =
    let raw = trim input in
    if is_empty raw then inr none else config_of (parse_entries (split_entries raw))

two_users :
    parse_socks_auth (codes "alice:one, bob:two")
    ≡ inr (
        some (record {
          users =
              record { username = codes "alice"; password = codes "one" }
              ∷ record { username = codes "bob"; password = codes "two" }
              ∷ [];
        }))
unfolding parse_socks_auth is_whitespace is_separator
two_users = refl

-- What a name or a password may hold for its text to be read back.
unfoldable pub is_plain : ℕ → Bool
is_plain c = not (is_whitespace c) && not (is_separator c)

abbrev pub IsPlain : SocksUser → Type 0
IsPlain user =
    (is_empty user.username ≡ false)
    × (is_empty user.password ≡ false)
    × All (λ c. (is_plain c ≡ true) × ((c == b':') ≡ false)) user.username
    × All (λ c. is_plain c ≡ true) user.password

abbrev pub user_text : SocksUser → Str
user_text user = user.username ++ (b':' ∷ user.password)

abbrev pub users_text : SocksUser → List SocksUser → Str
users_text user [] = user_text user
users_text user (next ∷ rest) = user_text user ++ (b',' ∷ users_text next rest)
