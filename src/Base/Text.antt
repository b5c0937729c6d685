-- ===== src/Base/Text.antt =====
-- Functions of `str`, `char` and slices of the standard library, on texts as lists of code points.
use telegram_socks_ws_proxy.Base.Lists.{length, drop, All}
use telegram_socks_ws_proxy.Base.Tests.{leb, ◌==◌, ==_iff, if◌then◌else◌, and-true}
use telegram_socks_ws_proxy.Base.Utf8.{Str}
use Prim.Native.Nat.{ℕ, ◌+◌, ◌-◌}
use mathlib.Core.Path.{◌≡◌, refl}
use mathlib.Core.Bool.{Bool, true, false, ◌&&◌, ◌||◌}
use mathlib.Core.Option.{Option, none, some}
use mathlib.Core.List.{List, [], ◌∷◌, ◌++◌, map}
use mathlib.Core.Option
use native.Mathlib.Omega.{arith}

-- `char::is_whitespace`
unfoldable pub is_whitespace : ℕ → Bool
is_whitespace c =
    (leb 9 c && leb c 13)
    || c == 32
    || c == 0x85
    || c == 0xA0
    || c == 0x1680
    || (leb 0x2000 c && leb c 0x200A)
    || c == 0x2028
    || c == 0x2029
    || c == 0x202F
    || c == 0x205F
    || c == 0x3000

unfoldable pub trim_start : Str → Str
trim_start [] = []
trim_start (c ∷ s) = if is_whitespace c then trim_start s else c ∷ s

abbrev pub cons_trimmed : ℕ → Str → Str
cons_trimmed c [] = if is_whitespace c then [] else c ∷ []
cons_trimmed c (d ∷ s) = c ∷ d ∷ s

unfoldable pub trim_end : Str → Str
trim_end [] = []
trim_end (c ∷ s) = cons_trimmed c (trim_end s)

unfoldable pub trim : Str → Str
unfolding trim_start trim_end
trim s = trim_end (trim_start s)

abbrev pub is_empty : Str → Bool
is_empty [] = true
is_empty (c ∷ s) = false

-- Of the pieces of a text.
abbrev pub cons_first : ℕ → List Str → List Str
cons_first c [] = (c ∷ []) ∷ []
cons_first c (s ∷ rest) = (c ∷ s) ∷ rest

unfoldable pub split_once : ℕ → Str → Option (Str × Str)
split_once d [] = none
split_once d (c ∷ s) =
    let rest = split_once d s in
    if c == d then some ([], s) else Option.map (λ (a, b). (c ∷ a, b)) rest

-- `==` of two strings.
unfoldable pub eq_str : Str → Str → Bool
eq_str [] [] = true
eq_str [] (d ∷ t) = false
eq_str (c ∷ s) [] = false
eq_str (c ∷ s) (d ∷ t) = c == d && eq_str s t

pub eq_str→≡ : (s t : Str) → eq_str s t ≡ true → s ≡ t
unfolding eq_str
eq_str→≡ [] [] h = refl
eq_str→≡ [] (d ∷ t) h = cc
eq_str→≡ (c ∷ s) [] h = cc
eq_str→≡ (c ∷ s) (d ∷ t) h =
    let (one, later) = and-true (c == d) h in rw ((==_iff c d).0 one, eq_str→≡ s t later)

pub eq_str_refl : (s : Str) → eq_str s s ≡ true
unfolding eq_str
eq_str_refl [] = refl
eq_str_refl (c ∷ s) = rw ((==_iff c c).1 refl, eq_str_refl s)

-- The pieces between the code points that `ends` picks; there is one at least.
unfoldable pub split_by : (ℕ → Bool) → Str → List Str
split_by ends [] = [] ∷ []
split_by ends (c ∷ s) =
    let rest = split_by ends s in if ends c then [] ∷ rest else cons_first c rest

abbrev pub not_empty : List Str → List Str
not_empty [] = []
not_empty ([] ∷ rest) = not_empty rest
not_empty ((c ∷ s) ∷ rest) = (c ∷ s) ∷ not_empty rest

unfoldable pub split_whitespace : Str → List Str
unfolding split_by is_whitespace
split_whitespace s = not_empty (split_by is_whitespace s)

-- `trim_end_matches` of one code point.
abbrev pub cons_kept : ℕ → ℕ → Str → Str
cons_kept d c [] = if c == d then [] else c ∷ []
cons_kept d c (e ∷ s) = c ∷ e ∷ s

unfoldable pub trim_end_matches : ℕ → Str → Str
trim_end_matches d [] = []
trim_end_matches d (c ∷ s) = cons_kept d c (trim_end_matches d s)

unfoldable pub to_ascii_lowercase : ℕ → ℕ
to_ascii_lowercase c = if leb b'A' c && leb c b'Z' then c + 32 else c

unfoldable pub eq_ignore_ascii_case : Str → Str → Bool
unfolding eq_str to_ascii_lowercase
eq_ignore_ascii_case s t = eq_str (map to_ascii_lowercase s) (map to_ascii_lowercase t)

unfoldable pub starts_with : Str → Str → Bool
starts_with [] s = true
starts_with (c ∷ p) [] = false
starts_with (c ∷ p) (d ∷ s) = c == d && starts_with p s

unfoldable pub ends_with : Str → Str → Bool
unfolding eq_str
ends_with p s = leb (length p) (length s) && eq_str (drop (length s - length p) s) p

unfoldable pub any : (Str → Bool) → List Str → Bool
any f [] = false
any f (s ∷ rest) = f s || any f rest

unfoldable pub strip_prefix : ℕ → Str → Option Str
strip_prefix d [] = none
strip_prefix d (c ∷ s) = if c == d then some s else none

unfoldable pub strip_suffix : ℕ → Str → Option Str
strip_suffix d [] = none
strip_suffix d (c ∷ []) = if c == d then some [] else none
strip_suffix d (c ∷ e ∷ s) = Option.map (λ t. c ∷ t) (strip_suffix d (e ∷ s))

-- At the last place where it stands.
unfoldable pub rsplit_once : ℕ → Str → Option (Str × Str)
rsplit_once d [] = none
rsplit_once d (c ∷ s) = elim (rsplit_once d s) [
  | some (a, b) ↦ some (c ∷ a, b)
  | none ↦ if c == d then some ([], s) else none
]

unfoldable pub contains_str : Str → List Str → Bool
unfolding eq_str
contains_str s [] = false
contains_str s (t ∷ rest) = eq_str t s || contains_str s rest

-- The first place of the separator is behind what has none.
pub split_once-append :
    (d : ℕ) (s t : Str) → All (λ c. (c == d) ≡ false) s → split_once d (s ++ (d ∷ t)) ≡ some (s, t)
unfolding split_once
split_once-append d [] t h = let same : (d == d) ≡ true = ground arith in rw same
split_once-append d (c ∷ s) t (one, h) = rw (one, split_once-append d s t h)
