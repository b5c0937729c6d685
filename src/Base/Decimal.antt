-- ===== src/Base/Decimal.antt =====
-- `to_string` of an unsigned integer and `str::parse::<u16>` of the standard library.
use telegram_socks_ws_proxy.Base.Tests.{ltb, leb, ◌==◌, if◌then◌else◌, Bool-cases}
use telegram_socks_ws_proxy.Base.Lists.{All}
use telegram_socks_ws_proxy.Base.Utf8.{Str, codes}
use Prim.Native.Nat.{ℕ, zero, suc, ◌+◌, ◌-◌, ◌*◌, ◌/◌, ◌%◌, ◌≤◌, ◌<◌}
use mathlib.Core.Path.{◌≡◌, refl, ◌∙◌}
use mathlib.Core.Logic.{inl, inr}
use mathlib.Core.Bool.{false, ◌&&◌}
use mathlib.Core.Option.{Option, none, some}
use mathlib.Core.List.{[], ◌∷◌}
use native.Mathlib.Omega.{arith}

-- The digits of a number, put in front of a text.
unfoldable pub digits_before : ℕ → ℕ → Str → Str
digits_before zero n text = text
digits_before (suc fuel) n text =
    let text' = (b'0' + n % 10) ∷ text in
    let rest = digits_before fuel (n / 10) text' in if ltb n 10 then text' else rest

unfoldable pub to_string : ℕ → Str
unfolding digits_before
to_string n = digits_before (suc n) n []

-- Every character is a digit, and no prefix goes beyond `u16::MAX`.
unfoldable pub parse_digits : ℕ → Str → Option ℕ
parse_digits acc [] = some acc
parse_digits acc (c ∷ s) =
    let acc' = acc * 10 + (c - b'0') in
    let rest = parse_digits acc' s in
    if leb b'0' c && leb c b'9' && ltb acc' 65536 then rest else none

-- One plus sign is allowed.
unfoldable pub parse_u16 : Str → Option ℕ
unfolding parse_digits
parse_u16 [] = none
parse_u16 (c ∷ []) = if c == b'+' then none else parse_digits 0 (c ∷ [])
parse_u16 (c ∷ d ∷ s) = if c == b'+' then parse_digits 0 (d ∷ s) else parse_digits 0 (c ∷ d ∷ s)

parsed : parse_u16 (codes "+0443") ≡ some 443
unfolding parse_u16
parsed = refl

too_large : parse_u16 (codes "65536") ≡ none
unfolding parse_u16
too_large = refl

printed : to_string 65535 ≡ codes "65535"
unfolding to_string
printed = refl

-- What is parsed behind the digits of a number goes on from that number.
parse_digits-digits_before :
    (fuel n : ℕ) (text : Str)
    → n < fuel
    → n < 65536
    → parse_digits 0 (digits_before fuel n text) ≡ parse_digits n text
unfolding parse_digits digits_before
parse_digits-digits_before zero n text f h = absurd (omega arith)
parse_digits-digits_before (suc fuel) n text f h =
    ground (arith, parse_digits-digits_before fuel (n / 10) ((b'0' + n % 10) ∷ text))

-- The first character of a number's text is a digit.
abbrev StartsWithDigit : Str → Type 0
StartsWithDigit [] = ⊥
StartsWithDigit (c ∷ s) = (b'0' ≤ c) × (c ≤ b'9')

digits_before-StartsWithDigit :
    (fuel n : ℕ) (text : Str) → n < fuel → StartsWithDigit (digits_before fuel n text)
unfolding digits_before
digits_before-StartsWithDigit zero n text h = absurd (omega arith)
digits_before-StartsWithDigit (suc fuel) n text h = elim (Bool-cases (ltb n 10)) [
  | inl last ↦ rw last (omega arith, omega arith)
  | inr more ↦
      rw more (digits_before-StartsWithDigit fuel (n / 10) ((b'0' + n % 10) ∷ text) (ground arith))
]

parse_u16-StartsWithDigit : (s : Str) → StartsWithDigit s → parse_u16 s ≡ parse_digits 0 s
unfolding parse_u16
parse_u16-StartsWithDigit [] h = absurd h
parse_u16-StartsWithDigit (c ∷ []) (lo, hi) =
    let plus : (c == b'+') ≡ false = ground arith in rw plus
parse_u16-StartsWithDigit (c ∷ d ∷ s) (lo, hi) =
    let plus : (c == b'+') ≡ false = ground arith in rw plus

-- A `u16` is parsed from its text.
pub parse_u16-to_string : (n : ℕ) → n < 65536 → parse_u16 (to_string n) ≡ some n
unfolding to_string parse_digits
parse_u16-to_string n h =
    parse_u16-StartsWithDigit (digits_before (suc n) n [])
      (digits_before-StartsWithDigit (suc n) n [] (omega arith))
    ∙ parse_digits-digits_before (suc n) n [] (omega arith) h

abbrev pub IsDigit : ℕ → Type 0
IsDigit c = (b'0' ≤ c) × (c ≤ b'9')

digits_before-IsDigit :
    (fuel n : ℕ) (text : Str) → All IsDigit text → All IsDigit (digits_before fuel n text)
unfolding digits_before
digits_before-IsDigit zero n text h = h
digits_before-IsDigit (suc fuel) n text h =
    let h' : All IsDigit ((b'0' + n % 10) ∷ text) = ((omega arith, omega arith), h) in
    elim (Bool-cases (ltb n 10)) [
      | inl last ↦ rw last h'
      | inr more ↦ rw more (digits_before-IsDigit fuel (n / 10) ((b'0' + n % 10) ∷ text) h')
    ]

pub to_string-IsDigit : (n : ℕ) → All IsDigit (to_string n)
unfolding to_string
to_string-IsDigit n = digits_before-IsDigit (suc n) n [] tt

-- The text of a number has a digit first, and digits only.
pub to_string-digits : (n : ℕ) → (c : ℕ) × (s : Str) × (to_string n ≡ c ∷ s) × All IsDigit (c ∷ s)
unfolding to_string
to_string-digits n =
    first (digits_before (suc n) n []) (digits_before-StartsWithDigit (suc n) n [] (omega arith))
      (to_string-IsDigit n)
  where
    first :
        (s : Str)
        → StartsWithDigit s
        → All IsDigit s
        → (c : ℕ) × (t : Str) × (s ≡ c ∷ t) × All IsDigit (c ∷ t)
    first [] h d = absurd h
    first (c ∷ s) h d = (c, s, refl, d)
