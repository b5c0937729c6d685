-- ===== src/Net/Ip.antt =====
-- The text forms of `Ipv4Addr`, `Ipv6Addr` and `IpAddr` of the standard library, read (`from_str`) and
-- written (`to_string`).
pub mod Ipv4
pub mod Ascii
use telegram_socks_ws_proxy.Base.{
  ℕ, zero, suc, ◌+◌, ◌-◌, ◌*◌, ◌/◌, ◌%◌, ◌==◌, ltb, leb, if◌then◌else◌, Bool, true, false, not,
  ◌&&◌, ◌||◌, Option, none, some, List, [], ◌∷◌, ◌++◌, length, replicate, take, drop,
}
use telegram_socks_ws_proxy.Base.Utf8.{Str, codes}
use mathlib.Core.Option

pub data IpAddr : Type 0 where
  -- four octets
  v4 : ℕ → ℕ → ℕ → ℕ → IpAddr
  -- eight groups of 16 bits
  v6 : List ℕ → IpAddr

infixl 5 ◌>>=◌
abbrev pub ◌>>=◌ : {A B : Type 0} → Option A → (A → Option B) → Option B
none >>= f = none
some a >>= f = f a

-- `char::to_digit`
unfoldable pub to_digit : ℕ → ℕ → Option ℕ
to_digit radix c =
    let value =
      if leb b'0' c && leb c b'9'
      then c - b'0'
      else if leb b'a' c && leb c b'z'
      then c - b'a' + 10
      else if leb b'A' c && leb c b'Z'
      then c - b'A' + 10
      else 99 in
    if ltb value radix then some value else none

-- The digits in front, and what follows them.
unfoldable pub span_digits : ℕ → Str → List ℕ × Str
unfolding to_digit
span_digits radix [] = ([], [])
span_digits radix (c ∷ s) = elim (to_digit radix c) [
  | none ↦ ([], c ∷ s)
  | some d ↦ let (ds, rest) = span_digits radix s in (d ∷ ds, rest)
]

unfoldable pub value_of : ℕ → ℕ → List ℕ → ℕ
value_of radix acc [] = acc
value_of radix acc (d ∷ ds) = value_of radix (acc * radix + d) ds

-- `read_number`: at least one digit, at most `max_digits`, no zero in front unless allowed.
unfoldable pub checked_digits : ℕ → ℕ → Bool → ℕ → List ℕ × Str → Option (ℕ × Str)
unfolding value_of
checked_digits radix max_digits allow_zero_prefix limit ([], rest) = none
checked_digits radix max_digits allow_zero_prefix limit (d ∷ ds, rest) =
    let value = value_of radix 0 (d ∷ ds) in
    if ltb max_digits (length (d ∷ ds))
    then none
    else if not allow_zero_prefix && d == 0 && ltb 1 (length (d ∷ ds))
    then none
    else if ltb value limit
    then some (value, rest)
    else none

unfoldable pub read_number : ℕ → ℕ → Bool → ℕ → Str → Option (ℕ × Str)
unfolding span_digits checked_digits
read_number radix max_digits allow_zero_prefix limit s =
    checked_digits radix max_digits allow_zero_prefix limit (span_digits radix s)

unfoldable pub read_given_char : ℕ → Str → Option Str
read_given_char c [] = none
read_given_char c (d ∷ s) = if d == c then some s else none

unfoldable pub read_octet : Str → Option (ℕ × Str)
unfolding read_number
read_octet s = read_number 10 3 false 256 s

unfoldable pub read_ipv4_addr : Str → Option (ℕ × ℕ × ℕ × ℕ × Str)
unfolding read_given_char
read_ipv4_addr s = do
  (a, s₁) ← read_octet s
  s₂ ← read_given_char b'.' s₁
  (b, s₃) ← read_octet s₂
  s₄ ← read_given_char b'.' s₃
  (c, s₅) ← read_octet s₄
  s₆ ← read_given_char b'.' s₅
  (d, s₇) ← read_octet s₆
  some (a, b, c, d, s₇)

-- A colon in front of every group but the first.
unfoldable pub read_separator : Bool → Str → Option Str
unfolding read_given_char
read_separator true s = some s
read_separator false s = read_given_char b':' s

unfoldable pub read_group : Bool → Str → Option (ℕ × Str)
unfolding read_separator read_number
read_group first s = do s' ← read_separator first s; read_number 16 4 true 65536 s'

unfoldable pub read_embedded_ipv4 : Bool → Str → Option (ℕ × ℕ × ℕ × ℕ × Str)
unfolding read_separator read_ipv4_addr
read_embedded_ipv4 first s = do s' ← read_separator first s; read_ipv4_addr s'

-- `read_groups` with the groups that are left to fill: the groups, whether the last two are an
-- embedded IPv4 address, and what follows. Such an address needs two groups.
unfoldable pub read_groups : ℕ → Bool → Str → List ℕ × Bool × Str
unfolding read_group read_embedded_ipv4
read_groups zero first s = ([], false, s)
read_groups (suc left) first s =
    let embedded = if left == 0 then none else read_embedded_ipv4 first s in
    let grouped : List ℕ × Bool × Str = elim (read_group first s) [
      | none ↦ ([], false, s)
      | some (g, s') ↦ let (gs, v4?, rest) = read_groups left false s' in (g ∷ gs, v4?, rest)
    ] in
    elim embedded [
      | some (a, b, c, d, rest) ↦ ((a * 256 + b) ∷ (c * 256 + d) ∷ [], true, rest)
      | none ↦ grouped
    ]

unfoldable pub read_ipv6_tail : List ℕ → Str → Option (List ℕ × Str)
unfolding read_groups
read_ipv6_tail head s = do
  s₁ ← read_given_char b':' s
  s₂ ← read_given_char b':' s₁
  let (tail, v4?, rest) = read_groups (8 - (length head + 1)) true s₂
  some (head ++ (replicate (8 - length head - length tail) 0 ++ tail), rest)

unfoldable pub read_ipv6_addr : Str → Option (List ℕ × Str)
unfolding read_groups read_ipv6_tail
read_ipv6_addr s =
    let (head, head_ipv4, rest) = read_groups 8 true s in
    if length head == 8
    then some (head, rest)
    else if head_ipv4
    then none
    else read_ipv6_tail head rest

-- The whole text has to be used up.
abbrev pub at_end {ℓ} : {A : Type ℓ} → A → Str → Option A
at_end a [] = some a
at_end a (c ∷ s) = none

unfoldable pub parse_ipv6 : Str → Option (List ℕ)
unfolding read_ipv6_addr
parse_ipv6 s = do (groups, rest) ← read_ipv6_addr s; at_end groups rest

abbrev pub v4_at_end : ℕ × ℕ × ℕ × ℕ × Str → Option IpAddr
v4_at_end (a, b, c, d, rest) = at_end (v4 a b c d) rest

unfoldable pub parse_ipv4 : Str → Option IpAddr
parse_ipv4 s = read_ipv4_addr s >>= v4_at_end

unfoldable pub parse_ip : Str → Option IpAddr
parse_ip s = elim (read_ipv4_addr s) [
  | some r ↦ v4_at_end r
  | none ↦ do (groups, rest) ← read_ipv6_addr s; at_end (v6 groups) rest
]

-- Decimal, without zeros in front.
unfoldable pub octet_text : ℕ → Str
octet_text n =
    if ltb n 10
    then (b'0' + n) ∷ []
    else if ltb n 100
    then (b'0' + n / 10) ∷ (b'0' + n % 10) ∷ []
    else (b'0' + n / 100) ∷ (b'0' + n / 10 % 10) ∷ (b'0' + n % 10) ∷ []

unfoldable pub ipv4_text : ℕ → ℕ → ℕ → ℕ → Str
unfolding octet_text
ipv4_text a b c d =
    octet_text a ++ (b'.' ∷ (octet_text b ++ (b'.' ∷ (octet_text c ++ (b'.' ∷ octet_text d)))))

abbrev hex_digit : ℕ → ℕ
hex_digit n = if ltb n 10 then b'0' + n else b'a' + (n - 10)

unfoldable pub group_text : ℕ → Str
group_text n =
    if ltb n 16
    then hex_digit n ∷ []
    else if ltb n 256
    then hex_digit (n / 16) ∷ hex_digit (n % 16) ∷ []
    else if ltb n 4096
    then hex_digit (n / 256) ∷ hex_digit (n / 16 % 16) ∷ hex_digit (n % 16) ∷ []
    else hex_digit (n / 4096)
      ∷ hex_digit (n / 256 % 16)
      ∷ hex_digit (n / 16 % 16)
      ∷ hex_digit (n % 16)
      ∷ []

unfoldable pub groups_text : List ℕ → Str
unfolding group_text
groups_text [] = []
groups_text (g ∷ []) = group_text g
groups_text (g ∷ h ∷ gs) = group_text g ++ (b':' ∷ groups_text (h ∷ gs))

-- The first longest run of zero groups, as its start and length: `i` is the index, then come the
-- current run and the longest so far.
unfoldable pub longest_zeros : List ℕ → ℕ → ℕ × ℕ → ℕ × ℕ → ℕ × ℕ
longest_zeros [] i current longest = longest
longest_zeros (g ∷ gs) i current longest =
    let current' : ℕ × ℕ = if current.1 == 0 then (i, 1) else (current.0, current.1 + 1) in
    longest_zeros gs (i + 1) (if g == 0 then current' else (0, 0))
      (if g == 0 && ltb longest.1 current'.1 then current' else longest)

unfoldable pub compressed_text : List ℕ → ℕ × ℕ → Str
unfolding groups_text
compressed_text groups (start, len) =
    if ltb 1 len
    then groups_text (take start groups) ++ (b':' ∷ b':' ∷ groups_text (drop (start + len) groups))
    else groups_text groups

unfoldable pub ipv6_text : List ℕ → Str
unfolding ipv4_text compressed_text longest_zeros
ipv6_text (zero ∷ zero ∷ zero ∷ zero ∷ zero ∷ f ∷ g ∷ h ∷ []) =
    if f == 0xFFFF
    then codes "::ffff:" ++ ipv4_text (g / 256) (g % 256) (h / 256) (h % 256)
    else compressed_text (0 ∷ 0 ∷ 0 ∷ 0 ∷ 0 ∷ f ∷ g ∷ h ∷ [])
        (longest_zeros (0 ∷ 0 ∷ 0 ∷ 0 ∷ 0 ∷ f ∷ g ∷ h ∷ []) 0 (0, 0) (0, 0))
ipv6_text groups = compressed_text groups (longest_zeros groups 0 (0, 0) (0, 0))
