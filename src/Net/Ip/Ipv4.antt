-- ===== src/Net/Ip/Ipv4.antt =====
-- The text of an IPv4 address reads back as that address.
use telegram_socks_ws_proxy.Base.{
  ℕ, ◌+◌, ◌/◌, ◌%◌, ◌<◌, ◌≡◌, refl, ap, sym, ◌∙◌, arith, ltb, Bool-cases, inl, inr, none, some, [],
  ◌∷◌, ◌++◌, append-nil,
}
use telegram_socks_ws_proxy.Base.Utf8.{Str, codes}
use telegram_socks_ws_proxy.Net.Ip.{
  v4, v6, to_digit, span_digits, checked_digits, read_octet, read_ipv4_addr, parse_ip, parse_ipv4,
  read_ipv6_addr, octet_text, ipv4_text, ipv6_text, parse_ipv6,
}

-- What follows a number: the end, or a dot.
abbrev Follow : Str → Type 0
Follow rest = span_digits 10 rest ≡ ([], rest)

Follow-nil : Follow []
unfolding span_digits
Follow-nil = refl

Follow-dot : (rest : Str) → Follow (b'.' ∷ rest)
unfolding span_digits
Follow-dot rest = refl

digit_kept : (d : ℕ) → d < 10 → to_digit 10 (b'0' + d) ≡ some d
unfolding to_digit
digit_kept d h = ground arith

span-digit :
    (d : ℕ) (s : Str)
    → d < 10
    → span_digits 10 ((b'0' + d) ∷ s) ≡ (d ∷ (span_digits 10 s).0, (span_digits 10 s).1)
unfolding span_digits
span-digit d s h = rw (digit_kept d h, span_digits)

read_octet-text :
    (n : ℕ) (rest : Str)
    → n < 256
    → Follow rest
    → read_octet (octet_text n ++ rest) ≡ some (n, rest)
unfolding read_octet octet_text checked_digits
read_octet-text n rest h f = elim (Bool-cases (ltb n 10)) [
  | inl one ↦ rw (one, span-digit n rest (ground arith), f) (ground arith)
  | inr more ↦ elim (Bool-cases (ltb n 100)) [
    | inl two ↦
        rw
          (
            more,
            two,
            span-digit (n / 10) ((b'0' + n % 10) ∷ rest) (ground arith),
            span-digit (n % 10) rest (omega arith),
            f,
          )
          (ground arith)
    | inr three ↦
        rw
          (
            more,
            three,
            span-digit (n / 100) ((b'0' + n / 10 % 10) ∷ (b'0' + n % 10) ∷ rest) (omega arith),
            span-digit (n / 10 % 10) ((b'0' + n % 10) ∷ rest) (omega arith),
            span-digit (n % 10) rest (omega arith),
            f,
          )
          (ground arith)
  ]
]

read_ipv4_addr-text :
    (a b c d : ℕ)
    → a < 256
    → b < 256
    → c < 256
    → d < 256
    → read_ipv4_addr (ipv4_text a b c d) ≡ some (a, b, c, d, [])
unfolding read_ipv4_addr ipv4_text
read_ipv4_addr-text a b c d ha hb hc hd =
    let end : read_octet (octet_text d) ≡ some (d, []) =
      ap read_octet (sym (append-nil (octet_text d))) ∙ read_octet-text d [] hd Follow-nil in
    rw (
      read_octet-text a (b'.' ∷ (octet_text b ++ (b'.' ∷ (octet_text c ++ (b'.' ∷ octet_text d)))))
          ha (Follow-dot _),
      read_octet-text b (b'.' ∷ (octet_text c ++ (b'.' ∷ octet_text d))) hb (Follow-dot _),
      read_octet-text c (b'.' ∷ octet_text d) hc (Follow-dot _),
      end,
    )

-- The text of four octets parses as the address of those octets, by both readers.
pub parse_ip-ipv4_text :
    (a b c d : ℕ)
    → a < 256
    → b < 256
    → c < 256
    → d < 256
    → (parse_ip (ipv4_text a b c d) ≡ some (v4 a b c d))
      × (parse_ipv4 (ipv4_text a b c d) ≡ some (v4 a b c d))
unfolding parse_ip parse_ipv4
parse_ip-ipv4_text a b c d ha hb hc hd =
    let e = read_ipv4_addr-text a b c d ha hb hc hd in (rw (e, parse_ip), rw e)

parsed :
    parse_ip (codes "2001:67c:4e8::1234")
    ≡ some (v6 (0x2001 ∷ 0x67c ∷ 0x4e8 ∷ 0 ∷ 0 ∷ 0 ∷ 0 ∷ 0x1234 ∷ []))
unfolding parse_ip read_ipv4_addr read_octet read_ipv6_addr
parsed = refl

printed :
    ipv6_text (0x2001 ∷ 0x67c ∷ 0x4e8 ∷ 0 ∷ 0 ∷ 0 ∷ 0 ∷ 0x1234 ∷ []) ≡ codes "2001:67c:4e8::1234"
unfolding ipv6_text
printed = refl

printed_mapped :
    ipv6_text (0 ∷ 0 ∷ 0 ∷ 0 ∷ 0 ∷ 0xFFFF ∷ 0x0102 ∷ 0x0a0b ∷ []) ≡ codes "::ffff:1.2.10.11"
unfolding ipv6_text
printed_mapped = refl

printed_zeros : ipv6_text (0 ∷ 0 ∷ 1 ∷ 0 ∷ 0 ∷ 0 ∷ 2 ∷ 3 ∷ []) ≡ codes "0:0:1::2:3"
unfolding ipv6_text
printed_zeros = refl

parsed_embedded :
    parse_ipv6 (codes "::ffff:1.2.10.11") ≡ some (0 ∷ 0 ∷ 0 ∷ 0 ∷ 0 ∷ 0xFFFF ∷ 0x0102 ∷ 0x0a0b ∷ [])
unfolding parse_ipv6 read_octet
parsed_embedded = refl

refused : parse_ip (codes "149.154.167.050") ≡ none
unfolding parse_ip read_ipv4_addr read_octet read_ipv6_addr
refused = refl
