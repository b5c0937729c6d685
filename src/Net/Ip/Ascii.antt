-- ===== src/Net/Ip/Ascii.antt =====
-- The texts of IP addresses are ASCII.
use telegram_socks_ws_proxy.Base.{
  ℕ, zero, ◌/◌, ◌%◌, ◌+◌, ◌<◌, ltb, ◌==◌, arith, if◌then◌else◌, Bool, true, false, List, [], ◌∷◌,
  ◌++◌, take, drop, All, All-append, All-take, All-drop,
}
use telegram_socks_ws_proxy.Base.Utf8.{Str, codes}
use telegram_socks_ws_proxy.Net.Ip.{
  octet_text, ipv4_text, group_text, groups_text, compressed_text, longest_zeros, ipv6_text,
}

abbrev pub IsAscii : Str → Type 0
IsAscii s = All (λ c. c < 0x80) s

octet_text-IsAscii : (n : ℕ) → n < 256 → IsAscii (octet_text n)
unfolding octet_text
octet_text-IsAscii n h = ground arith

pub ipv4_text-IsAscii :
    (a b c d : ℕ) → a < 256 → b < 256 → c < 256 → d < 256 → IsAscii (ipv4_text a b c d)
unfolding ipv4_text
ipv4_text-IsAscii a b c d ha hb hc hd =
    dotted a _ ha (dotted b _ hb (dotted c _ hc (octet_text-IsAscii d hd)))
  where
    dotted : (n : ℕ) (s : Str) → n < 256 → IsAscii s → IsAscii (octet_text n ++ (b'.' ∷ s))
    dotted n s h hs =
        All-append (λ c. c < 0x80) (octet_text n) (b'.' ∷ s) (octet_text-IsAscii n h)
          (omega arith, hs)

group_text-IsAscii : (n : ℕ) → n < 65536 → IsAscii (group_text n)
unfolding group_text
group_text-IsAscii n h = ground arith

abbrev pub IsGroups : List ℕ → Type 0
IsGroups groups = All (λ g. g < 65536) groups

groups_text-IsAscii : (groups : List ℕ) → IsGroups groups → IsAscii (groups_text groups)
unfolding groups_text
groups_text-IsAscii [] h = tt
groups_text-IsAscii (g ∷ []) (one, h) = group_text-IsAscii g one
groups_text-IsAscii (g ∷ f ∷ gs) (one, h) =
    All-append (λ c. c < 0x80) (group_text g) (b':' ∷ groups_text (f ∷ gs))
      (group_text-IsAscii g one) (omega arith, groups_text-IsAscii (f ∷ gs) h)

compressed_text-IsAscii :
    (groups : List ℕ) (run : ℕ × ℕ) → IsGroups groups → IsAscii (compressed_text groups run)
unfolding compressed_text
compressed_text-IsAscii groups (start, len) h = by_length (ltb 1 len)
  where
    by_length :
        (b : Bool)
        → IsAscii (
            if b
            then groups_text (take start groups)
              ++ (b':' ∷ b':' ∷ groups_text (drop (start + len) groups))
            else groups_text groups)
    by_length true =
        All-append (λ c. c < 0x80) (groups_text (take start groups))
          (b':' ∷ b':' ∷ groups_text (drop (start + len) groups))
          (groups_text-IsAscii (take start groups) (All-take (λ g. g < 65536) start groups h))
          (
            omega arith,
            (
              omega arith,
              groups_text-IsAscii (drop (start + len) groups)
                  (All-drop (λ g. g < 65536) (start + len) groups h),
            ),
          )
    by_length false = groups_text-IsAscii groups h

mapped-IsAscii :
    (g h : ℕ)
    → g < 65536
    → h < 65536
    → IsAscii (codes "::ffff:" ++ ipv4_text (g / 256) (g % 256) (h / 256) (h % 256))
mapped-IsAscii g h bg bh =
    All-append (λ c. c < 0x80) (codes "::ffff:") _ (omega arith)
      (ipv4_text-IsAscii (g / 256) (g % 256) (h / 256) (h % 256) (omega arith) (omega arith)
        (omega arith) (omega arith))

either : (b : Bool) (s t : Str) → IsAscii s → IsAscii t → IsAscii (if b then s else t)
either true s t h k = h
either false s t h k = k

-- The text is the compressed one, but for an embedded IPv4 address.
pub ipv6_text-IsAscii : (groups : List ℕ) → IsGroups groups → IsAscii (ipv6_text groups)
unfolding ipv6_text
ipv6_text-IsAscii (zero ∷ zero ∷ zero ∷ zero ∷ zero ∷ f ∷ g ∷ h ∷ []) bounds =
    either (f == 0xFFFF) _ _ (mapped-IsAscii g h bounds.1.1.1.1.1.1.0 bounds.1.1.1.1.1.1.1.0) (
      compressed_text-IsAscii (0 ∷ 0 ∷ 0 ∷ 0 ∷ 0 ∷ f ∷ g ∷ h ∷ [])
        (longest_zeros (0 ∷ 0 ∷ 0 ∷ 0 ∷ 0 ∷ f ∷ g ∷ h ∷ []) 0 (0, 0) (0, 0)) bounds)
ipv6_text-IsAscii groups bounds =
    compressed_text-IsAscii groups (longest_zeros groups 0 (0, 0) (0, 0)) bounds
