-- ===== src/Telegram/Catalog/Ranges.antt =====
-- Which addresses src/modules/telegram/catalog.rs takes for Telegram's, by their octets, and its table of
-- data centres against its ranges.
use telegram_socks_ws_proxy.Base.{
  ℕ, ◌≤◌, ◌<◌, ◌≡◌, refl, ap, ◌∙◌, arith, leb, ◌==◌, Bool, true, false, ◌&&◌, ◌||◌, Bool-cases,
  and-true, Option-cases, leb→le, ==_iff, inl, inr, ◌⊎◌, Option, none, some, List, [], ◌∷◌,
}
use telegram_socks_ws_proxy.Base.Utf8.{Str}
use telegram_socks_ws_proxy.Net.Ip.{
  IpAddr, v4, v6, ◌>>=◌, parse_ip, parse_ipv4, ipv4_text, v4_at_end, read_ipv4_addr,
}
use telegram_socks_ws_proxy.Net.Ip.Ipv4.{parse_ip-ipv4_text}
use telegram_socks_ws_proxy.Telegram.Catalog.{
  TelegramIpEntry, u32_of, u32_of_addr, ip_to_dc_table, tg_ipv4_ranges, in_ranges, is_telegram_addr,
  is_telegram_ip, find_entry, entry_of, ip_to_dc,
}

false-or : (x : Bool) → (x || false) ≡ x
false-or true = refl
false-or false = refl

-- The ranges, by their octets.
abbrev pub is_telegram_octets : ℕ → ℕ → ℕ → Bool
is_telegram_octets a b c =
    (a == 185 && b == 76 && c == 151)
    || ((a == 149 && b == 154 && leb 160 c && leb c 175)
        || ((a == 91 && b == 105 && leb 192 c && leb c 193) || (a == 91 && b == 108)))

module _ (a b c d : ℕ) (ha : a < 256) (hb : b < 256) (hc : c < 256) (hd : d < 256) where
  first_range :
      (leb 3108804352 (u32_of a b c d) && leb (u32_of a b c d) 3108804607)
      ≡ (a == 185 && b == 76 && c == 151)
  first_range = ground arith

  second_range :
      (leb 2509938688 (u32_of a b c d) && leb (u32_of a b c d) 2509942783)
      ≡ (a == 149 && b == 154 && leb 160 c && leb c 175)
  second_range = ground arith

  third_range :
      (leb 1533657088 (u32_of a b c d) && leb (u32_of a b c d) 1533657599)
      ≡ (a == 91 && b == 105 && leb 192 c && leb c 193)
  third_range = ground arith

  fourth_range :
      (leb 1533804544 (u32_of a b c d) && leb (u32_of a b c d) 1533870079) ≡ (a == 91 && b == 108)
  fourth_range = ground arith

  in_ranges-octets : in_ranges (u32_of a b c d) tg_ipv4_ranges ≡ is_telegram_octets a b c
  unfolding in_ranges tg_ipv4_ranges
  in_ranges-octets = rw (first_range, second_range, third_range, fourth_range, false-or)

-- The text of an IPv4 address is a Telegram address exactly if its octets lie in 185.76.151.*,
-- 149.154.160.* to 149.154.175.*, 91.105.192.* to 91.105.193.* or 91.108.*.
pub is_telegram_ip-ipv4_text :
    (a b c d : ℕ)
    → a < 256
    → b < 256
    → c < 256
    → d < 256
    → is_telegram_ip (ipv4_text a b c d) ≡ is_telegram_octets a b c
unfolding is_telegram_ip
is_telegram_ip-ipv4_text a b c d ha hb hc hd =
    ap is_telegram_addr (parse_ip-ipv4_text a b c d ha hb hc hd).0
    ∙ in_ranges-octets a b c d ha hb hc hd

-- 95.161.76.100, which no range holds.
abbrev pub outside : ℕ
outside = 1604406372

abbrev fits : ℕ → TelegramIpEntry → Bool
fits value entry =
    leb 1 entry.dc && leb entry.dc 5 && (in_ranges value tg_ipv4_ranges || value == outside)

abbrev all_fit : List (ℕ × ℕ × TelegramIpEntry) → Bool
all_fit [] = true
all_fit ((start, end, entry) ∷ rest) = (start == end && fits start entry) && all_fit rest

table_fits : all_fit ip_to_dc_table ≡ true
unfolding ip_to_dc_table in_ranges tg_ipv4_ranges
table_fits = refl

some-injective : {A : Type 0} {x y : A} → some x ≡ some y → x ≡ y
some-injective h = cc

find_entry-fits :
    (value : ℕ) (table : List (ℕ × ℕ × TelegramIpEntry)) {entry : TelegramIpEntry}
    → all_fit table ≡ true
    → find_entry value table ≡ some entry
    → fits value entry ≡ true
unfolding find_entry
find_entry-fits value [] h f = cc
find_entry-fits value ((start, end, e) ∷ rest) {entry} h f =
    let (here, later) = and-true (start == end && fits start e) h in
    let (one, fit) = and-true (start == end) here in
    elim (Bool-cases (leb start value && leb value end)) [
      | inl hit ↦
          let at_start : start ≡ value = ground arith in
          rw (some-injective (rw hit at f), at_start) at fit
      | inr miss ↦ find_entry-fits value rest later (rw miss at f)
    ]

first_reader :
    (r : Option (ℕ × ℕ × ℕ × ℕ × Str)) (alternative : Option IpAddr) {addr : IpAddr}
    → r >>= v4_at_end ≡ some addr
    → elim r [ some r' ↦ v4_at_end r' | none ↦ alternative ] ≡ some addr
first_reader (some r) alternative h = h
first_reader none alternative h = cc

parse_ip-parse_ipv4 :
    (host : Str) {addr : IpAddr} → parse_ipv4 host ≡ some addr → parse_ip host ≡ some addr
unfolding parse_ip parse_ipv4
parse_ip-parse_ipv4 host h = first_reader (read_ipv4_addr host) _ h

lookup_fits :
    (addr : Option IpAddr) {entry : TelegramIpEntry}
    → entry_of (u32_of_addr addr) ≡ some entry
    → (1 ≤ entry.dc)
      × (entry.dc ≤ 5)
      × ((is_telegram_addr addr ≡ true) ⊎ (u32_of_addr addr ≡ some outside))
unfolding is_telegram_addr
lookup_fits none h = cc
lookup_fits (some (v6 groups)) h = cc
lookup_fits (some (v4 a b c d)) {entry} h =
    let fit = find_entry-fits (u32_of a b c d) ip_to_dc_table table_fits h in
    let (number, place) = and-true (leb 1 entry.dc && leb entry.dc 5) fit in
    let (low, high) = and-true (leb 1 entry.dc) number in
    (
      leb→le _ _ low,
      leb→le _ _ high,
      elim (Bool-cases (in_ranges (u32_of a b c d) tg_ipv4_ranges)) [
        | inl inside ↦ inl inside
        | inr not_inside ↦ inr (ap some ((==_iff _ _).0 (rw not_inside at place)))
      ],
    )

none-not_some : {A : Type 0} {x : A} → ¬ (none ≡ some x)
none-not_some h = cc

-- Whoever has an entry in the table of data centres has one from 1 to 5, and is a Telegram address, except
-- for 95.161.76.100.
pub ip_to_dc-is_telegram_ip :
    (host : Str) {entry : TelegramIpEntry}
    → ip_to_dc host ≡ some entry
    → (1 ≤ entry.dc)
      × (entry.dc ≤ 5)
      × ((is_telegram_ip host ≡ true) ⊎ (u32_of_addr (parse_ipv4 host) ≡ some outside))
unfolding ip_to_dc is_telegram_ip
ip_to_dc-is_telegram_ip host h = elim (Option-cases (parse_ipv4 host)) [
  | inl missing ↦ absurd (none-not_some (rw missing at h))
  | inr (addr, found) ↦
      let (low, high, place) = lookup_fits (some addr) (rw found at h) in
      (low, high, rw (parse_ip-parse_ipv4 host found, found) place)
]
