-- ===== src/Config/Priority.antt =====
-- The addresses that src/config.rs announces, and their order, told apart from announce_priority and from sort_by.
use telegram_socks_ws_proxy.Base.{
  ℕ, ◌<◌, ltb, ltb→lt, ◌≡◌, ap, ◌∙◌, arith, ◌==◌, ==_iff, if◌then◌else◌, true, ◌||◌, or-true,
  and-true, Option, none, some, List, [], ◌∷◌, All, inl, inr, ◌⊎◌,
}
use telegram_socks_ws_proxy.Base.Utf8.{Str}
use telegram_socks_ws_proxy.Base.Text.{eq_str, eq_str_refl}
use telegram_socks_ws_proxy.Net.Ip.{IpAddr, v4, v6}
use telegram_socks_ws_proxy.Net.Address.{
  is_loopback, is_unspecified, is_multicast, is_unique_local, is_unicast_link_local,
}
use telegram_socks_ws_proxy.Config.{
  Ranked, host_of, announce_priority, is_public_ipv6, le_str, le_ranked,
}
use telegram_socks_ws_proxy.Config.Sorting.{Apart, AllApart, IsSorted}
use mathlib.Core.Option

-- The priority of an address that may be announced: public IPv6, then IPv4, then other IPv6, then the loopbacks.
abbrev pub priority_of : IpAddr → Option ℕ
priority_of (v4 a b c d) = if a == 127 then some 3 else some 1
priority_of (v6 groups) =
    if is_loopback (v6 groups)
    then some 4
    else if is_unspecified (v6 groups) || is_unicast_link_local groups
    then none
    else if is_multicast groups || is_unique_local groups
    then some 2
    else some 0

pub announce_priority-priority_of :
    (ip : IpAddr) → announce_priority ip ≡ Option.get_or (priority_of ip) 255
unfolding announce_priority is_public_ipv6 is_loopback
announce_priority-priority_of (v4 a b c d) = ground arith
announce_priority-priority_of (v6 groups) = ground arith

-- The order of texts by their code points, and that of ranked addresses.
abbrev pub StrLe : Str → Str → Type 0
StrLe [] t = Unit
StrLe (c ∷ s) [] = ⊥
StrLe (c ∷ s) (d ∷ t) = (c < d) ⊎ ((c ≡ d) × StrLe s t)

abbrev pub RankedLe : Ranked → Ranked → Type 0
RankedLe (a, s) (b, t) = (a < b) ⊎ ((a ≡ b) × StrLe s t)

abbrev pub IsOrdered : List Ranked → Type 0
IsOrdered [] = Unit
IsOrdered (x ∷ []) = Unit
IsOrdered (x ∷ y ∷ ys) = RankedLe x y × IsOrdered (y ∷ ys)

le_str-StrLe : (s t : Str) → le_str s t ≡ true → StrLe s t
unfolding le_str
le_str-StrLe [] t h = tt
le_str-StrLe (c ∷ s) [] h = cc
le_str-StrLe (c ∷ s) (d ∷ t) h = elim (or-true (ltb c d) h) [
  | inl lt ↦ inl (ltb→lt c d lt)
  | inr e ↦ let (same, le) = and-true (c == d) e in inr ((==_iff c d).0 same, le_str-StrLe s t le)
]

le_ranked-RankedLe : (x y : Ranked) → le_ranked x y ≡ true → RankedLe x y
unfolding le_ranked
le_ranked-RankedLe (a, s) (b, t) h = elim (or-true (ltb a b) h) [
  | inl lt ↦ inl (ltb→lt a b lt)
  | inr e ↦ let (same, le) = and-true (a == b) e in inr ((==_iff a b).0 same, le_str-StrLe s t le)
]

pub IsSorted-IsOrdered : (rs : List Ranked) → IsSorted rs → IsOrdered rs
IsSorted-IsOrdered [] h = tt
IsSorted-IsOrdered (x ∷ []) h = tt
IsSorted-IsOrdered (x ∷ y ∷ ys) (le, h) = (le_ranked-RankedLe x y le, IsSorted-IsOrdered (y ∷ ys) h)

-- No two have the same text.
abbrev pub AllDistinct : List Ranked → Type 0
AllDistinct [] = Unit
AllDistinct (x ∷ xs) = All (λ (y : Ranked). ¬ (host_of x ≡ host_of y)) xs × AllDistinct xs

Apart-distinct : (x y : Ranked) → Apart x y → ¬ (host_of x ≡ host_of y)
Apart-distinct x y h same =
    let equal = ap (eq_str (host_of x)) same ∙ h in let itself = eq_str_refl (host_of x) in cc

All-Apart :
    (x : Ranked) (xs : List Ranked)
    → All (Apart x) xs
    → All (λ (y : Ranked). ¬ (host_of x ≡ host_of y)) xs
All-Apart x [] h = tt
All-Apart x (y ∷ ys) (one, h) = (Apart-distinct x y one, All-Apart x ys h)

pub AllApart-AllDistinct : (rs : List Ranked) → AllApart rs → AllDistinct rs
AllApart-AllDistinct [] h = tt
AllApart-AllDistinct (x ∷ xs) (one, h) = (All-Apart x xs one, AllApart-AllDistinct xs h)
