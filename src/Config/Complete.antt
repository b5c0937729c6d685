-- ===== src/Config/Complete.antt =====
-- Every interface that may be announced is: the loop of src/config.rs over the interfaces, and the sort behind it.
use telegram_socks_ws_proxy.Base.{
  ℕ, ◌≡◌, refl, ap, ◌∙◌, arith, ltb, Bool-cases, true, false, or-true, Option-cases, none, some,
  List, [], ◌∷◌, Among, inl, inr, ◌⊎◌, ◌<◌,
}
use telegram_socks_ws_proxy.Base.Text.{eq_str, eq_str→≡, contains_str}
use telegram_socks_ws_proxy.Base.Utf8.{Str}
use telegram_socks_ws_proxy.Net.Ip.{IpAddr, v4, v6}
use telegram_socks_ws_proxy.Net.Address.{ip_text}
use telegram_socks_ws_proxy.Config.{Ranked, announce_priority, le_ranked, insert, sort, rank}
use telegram_socks_ws_proxy.Config.Priority.{priority_of, announce_priority-priority_of}
use mathlib.Core.Option

-- An interface with the text of `ip` is in the list, unless it may not be announced.
abbrev pub IsAnnounced : List IpAddr → List Ranked → IpAddr → Type 0
IsAnnounced ips ranked ip =
    (ip' : IpAddr) × Among ip' ips
    × (ip_text ip' ≡ ip_text ip)
    × ((priority_of ip' ≡ none)
        ⊎ ((p : ℕ) × (priority_of ip' ≡ some p) × Among (p, ip_text ip') ranked))

grows :
    (x ip : IpAddr) (ips : List IpAddr) (rs ss : List Ranked)
    → ((r : Ranked) → Among r rs → Among r ss)
    → IsAnnounced ips rs ip
    → IsAnnounced (x ∷ ips) ss ip
grows x ip ips rs ss more (ip', among, text, inl silent) =
    (ip', Among.later among, text, inl silent)
grows x ip ips rs ss more (ip', among, text, inr (p, priority, listed)) =
    (ip', Among.later among, text, inr (p, priority, more (p, ip_text ip') listed))

pub priority_below : (ip : IpAddr) (p : ℕ) → priority_of ip ≡ some p → p < 255
priority_below (v4 a b c d) p h = ground arith
priority_below (v6 groups) p h = ground arith

-- A new text is that of an interface which is in the list, unless it may not be announced.
newly_ranked :
    (seen : List Str) (x ip : IpAddr) (ips : List IpAddr)
    → contains_str (ip_text x) seen ≡ false
    → ip_text x ≡ ip_text ip
    → IsAnnounced (x ∷ ips) (rank seen (x ∷ ips)) ip
unfolding rank
newly_ranked seen x ip ips new text = elim (Option-cases (priority_of x)) [
  | inl silent ↦ (x, Among.here, text, inl silent)
  | inr (p, priority) ↦
      let score : announce_priority x ≡ p =
        announce_priority-priority_of x ∙ ap (λ o. Option.get_or o 255) priority in
      let below = priority_below x p priority in
      let low : ltb p 255 ≡ true = ground arith in
      (x, Among.here, text, inr (p, priority, rw (new, score, low) Among.here))
]

-- What the rest of the loop ranks stays.
rank_rest :
    (seen : List Str) (x : IpAddr) (ips : List IpAddr) (r : Ranked)
    → contains_str (ip_text x) seen ≡ false
    → Among r (rank (ip_text x ∷ seen) ips)
    → Among r (rank seen (x ∷ ips))
unfolding rank
rank_rest seen x ips r new among = elim (Bool-cases (ltb (announce_priority x) 255)) [
  | inl low ↦ rw (new, low) (Among.later among)
  | inr high ↦ rw (new, high) among
]

rank_known :
    (seen : List Str) (x : IpAddr) (ips : List IpAddr) (r : Ranked)
    → contains_str (ip_text x) seen ≡ true
    → Among r (rank seen ips)
    → Among r (rank seen (x ∷ ips))
unfolding rank
rank_known seen x ips r known among = rw known among

rank-IsAnnounced :
    (seen : List Str) (ips : List IpAddr) (ip : IpAddr)
    → Among ip ips
    → (contains_str (ip_text ip) seen ≡ true) ⊎ IsAnnounced ips (rank seen ips) ip
unfolding contains_str
rank-IsAnnounced seen [] ip among = elim among [ ]
rank-IsAnnounced seen (x ∷ ips) _ Among.here = elim (Bool-cases (contains_str (ip_text x) seen)) [
  | inl known ↦ inl known
  | inr new ↦ inr (newly_ranked seen x x ips new refl)
]
rank-IsAnnounced seen (x ∷ ips) ip (Among.later among) =
    elim (Bool-cases (contains_str (ip_text x) seen)) [
      | inl known ↦ elim (rank-IsAnnounced seen ips ip among) [
        | inl before ↦ inl before
        | inr announced ↦ inr (
            grows x ip ips (rank seen ips) (rank seen (x ∷ ips))
              (λ r. rank_known seen x ips r known) announced)
      ]
      | inr new ↦ elim (rank-IsAnnounced (ip_text x ∷ seen) ips ip among) [
        | inl before ↦ elim (or-true (eq_str (ip_text x) (ip_text ip)) before) [
          | inl same ↦ inr (newly_ranked seen x ip ips new (eq_str→≡ (ip_text x) (ip_text ip) same))
          | inr earlier ↦ inl earlier
        ]
        | inr announced ↦ inr (
            grows x ip ips (rank (ip_text x ∷ seen) ips) (rank seen (x ∷ ips))
              (λ r. rank_rest seen x ips r new) announced)
      ]
    ]

-- The sort keeps every element.
insert-first : (x : Ranked) (ys : List Ranked) → Among x (insert x ys)
unfolding insert
insert-first x [] = Among.here
insert-first x (y ∷ ys) = elim (Bool-cases (le_ranked x y)) [
  | inl e ↦ rw e Among.here
  | inr n ↦ rw n (Among.later (insert-first x ys))
]

insert-Among : (x r : Ranked) (ys : List Ranked) → Among r ys → Among r (insert x ys)
unfolding insert
insert-Among x r [] among = elim among [ ]
insert-Among x _ (y ∷ ys) Among.here = elim (Bool-cases (le_ranked x y)) [
  | inl e ↦ rw e (Among.later Among.here)
  | inr n ↦ rw n Among.here
]
insert-Among x r (y ∷ ys) (Among.later among) = elim (Bool-cases (le_ranked x y)) [
  | inl e ↦ rw e (Among.later (Among.later among))
  | inr n ↦ rw n (Among.later (insert-Among x r ys among))
]

sort-Among : (r : Ranked) (xs : List Ranked) → Among r xs → Among r (sort xs)
unfolding sort
sort-Among r [] among = elim among [ ]
sort-Among _ (x ∷ xs) Among.here = insert-first x (sort xs)
sort-Among r (x ∷ xs) (Among.later among) = insert-Among x r (sort xs) (sort-Among r xs among)

pub sort-IsAnnounced :
    (ips : List IpAddr) (ip : IpAddr) → Among ip ips → IsAnnounced ips (sort (rank [] ips)) ip
unfolding contains_str
sort-IsAnnounced ips ip among = elim (rank-IsAnnounced [] ips ip among) [
  | inl seen ↦ cc
  | inr (ip', there, text, inl silent) ↦ (ip', there, text, inl silent)
  | inr (ip', there, text, inr (p, priority, listed)) ↦
      (ip', there, text, inr (p, priority, sort-Among (p, ip_text ip') (rank [] ips) listed))
]
