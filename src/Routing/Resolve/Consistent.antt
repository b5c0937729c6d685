-- ===== src/Routing/Resolve/Consistent.antt =====
-- What src/modules/routing.rs takes for the data centre of a client, against what the packet that goes on says.
use telegram_socks_ws_proxy.Base.{
  ℕ, ◌≤◌, ◌≡◌, refl, ap, ◌∙◌, subst, arith, Bool, true, false, Bool-cases, Option, none, some, inl,
  inr, List, length,
}
use telegram_socks_ws_proxy.Base.Utf8.{Str}
use telegram_socks_ws_proxy.Net.Ip.{parse_ipv6}
use telegram_socks_ws_proxy.Telegram.Cipher.{Cipher, IsStreamCipher}
use telegram_socks_ws_proxy.Telegram.Init.{
  TelegramInitInfo, extract_dc, patch_init_dc, is_known_proto,
}
use telegram_socks_ws_proxy.Telegram.Init.Patch.{
  proto_of, signed_dc, extract_dc-signed_dc, extract_dc_range,
}
use telegram_socks_ws_proxy.Telegram.Catalog.{TelegramIpEntry, ip_to_dc}
use telegram_socks_ws_proxy.Telegram.Catalog.Ranges.{ip_to_dc-is_telegram_ip}
use telegram_socks_ws_proxy.Base.Text.{eq_str}
use telegram_socks_ws_proxy.Routing.Ipv6Cache.{
  Ipv6Cache, learned_ipv6_entry, remember_ipv6_entry, entry_at, insert_at,
}
use telegram_socks_ws_proxy.Routing.Resolve.{
  ResolvedTelegramInit, entry_dc, or_else, known_entry, patched_with, resolve_info,
  resolve_telegram_init, remember_telegram_ipv6,
}

abbrev pub IsDc : ℕ → Type 0
IsDc dc = (1 ≤ dc) × (dc ≤ 5)

-- Every data centre learned is one from 1 to 5.
abbrev pub IsValidCache : Ipv6Cache → Type 0
IsValidCache cache =
    (ip : List ℕ) (entry : TelegramIpEntry) → cache.entries ip ≡ some entry → IsDc entry.dc

known-IsDc :
    (ip : Option (List ℕ)) (host : Str) (cache : Ipv6Cache)
    → IsValidCache cache
    → {entry : TelegramIpEntry} → or_else (entry_at cache ip) (ip_to_dc host) ≡ some entry
    → IsDc entry.dc
known-IsDc none host cache valid h =
    let (lo, hi, place) = ip_to_dc-is_telegram_ip host h in (lo, hi)
known-IsDc (some ip) host cache valid {entry} h = by_entry (cache.entries ip) refl h
  where
    by_entry :
        (e : Option TelegramIpEntry)
        → cache.entries ip ≡ e
        → or_else e (ip_to_dc host) ≡ some entry
        → IsDc entry.dc
    by_entry none e h = let (lo, hi, place) = ip_to_dc-is_telegram_ip host h in (lo, hi)
    by_entry (some found) e h = valid ip entry (e ∙ h)

known_entry-IsDc :
    (host : Str) (cache : Ipv6Cache)
    → IsValidCache cache
    → (entry : TelegramIpEntry) → known_entry host cache ≡ some entry
    → IsDc entry.dc
unfolding known_entry learned_ipv6_entry
known_entry-IsDc host cache valid entry h = known-IsDc (parse_ipv6 host) host cache valid h

entry_dc-signed_dc :
    (entry : TelegramIpEntry) → IsDc entry.dc → entry_dc entry ≡ signed_dc entry.dc entry.is_media
entry_dc-signed_dc entry (lo, hi) = elim (Bool-cases entry.is_media) [
  | inl media ↦ rw media (omega arith)
  | inr plain ↦ rw plain
]

-- What `resolve_info` comes to: the packet as it came, or patched where its data centre is unknown.
resolve_info-cases :
    (c : Cipher) (host : Str) (cache : Ipv6Cache) (packet : List ℕ) (info : TelegramInitInfo)
    (P : ResolvedTelegramInit → Type 0)
    → P (record { packet = packet; info = info; patched = false })
    → (info.dc ≡ none → P (patched_with c packet info (known_entry host cache)))
    → P (resolve_info c host cache packet info)
unfolding resolve_info
resolve_info-cases c host cache packet info P as_it_came with_entry = by_dc info.dc refl
  where
    by_dc :
        (o : Option ℕ)
        → info.dc ≡ o
        → P (elim o [
          | some dc ↦ record { packet = packet; info = info; patched = false }
          | none ↦ patched_with c packet info (known_entry host cache)
        ])
    by_dc (some dc) e = as_it_came
    by_dc none e = with_entry e

module _ (c : Cipher) (laws : IsStreamCipher c) where
  patched_with-extract_dc :
      (packet : List ℕ) (entry : Option TelegramIpEntry)
      → 64 ≤ length packet
      → is_known_proto (proto_of c packet) ≡ true
      → ((e : TelegramIpEntry) → entry ≡ some e → IsDc e.dc)
      → extract_dc c (patched_with c packet (extract_dc c packet) entry).packet
        ≡ (patched_with c packet (extract_dc c packet) entry).info
  unfolding patched_with
  patched_with-extract_dc packet none long known valid = refl
  patched_with-extract_dc packet (some e) long known valid =
      let (lo, hi) = valid e refl in
      ap (λ dc. extract_dc c (patch_init_dc c packet dc)) (entry_dc-signed_dc e (lo, hi))
      ∙ extract_dc-signed_dc c laws packet e.dc e.is_media long known lo hi

  -- For a packet of at least 64 bytes with a known protocol tag, while every learned data centre
  -- is one from 1 to 5: the data centre and the media flag that the proxy routes by are those that
  -- the packet it sends on decodes to, whether it patched the packet or not.
  pub resolve_telegram_init-extract_dc :
      (host : Str) (cache : Ipv6Cache) (packet : List ℕ)
      → IsValidCache cache
      → 64 ≤ length packet
      → is_known_proto (proto_of c packet) ≡ true
      → extract_dc c (resolve_telegram_init c host cache packet).packet
        ≡ (resolve_telegram_init c host cache packet).info
  unfolding resolve_telegram_init
  resolve_telegram_init-extract_dc host cache packet valid long known =
      resolve_info-cases c host cache packet (extract_dc c packet)
        (λ r. extract_dc c r.packet ≡ r.info) refl
        (λ missing.
          patched_with-extract_dc packet (known_entry host cache) long known
            (known_entry-IsDc host cache valid))

some-value : {A : Type 0} {x y : A} → some x ≡ some y → x ≡ y
some-value h = cc

patched_with-IsDc :
    (c : Cipher) (packet : List ℕ) (info : TelegramInitInfo) (entry : Option TelegramIpEntry)
    {dc : ℕ}
    → info.dc ≡ none
    → ((e : TelegramIpEntry) → entry ≡ some e → IsDc e.dc)
    → (patched_with c packet info entry).info.dc ≡ some dc
    → IsDc dc
unfolding patched_with
patched_with-IsDc c packet info none missing valid h = cc
patched_with-IsDc c packet info (some e) missing valid h = subst IsDc (some-value h) (valid e refl)

pub resolve_telegram_init-IsDc :
    (c : Cipher) (host : Str) (cache : Ipv6Cache) (packet : List ℕ)
    → IsValidCache cache
    → (dc : ℕ) → (resolve_telegram_init c host cache packet).info.dc ≡ some dc
    → IsDc dc
unfolding resolve_telegram_init
resolve_telegram_init-IsDc c host cache packet valid =
    resolve_info-cases c host cache packet (extract_dc c packet)
      (λ r. (dc : ℕ) → r.info.dc ≡ some dc → IsDc dc) (extract_dc_range c packet).0
      (λ missing dc h.
        patched_with-IsDc c packet (extract_dc c packet) (known_entry host cache) missing
          (known_entry-IsDc host cache valid) h)

remembered-IsValidCache :
    (target : Option (List ℕ)) (cache : Ipv6Cache) (entry : TelegramIpEntry)
    → IsValidCache cache
    → IsDc entry.dc
    → IsValidCache (insert_at target entry cache)
remembered-IsValidCache none cache entry valid fits = valid
remembered-IsValidCache (some ip) cache entry valid fits = λ other e h.
    elim (Bool-cases (eq_str other ip)) [
      | inl same ↦ subst (λ (x : TelegramIpEntry). IsDc x.dc) (some-value (rw same at h)) fits
      | inr different ↦ valid other e (rw different at h)
    ]

-- What is learned from a resolved packet keeps the cache so.
pub remember_info-IsValidCache :
    (host : Str) (target_is_ipv6 : Bool) (cache : Ipv6Cache) (info : TelegramInitInfo)
    → IsValidCache cache
    → ((dc : ℕ) → info.dc ≡ some dc → IsDc dc)
    → IsValidCache (remember_telegram_ipv6 host target_is_ipv6 info cache)
unfolding remember_telegram_ipv6 remember_ipv6_entry
remember_info-IsValidCache host false cache info valid range = valid
remember_info-IsValidCache host true cache info valid range = by_dc info.dc info.is_media range
  where
    by_dc :
        (o : Option ℕ) (media : Bool)
        → ((dc : ℕ) → o ≡ some dc → IsDc dc)
        → IsValidCache (elim o [
          | some dc ↦ insert_at (parse_ipv6 host) (record { dc = dc; is_media = media }) cache
          | none ↦ cache
        ])
    by_dc none media range = valid
    by_dc (some dc) media range =
        remembered-IsValidCache (parse_ipv6 host) cache (record { dc = dc; is_media = media }) valid
          (range dc refl)

-- If every learned data centre is one from 1 to 5, then so is the data centre of the next client,
-- and what is learned from that client keeps the cache so.
pub remember_telegram_ipv6-IsValidCache :
    (c : Cipher) (host : Str) (target_is_ipv6 : Bool) (cache : Ipv6Cache) (packet : List ℕ)
    → IsValidCache cache
    → ((dc : ℕ) → (resolve_telegram_init c host cache packet).info.dc ≡ some dc → IsDc dc)
      × IsValidCache (
          remember_telegram_ipv6 host target_is_ipv6
            (resolve_telegram_init c host cache packet).info
            cache)
remember_telegram_ipv6-IsValidCache c host target_is_ipv6 cache packet valid =
    let range = resolve_telegram_init-IsDc c host cache packet valid in
    (
      range,
      remember_info-IsValidCache host target_is_ipv6 cache
          (resolve_telegram_init c host cache packet).info valid range,
    )
