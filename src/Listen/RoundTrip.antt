-- ===== src/Listen/RoundTrip.antt =====
-- An address is split into the host and the port that it was written from.
use telegram_socks_ws_proxy.Base.{
  ℕ, ◌<◌, ◌≡◌, refl, arith, none, some, [], ◌∷◌, ◌++◌, All, inr, inl, ◌⊎◌, Option, sym, ap, subst,
  ◌∙◌, ◌==◌, ==_iff, Bool-cases,
}
use mathlib.Core.Option
use telegram_socks_ws_proxy.Base.Utf8.{Str}
use telegram_socks_ws_proxy.Base.Text.{rsplit_once, strip_prefix, strip_suffix}
use telegram_socks_ws_proxy.Base.Decimal.{
  IsDigit, to_string, to_string-IsDigit, parse_u16-to_string,
}
use telegram_socks_ws_proxy.Net.Address.{parse_socket_addr}
use telegram_socks_ws_proxy.Listen.{normalize_host, split_parsed, split_parts, split_host_port}

rsplit_once-digits : (text : Str) → All IsDigit text → rsplit_once b':' text ≡ none
unfolding rsplit_once
rsplit_once-digits [] h = refl
rsplit_once-digits (c ∷ text) ((low, high), h) = rw (rsplit_once-digits text h) (ground arith)

rsplit_once-last :
    (host text : Str)
    → All IsDigit text
    → rsplit_once b':' (host ++ (b':' ∷ text)) ≡ some (host, text)
unfolding rsplit_once
rsplit_once-last [] text h = rw (rsplit_once-digits text h)
rsplit_once-last (c ∷ host) text h = rw (rsplit_once-last host text h)

-- A text that stands in brackets.
abbrev pub IsBracketed : Str → Str → Type 0
IsBracketed inner host = host ≡ b'[' ∷ (inner ++ (b']' ∷ []))

-- The host without its brackets, if it stands in brackets, and else as it is.
abbrev pub IsUnbracketed : Str → Str → Type 0
IsUnbracketed host h =
    IsBracketed h host ⊎ (((inner : Str) → ¬ IsBracketed inner host) × (h ≡ host))

-- Only a text with this end has it stripped off.
strip_suffix-some : (d : ℕ) (s : Str) {t : Str} → strip_suffix d s ≡ some t → s ≡ t ++ (d ∷ [])
unfolding strip_suffix
strip_suffix-some d [] h = cc
strip_suffix-some d (c ∷ []) h = ground arith
strip_suffix-some d (c ∷ e ∷ s) h =
    by_rest (strip_suffix d (e ∷ s)) (λ u e'. strip_suffix-some d (e ∷ s) e') h
  where
    by_rest :
        (o : Option Str)
        → ((u : Str) → o ≡ some u → e ∷ s ≡ u ++ (d ∷ []))
        → {t : Str} → Option.map (λ t. c ∷ t) o ≡ some t
        → c ∷ e ∷ s ≡ t ++ (d ∷ [])
    by_rest none shorter h' = cc
    by_rest (some u) shorter {t} h' =
        let same : c ∷ u ≡ t = cc in
        subst (λ l. c ∷ e ∷ s ≡ l ++ (d ∷ [])) same (ap (λ l. c ∷ l) (shorter u refl))

strip_suffix-end : (d : ℕ) (s : Str) → strip_suffix d (s ++ (d ∷ [])) ≡ some s
unfolding strip_suffix
strip_suffix-end d [] = ground arith
strip_suffix-end d (c ∷ []) = rw (strip_suffix-end d []) refl
strip_suffix-end d (c ∷ e ∷ s) = rw (strip_suffix-end d (e ∷ s)) refl

normalize_host-IsUnbracketed : (host : Str) → IsUnbracketed host (normalize_host host)
unfolding normalize_host strip_prefix
normalize_host-IsUnbracketed [] = inr (λ inner h. cc, refl)
normalize_host-IsUnbracketed (c ∷ s) = elim (Bool-cases (c == b'[')) [
  | inl opens ↦ rw opens (by_end (strip_suffix b']' s) refl ((==_iff c b'[').0 opens))
  | inr other ↦ rw other (inr (λ inner h. ground arith, refl))
]
  where
    by_end :
        (o : Option Str)
        → strip_suffix b']' s ≡ o
        → c ≡ b'['
        → IsUnbracketed (c ∷ s) (Option.get_or o (c ∷ s))
    by_end none e opens = inr (
      λ inner h.
          let tail : s ≡ inner ++ (b']' ∷ []) = cc in
          let found = sym e ∙ ap (strip_suffix b']') tail ∙ strip_suffix-end b']' inner in cc,
      refl,
    )
    by_end (some t) e opens = inl (rw (opens, strip_suffix-some b']' s e) refl)

-- A host and a port below 65536 come back from their text, joined by a colon, if it is not the text
-- of a socket address: the host without its brackets, if it stands in brackets, and else as it is.
pub split_host_port-to_string :
    {E : Type 0} (host : Str) (port : ℕ)
    → port < 65536
    → parse_socket_addr (host ++ (b':' ∷ to_string port)) ≡ none
    → (h : Str) × IsUnbracketed host h
      × (split_host_port {E = E} (host ++ (b':' ∷ to_string port)) ≡ inr (h, port))
unfolding split_host_port split_parsed split_parts
split_host_port-to_string host port h name = (
  normalize_host host,
  normalize_host-IsUnbracketed host,
  rw (
    name,
    rsplit_once-last host (to_string port) (to_string-IsDigit port),
    parse_u16-to_string port h,
  ),
)
