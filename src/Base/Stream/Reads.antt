-- ===== src/Base/Stream/Reads.antt =====
-- What one `read` yields.
use telegram_socks_ws_proxy.Base.Lists.{take-append-drop}
use telegram_socks_ws_proxy.Base.Stream.{
  Stream, IoError, Ending, closed, broken, stalled, Outcome, ok, err, pending, panicked, at_ending,
  read,
}
use Prim.Native.Nat.{ℕ, zero, suc, ◌<◌}
use mathlib.Core.Path.{◌≡◌, refl, sym}
use mathlib.Core.List.{List, [], ◌∷◌, ◌++◌}
use native.Mathlib.Omega.{arith}

-- Bytes stood in front of what is left; no bytes mean that the peer has closed its side with none left.
abbrev pub Reads {ℓ} : {E : Type ℓ} → Stream → Outcome E (List ℕ) × Stream → Type 0
Reads s (ok [], s') = (s' ≡ s) × (s.incoming ≡ []) × (s.ending ≡ closed)
Reads s (ok (x ∷ xs), s') =
    (s.incoming ≡ (x ∷ xs) ++ s'.incoming) × (s' ≡ record s { incoming = s'.incoming })
Reads s (err e, s') = s' ≡ s
Reads s (pending, s') = (s' ≡ s) × (s.ending ≡ stalled)
Reads s (panicked, s') = ⊥

module _ {ℓ} {E : Type ℓ} (from : IoError → E) where
  at_ending-Reads :
      (e : Ending) (s : Stream) → s.ending ≡ e → s.incoming ≡ [] → Reads s (at_ending from e, s)
  at_ending-Reads closed s e i = (refl, i, e)
  at_ending-Reads broken s e i = refl
  at_ending-Reads stalled s e i = (refl, e)

  pub read-Reads : (limit : ℕ) (s : Stream) → 0 < limit → Reads s (read from limit s)
  unfolding read
  read-Reads zero s h = absurd (omega arith)
  read-Reads (suc k) s h = by_incoming s.incoming
    where
      by_incoming :
          (i : List ℕ)
          → Reads (record s { incoming = i }) (read from (suc k) (record s { incoming = i }))
      by_incoming [] = at_ending-Reads s.ending (record s { incoming = [] }) refl refl
      by_incoming (x ∷ xs) = (sym (take-append-drop (suc k) (x ∷ xs)), refl)
