-- ===== src/Base/Stream/Writes.antt =====
-- What a write to a connection leaves.
use telegram_socks_ws_proxy.Base.Stream.{Stream, Outcome, ok, err, IoError, write_all}
use telegram_socks_ws_proxy.Base.Stream.Laws.{ok-state}
use Prim.Native.Nat.{ℕ, zero, suc}
use mathlib.Core.Path.{◌≡◌, sym, ap}
use mathlib.Core.List.{List, ◌++◌}

-- A write that goes through takes nothing of what arrives.
pub write_all-ok {ℓ} :
    {E : Type ℓ} (from : IoError → E) (bytes : List ℕ) (s : Stream) {u : Unit {0}} {s' : Stream}
    → write_all from bytes s ≡ (ok u, s')
    → s'.incoming ≡ s.incoming
unfolding write_all
write_all-ok {E} from bytes s {u} {s'} h = by_writes s.writes h
  where
    by_writes :
        (w : ℕ)
        → ◌≡◌ {A = Outcome E (Unit {0}) × Stream}
            (elim w [
              | zero ↦ (err (from IoError.other), s)
              | suc k ↦ (ok tt, record s { sent = s.sent ++ bytes; writes = k })
            ])
            (ok u, s')
        → s'.incoming ≡ s.incoming
    by_writes zero h = cc
    by_writes (suc k) h = sym (ap (λ (t : Stream). t.incoming) (ok-state h))
