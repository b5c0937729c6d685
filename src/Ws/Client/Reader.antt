-- ===== src/Ws/Client/Reader.antt =====
-- `RawWsReader::recv` of src/modules/ws.rs ends, and what it delivers.
use telegram_socks_ws_proxy.Base.{
  ℕ, zero, suc, ◌<◌, ◌≡◌, refl, arith, List, Option, none, some, length, inl, inr, Option-cases,
}
use telegram_socks_ws_proxy.Base.Stream.{Stream, Outcome, ok, err, pending, panicked}
use telegram_socks_ws_proxy.Ws.Types.{WsError, WsFrame, WsIncoming}
use telegram_socks_ws_proxy.Ws.Frame.{read_frame}
use telegram_socks_ws_proxy.Ws.Client.{
  Run, incoming_of, on_frame, recv_frame_loop, recv_frame, on_incoming, reader_recv_loop,
  reader_recv,
}
use telegram_socks_ws_proxy.Ws.Client.Loops.{
  Ends, frame-shorter, on_frame-some, on_frame-none, recv_frame_loop-Ends,
}

-- A receipt that yields something has taken bytes.
abbrev Shortens : Stream → Run WsIncoming → Type 0
Shortens s none = Unit
Shortens s (some (ok none, t)) = Unit
Shortens s (some (ok (some i), t)) = length t.incoming < length s.incoming
Shortens s (some (err e, t)) = Unit
Shortens s (some (pending, t)) = Unit
Shortens s (some (panicked, t)) = Unit

Shortens-trans :
    (s t : Stream) (r : Run WsIncoming)
    → length t.incoming < length s.incoming
    → Shortens t r
    → Shortens s r
Shortens-trans s t none h k = tt
Shortens-trans s t (some (ok none, u)) h k = tt
Shortens-trans s t (some (ok (some i), u)) h k = omega arith
Shortens-trans s t (some (err e, u)) h k = tt
Shortens-trans s t (some (pending, u)) h k = tt
Shortens-trans s t (some (panicked, u)) h k = tt

on_frame-Shortens :
    (s : Stream) (again : Stream → Run WsIncoming)
    → ((t : Stream) → Shortens t (again t))
    → (o : Outcome WsError (Option WsFrame) × Stream) → read_frame s ≡ o
    → Shortens s (on_frame again o)
unfolding on_frame
on_frame-Shortens s again ih (ok none, t) e = tt
on_frame-Shortens s again ih (ok (some f), t) e = elim (Option-cases (incoming_of f)) [
  | inr (incoming, i) ↦ rw (on_frame-some again f t incoming i) (frame-shorter s e)
  | inl round ↦
      rw (on_frame-none again f t round) (Shortens-trans s t (again t) (frame-shorter s e) (ih t))
]
on_frame-Shortens s again ih (err x, t) e = tt
on_frame-Shortens s again ih (pending, t) e = tt
on_frame-Shortens s again ih (panicked, t) e = tt

recv_frame_loop-Shortens : (fuel : ℕ) (s : Stream) → Shortens s (recv_frame_loop fuel s)
unfolding recv_frame_loop
recv_frame_loop-Shortens zero s = tt
recv_frame_loop-Shortens (suc fuel) s =
    on_frame-Shortens s (recv_frame_loop fuel) (recv_frame_loop-Shortens fuel) (read_frame s) refl

on_incoming-Ends :
    (fuel : ℕ) (s : Stream) (again : Stream → Run (List ℕ))
    → length s.incoming < suc fuel
    → ((t : Stream) → length t.incoming < fuel → Ends (again t))
    → (r : Run WsIncoming) → Shortens s r
    → Ends r
    → Ends (on_incoming again r)
unfolding on_incoming
on_incoming-Ends fuel s again h ih none shorter (x, e) = cc
on_incoming-Ends fuel s again h ih (some (ok none, t)) shorter e = ((ok none, t), refl)
on_incoming-Ends fuel s again h ih (some (ok (some (WsIncoming.binary p)), t)) shorter e =
    ((ok (some p), t), refl)
on_incoming-Ends fuel s again h ih (some (ok (some (WsIncoming.ping p)), t)) shorter e =
    ih t (omega (arith, shorter))
on_incoming-Ends fuel s again h ih (some (ok (some (WsIncoming.close c)), t)) shorter e =
    ((ok none, t), refl)
on_incoming-Ends fuel s again h ih (some (err x, t)) shorter e = ((err x, t), refl)
on_incoming-Ends fuel s again h ih (some (pending, t)) shorter e = ((pending, t), refl)
on_incoming-Ends fuel s again h ih (some (panicked, t)) shorter e = ((panicked, t), refl)

reader_recv_loop-Ends :
    (fuel : ℕ) (s : Stream) → length s.incoming < fuel → Ends (reader_recv_loop fuel s)
unfolding reader_recv_loop recv_frame
reader_recv_loop-Ends zero s h = absurd (omega arith)
reader_recv_loop-Ends (suc fuel) s h =
    on_incoming-Ends fuel s (reader_recv_loop fuel) h (reader_recv_loop-Ends fuel) (recv_frame s)
      (recv_frame_loop-Shortens (suc (length s.incoming)) s)
      (recv_frame_loop-Ends (suc (length s.incoming)) s (omega arith))

-- The reader's receive loop comes out on every connection.
pub reader_recv-Ends : (s : Stream) → Ends (reader_recv s)
unfolding reader_recv
reader_recv-Ends s = reader_recv_loop-Ends (suc (length s.incoming)) s (omega arith)
