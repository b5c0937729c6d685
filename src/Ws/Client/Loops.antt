-- ===== src/Ws/Client/Loops.antt =====
-- The receive loops of src/modules/ws.rs end, and what they deliver.
use telegram_socks_ws_proxy.Base.{
  ℕ, zero, suc, ◌^◌, ◌≤◌, ◌<◌, ◌≡◌, refl, ap, ◌∙◌, arith, List, [], ◌∷◌, ◌++◌, append_assoc, Option,
  none, some, length, length-append, ◌⊎◌, inl, inr, All, Option-cases,
}
use telegram_socks_ws_proxy.Base.Stream.{
  Stream, Outcome, ok, err, pending, panicked, closed, getrandom, write_all, flush,
}
use telegram_socks_ws_proxy.Base.Stream.Laws.{Takes, Takes-length}
use telegram_socks_ws_proxy.Ws.Types.{WsError, WsFrame, WsIncoming}
use telegram_socks_ws_proxy.Ws.Frame.{read_frame, frame_of}
use telegram_socks_ws_proxy.Ws.Frame.Reads.{read_frame-ok}
use telegram_socks_ws_proxy.Ws.Frame.RoundTrip.{server_frame, read-server_frame}
use telegram_socks_ws_proxy.Ws.Client.{
  Run, incoming_of, on_frame, recv_frame_loop, recv_frame, on_frame_of_client, after_pong,
  recv_loop, recv, send_control_frame,
}

pub frame-shorter :
    (s : Stream) {f : WsFrame} {t : Stream}
    → read_frame s ≡ (ok (some f), t)
    → length t.incoming < length s.incoming
frame-shorter s {f} {t} e = by_case (read_frame-ok s e)
  where
    by_case :
        ((g : WsFrame) × (◌≡◌ {A = Option WsFrame} (some f) (some g)) × Takes 2 s t)
          ⊎ ((◌≡◌ {A = Option WsFrame} (some f) none)
              × (length s.incoming < 2)
              × (s.ending ≡ closed))
        → length t.incoming < length s.incoming
    by_case (inl (g, _, takes)) = omega (arith, Takes-length s t takes)
    by_case (inr (none_of, _, _)) = cc

send_control_frame-incoming :
    (opcode : ℕ) (payload : List ℕ) (s : Stream)
    → (send_control_frame opcode payload s).1.incoming ≡ s.incoming
unfolding send_control_frame getrandom write_all flush
send_control_frame-incoming opcode payload s = ground arith

pub on_frame-some :
    (again : Stream → Run WsIncoming) (f : WsFrame) (s : Stream) (i : WsIncoming)
    → incoming_of f ≡ some i
    → on_frame again (ok (some f), s) ≡ some (ok (some i), s)
unfolding on_frame
on_frame-some again f s i h = ground arith

pub on_frame-none :
    (again : Stream → Run WsIncoming) (f : WsFrame) (s : Stream)
    → incoming_of f ≡ none
    → on_frame again (ok (some f), s) ≡ again s
unfolding on_frame
on_frame-none again f s h = ground arith

incoming_of-pong : (p : List ℕ) → incoming_of (frame_of 0xA p) ≡ none
unfolding incoming_of frame_of
incoming_of-pong p = refl

-- The loops, on enough fuel. `Ends again s` says that the next rounds end on what is left.
abbrev pub Ends {ℓ} : {A : Type ℓ} → Run A → Type ℓ
Ends {A} r = (x : Outcome WsError (Option A) × Stream) × (r ≡ some x)

on_frame-Ends :
    (fuel : ℕ) (s : Stream) (again : Stream → Run WsIncoming)
    → length s.incoming < suc fuel
    → ((t : Stream) → length t.incoming < fuel → Ends (again t))
    → (o : Outcome WsError (Option WsFrame) × Stream) → read_frame s ≡ o
    → Ends (on_frame again o)
unfolding on_frame
on_frame-Ends fuel s again h ih (ok none, t) e = ((ok none, t), refl)
on_frame-Ends fuel s again h ih (ok (some f), t) e = elim (Option-cases (incoming_of f)) [
  | inr (incoming, i) ↦ ((ok (some incoming), t), on_frame-some again f t incoming i)
  | inl round ↦ rw (on_frame-none again f t round) (ih t (omega (arith, frame-shorter s e)))
]
on_frame-Ends fuel s again h ih (err x, t) e = ((err x, t), refl)
on_frame-Ends fuel s again h ih (pending, t) e = ((pending, t), refl)
on_frame-Ends fuel s again h ih (panicked, t) e = ((panicked, t), refl)

pub recv_frame_loop-Ends :
    (fuel : ℕ) (s : Stream) → length s.incoming < fuel → Ends (recv_frame_loop fuel s)
unfolding recv_frame_loop
recv_frame_loop-Ends zero s h = absurd (omega arith)
recv_frame_loop-Ends (suc fuel) s h =
    on_frame-Ends fuel s (recv_frame_loop fuel) h (recv_frame_loop-Ends fuel) (read_frame s) refl

after_pong-Ends :
    (again : Stream → Run (List ℕ)) (r : Outcome WsError (Unit {0}) × Stream)
    → Ends (again r.1)
    → Ends (after_pong again r)
after_pong-Ends again (ok u, t) h = h
after_pong-Ends again (err e, t) h = ((err e, t), refl)
after_pong-Ends again (pending, t) h = ((pending, t), refl)
after_pong-Ends again (panicked, t) h = ((panicked, t), refl)

on_frame_of_client-Ends :
    (fuel : ℕ) (s : Stream) (again : Stream → Run (List ℕ))
    → length s.incoming < suc fuel
    → ((t : Stream) → length t.incoming < fuel → Ends (again t))
    → (o : Outcome WsError (Option WsFrame) × Stream) → read_frame s ≡ o
    → Ends (on_frame_of_client again o)
unfolding on_frame_of_client
on_frame_of_client-Ends fuel s again h ih (ok none, t) e = ((ok none, t), refl)
on_frame_of_client-Ends fuel s again h ih (ok (some (WsFrame.binary p)), t) e =
    ((ok (some p), t), refl)
on_frame_of_client-Ends fuel s again h ih (ok (some (WsFrame.ping p)), t) e =
    after_pong-Ends again (send_control_frame 0xA p t)
      (ih _ (omega (arith, frame-shorter s e, ap length (send_control_frame-incoming 0xA p t))))
on_frame_of_client-Ends fuel s again h ih (ok (some (WsFrame.pong p)), t) e =
    ih t (omega (arith, frame-shorter s e))
on_frame_of_client-Ends fuel s again h ih (ok (some (WsFrame.close i)), t) e = ((ok none, t), refl)
on_frame_of_client-Ends fuel s again h ih (ok (some (WsFrame.other p)), t) e = ((ok none, t), refl)
on_frame_of_client-Ends fuel s again h ih (err x, t) e = ((err x, t), refl)
on_frame_of_client-Ends fuel s again h ih (pending, t) e = ((pending, t), refl)
on_frame_of_client-Ends fuel s again h ih (panicked, t) e = ((panicked, t), refl)

recv_loop-Ends : (fuel : ℕ) (s : Stream) → length s.incoming < fuel → Ends (recv_loop fuel s)
unfolding recv_loop
recv_loop-Ends zero s h = absurd (omega arith)
recv_loop-Ends (suc fuel) s h =
    on_frame_of_client-Ends fuel s (recv_loop fuel) h (recv_loop-Ends fuel) (read_frame s) refl

-- Both receive loops come out on every connection: their fuel is enough whatever arrives.
pub recv-total :
    (s : Stream)
    → ((x : Outcome WsError (Option WsIncoming) × Stream) × (recv_frame s ≡ some x))
      × ((y : Outcome WsError (Option (List ℕ)) × Stream) × (recv s ≡ some y))
unfolding recv_frame recv
recv-total s = (
  recv_frame_loop-Ends (suc (length s.incoming)) s (omega arith),
  recv_loop-Ends (suc (length s.incoming)) s (omega arith),
)

-- Pongs that a server sends before a frame.
abbrev pub pongs : List (List ℕ) → List ℕ
pongs [] = []
pongs (p ∷ ps) = server_frame 0xA p ++ pongs ps

abbrev pub IsSmall : List ℕ → Type 0
IsSmall p = length p < 2 ^ 63

recv_frame_loop-pongs :
    (ps : List (List ℕ)) (fuel opcode : ℕ) (payload rest : List ℕ) (s : Stream)
    (incoming : WsIncoming)
    → All IsSmall ps
    → opcode < 16
    → IsSmall payload
    → incoming_of (frame_of opcode payload) ≡ some incoming
    → length ps < fuel
    → recv_frame_loop fuel
        (record s { incoming = pongs ps ++ (server_frame opcode payload ++ rest) })
      ≡ some (ok (some incoming), record s { incoming = rest })
unfolding recv_frame_loop
recv_frame_loop-pongs ps zero opcode payload rest s incoming hs o h i f = absurd (omega arith)
recv_frame_loop-pongs [] (suc fuel) opcode payload rest s incoming hs o h i f =
    ap (on_frame (recv_frame_loop fuel)) (read-server_frame opcode payload rest s o h)
    ∙ on_frame-some (recv_frame_loop fuel) (frame_of opcode payload) (record s { incoming = rest })
        incoming i
recv_frame_loop-pongs (p ∷ ps) (suc fuel) opcode payload rest s incoming (hp, hs) o h i f =
    let later = server_frame opcode payload ++ rest in
    let left = record s { incoming = pongs ps ++ later } in
    rw (append_assoc (server_frame 0xA p) (pongs ps) later) (
      ap (on_frame (recv_frame_loop fuel))
        (read-server_frame 0xA p (pongs ps ++ later) s (omega arith) hp)
      ∙ on_frame-none (recv_frame_loop fuel) (frame_of 0xA p) left (incoming_of-pong p)
      ∙ recv_frame_loop-pongs ps fuel opcode payload rest s incoming hs o h i (omega arith))

length-pongs : (ps : List (List ℕ)) → length ps ≤ length (pongs ps)
length-pongs [] = omega arith
length-pongs (p ∷ ps) =
    omega (arith, length-append (server_frame 0xA p) (pongs ps), length-pongs ps)

-- `recv_frame` skips the pongs in front of a frame and delivers the frame, with nothing behind it
-- consumed.
pub recv_frame-pongs :
    (ps : List (List ℕ)) (opcode : ℕ) (payload rest : List ℕ) (s : Stream) (incoming : WsIncoming)
    → All IsSmall ps
    → opcode < 16
    → IsSmall payload
    → incoming_of (frame_of opcode payload) ≡ some incoming
    → recv_frame (record s { incoming = pongs ps ++ (server_frame opcode payload ++ rest) })
      ≡ some (ok (some incoming), record s { incoming = rest })
unfolding recv_frame
recv_frame-pongs ps opcode payload rest s incoming hs o h i =
    recv_frame_loop-pongs ps (suc (length (pongs ps ++ (server_frame opcode payload ++ rest))))
      opcode payload rest s incoming hs o h i
      (omega
        (arith, length-pongs ps, length-append (pongs ps) (server_frame opcode payload ++ rest)))
