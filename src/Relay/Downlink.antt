-- ===== src/Relay/Downlink.antt =====
-- The task of src/modules/relay.rs from the WebSocket to the client, for a server that sends whole frames.
pub mod Sides
pub mod Receipts
pub mod Rounds
use telegram_socks_ws_proxy.Base.{
  bit_and, Bool, true, false, if◌then◌else◌, ◌+◌, ℕ, zero, suc, ◌<◌, ◌^◌, ◌≤◌, ◌≡◌, refl, sym, ap,
  ◌∙◌, subst, arith, Option, none, some, List, [], ◌∷◌, ◌++◌, append-nil, append_assoc, length,
  length-append, All, ◌⊎◌, inl, inr,
}
use telegram_socks_ws_proxy.Base.Stream.{
  Stream, IoError, other, Ending, closed, broken, stalled, Outcome, ok, err, pending, panicked,
  read_exact, write_all, shutdown,
}
use telegram_socks_ws_proxy.Ws.Types.{WsError, io, WsFrame, WsIncoming}
use telegram_socks_ws_proxy.Ws.Frame.{read_frame, frame_of, parse_close_payload}
use telegram_socks_ws_proxy.Ws.Frame.RoundTrip.{plain_frame, read-plain_frame}
use telegram_socks_ws_proxy.Ws.Client.{Run, incoming_of, on_frame, recv_frame_loop, recv_frame}
use telegram_socks_ws_proxy.Ws.Client.Loops.{IsSmall}

pub data DataKind : Type 0 where
  continuation text binary : DataKind

-- A frame of a server: data with the final bit or without it, or a control frame, which is final.
pub data ServerFrame : Type 0 where
  data_frame : Bool → DataKind → List ℕ → ServerFrame
  ping pong close : List ℕ → ServerFrame

abbrev pub payload_of : ServerFrame → List ℕ
payload_of (data_frame final kind p) = p
payload_of (ping p) = p
payload_of (pong p) = p
payload_of (close p) = p

abbrev pub opcode_of : ServerFrame → ℕ
opcode_of (data_frame final continuation p) = 0x0
opcode_of (data_frame final text p) = 0x1
opcode_of (data_frame final binary p) = 0x2
opcode_of (ping p) = 0x9
opcode_of (pong p) = 0xA
opcode_of (close p) = 0x8

abbrev is_final : ServerFrame → Bool
is_final (data_frame final kind p) = final
is_final (ping p) = true
is_final (pong p) = true
is_final (close p) = true

-- The first byte of a frame: the final bit and the opcode.
abbrev pub head_of : ServerFrame → ℕ
head_of f = (if is_final f then 128 else 0) + opcode_of f

abbrev pub server_bytes : List ServerFrame → List ℕ
server_bytes [] = []
server_bytes (f ∷ fs) = plain_frame (head_of f) (payload_of f) ++ server_bytes fs

abbrev pub AllSmall : List ServerFrame → Type 0
AllSmall [] = Unit
AllSmall (f ∷ fs) = IsSmall (payload_of f) × AllSmall fs

abbrev pub at_end : Ending → Outcome WsError (Option WsIncoming)
at_end closed = ok none
at_end broken = err (io other)
at_end stalled = pending

-- What a receipt of a frame yields: pongs are passed over.
abbrev pub deliver : List ServerFrame → Stream → Outcome WsError (Option WsIncoming) × Stream
deliver [] s = (at_end s.ending, record s { incoming = [] })
deliver (data_frame final kind p ∷ fs) s =
    (ok (some (WsIncoming.binary p)), record s { incoming = server_bytes fs })
deliver (ping p ∷ fs) s = (ok (some (WsIncoming.ping p)), record s { incoming = server_bytes fs })
deliver (pong p ∷ fs) s = deliver fs s
deliver (close p ∷ fs) s =
    (ok (some (WsIncoming.close (parse_close_payload p))), record s { incoming = server_bytes fs })

-- The reader finds the opcode in the first byte.
bit_and-head_of : (f : ServerFrame) → bit_and (head_of f) 0x0F ≡ opcode_of f
bit_and-head_of (data_frame true continuation p) = refl
bit_and-head_of (data_frame true text p) = refl
bit_and-head_of (data_frame true binary p) = refl
bit_and-head_of (data_frame false continuation p) = refl
bit_and-head_of (data_frame false text p) = refl
bit_and-head_of (data_frame false binary p) = refl
bit_and-head_of (ping p) = refl
bit_and-head_of (pong p) = refl
bit_and-head_of (close p) = refl

recv_round :
    (fuel : ℕ) (f : ServerFrame) (fs : List ServerFrame) (s : Stream)
    → IsSmall (payload_of f)
    → recv_frame_loop (suc fuel) (record s { incoming = server_bytes (f ∷ fs) })
      ≡ on_frame (recv_frame_loop fuel) (
        ok (some (frame_of (opcode_of f) (payload_of f))),
        record s { incoming = server_bytes fs },
      )
unfolding recv_frame_loop
recv_round fuel f fs s h = ap (on_frame (recv_frame_loop fuel)) (
    read-plain_frame (head_of f) (payload_of f) (server_bytes fs) s h
    ∙ ap (λ o. (ok (some (frame_of o (payload_of f))), record s { incoming = server_bytes fs }))
        (bit_and-head_of f))

recv_last :
    (fuel : ℕ) (e : Ending) (s : Stream)
    → recv_frame_loop (suc fuel) (record s { incoming = []; ending = e })
      ≡ some (at_end e, record s { incoming = []; ending = e })
unfolding recv_frame_loop on_frame read_frame read_exact
recv_last fuel closed s = refl
recv_last fuel broken s = refl
recv_last fuel stalled s = refl

recv_frame_loop-deliver :
    (fs : List ServerFrame) (fuel : ℕ) (s : Stream)
    → AllSmall fs
    → length fs < fuel
    → recv_frame_loop fuel (record s { incoming = server_bytes fs }) ≡ some (deliver fs s)
unfolding on_frame incoming_of frame_of
recv_frame_loop-deliver fs zero s h f = absurd (omega arith)
recv_frame_loop-deliver [] (suc fuel) s h f = recv_last fuel s.ending s
recv_frame_loop-deliver (data_frame final continuation p ∷ fs) (suc fuel) s (h, hs) f =
    recv_round fuel (data_frame final continuation p) fs s h
recv_frame_loop-deliver (data_frame final text p ∷ fs) (suc fuel) s (h, hs) f =
    recv_round fuel (data_frame final text p) fs s h
recv_frame_loop-deliver (data_frame final binary p ∷ fs) (suc fuel) s (h, hs) f =
    recv_round fuel (data_frame final binary p) fs s h
recv_frame_loop-deliver (ping p ∷ fs) (suc fuel) s (h, hs) f = recv_round fuel (ping p) fs s h
recv_frame_loop-deliver (close p ∷ fs) (suc fuel) s (h, hs) f = recv_round fuel (close p) fs s h
recv_frame_loop-deliver (pong p ∷ fs) (suc fuel) s (h, hs) f =
    recv_round fuel (pong p) fs s h ∙ recv_frame_loop-deliver fs fuel s hs (omega arith)

length-server_bytes : (fs : List ServerFrame) → length fs ≤ length (server_bytes fs)
length-server_bytes [] = omega arith
length-server_bytes (f ∷ fs) = omega (
  arith,
  length-append (plain_frame (head_of f) (payload_of f)) (server_bytes fs),
  length-server_bytes fs,
)

pub recv_frame-deliver :
    (fs : List ServerFrame) (s : Stream)
    → AllSmall fs
    → recv_frame (record s { incoming = server_bytes fs }) ≡ some (deliver fs s)
unfolding recv_frame
recv_frame-deliver fs s h =
    recv_frame_loop-deliver fs (suc (length (server_bytes fs))) s h
      (omega (arith, length-server_bytes fs))
