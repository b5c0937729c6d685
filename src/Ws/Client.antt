-- ===== src/Ws/Client.antt =====
-- src/modules/ws.rs: the receive loops and the writes of `RawWsClient`, `RawWsReader` and
-- `RawWsWriter`, on a connection that is up.
pub mod Loops
pub mod Reader
use telegram_socks_ws_proxy.Base.{ℕ, zero, suc, Option, none, some, List, length}
use telegram_socks_ws_proxy.Base.Utf8.{codes}
use telegram_socks_ws_proxy.Base.Stream.{
  Stream, Io, Outcome, ok, err, pending, panicked, ◌>>=◌, ◌>>◌, write_all, flush, shutdown,
  getrandom,
}
use telegram_socks_ws_proxy.Ws.Types.{WsError, io, WsFrame, WsIncoming, WsCloseInfo}
use telegram_socks_ws_proxy.Ws.Frame.{read_frame, build_frame, build_frame_with_opcode}

-- `send_control_frame`, and the answer to a ping.
unfoldable pub send_control_frame : ℕ → List ℕ → Io WsError (Unit {0})
send_control_frame opcode payload = do
  random ← getrandom
  write_all io (build_frame_with_opcode opcode payload random)
  flush io

unfoldable pub send : List ℕ → Io WsError (Unit {0})
send payload = do random ← getrandom; write_all io (build_frame payload random); flush io

unfoldable pub close : Io WsError (Unit {0})
close = shutdown io

-- What the loop of `RawWsReader::recv_frame` does with a frame: `none` goes round again.
abbrev pub unexpected : WsCloseInfo
unexpected = record { code = none; reason = some (codes "unexpected_ws_frame") }

unfoldable pub incoming_of : WsFrame → Option WsIncoming
incoming_of (WsFrame.binary payload) = some (WsIncoming.binary payload)
incoming_of (WsFrame.ping payload) = some (WsIncoming.ping payload)
incoming_of (WsFrame.pong payload) = none
incoming_of (WsFrame.close info) = some (WsIncoming.close info)
incoming_of (WsFrame.other payload) = some (WsIncoming.close unexpected)

-- A run of a loop: `none` means that its fuel ran out.
abbrev pub Run {ℓ} : Type ℓ → Type ℓ
Run A = Option (Outcome WsError (Option A) × Stream)

-- The body of the loop; `again` is the next round.
unfoldable pub on_frame :
    (Stream → Run WsIncoming) → Outcome WsError (Option WsFrame) × Stream → Run WsIncoming
unfolding incoming_of
on_frame again (ok none, s) = some (ok none, s)
on_frame again (ok (some frame), s) = elim (incoming_of frame) [
  | some incoming ↦ some (ok (some incoming), s)
  | none ↦ again s
]
on_frame again (err e, s) = some (err e, s)
on_frame again (pending, s) = some (pending, s)
on_frame again (panicked, s) = some (panicked, s)

unfoldable pub recv_frame_loop : ℕ → Stream → Run WsIncoming
unfolding on_frame
recv_frame_loop zero s = none
recv_frame_loop (suc fuel) s = on_frame (recv_frame_loop fuel) (read_frame s)

-- Each frame takes two bytes at least, so this fuel is enough.
unfoldable pub recv_frame : Stream → Run WsIncoming
unfolding recv_frame_loop
recv_frame s = recv_frame_loop (suc (length s.incoming)) s

-- The body of the loop of `RawWsClient::recv`, which answers pings.
abbrev pub after_pong : (Stream → Run (List ℕ)) → Outcome WsError (Unit {0}) × Stream → Run (List ℕ)
after_pong again (ok u, s) = again s
after_pong again (err e, s) = some (err e, s)
after_pong again (pending, s) = some (pending, s)
after_pong again (panicked, s) = some (panicked, s)

unfoldable pub on_frame_of_client :
    (Stream → Run (List ℕ)) → Outcome WsError (Option WsFrame) × Stream → Run (List ℕ)
on_frame_of_client again (ok none, s) = some (ok none, s)
on_frame_of_client again (ok (some (WsFrame.binary payload)), s) = some (ok (some payload), s)
on_frame_of_client again (ok (some (WsFrame.ping payload)), s) =
    after_pong again (send_control_frame 0xA payload s)
on_frame_of_client again (ok (some (WsFrame.pong payload)), s) = again s
on_frame_of_client again (ok (some (WsFrame.close info)), s) = some (ok none, s)
on_frame_of_client again (ok (some (WsFrame.other payload)), s) = some (ok none, s)
on_frame_of_client again (err e, s) = some (err e, s)
on_frame_of_client again (pending, s) = some (pending, s)
on_frame_of_client again (panicked, s) = some (panicked, s)

unfoldable pub recv_loop : ℕ → Stream → Run (List ℕ)
unfolding on_frame_of_client
recv_loop zero s = none
recv_loop (suc fuel) s = on_frame_of_client (recv_loop fuel) (read_frame s)

unfoldable pub recv : Stream → Run (List ℕ)
unfolding recv_loop
recv s = recv_loop (suc (length s.incoming)) s

-- `RawWsReader::recv`, which leaves pings to others.
unfoldable pub on_incoming : (Stream → Run (List ℕ)) → Run WsIncoming → Run (List ℕ)
on_incoming again none = none
on_incoming again (some (ok (some (WsIncoming.binary payload)), s)) = some (ok (some payload), s)
on_incoming again (some (ok (some (WsIncoming.ping payload)), s)) = again s
on_incoming again (some (ok (some (WsIncoming.close info)), s)) = some (ok none, s)
on_incoming again (some (ok none, s)) = some (ok none, s)
on_incoming again (some (err e, s)) = some (err e, s)
on_incoming again (some (pending, s)) = some (pending, s)
on_incoming again (some (panicked, s)) = some (panicked, s)

unfoldable pub reader_recv_loop : ℕ → Stream → Run (List ℕ)
unfolding on_incoming
reader_recv_loop zero s = none
reader_recv_loop (suc fuel) s = on_incoming (reader_recv_loop fuel) (recv_frame s)

unfoldable pub reader_recv : Stream → Run (List ℕ)
unfolding reader_recv_loop
reader_recv s = reader_recv_loop (suc (length s.incoming)) s
