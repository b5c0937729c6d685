-- ===== src/Tests/FrameRuns.antt =====
-- The unit tests of src/modules/ws.rs on frames, and its theorems at concrete inputs.
use telegram_socks_ws_proxy.Base.{
  ℕ, ◌≡◌, refl, arith, Option, none, some, false, List, [], ◌∷◌, ◌++◌, ◌^◌,
}
use telegram_socks_ws_proxy.Base.Stream.{Stream, Outcome, closed, ok, panicked}
use telegram_socks_ws_proxy.Ws.Types.{WsIncoming, WsError}
use telegram_socks_ws_proxy.Ws.Frame.{
  frame_of, read_frame, build_frame_with_opcode, build_frame, to_be_bytes,
}
use telegram_socks_ws_proxy.Ws.Frame.RoundTrip.{server_frame, read-build_frame, read-server_frame}
use telegram_socks_ws_proxy.Ws.Frame.Reads.{read_frame-panics}
use telegram_socks_ws_proxy.Ws.Client.{recv_frame, recv}
use telegram_socks_ws_proxy.Ws.Client.Loops.{recv-total}

abbrev idle : Stream
idle = record { incoming = []; ending = closed; sent = []; writes = 3; shut = false; entropy = [] }

abbrev abc : List ℕ
abc = b'a' ∷ b'b' ∷ b'c' ∷ []

-- With the fixed key, since `getrandom` fails.
built : build_frame abc none ≡ 0x82 ∷ 0x83 ∷ 0x11 ∷ 0x22 ∷ 0x33 ∷ 0x44 ∷ 0x70 ∷ 0x40 ∷ 0x50 ∷ []
unfolding build_frame
built = refl

read-build_frame_example :
    read_frame (record idle { incoming = build_frame_with_opcode 0x9 abc none ++ (7 ∷ []) })
    ≡ (ok (some (frame_of 0x9 abc)), record idle { incoming = 7 ∷ [] })
read-build_frame_example =
    read-build_frame 0x9 abc (7 ∷ []) none idle (omega arith) (omega arith) refl

abbrev one_frame : Stream
one_frame = record idle { incoming = server_frame 0x2 abc ++ (7 ∷ []) }

abbrev behind : Stream
behind = record idle { incoming = 7 ∷ [] }

server_frame_read :
    read_frame (record idle { incoming = server_frame 0x2 abc ++ (7 ∷ []) })
    ≡ (ok (some (frame_of 0x2 abc)), record idle { incoming = 7 ∷ [] })
server_frame_read = read-server_frame 0x2 abc (7 ∷ []) idle (omega arith) (omega arith)

read_frame-panics_example :
    read_frame (record idle { incoming = 0x82 ∷ 127 ∷ (to_be_bytes 8 (2 ^ 63) ++ []) })
    ≡ (panicked, record idle { incoming = [] })
read_frame-panics_example = read_frame-panics 0x82 (2 ^ 63) [] idle (omega arith) (omega arith)

recv-total_example :
    ((x : Outcome WsError (Option WsIncoming) × Stream) × (recv_frame one_frame ≡ some x))
    × ((y : Outcome WsError (Option (List ℕ)) × Stream) × (recv one_frame ≡ some y))
recv-total_example = recv-total one_frame
