-- ===== src/Tests/RelayRuns.antt =====
-- A bridge of src/modules/relay.rs at work, and its theorems at concrete inputs.
use telegram_socks_ws_proxy.Base.{
  ℕ, ◌≡◌, refl, arith, none, false, List, [], ◌∷◌, ◌++◌, length, replicate,
}
use telegram_socks_ws_proxy.Base.Utf8.{Str, codes}
use telegram_socks_ws_proxy.Base.Stream.{IoError, Stream, Outcome, closed, ok}
use telegram_socks_ws_proxy.Base.Stream.{getrandom, write_all, flush}
use telegram_socks_ws_proxy.Ws.Client.{send}
use telegram_socks_ws_proxy.Ws.Frame.{build_frame, build_frame_with_opcode}
use telegram_socks_ws_proxy.Relay.{
  Bridge, Turn, up_turn, down_turn, bridge_ws_tcp, run, result, reading, receiving,
}
use telegram_socks_ws_proxy.Relay.Downlink.{
  ServerFrame, server_bytes, data_frame, text, ping, close,
}
use telegram_socks_ws_proxy.Relay.Faithful.{IsFaithful, bridge-IsFaithful}
use telegram_socks_ws_proxy.Relay.Tcp.{
  Copied, Passes, bridge_tcp_tcp_with_prelude, bridge_tcp_tcp_with_prelude-Passes,
}
use telegram_socks_ws_proxy.Relay.Ended.{IsOutcome, bridge-IsOutcome}
use telegram_socks_ws_proxy.Tests.Toy.{toy, toy_laws}

abbrev hello : List ℕ
hello = b'h' ∷ b'i' ∷ []

abbrev frames : List ServerFrame
frames = data_frame false text hello ∷ ping (7 ∷ []) ∷ close (0x03 ∷ 0xe8 ∷ []) ∷ []

abbrev client : Stream
client = record {
  incoming = 1 ∷ 2 ∷ 3 ∷ [];
  ending = closed;
  sent = 5 ∷ [];
  writes = 9;
  shut = false;
  entropy = [];
}

abbrev server : Stream
server = record {
  incoming = server_bytes frames;
  ending = closed;
  sent = [];
  writes = 9;
  shut = false;
  entropy = [];
}

abbrev greeted : Stream
greeted = record server { sent = 0x82 ∷ 0x81 ∷ 0x11 ∷ 0x22 ∷ 0x33 ∷ 0x44 ∷ 0x11 ∷ []; writes = 7 }

-- The bridge behind the init packet of one byte, 0.
abbrev bridge : Bridge toy
bridge = record { client = client; ws = greeted; up = reading none 0 0; down = receiving 0 0 }

begun : bridge_ws_tcp toy client server (0 ∷ []) none ≡ ok bridge
unfolding bridge_ws_tcp send getrandom write_all flush build_frame build_frame_with_opcode
begun = refl

abbrev turns : List Turn
turns =
    up_turn 1 ∷ down_turn ∷ down_turn ∷ up_turn 5 ∷ up_turn 5 ∷ up_turn 0 ∷ replicate 10 down_turn

abbrev few : List Turn
few = up_turn 1 ∷ down_turn ∷ down_turn ∷ []

bridge-IsFaithful_example :
    IsFaithful toy (0 ∷ 1 ∷ 2 ∷ 3 ∷ []) frames [] (5 ∷ []) (run toy few bridge)
bridge-IsFaithful_example =
    bridge-IsFaithful toy toy_laws frames client server (0 ∷ []) none few bridge
      (omega arith, (omega arith, (omega arith, tt))) refl begun

bridge-IsOutcome_example :
    IsOutcome
      (0 ∷ 1 ∷ 2 ∷ 3 ∷ [])
      frames
      []
      (5 ∷ [])
      (run toy turns bridge).client
      (run toy turns bridge).ws
      (result toy (run toy turns bridge).up (run toy turns bridge).down)
bridge-IsOutcome_example =
    bridge-IsOutcome toy toy_laws frames client server (0 ∷ []) none turns bridge
      (omega arith, (omega arith, (omega arith, tt))) refl (cc) (cc) begun (omega arith)
      (omega arith)

abbrev connect_to : Str → ℕ → Outcome IoError Stream
connect_to addr port = ok (record client { incoming = hello; sent = [] })

abbrev copy_all : Stream → Stream → Copied
copy_all a b = (
  ok (length a.incoming, length b.incoming),
  (
    record a { incoming = []; sent = a.sent ++ b.incoming },
    record b { incoming = []; sent = b.sent ++ a.incoming },
  ),
)

bridge_tcp_tcp_with_prelude-Passes_example :
    Passes connect_to copy_all client
      (9 ∷ [])
      (connect_to (codes "149.154.167.51") 443)
      (bridge_tcp_tcp_with_prelude connect_to copy_all client (codes "149.154.167.51") 443 (9 ∷ []))
bridge_tcp_tcp_with_prelude-Passes_example =
    bridge_tcp_tcp_with_prelude-Passes connect_to copy_all (λ a b. (refl, refl)) client
      (codes "149.154.167.51") 443 (9 ∷ [])

abbrev patient : Stream
patient = record client { writes = 20 }

abbrev willing : Stream
willing = record server { writes = 30 }
