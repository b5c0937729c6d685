-- ===== src/Relay.antt =====
-- src/modules/relay.rs: the bridge between a client and a WebSocket, two tasks that share the writing half of the
-- WebSocket. A round of a task is a turn of a schedule: the task holds the lock while it writes, and each connection
-- is read by one task only.
pub mod Messages
pub mod Uplink
pub mod Downlink
pub mod Faithful
pub mod Ended
pub mod Success
pub mod Tcp
use telegram_socks_ws_proxy.Base.{
  ℕ, suc, ◌+◌, ◌%◌, ◌^◌, min, Option, none, some, List, [], ◌∷◌, ◌++◌, length,
}
use telegram_socks_ws_proxy.Base.Utf8.{Str, codes}
use telegram_socks_ws_proxy.Base.Decimal.{to_string}
use telegram_socks_ws_proxy.Base.Stream.{
  Stream, IoError, other, Io, Outcome, ok, err, pending, panicked, return, ◌>>◌, read, write_all,
  shutdown,
}
use telegram_socks_ws_proxy.Telegram.Cipher.{Cipher}
use telegram_socks_ws_proxy.Telegram.Splitter.{MtProtoMessageSplitter, split}
use telegram_socks_ws_proxy.Ws.Types.{WsError, WsIncoming, WsCloseInfo}
use telegram_socks_ws_proxy.Ws.Client.{Run, send, send_control_frame, close, recv_frame}
use mathlib.Core.Option

pub record BridgeStats : Type 0 where
  pub bytes : ℕ
  pub packets : ℕ
  pub end_reason : Str

abbrev pub add_u64 : ℕ → ℕ → ℕ
add_u64 a b = (a + b) % 2 ^ 64

abbrev pub same_error : IoError → IoError
same_error e = e

-- The sending of the parts of one chunk, under one lock.
unfoldable pub send_parts : List (List ℕ) → Io WsError (Unit {0})
send_parts [] = return tt
send_parts (part ∷ parts) = send part >> send_parts parts

unfoldable pub close_reason : WsCloseInfo → Str
close_reason info =
    codes "ws_close(code="
    ++ (Option.get_or (Option.map to_string info.code) (codes "none")
        ++ (codes ",reason=" ++ (Option.get_or info.reason (codes "none") ++ codes ")")))

-- Whose round comes next; `up_turn n` has at most `n + 1` bytes ready for the read.
pub data Turn : Type 0 where
  up_turn : ℕ → Turn
  down_turn : Turn

module _ (c : Cipher) where
  -- Where the task from the client to the WebSocket stands, with its variables.
  pub data Up : Type 0 where
    reading : Option (MtProtoMessageSplitter c) → ℕ → ℕ → Up
    up_done : BridgeStats → Up
    up_failed : IoError → Up

  -- Where the task from the WebSocket to the client stands; `answering` holds the payload of a ping.
  pub data Down : Type 0 where
    receiving : ℕ → ℕ → Down
    answering : List ℕ → ℕ → ℕ → Down
    down_done : BridgeStats → Down
    down_failed : IoError → Down
    down_panicked : Down

  pub record Bridge : Type 0 where
    pub client : Stream
    pub ws : Stream
    pub up : Up
    pub down : Down

  unfoldable pub split_chunk :
      Option (MtProtoMessageSplitter c)
      → List ℕ
      → Option (List (List ℕ) × Option (MtProtoMessageSplitter c))
  split_chunk none chunk = some (chunk ∷ [], none)
  split_chunk (some splitter) chunk =
      Option.map (λ (parts, splitter'). (parts, some splitter')) (split c splitter chunk)

  -- What the results of the awaited calls make of the bridge. What the calls never come to leaves it as it is.
  unfoldable pub after_send :
      Bridge
      → Option (MtProtoMessageSplitter c)
      → ℕ
      → ℕ
      → Outcome WsError (Unit {0}) × Stream
      → Bridge
  after_send b splitter bytes packets (ok u, ws) = record b {
    ws = ws;
    up = reading splitter bytes packets;
  }
  after_send b splitter bytes packets (err e, ws) = record b { ws = ws; up = up_failed other }
  after_send b splitter bytes packets (pending, ws) = b
  after_send b splitter bytes packets (panicked, ws) = b

  unfoldable pub after_split :
      Bridge → ℕ → ℕ → Option (List (List ℕ) × Option (MtProtoMessageSplitter c)) → Bridge
  after_split b bytes packets none = b
  after_split b bytes packets (some (parts, splitter)) =
      after_send b splitter bytes packets (send_parts parts b.ws)

  unfoldable pub after_close : Bridge → ℕ → ℕ → Outcome WsError (Unit {0}) × Stream → Bridge
  after_close b bytes packets (ok u, ws) = record b {
    ws = ws;
    up = up_done (record { bytes = bytes; packets = packets; end_reason = codes "client_eof" });
  }
  after_close b bytes packets (err e, ws) = record b { ws = ws; up = up_failed other }
  after_close b bytes packets (pending, ws) = b
  after_close b bytes packets (panicked, ws) = b

  unfoldable pub after_read :
      Bridge
      → Option (MtProtoMessageSplitter c)
      → ℕ
      → ℕ
      → Outcome IoError (List ℕ) × Stream
      → Bridge
  after_read b splitter bytes packets (ok [], s) =
      after_close (record b { client = s }) bytes packets (close b.ws)
  after_read b splitter bytes packets (ok (x ∷ xs), s) =
      after_split (record b { client = s }) (add_u64 bytes (length (x ∷ xs))) (add_u64 packets 1)
        (split_chunk splitter (x ∷ xs))
  after_read b splitter bytes packets (err e, s) = record b { client = s; up = up_failed e }
  after_read b splitter bytes packets (pending, s) = b
  after_read b splitter bytes packets (panicked, s) = b

  -- One round of the first task; the read yields at most `n + 1` bytes, and never more than the buffer holds.
  unfoldable pub up_round : ℕ → Bridge → Up → Bridge
  up_round n b (reading splitter bytes packets) =
      after_read b splitter bytes packets (read same_error (min (suc n) 32768) b.client)
  up_round n b (up_done stats) = b
  up_round n b (up_failed e) = b

  unfoldable pub after_write : Bridge → ℕ → ℕ → Outcome IoError (Unit {0}) × Stream → Bridge
  after_write b bytes packets (ok u, s) = record b { client = s; down = receiving bytes packets }
  after_write b bytes packets (err e, s) = record b { client = s; down = down_failed e }
  after_write b bytes packets (pending, s) = b
  after_write b bytes packets (panicked, s) = b

  unfoldable pub after_shutdown :
      Bridge → BridgeStats → Outcome IoError (Unit {0}) × Stream → Bridge
  after_shutdown b stats (ok u, s) = record b { client = s; down = down_done stats }
  after_shutdown b stats (err e, s) = record b { client = s; down = down_failed e }
  after_shutdown b stats (pending, s) = b
  after_shutdown b stats (panicked, s) = b

  unfoldable pub after_recv : Bridge → ℕ → ℕ → Run WsIncoming → Bridge
  after_recv b bytes packets none = b
  after_recv b bytes packets (some (ok (some (WsIncoming.binary payload)), ws)) =
      after_write (record b { ws = ws }) (add_u64 bytes (length payload)) (add_u64 packets 1)
        (write_all same_error payload b.client)
  after_recv b bytes packets (some (ok (some (WsIncoming.ping payload)), ws)) = record b {
    ws = ws;
    down = answering payload bytes packets;
  }
  after_recv b bytes packets (some (ok (some (WsIncoming.close info)), ws)) =
      after_shutdown (record b { ws = ws })
        (record { bytes = bytes; packets = packets; end_reason = close_reason info })
        (shutdown same_error b.client)
  after_recv b bytes packets (some (ok none, ws)) =
      after_shutdown (record b { ws = ws })
        (record { bytes = bytes; packets = packets; end_reason = codes "ws_eof" })
        (shutdown same_error b.client)
  after_recv b bytes packets (some (err e, ws)) = record b { ws = ws; down = down_failed other }
  after_recv b bytes packets (some (pending, ws)) = b
  after_recv b bytes packets (some (panicked, ws)) = record b { ws = ws; down = down_panicked }

  unfoldable pub after_answer : Bridge → ℕ → ℕ → Outcome WsError (Unit {0}) × Stream → Bridge
  after_answer b bytes packets (ok u, ws) = record b { ws = ws; down = receiving bytes packets }
  after_answer b bytes packets (err e, ws) = record b { ws = ws; down = down_failed other }
  after_answer b bytes packets (pending, ws) = b
  after_answer b bytes packets (panicked, ws) = b

  -- One round of the second task; between the receipt of a ping and its answer other turns may come.
  unfoldable pub down_round : Bridge → Down → Bridge
  down_round b (receiving bytes packets) = after_recv b bytes packets (recv_frame b.ws)
  down_round b (answering payload bytes packets) =
      after_answer b bytes packets (send_control_frame 0xA payload b.ws)
  down_round b (down_done stats) = b
  down_round b (down_failed e) = b
  down_round b down_panicked = b

  -- A panic of one task takes both with it, since `join!` runs them as one.
  unfoldable pub turn : Turn → Bridge → Down → Bridge
  unfolding up_round down_round
  turn t b down_panicked = b
  turn (up_turn n) b d = up_round n b b.up
  turn down_turn b d = down_round b d

  unfoldable pub run : List Turn → Bridge → Bridge
  unfolding turn
  run [] b = b
  run (t ∷ ts) b = run ts (turn t b b.down)

  -- The start: the init packet is sent before the tasks begin.
  abbrev pub started :
      Stream
      → Option (MtProtoMessageSplitter c)
      → Outcome WsError (Unit {0}) × Stream
      → Outcome IoError Bridge
  started client splitter (ok u, ws) =
      ok (record { client = client; ws = ws; up = reading splitter 0 0; down = receiving 0 0 })
  started client splitter (err e, ws) = err other
  started client splitter (pending, ws) = pending
  started client splitter (panicked, ws) = panicked

  unfoldable pub bridge_ws_tcp :
      Stream → Stream → List ℕ → Option (MtProtoMessageSplitter c) → Outcome IoError Bridge
  bridge_ws_tcp client ws init splitter = started client splitter (send init ws)

  -- What the bridge returns, once both tasks have come out: the first one's error goes first.
  unfoldable pub result : Up → Down → Option (Outcome IoError (BridgeStats × BridgeStats))
  result up down_panicked = some panicked
  result (reading splitter bytes packets) down = none
  result (up_done stats) (down_done stats') = some (ok (stats, stats'))
  result (up_done stats) (down_failed e) = some (err e)
  result (up_failed e) (down_done stats) = some (err e)
  result (up_failed e) (down_failed e') = some (err e)
  result up down = none
