-- ===== src/Ws/Types.antt =====
-- The data types of src/modules/ws.rs.
use telegram_socks_ws_proxy.Base.{ℕ, Option, none, some, List}
use telegram_socks_ws_proxy.Base.Utf8.{Str}
use telegram_socks_ws_proxy.Base.Stream.{IoError}

pub record WsCloseInfo : Type 0 where
  pub code : Option ℕ
  pub reason : Option Str

pub data WsError : Type 0 where
  handshake : Str → WsError
  http_status : ℕ → Option Str → WsError
  io : IoError → WsError
  tls : Str → WsError
  timeout : WsError

pub data WsFrame : Type 0 where
  binary : List ℕ → WsFrame
  ping : List ℕ → WsFrame
  pong : List ℕ → WsFrame
  close : WsCloseInfo → WsFrame
  other : List ℕ → WsFrame

pub data WsIncoming : Type 0 where
  binary : List ℕ → WsIncoming
  ping : List ℕ → WsIncoming
  close : WsCloseInfo → WsIncoming

unfoldable pub status_code : WsError → Option ℕ
status_code (http_status status location) = some status
status_code (handshake m) = none
status_code (io e) = none
status_code (tls m) = none
status_code timeout = none
