-- ===== src/Relay/Success.antt =====
-- The bridge of src/modules/relay.rs comes out well if both peers close their sides and no write fails.
pub mod Uplink
pub mod Downlink
pub mod Runs
use telegram_socks_ws_proxy.Base.{◌-◌, sym, none, [], ◌∷◌}
use telegram_socks_ws_proxy.Base.Stream.{Stream, IoError, stalled, Outcome}
use telegram_socks_ws_proxy.Telegram.Cipher.{Cipher}
use telegram_socks_ws_proxy.Relay.{up_turn, down_turn, up_round, down_round, turn}
use telegram_socks_ws_proxy.Relay.Messages.{pongs_of, bytes_of}
use telegram_socks_ws_proxy.Relay.Uplink.{up_round-UpStep}
use telegram_socks_ws_proxy.Relay.Downlink.Sides.{DownSide, AllSmall-suffix}
use telegram_socks_ws_proxy.Relay.Downlink.Rounds.{down_round-DownStep}
use telegram_socks_ws_proxy.Relay.Faithful.{IsFaithful, turn-IsFaithful}
use telegram_socks_ws_proxy.Relay.Ended.Turns.{Nears, turn-Nears, no_panic}
use telegram_socks_ws_proxy.Relay.Success.Uplink.{up_need, up_round-UpFits, up_round-writes}
use telegram_socks_ws_proxy.Relay.Success.Downlink.{down_need, client_need, down_round-DownFits}
