-- ===== src/Tests/PoolRuns.antt =====
-- src/modules/pool.rs and stats.rs at concrete inputs.
use telegram_socks_ws_proxy.Base.{ℕ, ◌^◌, ◌-◌, true, false, List, [], ◌∷◌}
use telegram_socks_ws_proxy.Pool.{WsPool, new, return_to_pool}
use telegram_socks_ws_proxy.Stats.{Stats, Call}

abbrev pool : WsPool ℕ
pool = return_to_pool (2, false) 7 (return_to_pool (4, true) 8 new)

abbrev mixed_calls : List Call
mixed_calls = Call.up (2 ^ 64 - 1) ∷ Call.total ∷ Call.up 3 ∷ Call.down 5 ∷ []

abbrev full : Stats
full = record { connections_total = 1; connections_ws = 0; bytes_up = 4; bytes_down = 0 }
