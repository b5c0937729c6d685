-- ===== src/Stats.antt =====
-- src/modules/stats.rs: the counters, which `fetch_add` wraps around at 2 ^ 64.
use telegram_socks_ws_proxy.Base.{ℕ, ◌+◌, ◌%◌, ◌^◌, ◌<◌, ◌≡◌, arith, List, [], ◌∷◌}

pub record Stats : Type 0 where
  pub connections_total : ℕ
  pub connections_ws : ℕ
  pub bytes_up : ℕ
  pub bytes_down : ℕ

abbrev pub fetch_add : ℕ → ℕ → ℕ
fetch_add counter n = (counter + n) % 2 ^ 64

unfoldable pub new : Stats
new = record { connections_total = 0; connections_ws = 0; bytes_up = 0; bytes_down = 0 }

unfoldable pub inc_total : Stats → Stats
inc_total s = record s { connections_total = fetch_add s.connections_total 1 }

unfoldable pub inc_ws : Stats → Stats
inc_ws s = record s { connections_ws = fetch_add s.connections_ws 1 }

unfoldable pub add_bytes_up : ℕ → Stats → Stats
add_bytes_up n s = record s { bytes_up = fetch_add s.bytes_up n }

unfoldable pub add_bytes_down : ℕ → Stats → Stats
add_bytes_down n s = record s { bytes_down = fetch_add s.bytes_down n }

-- The calls of several tasks, in the order in which they come through.
pub data Call : Type 0 where
  total ws : Call
  up down : ℕ → Call

unfoldable pub apply : Call → Stats → Stats
unfolding inc_total inc_ws add_bytes_up add_bytes_down
apply Call.total s = inc_total s
apply Call.ws s = inc_ws s
apply (Call.up n) s = add_bytes_up n s
apply (Call.down n) s = add_bytes_down n s

unfoldable pub run : List Call → Stats → Stats
unfolding apply
run [] s = s
run (c ∷ cs) s = run cs (apply c s)

-- The sum of one counter's calls.
abbrev pub totals : List Call → ℕ
totals [] = 0
totals (Call.total ∷ cs) = 1 + totals cs
totals (Call.ws ∷ cs) = totals cs
totals (Call.up n ∷ cs) = totals cs
totals (Call.down n ∷ cs) = totals cs

abbrev pub ups : List Call → ℕ
ups [] = 0
ups (Call.total ∷ cs) = ups cs
ups (Call.ws ∷ cs) = ups cs
ups (Call.up n ∷ cs) = n + ups cs
ups (Call.down n ∷ cs) = ups cs

abbrev pub wss : List Call → ℕ
wss [] = 0
wss (Call.total ∷ cs) = wss cs
wss (Call.ws ∷ cs) = 1 + wss cs
wss (Call.up n ∷ cs) = wss cs
wss (Call.down n ∷ cs) = wss cs

abbrev pub downs : List Call → ℕ
downs [] = 0
downs (Call.total ∷ cs) = downs cs
downs (Call.ws ∷ cs) = downs cs
downs (Call.up n ∷ cs) = downs cs
downs (Call.down n ∷ cs) = n + downs cs

abbrev pub IsStats : Stats → Type 0
IsStats s =
    (s.connections_total < 2 ^ 64)
    × (s.connections_ws < 2 ^ 64)
    × (s.bytes_up < 2 ^ 64)
    × (s.bytes_down < 2 ^ 64)

-- Whatever the order of the calls, each counter ends at its start plus the sum of its own calls, modulo 2 ^ 64.
pub run-totals :
    (calls : List Call) (s : Stats)
    → IsStats s
    → ((run calls s).connections_total ≡ (s.connections_total + totals calls) % 2 ^ 64)
      × ((run calls s).connections_ws ≡ (s.connections_ws + wss calls) % 2 ^ 64)
      × ((run calls s).bytes_up ≡ (s.bytes_up + ups calls) % 2 ^ 64)
      × ((run calls s).bytes_down ≡ (s.bytes_down + downs calls) % 2 ^ 64)
unfolding run
run-totals [] s (t, w, u, d) = (omega arith, omega arith, omega arith, omega arith)
run-totals (Call.total ∷ cs) s (t, w, u, d) =
    let (t', w', u', d') = run-totals cs (inc_total s) (omega arith, w, u, d) in
    (omega arith, w', u', d')
run-totals (Call.ws ∷ cs) s (t, w, u, d) =
    let (t', w', u', d') = run-totals cs (inc_ws s) (t, omega arith, u, d) in
    (t', omega arith, u', d')
run-totals (Call.up n ∷ cs) s (t, w, u, d) =
    let (t', w', u', d') = run-totals cs (add_bytes_up n s) (t, w, omega arith, d) in
    (t', w', omega arith, d')
run-totals (Call.down n ∷ cs) s (t, w, u, d) =
    let (t', w', u', d') = run-totals cs (add_bytes_down n s) (t, w, u, omega arith) in
    (t', w', u', omega arith)
