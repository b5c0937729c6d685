-- ===== src/Routing/System/Calls.antt =====
-- The calls on the backoff table of src/modules/routing/backoff.rs that the tasks of a process make, in their order.
use telegram_socks_ws_proxy.Base.{
  ℕ, ◌≡◌, refl, Bool, true, false, Option, none, some, List, [], ◌∷◌,
}
use telegram_socks_ws_proxy.Base.Utf8.{Str}
use telegram_socks_ws_proxy.Telegram.Cipher.{Cipher}
use telegram_socks_ws_proxy.Ws.Types.{WsError}
use telegram_socks_ws_proxy.Socks.{SocksAuthConfig}
use telegram_socks_ws_proxy.Routing.Backoff.{WsKey, WsBackoff}
use telegram_socks_ws_proxy.Routing.Backoff.Trace.{Event, began, failed, disabled, cleared}
use telegram_socks_ws_proxy.Routing.Backoff.Trace
use telegram_socks_ws_proxy.Routing.Client.{Shared, connect_ws_route, conclude}
use telegram_socks_ws_proxy.Routing.System.{
  Client, absent, accepted, waiting, received, resolved, remembered, timed, attempting, concluded,
  ended, advance,
}

-- The call that concludes an attempt.
abbrev pub concluding : WsKey → ℕ → Option Str × Bool → Event
concluding key at (some domain, all_404) = cleared key
concluding key at (none, true) = disabled key
concluding key at (none, false) = failed key at

-- The call on the table that a step of a task makes, if it makes one.
abbrev pub calls : (Str → Option WsError) → Client → List Event
calls answer absent = []
calls answer waiting = []
calls answer (accepted s) = []
calls answer (received host port packet) = []
calls answer (resolved host port r) = []
calls answer (remembered host port r) = []
calls answer (timed key at r) = began key at ∷ []
calls answer (attempting key at r) = concluding key at (connect_ws_route answer key.0 key.1) ∷ []
calls answer (concluded key r domain) = []
calls answer (ended fate) = []

conclude-step :
    (key : WsKey) (at : ℕ) (r : Option Str × Bool) (b : WsBackoff)
    → (conclude key at r b).1 ≡ Trace.step (concluding key at r) b
unfolding conclude Trace.step
conclude-step key at (some domain, all_404) b = refl
conclude-step key at (none, true) b = refl
conclude-step key at (none, false) b = refl

module _ (c : Cipher) (auth : Option SocksAuthConfig) where
  pub advance-calls :
      (answer : Str → Option WsError) (now : ℕ) (shared : Shared) (x : Client)
      → (advance c auth answer now shared x).1.backoff ≡ Trace.run (calls answer x) shared.backoff
  unfolding advance Trace.run Trace.step
  advance-calls answer now shared absent = refl
  advance-calls answer now shared waiting = refl
  advance-calls answer now shared (accepted s) = refl
  advance-calls answer now shared (received host port packet) = refl
  advance-calls answer now shared (resolved host port r) = refl
  advance-calls answer now shared (remembered host port r) = refl
  advance-calls answer now shared (timed key at r) = refl
  advance-calls answer now shared (attempting key at r) =
      conclude-step key at (connect_ws_route answer key.0 key.1) shared.backoff
  advance-calls answer now shared (concluded key r domain) = refl
  advance-calls answer now shared (ended fate) = refl
