-- ===== src/Routing/Backoff.antt =====
-- src/modules/routing/backoff.rs: which WebSocket routes may be tried. A `HashMap` is a function into
-- `Option`, and an `Instant` counts nanoseconds.
pub mod View
pub mod Trace
use telegram_socks_ws_proxy.Base.{
  ℕ, ◌+◌, ◌*◌, ◌==◌, ltb, if◌then◌else◌, Bool, true, false, ◌&&◌, Option, none, some, not,
}

-- `Duration::from_secs`
abbrev pub from_secs : ℕ → ℕ
from_secs s = s * 1_000_000_000

abbrev pub ws_failure_cooldown : ℕ
ws_failure_cooldown = from_secs 60

abbrev pub ws_attempt_window : ℕ
ws_attempt_window = from_secs 15

-- (dc, is_media)
abbrev pub WsKey : Type 0
WsKey = ℕ × Bool

abbrev pub bool_eq : Bool → Bool → Bool
bool_eq true b = b
bool_eq false b = not b

abbrev pub key_eq : WsKey → WsKey → Bool
key_eq j k = j.0 == k.0 && bool_eq j.1 k.1

pub data WsState : Type 0 where
  probing : ℕ → WsState
  cooldown : ℕ → WsState
  disabled_404 : WsState

pub data WsDecision : Type 0 where
  probe_now probe_in_flight cooldown disabled_404 : WsDecision

pub record WsBackoff : Type 0 where
  pub states : WsKey → Option WsState

abbrev pub default : WsBackoff
default = record { states = λ k. none }

abbrev pub insert : WsKey → WsState → WsBackoff → WsBackoff
insert k v b = record { states = λ j. if key_eq j k then some v else b.states j }

-- The test of `retain`.
unfoldable pub keeps : ℕ → WsState → Bool
keeps now (probing until) = ltb now until
keeps now (WsState.cooldown until) = ltb now until
keeps now WsState.disabled_404 = true

unfoldable pub retained : ℕ → Option WsState → Option WsState
unfolding keeps
retained now none = none
retained now (some s) = if keeps now s then some s else none

unfoldable pub retain : ℕ → WsBackoff → WsBackoff
unfolding retained
retain now b = record { states = λ j. retained now (b.states j) }

unfoldable pub decide : WsKey → ℕ → WsBackoff → Option WsState → WsBackoff × WsDecision
decide k now b (some (probing until)) = (b, probe_in_flight)
decide k now b (some (WsState.cooldown until)) = (b, WsDecision.cooldown)
decide k now b (some WsState.disabled_404) = (b, WsDecision.disabled_404)
decide k now b none = (insert k (probing (now + ws_attempt_window)) b, probe_now)

unfoldable pub begin_probe : WsKey → ℕ → WsBackoff → WsBackoff × WsDecision
unfolding retain decide
begin_probe k now b = decide k now (retain now b) ((retain now b).states k)

unfoldable pub record_failure : WsKey → ℕ → WsBackoff → WsBackoff
record_failure k now b = insert k (WsState.cooldown (now + ws_failure_cooldown)) b

unfoldable pub disable_404 : WsKey → WsBackoff → WsBackoff
disable_404 k b = insert k WsState.disabled_404 b

unfoldable pub clear : WsKey → WsBackoff → WsBackoff
clear k b = record { states = λ j. if key_eq j k then none else b.states j }
