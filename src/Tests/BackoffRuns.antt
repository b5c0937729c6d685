-- ===== src/Tests/BackoffRuns.antt =====
-- The unit tests of src/modules/routing/backoff.rs, and its theorems at concrete inputs.
use telegram_socks_ws_proxy.Base.{
  ◌+◌, ◌≡◌, refl, arith, true, false, some, [], ◌∷◌, if◌then◌else◌, ◌&&◌,
}
use telegram_socks_ws_proxy.Routing.Backoff.{
  WsKey, probing, probe_now, probe_in_flight, default, from_secs, begin_probe, record_failure,
  clear, ws_attempt_window, key_eq, retained, keeps,
}
use telegram_socks_ws_proxy.Routing.Backoff.View.{live, decision_of, is_free, begin_probe_lem}
use telegram_socks_ws_proxy.Routing.Backoff.Trace.{began, run, probe-IsExclusive}

abbrev key : WsKey
key = (2, false)

abbrev media_key : WsKey
media_key = (2, true)

granted : (begin_probe key 0 default).1 ≡ probe_now
unfolding begin_probe
granted = refl

cleared_route : (begin_probe key 7 (clear key (record_failure key 0 default))).1 ≡ probe_now
unfolding begin_probe clear record_failure
cleared_route = refl

begin_probe_lem_example :
    ((begin_probe key 5 (record_failure key 0 default)).1
      ≡ decision_of (live 5 (record_failure key 0 default) key))
    × (live 9 (begin_probe key 5 (record_failure key 0 default)).0 key ≡ (
        if key_eq key key && is_free (live 5 (record_failure key 0 default) key)
        then retained 9 (some (probing (5 + ws_attempt_window)))
        else live 9 (record_failure key 0 default) key))
begin_probe_lem_example = begin_probe_lem key key 5 9 (record_failure key 0 default) (omega arith)

probe-IsExclusive_example :
    (begin_probe key
      (from_secs 14)
      (run (began key (from_secs 2) ∷ []) (begin_probe key 0 default).0)).1
    ≡ probe_in_flight
unfolding keeps
probe-IsExclusive_example =
    probe-IsExclusive key 0 (from_secs 14) default (began key (from_secs 2) ∷ []) granted (refl, tt)
      (omega arith)
