-- ===== src/Tests/MainRuns.antt =====
-- src/main.rs on concrete events.
use telegram_socks_ws_proxy.Base.{ℕ, ◌≡◌, refl, List, [], ◌∷◌}
use telegram_socks_ws_proxy.Base.Utf8.{Str, codes}
use telegram_socks_ws_proxy.Main.{Event, accepted, accept_failed, signal, Exit, run_main, select}
use telegram_socks_ws_proxy.Main.Life.{IsLife, run_main-IsLife}

-- A connection that comes while the shutdown sleeps is still served, one that comes later is not.
abbrev events : List (ℕ × Event ℕ Str)
events =
    (1, accepted (codes "first"))
    ∷ (5, signal)
    ∷ (9, accepted (codes "second"))
    ∷ (100_000_000, signal)
    ∷ (200_000_005, accepted (codes "third"))
    ∷ (200_000_006, accept_failed 24)
    ∷ []

shutdown_after_sleep :
    run_main ((codes "v6") ∷ []) events ≡ (codes "first" ∷ codes "second" ∷ [], Exit.shutdown)
unfolding run_main select
shutdown_after_sleep = refl

run_main-IsLife_example : IsLife events (run_main ((codes "v6") ∷ (codes "v4") ∷ []) events)
run_main-IsLife_example = run_main-IsLife (codes "v6") ((codes "v4") ∷ []) events
