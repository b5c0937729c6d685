-- ===== src/Relay/Ended/Complete.antt =====
-- What the two tasks of src/modules/relay.rs have done when both have come out well.
use telegram_socks_ws_proxy.Base.{ℕ, ◌≡◌, sym, ◌∙◌, subst, List, [], ◌++◌, append-nil, ◌⊎◌}
use telegram_socks_ws_proxy.Base.Stream.{Stream}
use telegram_socks_ws_proxy.Telegram.Cipher.{Cipher}
use telegram_socks_ws_proxy.Relay.{Bridge, BridgeStats, up_done, down_done}
use telegram_socks_ws_proxy.Relay.Messages.{Message, wire, bytes_of, pongs_of}
use telegram_socks_ws_proxy.Relay.Uplink.{UpSide}
use telegram_socks_ws_proxy.Relay.Faithful.{IsFaithful}
use telegram_socks_ws_proxy.Relay.Downlink.{ServerFrame}
use telegram_socks_ws_proxy.Relay.Downlink.Sides.{DownSide, EndsWithClose, data_of, pings_of}

-- What a bridge has done that has come out well.
abbrev pub IsComplete : List ℕ → List ServerFrame → List ℕ → List ℕ → Stream → Stream → Type 0
IsComplete all fs sent before client ws =
    (ms : List Message) × (taken todo : List ServerFrame) × (ws.sent ≡ sent ++ wire ms)
    × (bytes_of ms ≡ all)
    × (pongs_of ms ≡ pings_of taken)
    × (client.sent ≡ before ++ data_of taken)
    × (taken ++ todo ≡ fs)
    × ((todo ≡ []) ⊎ EndsWithClose taken)

pub done-IsComplete :
    (c : Cipher) (all : List ℕ) (fs : List ServerFrame) (sent before : List ℕ) (b : Bridge c)
    (s s' : BridgeStats)
    → b.up ≡ up_done s
    → b.down ≡ down_done s'
    → IsFaithful c all fs sent before b
    → IsComplete all fs sent before b.client b.ws
done-IsComplete c all fs sent before b s s' u d (ms, w, sup, sdown) =
    done_sides (subst (UpSide c all (bytes_of ms) b.client.incoming) u sup)
      (subst (DownSide c fs before (pongs_of ms) b.ws.incoming b.client.sent) d sdown)
  where
    done_sides :
        UpSide c all (bytes_of ms) b.client.incoming (up_done s)
        → DownSide c fs before (pongs_of ms) b.ws.incoming b.client.sent (down_done s')
        → IsComplete all fs sent before b.client b.ws
    done_sides (lost, whole, (none_lost, none_left))
          (
            taken,
            todo,
            dropped,
            unanswered,
            split,
            arriving,
            delivered,
            answered,
            (no_drop, no_ask, ending),
          ) =
        (
          ms,
          taken,
          todo,
          w,
          sym (append-nil (bytes_of ms)) ∙ rw (none_lost, none_left) at whole,
          sym (append-nil (pongs_of ms)) ∙ rw no_ask at answered,
          sym (append-nil b.client.sent) ∙ rw no_drop at delivered,
          split,
          ending,
        )
