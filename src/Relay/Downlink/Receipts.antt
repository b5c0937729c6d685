-- ===== src/Relay/Downlink/Receipts.antt =====
-- What a receipt of the task of src/modules/relay.rs from the WebSocket to the client makes of the bridge.
use telegram_socks_ws_proxy.Base.{
  ℕ, zero, suc, true, ◌≡◌, refl, sym, ap, ◌∙◌, some, List, [], ◌∷◌, ◌++◌, append-nil, append_assoc,
  length, ◌⊎◌, inl, inr,
}
use telegram_socks_ws_proxy.Base.Stream.{
  Stream, other, Ending, closed, broken, stalled, write_all, shutdown,
}
use telegram_socks_ws_proxy.Base.Utf8.{codes}
use telegram_socks_ws_proxy.Telegram.Cipher.{Cipher}
use telegram_socks_ws_proxy.Ws.Frame.{parse_close_payload}
use telegram_socks_ws_proxy.Relay.{
  Bridge, BridgeStats, receiving, answering, down_done, down_failed, same_error, add_u64,
  close_reason, after_write, after_shutdown, after_recv,
}
use telegram_socks_ws_proxy.Relay.Downlink.{
  ServerFrame, data_frame, ping, pong, close, at_end, server_bytes, deliver,
}
use telegram_socks_ws_proxy.Relay.Downlink.Sides.{
  data_of, pings_of, data_of-append, pings_of-append, EndsWithClose, DownStep, passed, quiet,
}

module _ (c : Cipher) (fs : List ServerFrame) (before : List ℕ) (pongs : List (List ℕ)) where
  -- The bridge `b` has taken the frames of `taken`, and has `todo` behind them on the connection.
  module _ (taken todo : List ServerFrame) (split : taken ++ todo ≡ fs)
      (answered : pongs ≡ pings_of taken) where
    after_shutdown-DownStep :
        (w : ℕ) (b : Bridge c) (ws : Stream) (stats : BridgeStats)
        → ws.sent ≡ b.ws.sent
        → ws.incoming ≡ server_bytes todo
        → b.client.sent ≡ before ++ data_of taken
        → ((todo ≡ []) ⊎ EndsWithClose taken)
        → DownStep c fs before pongs b (
            after_shutdown c
              (record b { ws = ws })
              stats
              (shutdown same_error (record b.client { writes = w })))
    unfolding after_shutdown shutdown
    after_shutdown-DownStep zero b ws stats same arriving delivered ending =
        let b' : Bridge c = record b {
          ws = ws;
          client = record b.client { writes = zero };
          down = down_failed other;
        } in
        quiet c fs before pongs b b' same refl refl refl (
          taken,
          todo,
          [],
          [],
          split,
          arriving,
          append-nil b.client.sent ∙ delivered,
          append-nil pongs ∙ answered,
          tt,
        )
    after_shutdown-DownStep (suc k) b ws stats same arriving delivered ending =
        let b' : Bridge c = record b {
          ws = ws;
          client = record b.client { writes = k; shut = true };
          down = down_done stats;
        } in
        quiet c fs before pongs b b' same refl refl refl (
          taken,
          todo,
          [],
          [],
          split,
          arriving,
          append-nil b.client.sent ∙ delivered,
          append-nil pongs ∙ answered,
          (refl, refl, ending),
        )

    after_write-DownStep :
        (w : ℕ) (b : Bridge c) (ws : Stream) (payload : List ℕ) (bytes packets : ℕ)
        → ws.sent ≡ b.ws.sent
        → ws.incoming ≡ server_bytes todo
        → b.client.sent ++ payload ≡ before ++ data_of taken
        → DownStep c fs before pongs b (
            after_write c
              (record b { ws = ws })
              bytes
              packets
              (write_all same_error payload (record b.client { writes = w })))
    unfolding after_write write_all
    after_write-DownStep zero b ws payload bytes packets same arriving delivered =
        let b' : Bridge c = record b {
          ws = ws;
          client = record b.client { writes = zero };
          down = down_failed other;
        } in
        quiet c fs before pongs b b' same refl refl refl
          (taken, todo, payload, [], split, arriving, delivered, append-nil pongs ∙ answered, tt)
    after_write-DownStep (suc k) b ws payload bytes packets same arriving delivered =
        let b' : Bridge c = record b {
          ws = ws;
          client = record b.client { sent = b.client.sent ++ payload; writes = k };
          down = receiving bytes packets;
        } in
        quiet c fs before pongs b b' same refl refl refl (
          taken,
          todo,
          [],
          [],
          split,
          arriving,
          append-nil (b.client.sent ++ payload) ∙ delivered,
          append-nil pongs ∙ answered,
          (refl, refl),
        )

  -- The frames that the bridge `b` has taken, and the rest of them, some of which a receipt may pass over.
  pub after_deliver-DownStep :
      (b : Bridge c) (bytes packets : ℕ) (taken todo : List ServerFrame)
      → DownStep c fs before pongs b b
      → taken ++ todo ≡ fs
      → pongs ≡ pings_of taken
      → b.client.sent ≡ before ++ data_of taken
      → DownStep c fs before pongs b (after_recv c b bytes packets (some (deliver todo b.ws)))
  unfolding after_recv
  after_deliver-DownStep b bytes packets taken [] still split answered delivered =
      by_ending b.ws.ending
    where
      by_ending :
          (e : Ending)
          → DownStep c fs before pongs b
              (after_recv c b bytes packets (some (at_end e, record b.ws { incoming = [] })))
      by_ending closed =
          after_shutdown-DownStep taken [] split answered b.client.writes b
            (record b.ws { incoming = [] })
            (record { bytes = bytes; packets = packets; end_reason = codes "ws_eof" }) refl refl
            delivered (inl refl)
      by_ending broken =
          let b' : Bridge c = record b {
            ws = record b.ws { incoming = [] };
            down = down_failed other;
          } in
          quiet c fs before pongs b b' refl refl refl refl (
            taken,
            [],
            [],
            [],
            split,
            refl,
            append-nil b.client.sent ∙ delivered,
            append-nil pongs ∙ answered,
            tt,
          )
      by_ending stalled = still
  after_deliver-DownStep b bytes packets taken (data_frame final kind p ∷ todo) still split answered
        delivered =
      let split' = append_assoc taken (data_frame final kind p ∷ []) todo ∙ split in
      after_write-DownStep (taken ++ (data_frame final kind p ∷ [])) todo split'
        (answered
          ∙ sym
              (pings_of-append taken (data_frame final kind p ∷ []) ∙ append-nil (pings_of taken)))
        b.client.writes b (record b.ws { incoming = server_bytes todo }) p
        (add_u64 bytes (length p)) (add_u64 packets 1) refl refl
        (ap (λ l. l ++ p) delivered
          ∙ append_assoc before (data_of taken) p
          ∙ ap (λ l. before ++ l)
              (ap (λ l. data_of taken ++ l) (sym (append-nil p))
                ∙ sym (data_of-append taken (data_frame final kind p ∷ []))))
  after_deliver-DownStep b bytes packets taken (ping p ∷ todo) still split answered delivered =
      let b' : Bridge c = record b {
        ws = record b.ws { incoming = server_bytes todo };
        down = answering p bytes packets;
      } in
      quiet c fs before pongs b b' refl refl refl refl (
        taken ++ (ping p ∷ []),
        todo,
        [],
        p ∷ [],
        append_assoc taken (ping p ∷ []) todo ∙ split,
        refl,
        append-nil b.client.sent ∙ passed before taken (ping p) refl delivered,
        ap (λ l. l ++ (p ∷ [])) answered ∙ sym (pings_of-append taken (ping p ∷ [])),
        (refl, refl),
      )
  after_deliver-DownStep b bytes packets taken (pong p ∷ todo) still split answered delivered =
      after_deliver-DownStep b bytes packets (taken ++ (pong p ∷ [])) todo still
        (append_assoc taken (pong p ∷ []) todo ∙ split)
        (answered ∙ sym (pings_of-append taken (pong p ∷ []) ∙ append-nil (pings_of taken)))
        (passed before taken (pong p) refl delivered)
  after_deliver-DownStep b bytes packets taken (close p ∷ todo) still split answered delivered =
      after_shutdown-DownStep (taken ++ (close p ∷ [])) todo
        (append_assoc taken (close p ∷ []) todo ∙ split)
        (answered ∙ sym (pings_of-append taken (close p ∷ []) ∙ append-nil (pings_of taken)))
        b.client.writes b (record b.ws { incoming = server_bytes todo })
        (record {
          bytes = bytes;
          packets = packets;
          end_reason = close_reason (parse_close_payload p);
        })
        refl refl (passed before taken (close p) refl delivered) (inr (taken, p, refl))
