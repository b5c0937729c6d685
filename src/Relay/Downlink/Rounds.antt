-- ===== src/Relay/Downlink/Rounds.antt =====
-- A round of the task of src/modules/relay.rs from the WebSocket to the client.
use telegram_socks_ws_proxy.Base.{
  ℕ, ◌≡◌, refl, sym, ap, ◌∙◌, subst, Option, List, [], ◌∷◌, ◌++◌, append-nil, inl, inr,
}
use telegram_socks_ws_proxy.Base.Stream.{Stream, Outcome, ok, err, pending, panicked, next_key}
use telegram_socks_ws_proxy.Telegram.Cipher.{Cipher}
use telegram_socks_ws_proxy.Ws.Types.{WsError}
use telegram_socks_ws_proxy.Ws.Client.{send_control_frame, recv_frame}
use telegram_socks_ws_proxy.Relay.{
  Bridge, Down, receiving, answering, down_done, down_failed, down_panicked, after_answer,
  down_round,
}
use telegram_socks_ws_proxy.Relay.Messages.{Message, Transmits, send_control_frame-Transmits}
use telegram_socks_ws_proxy.Relay.Downlink.{ServerFrame, server_bytes, AllSmall, recv_frame-deliver}
use telegram_socks_ws_proxy.Relay.Downlink.Sides.{
  data_of, pings_of, DownSide, DownStep, AllSmall-suffix, quiet,
}
use telegram_socks_ws_proxy.Relay.Downlink.Receipts.{after_deliver-DownStep}

module _ (c : Cipher) (fs : List ServerFrame) (before : List ℕ) (pongs : List (List ℕ)) where
  after_answer-DownStep :
      (b : Bridge c) (p : List ℕ) (bytes packets : ℕ) (taken todo : List ServerFrame)
      → taken ++ todo ≡ fs
      → b.ws.incoming ≡ server_bytes todo
      → b.client.sent ≡ before ++ data_of taken
      → pongs ++ (p ∷ []) ≡ pings_of taken
      → (random : Option (List ℕ)) → (r : Outcome WsError (Unit {0}) × Stream)
      → Transmits b.ws (Message.pong p random) r
      → DownStep c fs before pongs b (after_answer c b bytes packets r)
  unfolding after_answer
  after_answer-DownStep b p bytes packets taken todo split arriving delivered asked random
        (ok u, ws) (w, i, e) =
      (
        Message.pong p random ∷ [],
        w,
        refl,
        refl,
        refl,
        refl,
        (
          taken,
          todo,
          [],
          [],
          split,
          i ∙ arriving,
          append-nil b.client.sent ∙ delivered,
          append-nil (pongs ++ (p ∷ [])) ∙ asked,
          (refl, refl),
        ),
      )
  after_answer-DownStep b p bytes packets taken todo split arriving delivered asked random
        (err x, ws) (inl (w, i, e)) =
      (
        [],
        w,
        refl,
        refl,
        refl,
        refl,
        (
          taken,
          todo,
          [],
          p ∷ [],
          split,
          i ∙ arriving,
          append-nil b.client.sent ∙ delivered,
          ap (λ l. l ++ (p ∷ [])) (append-nil pongs) ∙ asked,
          tt,
        ),
      )
  after_answer-DownStep b p bytes packets taken todo split arriving delivered asked random
        (err x, ws) (inr (w, i, e)) =
      (
        Message.pong p random ∷ [],
        w,
        refl,
        refl,
        refl,
        refl,
        (
          taken,
          todo,
          [],
          [],
          split,
          i ∙ arriving,
          append-nil b.client.sent ∙ delivered,
          append-nil (pongs ++ (p ∷ [])) ∙ asked,
          tt,
        ),
      )
  after_answer-DownStep b p bytes packets taken todo split arriving delivered asked random
        (pending, ws) h =
      absurd h
  after_answer-DownStep b p bytes packets taken todo split arriving delivered asked random
        (panicked, ws) h =
      absurd h

  same-DownStep :
      (b : Bridge c)
      → DownSide c fs before pongs b.ws.incoming b.client.sent b.down
      → DownStep c fs before pongs b b
  same-DownStep b side = quiet c fs before pongs b b refl refl refl refl side

  -- A round of the task, wherever it stands.
  pub down_round-DownStep :
      (b : Bridge c) (down : Down c)
      → AllSmall fs
      → b.down ≡ down
      → DownSide c fs before pongs b.ws.incoming b.client.sent down
      → DownStep c fs before pongs b (down_round c b down)
  unfolding down_round
  down_round-DownStep b (receiving bytes packets) small d
        (
          taken,
          todo,
          dropped,
          unanswered,
          split,
          arriving,
          delivered,
          answered,
          (no_drop, no_ask),
        ) =
      let all_answered = sym (append-nil pongs) ∙ ap (λ l. pongs ++ l) (sym no_ask) ∙ answered in
      let all_delivered =
        sym (append-nil b.client.sent) ∙ ap (λ l. b.client.sent ++ l) (sym no_drop) ∙ delivered in
      let small' = AllSmall-suffix taken todo (subst AllSmall (sym split) small) in
      let still = same-DownStep b (
        subst (DownSide c fs before pongs b.ws.incoming b.client.sent) (sym d) (
          taken,
          todo,
          dropped,
          unanswered,
          split,
          arriving,
          delivered,
          answered,
          (no_drop, no_ask),
        )) in
      let received =
        ap (λ l. recv_frame (record b.ws { incoming = l })) arriving
        ∙ recv_frame-deliver todo b.ws small' in
      rw received (
        after_deliver-DownStep c fs before pongs b bytes packets taken todo still split all_answered
          all_delivered)
  down_round-DownStep b (answering p bytes packets) small d
        (taken, todo, dropped, unanswered, split, arriving, delivered, answered, (no_drop, asked)) =
      after_answer-DownStep b p bytes packets taken todo split arriving
        (sym (append-nil b.client.sent) ∙ ap (λ l. b.client.sent ++ l) (sym no_drop) ∙ delivered)
        (ap (λ l. pongs ++ l) (sym asked) ∙ answered) (next_key b.ws.entropy)
        (send_control_frame 0xA p b.ws) (send_control_frame-Transmits p b.ws)
  down_round-DownStep b (down_done stats) small d side =
      same-DownStep b (subst (DownSide c fs before pongs b.ws.incoming b.client.sent) (sym d) side)
  down_round-DownStep b (down_failed e) small d side =
      same-DownStep b (subst (DownSide c fs before pongs b.ws.incoming b.client.sent) (sym d) side)
  down_round-DownStep b down_panicked small d side =
      same-DownStep b (subst (DownSide c fs before pongs b.ws.incoming b.client.sent) (sym d) side)
