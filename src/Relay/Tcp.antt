-- ===== src/Relay/Tcp.antt =====
-- The bridge of src/modules/relay.rs between two TCP connections. The opening of a connection and
-- `tokio::io::copy_bidirectional` are parameters.
use telegram_socks_ws_proxy.Base.{
  ℕ, zero, suc, true, ◌≡◌, refl, sym, ap, ◌∙◌, Option, none, some, List, [], ◌∷◌, ◌++◌, append-nil,
  append_assoc,
}
use telegram_socks_ws_proxy.Base.Utf8.{Str}
use telegram_socks_ws_proxy.Base.Stream.{
  Stream, IoError, Outcome, ok, err, pending, panicked, write_all, shutdown,
}
use telegram_socks_ws_proxy.Relay.{same_error}

-- The result, and what has become of the client's connection and, once there is one, of the remote's.
abbrev pub Bridged : Type 0
Bridged = Outcome IoError (Unit {0}) × (Stream × Option Stream)

abbrev pub Copied : Type 0
Copied = Outcome IoError (ℕ × ℕ) × (Stream × Stream)

module _ (connect : Str → ℕ → Outcome IoError Stream)
    (copy_bidirectional : Stream → Stream → Copied) where
  abbrev pub after_remote_shutdown : Stream → Outcome IoError (Unit {0}) × Stream → Bridged
  after_remote_shutdown client (r, remote) = (r, (client, some remote))

  abbrev pub after_client_shutdown : Stream → Outcome IoError (Unit {0}) × Stream → Bridged
  after_client_shutdown remote (ok u, client) =
      after_remote_shutdown client (shutdown same_error remote)
  after_client_shutdown remote (err e, client) = (err e, (client, some remote))
  after_client_shutdown remote (pending, client) = (pending, (client, some remote))
  after_client_shutdown remote (panicked, client) = (panicked, (client, some remote))

  unfoldable pub after_copy : Copied → Bridged
  after_copy (ok sizes, (client, remote)) =
      after_client_shutdown remote (shutdown same_error client)
  after_copy (err e, (client, remote)) = (err e, (client, some remote))
  after_copy (pending, (client, remote)) = (pending, (client, some remote))
  after_copy (panicked, (client, remote)) = (panicked, (client, some remote))

  unfoldable pub after_prelude : Stream → Outcome IoError (Unit {0}) × Stream → Bridged
  unfolding after_copy
  after_prelude client (ok u, remote) = after_copy (copy_bidirectional client remote)
  after_prelude client (err e, remote) = (err e, (client, some remote))
  after_prelude client (pending, remote) = (pending, (client, some remote))
  after_prelude client (panicked, remote) = (panicked, (client, some remote))

  unfoldable pub write_prelude : List ℕ → Stream → Outcome IoError (Unit {0}) × Stream
  write_prelude [] remote = (ok tt, remote)
  write_prelude (b ∷ prelude) remote = write_all same_error (b ∷ prelude) remote

  abbrev pub after_connect : Stream → List ℕ → Outcome IoError Stream → Bridged
  after_connect client prelude (ok remote) = after_prelude client (write_prelude prelude remote)
  after_connect client prelude (err e) = (err e, (client, none))
  after_connect client prelude pending = (pending, (client, none))
  after_connect client prelude panicked = (panicked, (client, none))

  unfoldable pub bridge_tcp_tcp_with_prelude : Stream → Str → ℕ → List ℕ → Bridged
  unfolding after_prelude write_prelude
  bridge_tcp_tcp_with_prelude client remote_addr remote_port prelude =
      after_connect client prelude (connect remote_addr remote_port)

  unfoldable pub bridge_tcp_tcp : Stream → Str → ℕ → Bridged
  unfolding bridge_tcp_tcp_with_prelude
  bridge_tcp_tcp client remote_addr remote_port =
      bridge_tcp_tcp_with_prelude client remote_addr remote_port []

  -- What `copy_bidirectional` does when it comes out well: each side gets all that the other sends.
  abbrev pub CopiesAll : Stream → Stream → Copied → Type 0
  CopiesAll client remote (ok sizes, (client', remote')) =
      (remote'.sent ≡ remote.sent ++ client.incoming)
      × (client'.sent ≡ client.sent ++ remote.incoming)
  CopiesAll client remote (err e, s) = Unit
  CopiesAll client remote (pending, s) = Unit
  CopiesAll client remote (panicked, s) = Unit

  -- What a bridge that comes out well has done.
  abbrev pub Passes : Stream → List ℕ → Outcome IoError Stream → Bridged → Type 0
  Passes client prelude (ok remote) (ok u, (client', some remote')) =
      (remote'.sent ≡ remote.sent ++ (prelude ++ client.incoming))
      × (client'.sent ≡ client.sent ++ remote.incoming)
      × (client'.shut ≡ true)
      × (remote'.shut ≡ true)
  Passes client prelude connected (ok u, s) = ⊥
  Passes client prelude connected (err e, s) = Unit
  Passes client prelude connected (pending, s) = Unit
  Passes client prelude connected (panicked, s) = Unit

  -- The two shutdowns behind the copying.
  after_shutdowns-Passes :
      (w w' : ℕ) (start client remote first : Stream) (prelude : List ℕ)
      → remote.sent ≡ first.sent ++ (prelude ++ start.incoming)
      → client.sent ≡ start.sent ++ first.incoming
      → Passes start prelude (ok first) (
          after_client_shutdown
            (record remote { writes = w' })
            (shutdown same_error (record client { writes = w })))
  unfolding shutdown
  after_shutdowns-Passes zero w' start client remote first prelude r c = tt
  after_shutdowns-Passes (suc k) zero start client remote first prelude r c = tt
  after_shutdowns-Passes (suc k) (suc l) start client remote first prelude r c = (r, c, refl, refl)

  after_copy-Passes :
      (client remote first : Stream) (prelude : List ℕ) (r : Copied)
      → CopiesAll client remote r
      → remote.sent ≡ first.sent ++ prelude
      → remote.incoming ≡ first.incoming
      → Passes client prelude (ok first) (after_copy r)
  unfolding after_copy
  after_copy-Passes client remote first prelude (ok sizes, (client', remote')) (r, c) sent
        incoming =
      after_shutdowns-Passes client'.writes remote'.writes client client' remote' first prelude
        (r ∙ ap (λ l. l ++ client.incoming) sent ∙ append_assoc first.sent prelude client.incoming)
        (c ∙ ap (λ l. client.sent ++ l) incoming)
  after_copy-Passes client remote first prelude (err e, s) h sent incoming = tt
  after_copy-Passes client remote first prelude (pending, s) h sent incoming = tt
  after_copy-Passes client remote first prelude (panicked, s) h sent incoming = tt

  module _
      (laws : (client remote : Stream)
        → CopiesAll client remote (copy_bidirectional client remote)) where
    prelude-Passes :
        (w : ℕ) (client remote : Stream) (prelude : List ℕ)
        → Passes client prelude
            (ok remote)
            (after_prelude client (write_prelude prelude (record remote { writes = w })))
    unfolding after_prelude write_prelude write_all
    prelude-Passes w client remote [] =
        let r : Stream = record remote { writes = w } in
        after_copy-Passes client r remote [] (copy_bidirectional client r) (laws client r)
          (sym (append-nil remote.sent)) refl
    prelude-Passes zero client remote (b ∷ prelude) = tt
    prelude-Passes (suc k) client remote (b ∷ prelude) =
        let r : Stream = record remote { sent = remote.sent ++ (b ∷ prelude); writes = k } in
        after_copy-Passes client r remote (b ∷ prelude) (copy_bidirectional client r)
          (laws client r) refl refl

    connected-Passes :
        (client : Stream) (prelude : List ℕ) (r : Outcome IoError Stream)
        → Passes client prelude r (after_connect client prelude r)
    connected-Passes client prelude (ok remote) = prelude-Passes remote.writes client remote prelude
    connected-Passes client prelude (err e) = tt
    connected-Passes client prelude pending = tt
    connected-Passes client prelude panicked = tt

    -- If copy_bidirectional, when it comes out well, brings each side all that the other sends: a bridge between
    -- two TCP connections that comes out well has sent the remote the prelude and then all that the client sent,
    -- has sent the client all that the remote sent, and has closed both.
    pub bridge_tcp_tcp_with_prelude-Passes :
        (client : Stream) (remote_addr : Str) (remote_port : ℕ) (prelude : List ℕ)
        → Passes client prelude
            (connect remote_addr remote_port)
            (bridge_tcp_tcp_with_prelude client remote_addr remote_port prelude)
    unfolding bridge_tcp_tcp_with_prelude
    bridge_tcp_tcp_with_prelude-Passes client remote_addr remote_port prelude =
        connected-Passes client prelude (connect remote_addr remote_port)
