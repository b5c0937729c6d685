-- ===== src/Server.antt =====
-- src/runtime/server.rs and src/modules/health.rs: the start of the program, its loops over accepted connections, and
-- the health endpoint. Sockets and the resolver are parameters, and spawned tasks are values.
use telegram_socks_ws_proxy.Base.{
  ◌≡◌, ap, Option, none, some, List, [], ◌∷◌, ◌++◌, ◌⊎◌, inl, inr, ℕ,
}
use telegram_socks_ws_proxy.Base.Utf8.{Str, codes}
use telegram_socks_ws_proxy.Base.Stream.{Stream, write_all}
use telegram_socks_ws_proxy.Net.Address.{SocketAddr}
use telegram_socks_ws_proxy.Listen.{
  ListenError, Sockets, Listeners, bind_host, split_host_port, normalize_host,
}
use telegram_socks_ws_proxy.Listen.Bound.{AddrsOf, Binds, distinct, bind_host-Binds}
use telegram_socks_ws_proxy.Ws.Handshake.{crlf}
use telegram_socks_ws_proxy.Relay.{same_error}
use telegram_socks_ws_proxy.Config.{CliConfig, RoutedConfig, try_from}

module _ (api : Sockets) (to_socket_addrs : Str → ℕ → api.Error ⊎ List SocketAddr) where
  pub data StartError : Type 0 where
    invalid_input : Str → StartError
    cannot_bind : ListenError api.Error → StartError

  abbrev pub Started : Type 0
  Started = StartError ⊎ (RoutedConfig × Listeners api to_socket_addrs)

  abbrev pub bound_with :
      RoutedConfig → ListenError api.Error ⊎ Listeners api to_socket_addrs → Started
  bound_with routed (inl e) = inl (cannot_bind e)
  bound_with routed (inr listeners) = inr (routed, listeners)

  abbrev pub configured : CliConfig → Str ⊎ RoutedConfig → Started
  configured config (inl e) = inl (invalid_input e)
  configured config (inr routed) =
      bound_with routed (bind_host api to_socket_addrs config.host config.port)

  -- `run_server` up to its tasks.
  unfoldable pub run_server : CliConfig → Started
  unfolding try_from
  run_server config = configured config (try_from config)

  abbrev pub opt_listeners :
      ListenError api.Error ⊎ Listeners api to_socket_addrs → Option (Listeners api to_socket_addrs)
  opt_listeners (inl e) = none
  opt_listeners (inr listeners) = some listeners

  abbrev pub health_of : ListenError api.Error ⊎ (Str × ℕ) → Option (Listeners api to_socket_addrs)
  health_of (inl e) = none
  health_of (inr (host, port)) = opt_listeners (bind_host api to_socket_addrs host port)

  -- `serve_health` up to its tasks; it returns if it cannot listen.
  unfoldable pub serve_health : Str → Option (Listeners api to_socket_addrs)
  serve_health addr = health_of (split_host_port addr)

  -- The proxy starts only with users that parse, and then listens where `bind_host` does.
  pub run_server-Binds :
      (config : CliConfig) (routed : RoutedConfig) (listeners : Listeners api to_socket_addrs)
      → run_server config ≡ inr (routed, listeners)
      → (try_from config ≡ inr routed)
        × (addrs : List SocketAddr) × AddrsOf api to_socket_addrs
            (normalize_host config.host)
            config.port
            addrs
        × (¬ (addrs ≡ []))
        × Binds api to_socket_addrs (distinct [] addrs) listeners
  unfolding run_server
  run_server-Binds config routed listeners h = from_config (try_from config) h
    where
      from_bind :
          (r : RoutedConfig) (b : ListenError api.Error ⊎ Listeners api to_socket_addrs)
          → bound_with r b ≡ inr (routed, listeners)
          → (r ≡ routed) × (b ≡ inr listeners)
      from_bind r (inl e) p = cc
      from_bind r (inr ls) p = (cc, cc)

      from_config :
          (c : Str ⊎ RoutedConfig)
          → configured config c ≡ inr (routed, listeners)
          → (c ≡ inr routed)
            × (addrs : List SocketAddr) × AddrsOf api to_socket_addrs
                (normalize_host config.host)
                config.port
                addrs
            × (¬ (addrs ≡ []))
            × Binds api to_socket_addrs (distinct [] addrs) listeners
      from_config (inl e) p = cc
      from_config (inr r) p =
          let (same, bound) =
            from_bind r (bind_host api to_socket_addrs config.host config.port) p in
          let (addrs, origin, some_addr, binds) =
            bind_host-Binds api to_socket_addrs config.host config.port listeners bound in
          (ap inr same, addrs, origin, some_addr, binds)

-- The accepting loops, over what `accept` answers: the connections that are served, and the error that ends the first.
unfoldable pub accept_loop {ℓ κ} : {E : Type ℓ} {A : Type κ} → List (E ⊎ A) → List A × Option E
accept_loop [] = ([], none)
accept_loop (inl e ∷ answers) = ([], some e)
accept_loop (inr stream ∷ answers) =
    let (served, ended) = accept_loop answers in (stream ∷ served, ended)

-- After an error this one sleeps and goes on.
unfoldable pub serve_health_listener {ℓ κ} : {E : Type ℓ} {A : Type κ} → List (E ⊎ A) → List A
serve_health_listener [] = []
serve_health_listener (inl e ∷ answers) = serve_health_listener answers
serve_health_listener (inr conn ∷ answers) = conn ∷ serve_health_listener answers

abbrev pub health_response : Str
health_response =
    codes "HTTP/1.1 200 OK"
    ++ (crlf
        ++ (codes "content-length:2"
            ++ (crlf ++ (codes "content-type:text/plain" ++ (crlf ++ (crlf ++ codes "OK"))))))

-- What is written to each connection; whether it goes through is not looked at.
unfoldable pub answer_health : Stream → Stream
answer_health s = (write_all same_error health_response s).1
