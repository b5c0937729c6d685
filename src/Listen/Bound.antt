-- ===== src/Listen/Bound.antt =====
-- What `bind_host` listens on: each address that it was given, once, and nothing else.
use telegram_socks_ws_proxy.Base.{
  ℕ, ◌≡◌, refl, sym, ap, subst, ◌∙◌, Bool, true, false, Bool-cases, if◌then◌else◌, List, [], ◌∷◌,
  map, ◌⊎◌, inl, inr,
}
use telegram_socks_ws_proxy.Base.Utf8.{Str}
use telegram_socks_ws_proxy.Net.Address.{SocketAddr}
use telegram_socks_ws_proxy.Net.Ip.{IpAddr, v4, v6}
use telegram_socks_ws_proxy.Listen.{
  ListenError, Sockets, ◌>>?◌, addr_is_ipv6, contains_addr, Listeners, bind_socket, as_failed,
  push_listener, bind_specs, wildcards, specs_of, bind_all, bind_host, normalize_host,
  host_is_unspecified,
}

-- The addresses without those that stand in front of them, or in `seen`.
abbrev pub distinct : List SocketAddr → List SocketAddr → List SocketAddr
distinct seen [] = []
distinct seen (addr ∷ addrs) =
    let later = distinct (addr ∷ seen) addrs in
    if contains_addr addr seen then distinct seen addrs else addr ∷ later

then-inr {ℓ κ μ} :
    {E : Type ℓ} {A : Type κ} {B : Type μ} (r : E ⊎ A) (f : A → E ⊎ B) {b : B}
    → (r >>? f) ≡ inr b
    → (a : A) × (r ≡ inr a) × (f a ≡ inr b)
then-inr (inl e) f h = cc
then-inr (inr a) f h = (a, refl, h)

as_failed-inr {ℓ} :
    (api : Sockets) (to_socket_addrs : Str → ℕ → api.Error ⊎ List SocketAddr) {A : Type ℓ}
    (r : api.Error ⊎ A) {a : A}
    → as_failed api to_socket_addrs r ≡ inr a
    → r ≡ inr a
as_failed-inr api to_socket_addrs (inl e) h = cc
as_failed-inr api to_socket_addrs (inr a) h = cc

module _ (api : Sockets) (to_socket_addrs : Str → ℕ → api.Error ⊎ List SocketAddr) where
  -- How the socket `s` for an address of this kind was opened: an IPv6 one was set to IPv6 only.
  abbrev pub IsOpened : IpAddr → api.Socket → Type 0
  IsOpened (v4 a b c d) s =
      (s₀ : api.Socket) × (api.new false ≡ inr s₀) × (api.set_reuse_address true s₀ ≡ inr s)
  IsOpened (v6 groups) s =
      (s₀ s₁ : api.Socket) × (api.new true ≡ inr s₀)
      × (api.set_reuse_address true s₀ ≡ inr s₁)
      × (api.set_only_v6 true s₁ ≡ inr s)

  -- The socket was then bound to the address, and it listens.
  abbrev pub IsBound : SocketAddr → api.Socket → Type 0
  IsBound addr socket =
      (s s₁ s₂ s₃ : api.Socket) × IsOpened addr.ip s
      × (api.bind addr s ≡ inr s₁)
      × (api.listen 4096 s₁ ≡ inr s₂)
      × (api.set_nonblocking true s₂ ≡ inr s₃)
      × (api.from_std s₃ ≡ inr socket)

  abbrev pub AllBound : Listeners api to_socket_addrs → Type 0
  AllBound [] = Unit
  AllBound ((socket, addr) ∷ listeners) = IsBound addr socket × AllBound listeners

  abbrev pub Binds : List SocketAddr → Listeners api to_socket_addrs → Type 0
  Binds addrs listeners =
      (map (λ (l : api.Socket × SocketAddr). l.1) listeners ≡ addrs) × AllBound listeners

  open_ip : IpAddr → api.Error ⊎ api.Socket
  open_ip ip =
      let is_ipv6 : Bool = elim ip [ v4 a b c d ↦ false | v6 groups ↦ true ] in
      api.new is_ipv6
      >>? api.set_reuse_address true
      >>? (λ socket. if is_ipv6 then api.set_only_v6 is_ipv6 socket else inr socket)

  open_ip-IsOpened : (ip : IpAddr) (s : api.Socket) → open_ip ip ≡ inr s → IsOpened ip s
  unfolding open_ip
  open_ip-IsOpened (v4 a b c d) s h =
      let (s₁, e, last) =
        then-inr (api.new false >>? api.set_reuse_address true) (λ socket. inr socket) h in
      let (s₀, e₀, e₁) = then-inr (api.new false) (api.set_reuse_address true) e in
      let same : s₁ ≡ s = cc in (s₀, e₀, e₁ ∙ ap inr same)
  open_ip-IsOpened (v6 groups) s h =
      let (s₁, e, only) =
        then-inr (api.new true >>? api.set_reuse_address true) (api.set_only_v6 true) h in
      let (s₀, e₀, e₁) = then-inr (api.new true) (api.set_reuse_address true) e in
      (s₀, s₁, e₀, e₁, only)

  bind_socket-IsBound :
      (addr : SocketAddr) (socket : api.Socket)
      → (bind_socket api to_socket_addrs addr (addr_is_ipv6 addr) >>? api.from_std) ≡ inr socket
      → IsBound addr socket
  unfolding bind_socket open_ip
  bind_socket-IsBound addr socket h =
      let opened = open_ip addr.ip in
      let (s₃, h₃, e₄) =
        then-inr (opened >>? api.bind addr >>? api.listen 4096 >>? api.set_nonblocking true)
          api.from_std h in
      let (s₂, h₂, e₃) =
        then-inr (opened >>? api.bind addr >>? api.listen 4096) (api.set_nonblocking true) h₃ in
      let (s₁, h₁, e₂) = then-inr (opened >>? api.bind addr) (api.listen 4096) h₂ in
      let (s, h₀, e₁) = then-inr opened (api.bind addr) h₁ in
      (s, s₁, s₂, s₃, open_ip-IsOpened addr.ip s h₀, e₁, e₂, e₃, e₄)

  bind_specs-Binds :
      (seen addrs : List SocketAddr) (listeners : Listeners api to_socket_addrs)
      → bind_specs api to_socket_addrs seen (map (λ addr. (addr, addr_is_ipv6 addr)) addrs)
        ≡ inr listeners
      → Binds (distinct seen addrs) listeners
  unfolding bind_specs
  bind_specs-Binds seen [] listeners h =
      let same : [] ≡ listeners = cc in subst (Binds []) same (refl, tt)
  bind_specs-Binds seen (addr ∷ addrs) listeners h = elim (Bool-cases (contains_addr addr seen)) [
    | inl known ↦ rw known (bind_specs-Binds seen addrs listeners (rw known at h))
    | inr fresh ↦ rw fresh (bound (bind_specs-Binds (addr ∷ seen) addrs) (rw fresh at h))
  ]
    where
      bound :
          ((ls : Listeners api to_socket_addrs)
            → bind_specs api to_socket_addrs
                (addr ∷ seen)
                (map (λ addr. (addr, addr_is_ipv6 addr)) addrs)
              ≡ inr ls
            → Binds (distinct (addr ∷ seen) addrs) ls)
          → (as_failed api to_socket_addrs
                (bind_socket api to_socket_addrs addr (addr_is_ipv6 addr) >>? api.from_std)
              >>? (λ listener.
                  bind_specs api to_socket_addrs
                    (addr ∷ seen)
                    (map (λ addr. (addr, addr_is_ipv6 addr)) addrs)
                  >>? push_listener api to_socket_addrs (listener, addr)))
            ≡ inr listeners
          → Binds (addr ∷ distinct (addr ∷ seen) addrs) listeners
      bound later_binds h' =
          let (socket, e, h₁) =
            then-inr
              (as_failed api to_socket_addrs
                (bind_socket api to_socket_addrs addr (addr_is_ipv6 addr) >>? api.from_std))
              _ h' in
          let (later, e', h₂) =
            then-inr
              (bind_specs api to_socket_addrs (addr ∷ seen)
                (map (λ addr. (addr, addr_is_ipv6 addr)) addrs))
              _ h₁ in
          let (addresses, all) = later_binds later e' in
          let same : (socket, addr) ∷ later ≡ listeners = cc in
          subst (Binds (addr ∷ distinct (addr ∷ seen) addrs)) same (
            ap (λ l. addr ∷ l) addresses,
            (
              bind_socket-IsBound addr socket (
                  as_failed-inr api to_socket_addrs
                    (bind_socket api to_socket_addrs addr (addr_is_ipv6 addr) >>? api.from_std) e),
              all,
            ),
          )

  bind_all-Binds :
      (host : Str) (port : ℕ) (addrs : List SocketAddr) (listeners : Listeners api to_socket_addrs)
      → bind_all api to_socket_addrs host port (map (λ addr. (addr, addr_is_ipv6 addr)) addrs)
        ≡ inr listeners
      → (¬ (addrs ≡ [])) × Binds (distinct [] addrs) listeners
  bind_all-Binds host port [] listeners h = cc
  bind_all-Binds host port (addr ∷ addrs) listeners h =
      ((λ e. cc), bind_specs-Binds [] (addr ∷ addrs) listeners h)

  -- The addresses of a host.
  abbrev pub AddrsOf : Str → ℕ → List SocketAddr → Type 0
  AddrsOf host port addrs =
      ((host_is_unspecified host ≡ true)
        × (addrs ≡ map (λ (s : SocketAddr × Bool). s.0) (wildcards api to_socket_addrs port)))
      ⊎ ((host_is_unspecified host ≡ false) × (to_socket_addrs host port ≡ inr addrs))

  specs_of-AddrsOf :
      (host : Str) (port : ℕ) (specs : List (SocketAddr × Bool))
      → specs_of api to_socket_addrs host port ≡ inr specs
      → (addrs : List SocketAddr) × AddrsOf host port addrs
        × (specs ≡ map (λ addr. (addr, addr_is_ipv6 addr)) addrs)
  unfolding specs_of
  specs_of-AddrsOf host port specs h = elim (Bool-cases (host_is_unspecified host)) [
    | inl e ↦ wild e (rw e at h)
    | inr n ↦ found n (rw n at h)
  ]
    where
      wild :
          host_is_unspecified host ≡ true
          → ◌≡◌ {A = ListenError api.Error ⊎ List (SocketAddr × Bool)}
              (inr (wildcards api to_socket_addrs port))
              (inr specs)
          → (addrs : List SocketAddr) × AddrsOf host port addrs
            × (specs ≡ map (λ addr. (addr, addr_is_ipv6 addr)) addrs)
      wild e h' = (
        map (λ (s : SocketAddr × Bool). s.0) (wildcards api to_socket_addrs port),
        inl (e, refl),
        cc,
      )

      found :
          host_is_unspecified host ≡ false
          → (as_failed api to_socket_addrs (to_socket_addrs host port)
              >>? (λ addrs. inr (map (λ addr. (addr, addr_is_ipv6 addr)) addrs)))
            ≡ inr specs
          → (addrs : List SocketAddr) × AddrsOf host port addrs
            × (specs ≡ map (λ addr. (addr, addr_is_ipv6 addr)) addrs)
      found n h' =
          let (addrs, e, same) =
            then-inr (as_failed api to_socket_addrs (to_socket_addrs host port)) _ h' in
          (addrs, inr (n, as_failed-inr api to_socket_addrs (to_socket_addrs host port) e), cc)

  -- If bind_host succeeds, it listens on the addresses of the host, which are one at least, each
  -- once and in order: both wildcards for an unspecified host, and else those that its name
  -- resolves to. Each socket was made for the family of its address, set to reuse addresses and,
  -- for an IPv6 address, to IPv6 only; then it was bound to its address, and it listens with a
  -- backlog of 4096 and does not block.
  pub bind_host-Binds :
      (host : Str) (port : ℕ) (listeners : Listeners api to_socket_addrs)
      → bind_host api to_socket_addrs host port ≡ inr listeners
      → (addrs : List SocketAddr) × AddrsOf (normalize_host host) port addrs
        × (¬ (addrs ≡ []))
        × Binds (distinct [] addrs) listeners
  unfolding bind_host
  bind_host-Binds host port listeners h =
      let (specs, e, h₁) = then-inr (specs_of api to_socket_addrs (normalize_host host) port) _ h in
      let (addrs, origin, same) = specs_of-AddrsOf (normalize_host host) port specs e in
      let (some_addr, binds) =
        bind_all-Binds host port addrs listeners
          (ap (bind_all api to_socket_addrs host port) (sym same) ∙ h₁) in
      (addrs, origin, some_addr, binds)
