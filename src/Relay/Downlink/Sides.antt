-- ===== src/Relay/Downlink/Sides.antt =====
-- Where the frames of the server are, for the task of src/modules/relay.rs from the WebSocket to the client.
use telegram_socks_ws_proxy.Base.{
  ℕ, ◌≡◌, refl, sym, ap, ◌∙◌, subst, List, [], ◌∷◌, ◌++◌, append-nil, append_assoc, ◌⊎◌,
}
use telegram_socks_ws_proxy.Telegram.Cipher.{Cipher}
use telegram_socks_ws_proxy.Relay.{
  Bridge, Down, receiving, answering, down_done, down_failed, down_panicked,
}
use telegram_socks_ws_proxy.Relay.Messages.{Message, wire, bytes_of, pongs_of}
use telegram_socks_ws_proxy.Relay.Downlink.{
  ServerFrame, data_frame, ping, pong, close, server_bytes, AllSmall,
}

abbrev pub data_of : List ServerFrame → List ℕ
data_of [] = []
data_of (data_frame final kind p ∷ fs) = p ++ data_of fs
data_of (ping p ∷ fs) = data_of fs
data_of (pong p ∷ fs) = data_of fs
data_of (close p ∷ fs) = data_of fs

abbrev pub pings_of : List ServerFrame → List (List ℕ)
pings_of [] = []
pings_of (data_frame final kind p ∷ fs) = pings_of fs
pings_of (ping p ∷ fs) = p ∷ pings_of fs
pings_of (pong p ∷ fs) = pings_of fs
pings_of (close p ∷ fs) = pings_of fs

pub data_of-append : (fs gs : List ServerFrame) → data_of (fs ++ gs) ≡ data_of fs ++ data_of gs
data_of-append [] gs = refl
data_of-append (data_frame final kind p ∷ fs) gs = rw (data_of-append fs gs, append_assoc)
data_of-append (ping p ∷ fs) gs = data_of-append fs gs
data_of-append (pong p ∷ fs) gs = data_of-append fs gs
data_of-append (close p ∷ fs) gs = data_of-append fs gs

pub pings_of-append : (fs gs : List ServerFrame) → pings_of (fs ++ gs) ≡ pings_of fs ++ pings_of gs
pings_of-append [] gs = refl
pings_of-append (data_frame final kind p ∷ fs) gs = pings_of-append fs gs
pings_of-append (ping p ∷ fs) gs = ap (λ l. p ∷ l) (pings_of-append fs gs)
pings_of-append (pong p ∷ fs) gs = pings_of-append fs gs
pings_of-append (close p ∷ fs) gs = pings_of-append fs gs

abbrev pub EndsWithClose : List ServerFrame → Type 0
EndsWithClose fs = (front : List ServerFrame) × (p : List ℕ) × (fs ≡ front ++ (close p ∷ []))

-- `dropped` went down with a failed write to the client, and the pings of `unanswered` have no pong yet.
abbrev pub DownKept :
    (c : Cipher) → List ServerFrame → List ServerFrame → List ℕ → List (List ℕ) → Down c → Type 0
DownKept c taken todo dropped unanswered (receiving bytes packets) =
    (dropped ≡ []) × (unanswered ≡ [])
DownKept c taken todo dropped unanswered (answering p bytes packets) =
    (dropped ≡ []) × (unanswered ≡ p ∷ [])
DownKept c taken todo dropped unanswered (down_done stats) =
    (dropped ≡ []) × (unanswered ≡ []) × ((todo ≡ []) ⊎ EndsWithClose taken)
DownKept c taken todo dropped unanswered (down_failed e) = Unit
DownKept c taken todo dropped unanswered down_panicked = ⊥

-- The frames of the server, `fs`, are split into those taken and those that still arrive.
abbrev pub DownSide :
    (c : Cipher) → List ServerFrame → List ℕ → List (List ℕ) → List ℕ → List ℕ → Down c → Type 0
DownSide c fs before pongs arriving delivered down =
    (taken todo : List ServerFrame) × (dropped : List ℕ) × (unanswered : List (List ℕ)) × (taken
        ++ todo
      ≡ fs)
    × (arriving ≡ server_bytes todo)
    × (delivered ++ dropped ≡ before ++ data_of taken)
    × (pongs ++ unanswered ≡ pings_of taken)
    × DownKept c taken todo dropped unanswered down

-- What a round of this task does: it writes pongs only, and leaves the other half of both connections.
abbrev pub DownStep :
    (c : Cipher) → List ServerFrame → List ℕ → List (List ℕ) → Bridge c → Bridge c → Type 0
DownStep c fs before pongs b b' =
    (ms : List Message) × (b'.ws.sent ≡ b.ws.sent ++ wire ms)
    × (bytes_of ms ≡ [])
    × (b'.client.incoming ≡ b.client.incoming)
    × (b'.client.ending ≡ b.client.ending)
    × (b'.up ≡ b.up)
    × DownSide c fs before (pongs ++ pongs_of ms) b'.ws.incoming b'.client.sent b'.down

-- A frame without data adds nothing to what the client has.
pub passed :
    (before : List ℕ) {delivered : List ℕ} (taken : List ServerFrame) (f : ServerFrame)
    → data_of (f ∷ []) ≡ []
    → delivered ≡ before ++ data_of taken
    → delivered ≡ before ++ data_of (taken ++ (f ∷ []))
passed before taken f none_of delivered =
    rw (data_of-append taken (f ∷ []), none_of, append-nil) delivered

pub AllSmall-suffix : (taken todo : List ServerFrame) → AllSmall (taken ++ todo) → AllSmall todo
AllSmall-suffix [] todo h = h
AllSmall-suffix (f ∷ taken) todo (h, hs) = AllSmall-suffix taken todo hs

module _ (c : Cipher) (fs : List ServerFrame) (before : List ℕ) (pongs : List (List ℕ)) where
  -- A round that writes no pong.
  pub quiet :
      (b b' : Bridge c)
      → b'.ws.sent ≡ b.ws.sent
      → b'.client.incoming ≡ b.client.incoming
      → b'.client.ending ≡ b.client.ending
      → b'.up ≡ b.up
      → DownSide c fs before pongs b'.ws.incoming b'.client.sent b'.down
      → DownStep c fs before pongs b b'
  quiet b b' w i e u side = (
    [],
    w ∙ sym (append-nil b.ws.sent),
    refl,
    i,
    e,
    u,
    subst (λ l. DownSide c fs before l b'.ws.incoming b'.client.sent b'.down)
        (sym (append-nil pongs)) side,
  )
