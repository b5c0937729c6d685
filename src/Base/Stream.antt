-- ===== src/Base/Stream.antt =====
-- A connection as the asynchronous reads and writes of the program see it, and programs over it.
-- `incoming` is what the peer still sends, and `ending` what a read meets behind that. `writes` counts
-- the write operations that still go through; a failed one is not counted as sent.
pub mod Laws
pub mod Reads
pub mod Writes
use telegram_socks_ws_proxy.Base.Lists.{length, take, drop}
use telegram_socks_ws_proxy.Base.Tests.{leb, if◌then◌else◌}
use Prim.Native.Nat.{ℕ, zero, suc}
use mathlib.Core.Bool.{Bool, true, false}
use mathlib.Core.Option.{Option, none}
use mathlib.Core.List.{List, [], ◌∷◌, ◌++◌}

-- The peer closed its side, the connection failed, or the peer stays silent.
pub data Ending : Type 0 where
  closed broken stalled : Ending

pub data IoError : Type 0 where
  unexpected_eof other : IoError

pub record Stream : Type 0 where
  pub incoming : List ℕ
  pub ending : Ending
  pub sent : List ℕ
  pub writes : ℕ
  pub shut : Bool
  -- what the next calls of `getrandom` answer
  pub entropy : List (Option (List ℕ))

-- How a program over a connection comes out: with a value, with an error, waiting for ever for the
-- peer, or with a panic of its task.
pub data Outcome {ℓ κ} (E : Type ℓ) (A : Type κ) : Type (ℓ ⊔ κ) where
  ok : A → Outcome E A
  err : E → Outcome E A
  pending : Outcome E A
  panicked : Outcome E A

abbrev pub Io {ℓ κ} : Type ℓ → Type κ → Type (ℓ ⊔ κ)
Io E A = Stream → Outcome E A × Stream

abbrev pub bind_outcome {ℓ κ μ} :
    {E : Type ℓ} {A : Type κ} {B : Type μ}
    → Outcome E A × Stream
    → (A → Io E B)
    → Outcome E B × Stream
bind_outcome (ok a, s) f = f a s
bind_outcome (err e, s) f = (err e, s)
bind_outcome (pending, s) f = (pending, s)
bind_outcome (panicked, s) f = (panicked, s)

infixl 5 ◌>>=◌ ◌>>◌
abbrev pub ◌>>=◌ {ℓ κ μ} : {E : Type ℓ} {A : Type κ} {B : Type μ} → Io E A → (A → Io E B) → Io E B
◌>>=◌ m f s = bind_outcome (m s) f

abbrev pub ◌>>◌ {ℓ κ μ} : {E : Type ℓ} {A : Type κ} {B : Type μ} → Io E A → Io E B → Io E B
◌>>◌ m k s = bind_outcome (m s) (λ a. k)

abbrev pub return {ℓ κ} : {E : Type ℓ} {A : Type κ} → A → Io E A
return a s = (ok a, s)

abbrev pub fail {ℓ κ} : {E : Type ℓ} {A : Type κ} → E → Io E A
fail e s = (err e, s)

abbrev pub run_out {ℓ κ} : {E : Type ℓ} {A : Type κ} → (IoError → E) → Ending → Outcome E A
run_out from closed = err (from unexpected_eof)
run_out from broken = err (from other)
run_out from stalled = pending

-- What a read of at most some bytes meets there.
abbrev pub at_ending {ℓ} : {E : Type ℓ} → (IoError → E) → Ending → Outcome E (List ℕ)
at_ending from closed = ok []
at_ending from broken = err (from other)
at_ending from stalled = pending

-- The operations take the conversion of an I/O error into the caller's error, which `?` inserts.
module _ {ℓ} {E : Type ℓ} (from : IoError → E) where
  unfoldable pub read_exact : ℕ → Io E (List ℕ)
  read_exact n s =
      if leb n (length s.incoming)
      then (ok (take n s.incoming), record s { incoming = drop n s.incoming })
      else (run_out from s.ending, record s { incoming = [] })

  -- One read into a buffer of `limit` bytes, not 0; no bytes mean that the peer has closed its side.
  unfoldable pub read : ℕ → Io E (List ℕ)
  read limit s = elim s.incoming [
    | [] ↦ (at_ending from s.ending, s)
    | b ∷ bs ↦ (ok (take limit s.incoming), record s { incoming = drop limit s.incoming })
  ]

  unfoldable pub write_all : List ℕ → Io E (Unit {0})
  write_all bytes s = elim s.writes [
    | zero ↦ (err (from other), s)
    | suc k ↦ (ok tt, record s { sent = s.sent ++ bytes; writes = k })
  ]

  unfoldable pub flush : Io E (Unit {0})
  flush s = elim s.writes [
    | zero ↦ (err (from other), s)
    | suc k ↦ (ok tt, record s { writes = k })
  ]

  unfoldable pub shutdown : Io E (Unit {0})
  shutdown s = elim s.writes [
    | zero ↦ (err (from other), s)
    | suc k ↦ (ok tt, record s { shut = true; writes = k })
  ]

-- The answer of `getrandom`: `none` is its failure.
abbrev pub next_key : List (Option (List ℕ)) → Option (List ℕ)
next_key [] = none
next_key (k ∷ ks) = k

abbrev pub later_keys : List (Option (List ℕ)) → List (Option (List ℕ))
later_keys [] = []
later_keys (k ∷ ks) = ks

unfoldable pub getrandom {ℓ} : {E : Type ℓ} → Io E (Option (List ℕ))
getrandom s = (ok (next_key s.entropy), record s { entropy = later_keys s.entropy })
