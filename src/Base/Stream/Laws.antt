-- ===== src/Base/Stream/Laws.antt =====
-- What the operations on a connection do, by what still arrives.
use telegram_socks_ws_proxy.Base.Lists.{
  length, take, drop, length-append, take-append, drop-append, take-append-drop, length-take,
}
use telegram_socks_ws_proxy.Base.Tests.{leb, if◌then◌else◌, le→leb, leb→le, Bool-cases}
use telegram_socks_ws_proxy.Base.Stream.{
  Stream, Io, IoError, bind_outcome, panicked, Ending, closed, broken, stalled, Outcome, ok, err,
  pending, run_out, read_exact,
}
use mathlib.Core.Bool.{Bool, true, false}
use mathlib.Core.Logic.{◌⊎◌, inl, inr}
use Prim.Native.Nat.{ℕ, ◌+◌, ◌≤◌, ◌<◌}
use mathlib.Core.Path.{◌≡◌, refl, sym, ap, ◌∙◌}
use mathlib.Core.List.{List, [], ◌∷◌, ◌++◌, append_assoc}
use native.Mathlib.Omega.{arith}

module _ {ℓ} {E : Type ℓ} (from : IoError → E) where
  read_exact-length :
      (xs rest : List ℕ) (s : Stream)
      → read_exact from (length xs) (record s { incoming = xs ++ rest })
        ≡ (ok xs, record s { incoming = rest })
  unfolding read_exact
  read_exact-length xs rest s = rw (
    le→leb (length xs) (length (xs ++ rest)) (omega (arith, length-append xs rest)),
    take-append xs rest,
    drop-append xs rest,
  )

  -- Reading what stands in front.
  pub read_exact-front :
      (n : ℕ) (xs rest : List ℕ) (s : Stream)
      → length xs ≡ n
      → read_exact from n (record s { incoming = xs ++ rest })
        ≡ (ok xs, record s { incoming = rest })
  read_exact-front n xs rest s e = rw e at (read_exact-length xs rest s)

-- `s'` is `s` after reading at least `n` bytes, and nothing else.
abbrev pub Takes : ℕ → Stream → Stream → Type 0
Takes n s s' =
    (used : List ℕ) × (n ≤ length used)
    × (s.incoming ≡ used ++ s'.incoming)
    × (s' ≡ record s { incoming = s'.incoming })

pub Takes-refl : (s : Stream) → Takes 0 s s
Takes-refl s = ([], omega arith, refl, refl)

pub Takes-trans :
    {n m : ℕ} (s s' s'' : Stream) → Takes n s s' → Takes m s' s'' → Takes (n + m) s s''
Takes-trans s s' s'' (u, hu, eu, fu) (v, hv, ev, fv) = (
  u ++ v,
  omega (arith, length-append u v),
  eu ∙ ap (λ l. u ++ l) ev ∙ sym (append_assoc u v s''.incoming),
  fv ∙ ap (λ (t : Stream). record t { incoming = s''.incoming }) fu,
)

pub Takes-length :
    {n : ℕ} (s s' : Stream) → Takes n s s' → length s'.incoming + n ≤ length s.incoming
Takes-length s s' (u, h, e, f) = omega (arith, ap length e, length-append u s'.incoming)

-- A bind that succeeds, taken apart.
pub bind-ok {ℓ κ μ} :
    {E : Type ℓ} {A : Type κ} {B : Type μ} (r : Outcome E A × Stream) (f : A → Io E B) {b : B}
    {s' : Stream}
    → bind_outcome r f ≡ (ok b, s')
    → (a : A) × (s : Stream) × (r ≡ (ok a, s)) × (f a s ≡ (ok b, s'))
bind-ok (ok a, s) f h = (a, s, refl, h)
bind-ok (err e, s) f h = cc
bind-ok (pending, s) f h = cc
bind-ok (panicked, s) f h = cc

run_out-not_ok {ℓ κ} :
    {E : Type ℓ} {A : Type κ} (from : IoError → E) (e : Ending) {a : A} {s s' : Stream}
    → ¬ (◌≡◌ {A = Outcome E A × Stream} (run_out from e, s) (ok a, s'))
run_out-not_ok from closed h = cc
run_out-not_ok from broken h = cc
run_out-not_ok from stalled h = cc

-- A read that succeeds has taken the bytes that it returns.
pub read_exact-ok {ℓ} :
    {E : Type ℓ} (from : IoError → E) (n : ℕ) (s : Stream) {xs : List ℕ} {s' : Stream}
    → read_exact from n s ≡ (ok xs, s')
    → (length xs ≡ n)
      × (s.incoming ≡ xs ++ s'.incoming)
      × (s' ≡ record s { incoming = s'.incoming })
unfolding read_exact
read_exact-ok {E} from n s {xs} {s'} h = elim (Bool-cases (leb n (length s.incoming))) [
  | inl enough ↦ enough_bytes enough (rw enough at h)
  | inr short ↦ absurd (run_out-not_ok from s.ending (rw short at h))
]
  where
    enough_bytes :
        leb n (length s.incoming) ≡ true
        → ◌≡◌ {A = Outcome E (List ℕ) × Stream}
            (ok (take n s.incoming), record s { incoming = drop n s.incoming })
            (ok xs, s')
        → (length xs ≡ n)
          × (s.incoming ≡ xs ++ s'.incoming)
          × (s' ≡ record s { incoming = s'.incoming })
    enough_bytes e p =
        let q : take n s.incoming ≡ xs = cc in
        let t : record s { incoming = drop n s.incoming } ≡ s' = ap (λ r. r.1) p in
        let i = ap (λ (r : Stream). r.incoming) t in
        (
          sym (ap length q) ∙ omega (arith, length-take n s.incoming, leb→le _ _ e),
          sym (take-append-drop n s.incoming) ∙ rw (q, i),
          sym t ∙ ap (λ l. record s { incoming = l }) i,
        )

pub read_exact-Takes {ℓ} :
    {E : Type ℓ} (from : IoError → E) (n : ℕ) (s : Stream) {xs : List ℕ} {s' : Stream}
    → read_exact from n s ≡ (ok xs, s')
    → Takes n s s'
read_exact-Takes from n s {xs} h =
    let (size, front, rest) = read_exact-ok from n s h in (xs, omega arith, front, rest)

-- Two results with one outcome have one state.
pub ok-state {ℓ κ} :
    {E : Type ℓ} {A : Type κ} {a b : A} {s s' : Stream}
    → ◌≡◌ {A = Outcome E A × Stream} (ok a, s) (ok b, s')
    → s ≡ s'
ok-state h = ap (λ r. r.1) h

-- A read that fails has met the end of the input.
pub read_exact-err {ℓ} :
    {E : Type ℓ} (from : IoError → E) (n : ℕ) (s : Stream) {e : E} {s' : Stream}
    → read_exact from n s ≡ (err e, s')
    → (length s.incoming < n)
      × (s' ≡ record s { incoming = [] })
      × (run_out {A = List ℕ} from s.ending ≡ err e)
unfolding read_exact
read_exact-err {E} from n s {e} {s'} h = elim (Bool-cases (leb n (length s.incoming))) [
  | inl enough ↦ absurd (ok-not_err (rw enough at h))
  | inr short ↦ too_short short (rw short at h)
]
  where
    ok-not_err :
        {xs : List ℕ} {t : Stream}
        → ¬ (◌≡◌ {A = Outcome E (List ℕ) × Stream} (ok xs, t) (err e, s'))
    ok-not_err p = cc

    too_short :
        leb n (length s.incoming) ≡ false
        → ◌≡◌ {A = Outcome E (List ℕ) × Stream}
            (run_out from s.ending, record s { incoming = [] })
            (err e, s')
        → (length s.incoming < n)
          × (s' ≡ record s { incoming = [] })
          × (run_out {A = List ℕ} from s.ending ≡ err e)
    too_short short p = (ground arith, sym (ap (λ r. r.1) p), ap (λ r. r.0) p)

pub ok-value {ℓ κ} :
    {E : Type ℓ} {A : Type κ} {a b : A} {s s' : Stream}
    → ◌≡◌ {A = Outcome E A × Stream} (ok a, s) (ok b, s')
    → a ≡ b
ok-value h = cc

-- A program that reads first and succeeds: what it read, and how it goes on.
module _ {ℓ κ} {E : Type ℓ} {B : Type κ} (from : IoError → E) where
  pub read_exact-bind :
      (n : ℕ) (s : Stream) (f : List ℕ → Io E B) {b : B} {s' : Stream}
      → bind_outcome (read_exact from n s) f ≡ (ok b, s')
      → (xs rest : List ℕ) × (length xs ≡ n)
        × (s.incoming ≡ xs ++ rest)
        × (f xs (record s { incoming = rest }) ≡ (ok b, s'))
  read_exact-bind n s f h =
      let (xs, s₁, e, h₁) = bind-ok (read_exact from n s) f h in
      let (size, front, same) = read_exact-ok from n s e in
      (xs, s₁.incoming, size, front, ap (f xs) (sym same) ∙ h₁)

  pub read_one-bind :
      (s : Stream) (f : List ℕ → Io E B) {b : B} {s' : Stream}
      → bind_outcome (read_exact from 1 s) f ≡ (ok b, s')
      → (x : ℕ) × (rest : List ℕ) × (s.incoming ≡ x ∷ rest)
        × (f (x ∷ []) (record s { incoming = rest }) ≡ (ok b, s'))
  read_one-bind s f {b} {s'} h =
      let (xs, rest, size, front, go_on) = read_exact-bind 1 s f h in one xs rest size front go_on
    where
      one :
          (xs rest : List ℕ)
          → length xs ≡ 1
          → s.incoming ≡ xs ++ rest
          → f xs (record s { incoming = rest }) ≡ (ok b, s')
          → (x : ℕ) × (rest : List ℕ) × (s.incoming ≡ x ∷ rest)
            × (f (x ∷ []) (record s { incoming = rest }) ≡ (ok b, s'))
      one [] rest size front go_on = absurd (omega arith)
      one (x ∷ []) rest size front go_on = (x, rest, front, go_on)
      one (x ∷ y ∷ xs) rest size front go_on = absurd (omega arith)

  pub read_two-bind :
      (s : Stream) (f : List ℕ → Io E B) {b : B} {s' : Stream}
      → bind_outcome (read_exact from 2 s) f ≡ (ok b, s')
      → (x y : ℕ) × (rest : List ℕ) × (s.incoming ≡ x ∷ y ∷ rest)
        × (f (x ∷ y ∷ []) (record s { incoming = rest }) ≡ (ok b, s'))
  read_two-bind s f {b} {s'} h =
      let (xs, rest, size, front, go_on) = read_exact-bind 2 s f h in two xs rest size front go_on
    where
      two :
          (xs rest : List ℕ)
          → length xs ≡ 2
          → s.incoming ≡ xs ++ rest
          → f xs (record s { incoming = rest }) ≡ (ok b, s')
          → (x y : ℕ) × (rest : List ℕ) × (s.incoming ≡ x ∷ y ∷ rest)
            × (f (x ∷ y ∷ []) (record s { incoming = rest }) ≡ (ok b, s'))
      two [] rest size front go_on = absurd (omega arith)
      two (x ∷ []) rest size front go_on = absurd (omega arith)
      two (x ∷ y ∷ []) rest size front go_on = (x, y, rest, front, go_on)
      two (x ∷ y ∷ z ∷ xs) rest size front go_on = absurd (omega arith)

-- A conditional that comes to a result has taken one of its branches.
pub if-cases {ℓ κ} :
    {E : Type ℓ} {A : Type κ} (c : Bool) (m n : Io E A) (s : Stream) {r : Outcome E A × Stream}
    → (if c then m else n) s ≡ r
    → ((c ≡ true) × (m s ≡ r)) ⊎ ((c ≡ false) × (n s ≡ r))
if-cases true m n s h = inl (refl, h)
if-cases false m n s h = inr (refl, h)
