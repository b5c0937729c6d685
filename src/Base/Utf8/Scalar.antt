-- ===== src/Base/Utf8/Scalar.antt =====
-- The characters that `String::from_utf8` yields are Unicode scalar values.
use telegram_socks_ws_proxy.Base.Lists.{All, All-append}
use telegram_socks_ws_proxy.Base.Tests.{ltb, leb, leb→le, and-true, ◌==◌, if◌then◌else◌}
use telegram_socks_ws_proxy.Base.Utf8.{
  Str, Pending, start, more, lead, prepend, feed, decode, all_valid, from_utf8,
}
use Prim.Native.Nat.{ℕ, zero, suc, ◌+◌, ◌*◌, ◌%◌, ◌<◌, ◌≤◌}
use mathlib.Core.Path.{◌≡◌, refl, subst}
use mathlib.Core.Logic.{◌⊎◌, inl, inr}
use mathlib.Core.Bool.{Bool, true, false, ◌&&◌}
use mathlib.Core.Option.{Option, none, some}
use mathlib.Core.Option
use mathlib.Core.List.{List, [], ◌∷◌, ◌++◌}
use native.Mathlib.Omega.{arith}

-- A code point that is no surrogate.
abbrev pub IsScalar : ℕ → Type 0
IsScalar c = (c < 0xD800) ⊎ ((0xE000 ≤ c) × (c ≤ 0x10FFFF))

-- Every way to end the character yields a scalar value.
abbrev IsOpen : ℕ → ℕ → ℕ → ℕ → Type 0
IsOpen zero lo hi acc = (b : ℕ) → lo ≤ b → b ≤ hi → IsScalar (acc * 64 + b % 64)
IsOpen (suc k) lo hi acc = (b : ℕ) → lo ≤ b → b ≤ hi → IsOpen k 0x80 0xBF (acc * 64 + b % 64)

abbrev IsPending : Pending → Type 0
IsPending start = Unit
IsPending (more k lo hi acc) = IsOpen k lo hi acc

abbrev IsOutput : Option ℕ → Type 0
IsOutput none = Unit
IsOutput (some c) = IsScalar c

abbrev IsFed : List (Option ℕ) × Pending → Type 0
IsFed (out, p) = All IsOutput out × IsPending p

two_bytes : (acc : ℕ) → acc < 32 → IsOpen 0 0x80 0xBF acc
two_bytes acc h b lo hi = inl (omega arith)

three_bytes :
    (acc lo hi : ℕ)
    → ((b : ℕ)
        → lo ≤ b
        → b ≤ hi
        → (acc * 64 + b % 64 < 864) ⊎ ((896 ≤ acc * 64 + b % 64) × (acc * 64 + b % 64 < 17408)))
    → IsOpen 1 lo hi acc
three_bytes acc lo hi h b l u c l' u' = elim (h b l u) [
  | inl low ↦ inl (omega arith)
  | inr (from_, to) ↦ inr (omega arith, omega arith)
]

four_bytes :
    (acc lo hi : ℕ)
    → ((b : ℕ) → lo ≤ b → b ≤ hi → (16 ≤ acc * 64 + b % 64) × (acc * 64 + b % 64 < 272))
    → IsOpen 2 lo hi acc
four_bytes acc lo hi h b l u c l' u' d l'' u'' =
    let (least, most) = h b l u in inr (omega arith, omega arith)

by_if :
    (c : Bool) (x y : List (Option ℕ) × Pending)
    → (c ≡ true → IsFed x)
    → (c ≡ false → IsFed y)
    → IsFed (if c then x else y)
by_if true x y then_x else_y = then_x refl
by_if false x y then_x else_y = else_y refl

invalid : IsFed (none ∷ [], start)
invalid = ((tt, tt), tt)

middle : (acc : ℕ) → 1 ≤ acc → acc < 16 → ¬ (acc ≡ 13) → IsOpen 1 0x80 0xBF acc
middle acc least most other = three_bytes acc 0x80 0xBF (λ b l u. ground arith)

-- The bounds of the bytes are those that leave the surrogates and what lies beyond 0x10FFFF out.
lead-IsFed : (b : ℕ) → IsFed (lead b)
unfolding lead
lead-IsFed b =
    by_if (ltb b 0x80) _ _ (λ ascii. ((inl (ground arith), tt), tt))
      (λ n₀.
        by_if (ltb b 0xC2) _ _ (λ h. invalid)
          (λ n₁.
            by_if (ltb b 0xE0) _ _ (λ h. (tt, two_bytes (b % 32) (omega arith)))
              (λ n₂.
                by_if (b == 0xE0) _ _
                  (λ h.
                    let acc : b % 16 ≡ 0 = ground arith in
                    (tt, three_bytes (b % 16) 0xA0 0xBF (λ c l u. inl (omega arith))))
                  (λ n₃.
                    by_if (b == 0xED) _ _
                      (λ h.
                        let acc : b % 16 ≡ 13 = ground arith in
                        (tt, three_bytes (b % 16) 0x80 0x9F (λ c l u. inl (omega arith))))
                      (λ n₄.
                        by_if (ltb b 0xF0) _ _
                          (λ h.
                            (tt, middle (b % 16) (ground arith) (omega arith) (λ e. ground arith)))
                          (λ n₅.
                            by_if (b == 0xF0) _ _
                              (λ h.
                                let acc : b % 8 ≡ 0 = ground arith in
                                (
                                  tt,
                                  four_bytes (b % 8) 0x90 0xBF
                                      (λ c l u. (omega arith, omega arith)),
                                ))
                              (λ n₆.
                                by_if (ltb b 0xF4) _ _
                                  (λ h.
                                    let acc : (1 ≤ b % 8) × (b % 8 < 4) = ground arith in
                                    (
                                      tt,
                                      four_bytes (b % 8) 0x80 0xBF
                                          (λ c l u. (omega arith, omega arith)),
                                    ))
                                  (λ n₇.
                                    by_if (b == 0xF4) _ _
                                      (λ h.
                                        let acc : b % 8 ≡ 4 = ground arith in
                                        (
                                          tt,
                                          four_bytes (b % 8) 0x80 0x8F
                                              (λ c l u. (omega arith, omega arith)),
                                        ))
                                      (λ n₈. invalid)))))))))

-- A byte that does not fit starts anew.
refused-IsFed : (b : ℕ) → IsFed (prepend none (lead b))
refused-IsFed b = again (lead b) (lead-IsFed b)
  where
    again : (r : List (Option ℕ) × Pending) → IsFed r → IsFed (prepend none r)
    again (out, p) (h, k) = ((tt, h), k)

feed-IsFed : (p : Pending) (b : ℕ) → IsPending p → IsFed (feed p b)
unfolding feed
feed-IsFed start b h = lead-IsFed b
feed-IsFed (more zero lo hi acc) b h =
    by_if (leb lo b && leb b hi) _ _
      (λ fits.
        let (above, below) = and-true (leb lo b) fits in
        ((h b (leb→le lo b above) (leb→le b hi below), tt), tt))
      (λ other. refused-IsFed b)
feed-IsFed (more (suc k) lo hi acc) b h =
    by_if (leb lo b && leb b hi) _ _
      (λ fits.
        let (above, below) = and-true (leb lo b) fits in
        (tt, h b (leb→le lo b above) (leb→le b hi below)))
      (λ other. refused-IsFed b)

decode-All : (p : Pending) (bytes : List ℕ) → IsPending p → All IsOutput (decode p bytes)
unfolding decode
decode-All start [] h = tt
decode-All (more k lo hi acc) [] h = (tt, tt)
decode-All p (b ∷ bs) h = go_on (decode-All (feed p b).1 bs) (feed-IsFed p b h)
  where
    go_on :
        (IsPending (feed p b).1 → All IsOutput (decode (feed p b).1 bs))
        → IsFed (feed p b)
        → All IsOutput ((feed p b).0 ++ decode (feed p b).1 bs)
    go_on later (out, next) = All-append IsOutput (feed p b).0 _ out (later next)

abbrev Valid : Option Str → Type 0
Valid none = Unit
Valid (some s) = All IsScalar s

all_valid-Valid : (cs : List (Option ℕ)) → All IsOutput cs → Valid (all_valid cs)
unfolding all_valid
all_valid-Valid [] h = tt
all_valid-Valid (none ∷ cs) h = tt
all_valid-Valid (some c ∷ cs) (scalar, h) = one_more (all_valid cs) (all_valid-Valid cs h)
  where
    one_more : (o : Option Str) → Valid o → Valid (Option.map (λ s. c ∷ s) o)
    one_more none v = tt
    one_more (some s) v = (scalar, v)

-- A text that is read from bytes consists of Unicode scalar values.
pub from_utf8-IsScalar : (bytes : List ℕ) (s : Str) → from_utf8 bytes ≡ some s → All IsScalar s
unfolding from_utf8
from_utf8-IsScalar bytes s e =
    subst Valid e (all_valid-Valid (decode start bytes) (decode-All start bytes tt))
