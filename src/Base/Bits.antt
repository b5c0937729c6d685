-- ===== src/Base/Bits.antt =====
-- The bit operations at variables: the digit recursion of exclusive or, its cancellation laws, and
-- the masks of one byte as arithmetic.
use Prim.Native.Nat.{
  ℕ, zero, suc, ◌+◌, ◌*◌, ◌/◌, ◌%◌, ◌^◌, ◌≤◌, ◌<◌, bit_and, bit_or, bit_xor, differ, digits,
  bit_xor-bitwise, bit_or-bitwise, bitwise, max,
}
use mathlib.Core.Path.{◌≡◌, refl, sym, ap, ◌∙◌}
use mathlib.Core.Bool.{Bool, true, ◌&&◌}
use native.Mathlib.Nat.{le_refl, pow-suc}
use native.Mathlib.Omega.{arith}
use telegram_socks_ws_proxy.Base.Tests.{◌==◌, ==_iff, Bool-cases, and-true}
use mathlib.Core.Logic.{◌⊎◌, inl, inr}

-- The digits of a bit operation do not depend on the fuel, once there is enough.
module _ (z : ℕ → ℕ) (f : ℕ → ℕ → ℕ) where
  enough_digits :
      (x y fuel more : ℕ) → x ≤ fuel → x ≤ more → digits z f fuel x y ≡ digits z f more x y
  enough_digits (suc x) y (suc fuel) (suc more) h₁ h₂ =
      rw (enough_digits (suc x / 2) (y / 2) fuel more (omega arith) (omega arith))
  enough_digits (suc x) y zero more h₁ h₂ = absurd (omega arith)
  enough_digits (suc x) y (suc fuel) zero h₁ h₂ = absurd (omega arith)
  enough_digits zero y (suc fuel) (suc more) h₁ h₂ = refl
  enough_digits zero y (suc fuel) zero h₁ h₂ = refl
  enough_digits zero y zero (suc more) h₁ h₂ = refl
  enough_digits zero y zero zero h₁ h₂ = refl

  bitwise_next :
      (x y : ℕ)
      → bitwise z f (suc x) y ≡ bitwise z f (suc x / 2) (y / 2) * 2 + f (suc x % 2) (y % 2)
  bitwise_next x y = rw (enough_digits (suc x / 2) (y / 2) x (suc x / 2) (omega arith) (le_refl _))

zero-bit_xor : (b : ℕ) → bit_xor 0 b ≡ b
zero-bit_xor b = bit_xor-bitwise 0 b

zero-bit_or : (b : ℕ) → bit_or 0 b ≡ b
zero-bit_or b = bit_or-bitwise 0 b

bit_or_step : (x y : ℕ) → bit_or x y ≡ bit_or (x / 2) (y / 2) * 2 + max (x % 2) (y % 2)
bit_or_step zero y = omega (arith, zero-bit_or y, zero-bit_or (y / 2))
bit_or_step (suc x) y = simp bit_or-bitwise (bitwise_next (λ y. y) max x y)

-- `a | b << k` is a sum where `a` has no digit from the k-th on.
pub bit_or_shifted : (k a b : ℕ) → a < 2 ^ k → bit_or a (b * 2 ^ k) ≡ a + b * 2 ^ k
bit_or_shifted zero zero b h = rw (zero-bit_or (b * 1)) (omega arith)
bit_or_shifted zero (suc a) b h = absurd (omega arith)
bit_or_shifted (suc k) a b h =
    let double : b * 2 ^ suc k ≡ 2 * (b * 2 ^ k) =
      omega (arith, ap (λ (t : ℕ). b * t) (pow-suc 2 k)) in
    let half : b * 2 ^ suc k / 2 ≡ b * 2 ^ k = omega arith in
    let ih = bit_or_shifted k (a / 2) b (omega (arith, pow-suc 2 k)) in
    omega (arith, bit_or_step a (b * 2 ^ suc k), ap (bit_or (a / 2)) half, ih)

-- Exclusive or acts on the last binary digit and on the rest.
pub bit_xor_step : (a b : ℕ) → bit_xor a b ≡ bit_xor (a / 2) (b / 2) * 2 + differ (a % 2) (b % 2)
bit_xor_step zero b = omega (arith, zero-bit_xor b, zero-bit_xor (b / 2))
bit_xor_step (suc a) b = simp bit_xor-bitwise (bitwise_next (λ x. x) differ a b)

differ_digits :
    (d e : ℕ)
    → d < 2
    → e < 2
    → (differ d e < 2) × (differ (differ d e) e ≡ d) × (differ (differ d e) d ≡ e)
differ_digits zero zero p q = omega arith
differ_digits zero (suc zero) p q = omega arith
differ_digits zero (suc (suc e)) p q = absurd (omega arith)
differ_digits (suc zero) zero p q = omega arith
differ_digits (suc zero) (suc zero) p q = omega arith
differ_digits (suc zero) (suc (suc e)) p q = absurd (omega arith)
differ_digits (suc (suc d)) e p q = absurd (omega arith)

differ_zero : (d : ℕ) → differ d 0 ≡ d
differ_zero zero = refl
differ_zero (suc d) = refl

differ_self : (d : ℕ) → differ d d ≡ 0
differ_self zero = refl
differ_self (suc d) = differ_self d

-- The two parts of an exclusive or, by its last digit.
bit_xor_parts :
    (a b : ℕ)
    → (bit_xor a b / 2 ≡ bit_xor (a / 2) (b / 2)) × (bit_xor a b % 2 ≡ differ (a % 2) (b % 2))
bit_xor_parts a b =
    let (d, _, _) = differ_digits (a % 2) (b % 2) (omega arith) (omega arith) in
    (omega (arith, bit_xor_step a b), omega (arith, bit_xor_step a b))

bit_xor-zero_fuel : (n a : ℕ) → a ≤ n → bit_xor a 0 ≡ a
bit_xor-zero_fuel n zero h = refl
bit_xor-zero_fuel zero (suc a) h = absurd (omega arith)
bit_xor-zero_fuel (suc n) (suc a) h = omega (
  arith,
  bit_xor_step (suc a) 0,
  differ_zero (suc a % 2),
  bit_xor-zero_fuel n (suc a / 2) (omega arith),
)

bit_xor_self_fuel : (n a : ℕ) → a ≤ n → bit_xor a a ≡ 0
bit_xor_self_fuel n zero h = refl
bit_xor_self_fuel zero (suc a) h = absurd (omega arith)
bit_xor_self_fuel (suc n) (suc a) h = omega (
  arith,
  bit_xor_step (suc a) (suc a),
  differ_self (suc a % 2),
  bit_xor_self_fuel n (suc a / 2) (omega arith),
)

cancel_right_fuel : (n a b : ℕ) → a ≤ n → bit_xor (bit_xor a b) b ≡ a
cancel_right_fuel n zero b h = rw (zero-bit_xor b) (bit_xor_self_fuel b b (le_refl _))
cancel_right_fuel zero (suc a) b h = absurd (omega arith)
cancel_right_fuel (suc n) (suc a) b h =
    let (q, r) = bit_xor_parts (suc a) b in
    let (_, d, _) = differ_digits (suc a % 2) (b % 2) (omega arith) (omega arith) in
    rw
      (
        bit_xor_step (bit_xor (suc a) b) b,
        q,
        r,
        d,
        cancel_right_fuel n (suc a / 2) (b / 2) (omega arith),
      )
      (omega arith)

-- Masking twice with one key gives the value back.
pub bit_xor-cancel_right : (a b : ℕ) → bit_xor (bit_xor a b) b ≡ a
bit_xor-cancel_right a b = cancel_right_fuel a a b (le_refl _)

cancel_left_fuel : (n a b : ℕ) → a ≤ n → bit_xor (bit_xor a b) a ≡ b
cancel_left_fuel n zero b h = rw (zero-bit_xor b) (bit_xor-zero_fuel b b (le_refl _))
cancel_left_fuel zero (suc a) b h = absurd (omega arith)
cancel_left_fuel (suc n) (suc a) b h =
    let (q, r) = bit_xor_parts (suc a) b in
    let (_, _, d) = differ_digits (suc a % 2) (b % 2) (omega arith) (omega arith) in
    rw
      (
        bit_xor_step (bit_xor (suc a) b) (suc a),
        q,
        r,
        d,
        cancel_left_fuel n (suc a / 2) (b / 2) (omega arith),
      )
      (omega arith)

pub bit_xor-cancel_left : (a b : ℕ) → bit_xor (bit_xor a b) a ≡ b
bit_xor-cancel_left a b = cancel_left_fuel a a b (le_refl _)

pub bit_xor-lt_pow : (k a b : ℕ) → a < 2 ^ k → b < 2 ^ k → bit_xor a b < 2 ^ k
bit_xor-lt_pow zero zero zero p q = omega arith
bit_xor-lt_pow zero zero (suc b) p q = absurd (omega arith)
bit_xor-lt_pow zero (suc a) b p q = absurd (omega arith)
bit_xor-lt_pow (suc k) a b p q =
    let (d, _, _) = differ_digits (a % 2) (b % 2) (omega arith) (omega arith) in
    omega (
      arith,
      pow-suc 2 k,
      bit_xor_step a b,
      bit_xor-lt_pow k (a / 2) (b / 2) (omega (arith, pow-suc 2 k)) (omega (arith, pow-suc 2 k)),
    )

le_cases : (a b : ℕ) → a ≤ b → (a ≡ b) ⊎ (a < b)
le_cases a b h = elim (Bool-cases (a == b)) [
  | inl same ↦ inl ((==_iff a b).0 same)
  | inr different ↦ inr (ground arith)
]

-- Two functions compared at the numbers below a bound, and the equation that this gives.
unfoldable pub agrees : (ℕ → ℕ) → (ℕ → ℕ) → ℕ → Bool
agrees f g zero = true
agrees f g (suc bound) = f bound == g bound && agrees f g bound

pub agree :
    (bound : ℕ) (f g : ℕ → ℕ)
    → agrees f g bound ≡ true
    → (value : ℕ) → value < bound
    → f value ≡ g value
unfolding agrees
agree zero f g table value small = absurd (omega arith)
agree (suc bound) f g table value small =
    let (at_bound, below) = and-true (f bound == g bound) table in
    elim (le_cases value bound (omega arith)) [
      | inl same ↦ ap f same ∙ (==_iff (f bound) (g bound)).0 at_bound ∙ ap g (sym same)
      | inr smaller ↦ agree bound f g below value smaller
    ]

-- `b & 0x0f`, `b & 0x7f`, `b & 0x80` and `0x80 | b` on a byte.
pub low_nibble : (b : ℕ) → b < 256 → bit_and b 0x0f ≡ b % 16
unfolding agrees
low_nibble = agree 256 (λ b. bit_and b 0x0f) (λ b. b % 16) refl

pub low_seven : (b : ℕ) → b < 256 → bit_and b 0x7f ≡ b % 128
unfolding agrees
low_seven = agree 256 (λ b. bit_and b 0x7f) (λ b. b % 128) refl

pub top_bit : (b : ℕ) → b < 256 → bit_and b 0x80 ≡ b / 128 * 128
unfolding agrees
top_bit = agree 256 (λ b. bit_and b 0x80) (λ b. b / 128 * 128) refl

pub set_top_bit : (b : ℕ) → b < 128 → bit_or 0x80 b ≡ 128 + b
unfolding agrees
set_top_bit = agree 128 (λ b. bit_or 0x80 b) (λ b. 128 + b) refl
