-- ===== src/Base/Slices.antt =====
-- Reading a list, and slices of it, after a write, a cut or an append elsewhere.
use telegram_socks_ws_proxy.Base.Lists.{
  length, get_or, set, take, drop, slice, length-take, length-drop,
}
use Prim.Native.Nat.{ℕ, zero, suc, ◌+◌, ◌-◌, ◌≤◌, ◌<◌}
use mathlib.Core.Path.{◌≡◌, refl, ap}
use mathlib.Core.Logic.{◌≢◌}
use mathlib.Core.List.{List, [], ◌∷◌, ◌++◌}
use native.Mathlib.Omega.{arith}

module _ {ℓ} {A : Type ℓ} where
  pub get_or-set_self :
      (xs : List A) (i : ℕ) (v d : A) → i < length xs → get_or (set xs i v) i d ≡ v
  get_or-set_self [] i v d h = absurd (omega arith)
  get_or-set_self (x ∷ xs) zero v d h = refl
  get_or-set_self (x ∷ xs) (suc i) v d h = get_or-set_self xs i v d (omega arith)

  pub get_or-set_ne :
      (xs : List A) (i j : ℕ) (v d : A) → i ≢ j → get_or (set xs i v) j d ≡ get_or xs j d
  get_or-set_ne [] i j v d h = refl
  get_or-set_ne (x ∷ xs) zero zero v d h = absurd (h refl)
  get_or-set_ne (x ∷ xs) zero (suc j) v d h = refl
  get_or-set_ne (x ∷ xs) (suc i) zero v d h = refl
  get_or-set_ne (x ∷ xs) (suc i) (suc j) v d h = get_or-set_ne xs i j v d (λ e. h (ap suc e))

  pub get_or-take : (n i : ℕ) (xs : List A) (d : A) → i < n → get_or (take n xs) i d ≡ get_or xs i d
  get_or-take zero i xs d h = absurd (omega arith)
  get_or-take (suc n) i [] d h = refl
  get_or-take (suc n) zero (x ∷ xs) d h = refl
  get_or-take (suc n) (suc i) (x ∷ xs) d h = get_or-take n i xs d (omega arith)

  pub get_or-append_left :
      (xs ys : List A) (i : ℕ) (d : A) → i < length xs → get_or (xs ++ ys) i d ≡ get_or xs i d
  get_or-append_left [] ys i d h = absurd (omega arith)
  get_or-append_left (x ∷ xs) ys zero d h = refl
  get_or-append_left (x ∷ xs) ys (suc i) d h = get_or-append_left xs ys i d (omega arith)

  pub get_or-append_right :
      (xs xs' ys : List A) (i : ℕ) (d : A)
      → length xs ≡ length xs'
      → length xs ≤ i
      → get_or (xs ++ ys) i d ≡ get_or (xs' ++ ys) i d
  get_or-append_right [] [] ys i d e h = refl
  get_or-append_right [] (x' ∷ xs') ys i d e h = absurd (omega arith)
  get_or-append_right (x ∷ xs) [] ys i d e h = absurd (omega arith)
  get_or-append_right (x ∷ xs) (x' ∷ xs') ys zero d e h = absurd (omega arith)
  get_or-append_right (x ∷ xs) (x' ∷ xs') ys (suc i) d e h =
      get_or-append_right xs xs' ys i d (omega arith) (omega arith)

  -- The `n` elements from the `a`-th on, where the change comes behind them.
  pub take-drop-set :
      (n a i : ℕ) (xs : List A) (v : A)
      → a + n ≤ i
      → take n (drop a (set xs i v)) ≡ take n (drop a xs)
  take-drop-set n a i [] v h = refl
  take-drop-set zero zero zero (x ∷ xs) v h = refl
  take-drop-set (suc n) zero zero (x ∷ xs) v h = absurd (omega arith)
  take-drop-set n (suc a) zero (x ∷ xs) v h = absurd (omega arith)
  take-drop-set zero zero (suc i) (x ∷ xs) v h = refl
  take-drop-set (suc n) zero (suc i) (x ∷ xs) v h =
      ap (λ l. x ∷ l) (take-drop-set n zero i xs v (omega arith))
  take-drop-set n (suc a) (suc i) (x ∷ xs) v h = take-drop-set n a i xs v (omega arith)

  pub take-drop-take :
      (n a m : ℕ) (xs : List A) → a + n ≤ m → take n (drop a (take m xs)) ≡ take n (drop a xs)
  take-drop-take zero zero zero xs h = refl
  take-drop-take (suc n) zero zero xs h = absurd (omega arith)
  take-drop-take n (suc a) zero xs h = absurd (omega arith)
  take-drop-take n a (suc m) [] h = refl
  take-drop-take zero zero (suc m) (x ∷ xs) h = refl
  take-drop-take (suc n) zero (suc m) (x ∷ xs) h =
      ap (λ l. x ∷ l) (take-drop-take n zero m xs (omega arith))
  take-drop-take n (suc a) (suc m) (x ∷ xs) h = take-drop-take n a m xs (omega arith)

  pub take-drop-append :
      (n a : ℕ) (xs ys : List A)
      → a + n ≤ length xs
      → take n (drop a (xs ++ ys)) ≡ take n (drop a xs)
  take-drop-append zero zero [] ys h = refl
  take-drop-append (suc n) zero [] ys h = absurd (omega arith)
  take-drop-append n (suc a) [] ys h = absurd (omega arith)
  take-drop-append zero zero (x ∷ xs) ys h = refl
  take-drop-append (suc n) zero (x ∷ xs) ys h =
      ap (λ l. x ∷ l) (take-drop-append n zero xs ys (omega arith))
  take-drop-append n (suc a) (x ∷ xs) ys h = take-drop-append n a xs ys (omega arith)

pub drop-over {ℓ} : {A : Type ℓ} (n : ℕ) (xs : List A) → length xs ≤ n → drop n xs ≡ []
drop-over zero [] h = refl
drop-over zero (x ∷ xs) h = absurd (omega arith)
drop-over (suc n) [] h = refl
drop-over (suc n) (x ∷ xs) h = drop-over n xs (omega arith)

pub length-slice {ℓ} :
    {A : Type ℓ} (a b : ℕ) (xs : List A) → a ≤ b → b ≤ length xs → length (slice a b xs) ≡ b - a
length-slice a b xs h k = omega (arith, length-take (b - a) (drop a xs), length-drop a xs)
