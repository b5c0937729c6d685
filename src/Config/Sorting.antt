-- ===== src/Config/Sorting.antt =====
-- The sort of the announced addresses in src/config.rs: its order is total, and it keeps what holds of the elements.
use telegram_socks_ws_proxy.Base.{
  ◌≡◌, refl, sym, ap, ◌∙◌, arith, true, false, Bool-cases, List, [], ◌∷◌, All, inl, inr,
}
use telegram_socks_ws_proxy.Base.Utf8.{Str}
use telegram_socks_ws_proxy.Base.Text.{eq_str, eq_str→≡, eq_str_refl}
use telegram_socks_ws_proxy.Config.{Ranked, host_of, le_str, le_ranked, insert, sort}

le_str-total : (s t : Str) → le_str s t ≡ false → le_str t s ≡ true
unfolding le_str
le_str-total [] t h = cc
le_str-total (c ∷ s) [] h = refl
le_str-total (c ∷ s) (d ∷ t) h = elim (Bool-cases (le_str s t)) [
  | inl e ↦ ground arith
  | inr n ↦ let k = le_str-total s t n in ground arith
]

le_ranked-total : (x y : Ranked) → le_ranked x y ≡ false → le_ranked y x ≡ true
unfolding le_ranked
le_ranked-total (a, s) (b, t) h = elim (Bool-cases (le_str s t)) [
  | inl e ↦ ground arith
  | inr n ↦ let k = le_str-total s t n in ground arith
]

abbrev pub IsSorted : List Ranked → Type 0
IsSorted [] = Unit
IsSorted (x ∷ []) = Unit
IsSorted (x ∷ y ∷ ys) = (le_ranked x y ≡ true) × IsSorted (y ∷ ys)

insert-below :
    (y x : Ranked) (ys : List Ranked)
    → le_ranked y x ≡ true
    → IsSorted (y ∷ ys)
    → IsSorted (y ∷ insert x ys)
unfolding insert
insert-below y x [] h sorted = (h, tt)
insert-below y x (z ∷ zs) h (k, sorted) = elim (Bool-cases (le_ranked x z)) [
  | inl e ↦ rw e (h, (e, sorted))
  | inr n ↦ rw n (k, insert-below z x zs (le_ranked-total x z n) sorted)
]

insert-IsSorted : (x : Ranked) (ys : List Ranked) → IsSorted ys → IsSorted (insert x ys)
unfolding insert
insert-IsSorted x [] sorted = tt
insert-IsSorted x (y ∷ ys) sorted = elim (Bool-cases (le_ranked x y)) [
  | inl e ↦ rw e (e, sorted)
  | inr n ↦ rw n (insert-below y x ys (le_ranked-total x y n) sorted)
]

pub sort-IsSorted : (xs : List Ranked) → IsSorted (sort xs)
unfolding sort
sort-IsSorted [] = tt
sort-IsSorted (x ∷ xs) = insert-IsSorted x (sort xs) (sort-IsSorted xs)

insert-All :
    (P : Ranked → Type 0) (x : Ranked) (ys : List Ranked) → P x → All P ys → All P (insert x ys)
unfolding insert
insert-All P x [] p ps = (p, tt)
insert-All P x (y ∷ ys) p (q, ps) = elim (Bool-cases (le_ranked x y)) [
  | inl e ↦ rw e (p, (q, ps))
  | inr n ↦ rw n (q, insert-All P x ys p ps)
]

pub sort-All : (P : Ranked → Type 0) (xs : List Ranked) → All P xs → All P (sort xs)
unfolding sort
sort-All P [] ps = tt
sort-All P (x ∷ xs) (p, ps) = insert-All P x (sort xs) p (sort-All P xs ps)

-- Of two different hosts.
abbrev pub Apart : Ranked → Ranked → Type 0
Apart x y = eq_str (host_of x) (host_of y) ≡ false

Apart-sym : (x y : Ranked) → Apart x y → Apart y x
Apart-sym x y h = elim (Bool-cases (eq_str (host_of y) (host_of x))) [
  | inl e ↦
      let same = eq_str→≡ (host_of y) (host_of x) e in
      absurd
        (true-not_false (sym (eq_str_refl (host_of x)) ∙ ap (eq_str (host_of x)) (sym same) ∙ h))
  | inr n ↦ n
]
  where
    true-not_false : ¬ (true ≡ false)
    true-not_false e = cc

abbrev pub AllApart : List Ranked → Type 0
AllApart [] = Unit
AllApart (x ∷ xs) = All (Apart x) xs × AllApart xs

insert-AllApart :
    (x : Ranked) (ys : List Ranked) → All (Apart x) ys → AllApart ys → AllApart (insert x ys)
unfolding insert
insert-AllApart x [] h apart = (tt, tt)
insert-AllApart x (y ∷ ys) (p, ps) (q, qs) = elim (Bool-cases (le_ranked x y)) [
  | inl e ↦ rw e ((p, ps), (q, qs))
  | inr n ↦ rw n (insert-All (Apart y) x ys (Apart-sym x y p) q, insert-AllApart x ys ps qs)
]

pub sort-AllApart : (xs : List Ranked) → AllApart xs → AllApart (sort xs)
unfolding sort
sort-AllApart [] apart = tt
sort-AllApart (x ∷ xs) (p, ps) =
    insert-AllApart x (sort xs) (sort-All (Apart x) xs p) (sort-AllApart xs ps)
