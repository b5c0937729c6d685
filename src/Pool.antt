-- ===== src/Pool.antt =====
-- src/modules/pool.rs: the pool of WebSocket clients. A `HashMap` is a function into `Option`, and what a client is
-- does not matter.
use telegram_socks_ws_proxy.Base.{
  ◌≡◌, refl, sym, ap, ◌⊎◌, if◌then◌else◌, true, false, Bool-cases, Option, none, some, inl, inr,
  List, [], ◌∷◌, ◌++◌,
}
use telegram_socks_ws_proxy.Routing.Backoff.{WsKey, key_eq}
use telegram_socks_ws_proxy.Routing.Backoff.View.{key_eq_refl, key_eq→eq}
use mathlib.Core.Option

module _ {A : Type 0} where
  -- `Vec::pop`
  unfoldable pub pop : List A → Option A × List A
  pop [] = (none, [])
  pop (x ∷ []) = (some x, [])
  pop (x ∷ y ∷ ys) = let (last, rest) = pop (y ∷ ys) in (last, x ∷ rest)

  pop-append : (xs : List A) (x : A) → pop (xs ++ (x ∷ [])) ≡ (some x, xs)
  unfolding pop
  pop-append [] x = refl
  pop-append (y ∷ []) x = refl
  pop-append (y ∷ z ∷ xs) x = rw (pop-append (z ∷ xs) x)

pub record WsPool (A : Type 0) : Type 0 where
  pub buckets : WsKey → Option (List A)

module _ {A : Type 0} where
  unfoldable pub new : WsPool A
  new = record { buckets = λ k. none }

  abbrev pub put : WsKey → List A → WsPool A → WsPool A
  put k bucket pool = record { buckets = λ j. if key_eq j k then some bucket else pool.buckets j }

  abbrev pub got : WsKey → WsPool A → Option A × List A → Option A × WsPool A
  got k pool (client, rest) = (client, put k rest pool)

  unfoldable pub get : WsKey → WsPool A → Option A × WsPool A
  unfolding pop
  get k pool = elim (pool.buckets k) [ none ↦ (none, pool) | some bucket ↦ got k pool (pop bucket) ]

  unfoldable pub return_to_pool : WsKey → A → WsPool A → WsPool A
  return_to_pool k client pool = put k (Option.get_or (pool.buckets k) [] ++ (client ∷ [])) pool

  -- The clients of a key; an empty bucket is as good as none.
  abbrev pub clients : WsPool A → WsKey → List A
  clients pool k = Option.get_or (pool.buckets k) []

  get-put :
      (k : WsKey) (bucket : List A) (pool : WsPool A)
      → get k (put k bucket pool) ≡ got k (put k bucket pool) (pop bucket)
  unfolding get pop
  get-put k bucket pool = rw (get, key_eq_refl k)

  -- A client that is returned is the next one that its key gives out, and the clients of every key are then what
  -- they were before it was returned.
  pub get-return_to_pool :
      (k j : WsKey) (client : A) (pool : WsPool A)
      → ((get k (return_to_pool k client pool)).0 ≡ some client)
        × (clients (get k (return_to_pool k client pool)).1 j ≡ clients pool j)
  unfolding return_to_pool
  get-return_to_pool k j client pool =
      rw (get-put k (clients pool k ++ (client ∷ [])) pool, pop-append (clients pool k) client)
        (refl, by_key (Bool-cases (key_eq j k)))
    where
      by_key :
          ((key_eq j k ≡ true) ⊎ (key_eq j k ≡ false))
          → clients (put k (clients pool k) (put k (clients pool k ++ (client ∷ [])) pool)) j
            ≡ clients pool j
      by_key (inl same) = rw same (ap (clients pool) (sym (key_eq→eq j k same)))
      by_key (inr other) = rw other
