-- ===== src/Base/Utf8.antt =====
-- `String::from_utf8` and `String::from_utf8_lossy` of the standard library. A string is the list of
-- its code points.
pub mod Scalar
use telegram_socks_ws_proxy.Base.Lists.{All}
use telegram_socks_ws_proxy.Base.Tests.{ltb, leb, ◌==◌, if◌then◌else◌}
use Prim.Native.Nat.{ℕ, zero, suc, ◌+◌, ◌*◌, ◌%◌, ◌<◌}
use Prim.Native.Char.{code}
use Prim.Native.String.{String}
use mathlib.Core.Path.{◌≡◌, refl}
use mathlib.Core.Bool.{◌&&◌}
use mathlib.Core.Option.{Option, none, some}
use mathlib.Core.List.{List, [], ◌∷◌, ◌++◌, map}
use mathlib.Core.Option
use native.Mathlib.Omega.{arith}

abbrev pub Str : Type 0
Str = List ℕ

-- A literal.
abbrev pub codes : String → Str
codes String.[] = []
codes (String.◌∷◌ c s) = code c ∷ codes s

-- Between two characters, or inside one: `more k lo hi acc` wants a byte from `lo` to `hi` and `k`
-- continuation bytes after it.
pub data Pending : Type 0 where
  start : Pending
  more : ℕ → ℕ → ℕ → ℕ → Pending

-- A first byte: what it yields (`none` for an invalid one), and what is wanted next.
unfoldable pub lead : ℕ → List (Option ℕ) × Pending
lead b =
    if ltb b 0x80
    then (some b ∷ [], start)
    else if ltb b 0xC2
    then (none ∷ [], start)
    else if ltb b 0xE0
    then ([], more 0 0x80 0xBF (b % 32))
    else if b == 0xE0
    then ([], more 1 0xA0 0xBF (b % 16))
    else if b == 0xED
    then ([], more 1 0x80 0x9F (b % 16))
    else if ltb b 0xF0
    then ([], more 1 0x80 0xBF (b % 16))
    else if b == 0xF0
    then ([], more 2 0x90 0xBF (b % 8))
    else if ltb b 0xF4
    then ([], more 2 0x80 0xBF (b % 8))
    else if b == 0xF4
    then ([], more 2 0x80 0x8F (b % 8))
    else (none ∷ [], start)

abbrev pub prepend : Option ℕ → List (Option ℕ) × Pending → List (Option ℕ) × Pending
prepend o (out, p) = (o ∷ out, p)

-- A byte that does not fit ends the character, which is invalid, and starts the next one.
unfoldable pub feed : Pending → ℕ → List (Option ℕ) × Pending
unfolding lead
feed start b = lead b
feed (more zero lo hi acc) b =
    if leb lo b && leb b hi then (some (acc * 64 + b % 64) ∷ [], start) else prepend none (lead b)
feed (more (suc k) lo hi acc) b =
    if leb lo b && leb b hi
    then ([], more k 0x80 0xBF (acc * 64 + b % 64))
    else prepend none (lead b)

unfoldable pub decode : Pending → List ℕ → List (Option ℕ)
unfolding feed
decode start [] = []
decode (more k lo hi acc) [] = none ∷ []
decode p (b ∷ bs) = let (out, p') = feed p b in out ++ decode p' bs

unfoldable pub all_valid : List (Option ℕ) → Option Str
all_valid [] = some []
all_valid (none ∷ cs) = none
all_valid (some c ∷ cs) = Option.map (λ s. c ∷ s) (all_valid cs)

unfoldable pub from_utf8 : List ℕ → Option Str
unfolding decode all_valid
from_utf8 bytes = all_valid (decode start bytes)

unfoldable pub from_utf8_lossy : List ℕ → Str
unfolding decode
from_utf8_lossy bytes = map (λ c. Option.get_or c 0xFFFD) (decode start bytes)

-- ASCII bytes are their own characters.
pub from_utf8_ascii : (bytes : List ℕ) → All (λ b. b < 0x80) bytes → from_utf8 bytes ≡ some bytes
unfolding from_utf8
from_utf8_ascii [] h = refl
from_utf8_ascii (b ∷ bs) h = ground (arith, from_utf8_ascii bs h.1)

pub from_utf8_lossy_ascii :
    (bytes : List ℕ) → All (λ b. b < 0x80) bytes → from_utf8_lossy bytes ≡ bytes
unfolding from_utf8_lossy
from_utf8_lossy_ascii [] h = refl
from_utf8_lossy_ascii (b ∷ bs) h = ground (arith, from_utf8_lossy_ascii bs h.1)

euro_sign : from_utf8 (0xE2 ∷ 0x82 ∷ 0xAC ∷ 0x21 ∷ []) ≡ some (0x20AC ∷ 0x21 ∷ [])
unfolding from_utf8
euro_sign = refl

cut_off :
    from_utf8_lossy (0x41 ∷ 0xE2 ∷ 0x82 ∷ 0x42 ∷ 0xF0 ∷ []) ≡ 0x41 ∷ 0xFFFD ∷ 0x42 ∷ 0xFFFD ∷ []
unfolding from_utf8_lossy
cut_off = refl
