-- ===== src/Base/Words.antt =====
-- Unsigned words (uint8, uint16, uint32) and their little-endian bytes, as the x86-64 build lays
-- them out. A read through a pointer is `none` where it leaves the array.
use Prim.Native.Nat.{ℕ, ◌+◌, ◌*◌, ◌/◌, ◌%◌, ◌^◌, ◌<◌}
use mathlib.Core.Path.{◌≡◌, ap}
use mathlib.Core.List.{List, [], ◌∷◌, ◌++◌}
use mathlib.Core.Option.{Option, none, some}
use native.Mathlib.Omega.{arith}

abbrev pub uint8 : ℕ → ℕ
uint8 n = n % 2 ^ 8

abbrev pub uint16 : ℕ → ℕ
uint16 n = n % 2 ^ 16

abbrev pub uint32 : ℕ → ℕ
uint32 n = n % 2 ^ 32

abbrev pub bytes8 : ℕ → List ℕ
bytes8 n = n % 256 ∷ []

abbrev pub bytes16 : ℕ → List ℕ
bytes16 n = n % 256 ∷ n / 256 % 256 ∷ []

abbrev pub bytes32 : ℕ → List ℕ
bytes32 n = n % 256 ∷ n / 256 % 256 ∷ n / 65536 % 256 ∷ n / 16777216 % 256 ∷ []

-- The word at the front of an array, if the array is long enough.
unfoldable pub word8 : List ℕ → Option ℕ
word8 [] = none
word8 (a ∷ r) = some a

unfoldable pub word16 : List ℕ → Option ℕ
word16 (a ∷ b ∷ r) = some (a + 256 * b)
word16 _ = none

unfoldable pub word32 : List ℕ → Option ℕ
word32 (a ∷ b ∷ c ∷ d ∷ r) = some (a + 256 * b + 65536 * c + 16777216 * d)
word32 _ = none

pub word16-bytes16 : (n : ℕ) (r : List ℕ) → n < 2 ^ 16 → word16 (bytes16 n ++ r) ≡ some n
unfolding word16
word16-bytes16 n r h = ap some (omega arith)

pub word32-bytes32 : (n : ℕ) (r : List ℕ) → n < 2 ^ 32 → word32 (bytes32 n ++ r) ≡ some n
unfolding word32
word32-bytes32 n r h = ap some (omega arith)
