-- ===== src/Base/Word.antt =====
-- Go's uint64: sums wrap around at 2 ^ 64.
use Prim.Native.Nat.{ℕ, ◌+◌, ◌%◌, ◌<◌}
use mathlib.Core.Path.{◌≡◌}
use native.Mathlib.Omega.{arith}

abbrev pub word : ℕ
word = 18446744073709551616

-- `a + b` on uint64.
abbrev pub add_word : ℕ → ℕ → ℕ
add_word a b = (a + b) % word

pub add_word-small : (a b : ℕ) → a + b < word → add_word a b ≡ a + b
add_word-small a b h = omega arith
