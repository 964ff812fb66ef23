-- ===== src/Base/Word.antt =====
-- Unsigned arithmetic of a release build: sums and differences wrap, at 64 bits or, for a `usize` of
-- the browser, at 32.
use Prim.Native.Nat.{ℕ, ◌+◌, ◌-◌, ◌%◌, ◌^◌, ◌≤◌, ◌<◌}
use mathlib.Core.Path.{◌≡◌}
use native.Mathlib.Omega.{arith}

abbrev pub word_mod : ℕ
word_mod = 2 ^ 64

unfoldable pub add64 : ℕ → ℕ → ℕ
add64 a b = (a + b) % word_mod

unfoldable pub sub64 : ℕ → ℕ → ℕ
sub64 a b = (a + word_mod - b) % word_mod

pub add64_exact : (a b : ℕ) → a + b < word_mod → add64 a b ≡ a + b
unfolding add64
add64_exact a b h = omega arith

pub sub64_exact : (a b : ℕ) → b ≤ a → a < word_mod → sub64 a b ≡ a - b
unfolding sub64
sub64_exact a b h k = omega arith

abbrev pub word32_mod : ℕ
word32_mod = 2 ^ 32

unfoldable pub add32 : ℕ → ℕ → ℕ
add32 a b = (a + b) % word32_mod

pub add32_exact : (a b : ℕ) → a + b < word32_mod → add32 a b ≡ a + b
unfolding add32
add32_exact a b h = omega arith
