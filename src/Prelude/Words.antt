-- ===== src/Prelude/Words.antt =====
-- `usize` arithmetic of 64 bits.
use schemaform.Prelude.Tests.{leb, ltb, if◌then◌else◌}
use Prim.Native.Nat.{ℕ, ◌+◌, ◌-◌, ◌^◌, ◌<◌}
use mathlib.Core.Path.{◌≡◌}
use native.Mathlib.Omega.{arith}

abbrev pub usize_max : ℕ
usize_max = 2 ^ 64 - 1

-- `a.saturating_add(b)`; `-` on ℕ is `saturating_sub`.
unfoldable pub saturating_add : ℕ → ℕ → ℕ
saturating_add a b = if leb (a + b) usize_max then a + b else usize_max

abbrev pub max : ℕ → ℕ → ℕ
max a b = if ltb a b then b else a

pub saturating_add_exact : (a b : ℕ) → a + b < 2 ^ 64 → saturating_add a b ≡ a + b
unfolding saturating_add
saturating_add_exact a b h = ground arith
