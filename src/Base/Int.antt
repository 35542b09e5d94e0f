-- ===== src/Base/Int.antt =====
-- Signed integers over the native numbers: what the offsets of `Seek` need.
use Prim.Native.Nat.{ℕ, suc, ◌+◌, ◌-◌}
use image_proxy.Base.Tests.{leb, if◌then◌else◌}

-- `negsuc n` is -(n + 1).
pub data ℤ : Type 0 where
  pos : ℕ → ℤ
  negsuc : ℕ → ℤ

-- a - b, as an integer.
abbrev pub sub_ℕ : ℕ → ℕ → ℤ
sub_ℕ a b = if leb b a then pos (a - b) else negsuc (b - a - 1)

-- a + z for a number that is not negative.
unfoldable pub add_ℕ : ℕ → ℤ → ℤ
add_ℕ a (pos n) = pos (a + n)
add_ℕ a (negsuc n) = sub_ℕ a (suc n)
