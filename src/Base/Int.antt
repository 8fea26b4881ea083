-- ===== src/Base/Int.antt =====
-- Signed integers over the native numbers, and the machine integers that the program casts to.
use Prim.Native.Nat.{ℕ, zero, suc, ◌-◌, ◌%◌}
use meesign_server.Base.Tests.{ltb, if◌then◌else◌}

-- `negsuc n` is -(n + 1).
pub data ℤ : Type 0 where
  pos : ℕ → ℤ
  negsuc : ℕ → ℤ

abbrev pub pos_part : ℤ → ℕ
pos_part (pos n) = n
pos_part (negsuc n) = 0

abbrev pub neg_part : ℤ → ℕ
neg_part (pos n) = 0
neg_part (negsuc n) = suc n

-- `u32` arithmetic of the release profile, which wraps around.
abbrev pub u32 : ℕ → ℕ
u32 n = n % 4294967296

-- `u16` arithmetic of the release profile.
abbrev pub u16 : ℕ → ℕ
u16 n = n % 65536

-- `x as i8`: the low byte, read as a two's complement number.
unfoldable pub as_i8 : ℕ → ℤ
as_i8 n = if ltb (n % 256) 128 then pos (n % 256) else negsuc (255 - n % 256)

-- `-x` on `i8` in the release profile: -(-128) is -128 again.
unfoldable pub neg_i8 : ℤ → ℤ
neg_i8 (pos zero) = pos zero
neg_i8 (pos (suc n)) = negsuc n
neg_i8 (negsuc n) = if ltb n 127 then pos (suc n) else negsuc n
