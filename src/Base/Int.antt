-- ===== src/Base/Int.antt =====
-- Signed integers over the native numbers, as far as the program's `int` needs them.
use Prim.Native.Nat.{ℕ, ◌-◌, ◌^◌}
use p2p_network.Base.Booleans.{ltb, if◌then◌else◌}

-- `negsuc n` is -(n + 1).
pub data ℤ : Type 0 where
  pos : ℕ → ℤ
  negsuc : ℕ → ℤ

-- The rounds of `for (int i = 0; i < n; i++)`.
abbrev pub rounds : ℤ → ℕ
rounds (pos n) = n
rounds (negsuc n) = 0

-- The conversion of a `uint32_t` to `int`: the value modulo 2^32 between -2^31 and 2^31.
abbrev pub int_of_uint32 : ℕ → ℤ
int_of_uint32 n = if ltb n (2 ^ 31) then pos n else negsuc (2 ^ 32 - 1 - n)
