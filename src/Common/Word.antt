-- ===== src/Common/Word.antt =====
-- Go's uint16: addition and subtraction wrap.
use Prim.Native.Nat.{ℕ, ◌+◌, ◌-◌, ◌%◌}

abbrev pub sub16 : ℕ → ℕ → ℕ
sub16 a b = (a + 65536 - b) % 65536

abbrev pub add16 : ℕ → ℕ → ℕ
add16 a b = (a + b) % 65536

abbrev pub uint16_size_half : ℕ
uint16_size_half = 32768
