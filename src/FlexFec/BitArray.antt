-- ===== src/FlexFec/BitArray.antt =====
-- pkg/flexfec/util/bitarray.go: 128 bits in two words, the first bit on the left.
use interceptor.Common.{ℕ, ◌-◌, ◌<◌, ◌≡◌, Bool, true, false, ltb, ◌==◌, if◌then◌else◌, arith}
use interceptor.Common.Bits.{set_bit, test_bit, test_bit-set_bit, test_bit-zero}

pub record BitArray : Type 0 where
  pub lo : ℕ
  pub hi : ℕ

-- the zero value, and what `Reset` leaves
abbrev pub empty : BitArray
empty = record { lo = 0; hi = 0 }

-- `SetBit`; from 128 on the shift gives 0, and nothing changes
unfoldable pub set_bit_at : BitArray → ℕ → BitArray
set_bit_at b i =
    if ltb i 64
    then record b { lo = set_bit b.lo (63 - i) }
    else if ltb i 128
    then record b { hi = set_bit b.hi (127 - i) }
    else b

-- `GetBit(i) == 1`
unfoldable pub get_bit_at : BitArray → ℕ → Bool
get_bit_at b i =
    if ltb i 64
    then test_bit b.lo (63 - i)
    else if ltb i 128
    then test_bit b.hi (127 - i)
    else false

pub get_bit_at-set_bit_at :
    (b : BitArray) (i j : ℕ)
    → i < 128
    → get_bit_at (set_bit_at b i) j ≡ (if i == j then true else get_bit_at b j)
unfolding get_bit_at set_bit_at
get_bit_at-set_bit_at b i j h =
    ground
      (arith, test_bit-set_bit b.lo (63 - i) (63 - j), test_bit-set_bit b.hi (127 - i) (127 - j))

pub get_bit_at-empty : (j : ℕ) → get_bit_at empty j ≡ false
unfolding get_bit_at
get_bit_at-empty j = ground (arith, test_bit-zero (63 - j), test_bit-zero (127 - j))
