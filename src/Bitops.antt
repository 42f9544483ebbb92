-- ===== src/Bitops.antt =====
-- include/bitops.h: the first and the last set bit of a word and its weight, on the targets whose
-- `unsigned long` has 32 bits. `arch-bitops.h` of the MIPS port overrides none of them.
pub mod First
pub mod Last
pub mod Weight
pub mod Wide
mod Examples
use Prim.Native.Nat.{bit_and}
use aim_mips.Prelude.{ℕ, ◌+◌, ◌-◌, ◌*◌, ◌/◌, ◌%◌, ◌^◌, ◌==◌, add32, sub32, if◌then◌else◌}

-- `~x`
unfoldable pub complement : ℕ → ℕ
complement x = 2 ^ 32 - 1 - x

-- What the halving searches carry.
pub record Search : Type 0 where
  pub num : ℕ
  pub word : ℕ

-- `if ((word & (2 ^ k - 1)) == 0) { num += k; word >>= k; }`
unfoldable pub up : ℕ → Search → Search
up k s =
    if bit_and s.word (2 ^ k - 1) == 0 then record { num = s.num + k; word = s.word / 2 ^ k } else s

unfoldable pub ffs : ℕ → ℕ
ffs word =
    if word == 0
    then 0
    else Search.num (up 1 (up 2 (up 4 (up 8 (up 16 (record { num = 1; word = word }))))))

-- `if (!(word & (~0ul << (BITS_PER_LONG - k)))) { num -= k; word <<= k; }`
unfoldable pub down : ℕ → Search → Search
down k s =
    if bit_and s.word ((2 ^ k - 1) * 2 ^ (32 - k)) == 0
    then record { num = s.num - k; word = s.word * 2 ^ k % 2 ^ 32 }
    else s

unfoldable pub fls : ℕ → ℕ
fls word =
    if word == 0
    then 0
    else Search.num (down 1 (down 2 (down 4 (down 8 (down 16 (record { num = 32; word = word }))))))

unfoldable pub ffz : ℕ → ℕ
ffz x = ffs (complement x)

unfoldable pub flz : ℕ → ℕ
flz x = fls (complement x)

-- On 64-bit words, by their halves.
unfoldable pub ffs64 : ℕ → ℕ
ffs64 word = if word % 2 ^ 32 == 0 then ffs (word / 2 ^ 32) + 32 else ffs (word % 2 ^ 32)

unfoldable pub fls64 : ℕ → ℕ
fls64 word = if word % 2 ^ 32 == 0 then fls (word / 2 ^ 32) + 32 else fls (word % 2 ^ 32)

-- The macro's guard spells `bits_per_long`, which is not defined, and is dropped as `0 == 32`.
unfoldable pub ffz64 : ℕ → ℕ
ffz64 word = ffz (word % 2 ^ 32)

unfoldable pub flz64 : ℕ → ℕ
flz64 word = if word % 2 ^ 32 == 0 then flz (word / 2 ^ 32) + 32 else flz (word % 2 ^ 32)

-- The set digits are counted in fields of 2, 4 and 8 digits at once.
unfoldable pub hweight32 : ℕ → ℕ
hweight32 w =
    let ones = sub32 w (bit_and (w / 2) 0x55555555) in
    let twos = add32 (bit_and ones 0x33333333) (bit_and (ones / 4) 0x33333333) in
    let fours = bit_and (add32 twos (twos / 16)) 0x0F0F0F0F in
    let eights = add32 fours (fours / 256) in bit_and (add32 eights (eights / 65536)) 0x000000FF

unfoldable pub hweight64 : ℕ → ℕ
hweight64 w = hweight32 (w / 2 ^ 32) + hweight32 (w % 2 ^ 32)

-- `count_zero_bits`
unfoldable pub count_zero_bits : ℕ → ℕ
count_zero_bits x = hweight32 (complement x)
