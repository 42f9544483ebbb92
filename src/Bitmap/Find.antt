-- ===== src/Bitmap/Find.antt =====
-- bitmap_find_first_bit.c, bitmap_find_next_bit.c and bitmap_find_last_bit.c, and the two searches for a
-- zero bit. They count bits from 1 and answer 0 for none; the answers do not exceed `size`, so nothing
-- wraps.
pub mod Word
pub mod Next
pub mod Zero
pub mod Last
use Prim.Native.Nat.{bit_and, bit_or}
use aim_mips.Prelude.{
  ℕ, zero, suc, ◌+◌, ◌-◌, ◌*◌, ◌/◌, ◌%◌, ◌^◌, ltb, leb, ◌==◌, not, if◌then◌else◌,
}
use aim_mips.Bitops.{complement, ffs, ffz, fls}
use aim_mips.Bitmap.{WordMemory, ones, ones_from}

-- `~0UL >> (BITS_PER_LONG - s)`
unfoldable pub ones_below : ℕ → ℕ
ones_below s = ones / 2 ^ (32 - s)

-- From the label `found_first` on.
unfoldable pub found_first : ℕ → ℕ → ℕ → ℕ
found_first result size tmp =
    let tmp = bit_and tmp (ones_below size) in if tmp == 0 then 0 else result + ffs tmp

-- `while (size & ~(BITS_PER_LONG - 1))`, which runs `n = size / 32` times, and what follows it.
unfoldable pub find_from : ℕ → ℕ → ℕ → ℕ → WordMemory → ℕ
find_from zero p result size m = if size == 0 then 0 else found_first result size (m p)
find_from (suc n) p result size m =
    let rest = find_from n (p + 1) (result + 32) (size - 32) m in
    if not (m p == 0) then result + ffs (m p) else rest

unfoldable pub bitmap_find_first_bit : ℕ → ℕ → WordMemory → ℕ
bitmap_find_first_bit addr size m = find_from (size / 32) addr 0 size m

unfoldable pub bitmap_find_next_bit : ℕ → ℕ → ℕ → WordMemory → ℕ
bitmap_find_next_bit addr size zero m = 0
bitmap_find_next_bit addr size (suc offset) m =
    let p = addr + offset / 32 in
    let result = bit_and offset (complement (32 - 1)) in
    let left = size - result in
    let tmp = bit_and (m p) (ones_from (offset % 32)) in
    if leb size offset
    then 0
    else if offset % 32 == 0
    then find_from (left / 32) p result left m
    else if ltb left 32
    then found_first result left tmp
    else if not (tmp == 0)
    then result + ffs tmp
    else find_from ((left - 32) / 32) (p + 1) (result + 32) (left - 32) m

unfoldable pub found_first_zero : ℕ → ℕ → ℕ → ℕ
found_first_zero result size tmp =
    let tmp = bit_or tmp (ones_from size) in if tmp == ones then 0 else result + ffz tmp

unfoldable pub find_zero_from : ℕ → ℕ → ℕ → ℕ → WordMemory → ℕ
find_zero_from zero p result size m = if size == 0 then 0 else found_first_zero result size (m p)
find_zero_from (suc n) p result size m =
    let rest = find_zero_from n (p + 1) (result + 32) (size - 32) m in
    if not (complement (m p) == 0) then result + ffz (m p) else rest

unfoldable pub bitmap_find_first_zero_bit : ℕ → ℕ → WordMemory → ℕ
bitmap_find_first_zero_bit addr size m = find_zero_from (size / 32) addr 0 size m

unfoldable pub bitmap_find_next_zero_bit : ℕ → ℕ → ℕ → WordMemory → ℕ
bitmap_find_next_zero_bit addr size zero m = 0
bitmap_find_next_zero_bit addr size (suc offset) m =
    let p = addr + offset / 32 in
    let result = bit_and offset (complement (32 - 1)) in
    let left = size - result in
    let tmp = bit_or (m p) (ones_below (offset % 32)) in
    if leb size offset
    then 0
    else if offset % 32 == 0
    then find_zero_from (left / 32) p result left m
    else if ltb left 32
    then found_first_zero result left tmp
    else if not (complement tmp == 0)
    then result + ffz tmp
    else find_zero_from ((left - 32) / 32) (p + 1) (result + 32) (left - 32) m

-- `while (words)`
unfoldable pub find_last_from : ℕ → ℕ → ℕ → WordMemory → ℕ
find_last_from zero addr size m = size
find_last_from (suc words) addr size m =
    let rest = find_last_from words addr size m in
    let tmp = m (addr + words) in if not (tmp == 0) then words * 32 + fls tmp else rest

unfoldable pub bitmap_find_last_bit : ℕ → ℕ → WordMemory → ℕ
bitmap_find_last_bit addr size m =
    let words = size / 32 in
    let tmp = bit_and (m (addr + words)) (ones_below (bit_and size (32 - 1))) in
    if bit_and size (32 - 1) == 0
    then find_last_from words addr size m
    else if not (tmp == 0)
    then words * 32 + fls tmp
    else find_last_from words addr size m
