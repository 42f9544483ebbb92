-- ===== src/Bitmap.antt =====
-- include/bitmap.h and kern/lib/libbitmap: sets of bits in arrays of words of 32 bits. A pointer is the
-- index of a word in a memory of words; bit `n` of a map is digit `n % 32` of its word `n / 32`. The
-- counts `bits`, `start` and `nr`, which are `int`s, are not negative.
pub mod Combine
pub mod Pointwise
pub mod Decide
pub mod Verdicts
pub mod Find
pub mod Area
pub mod Count
pub mod TestBit
mod Examples
pub mod Fill
pub mod Shift
use Prim.Native.Nat.{bit_and, bit_or, bit_xor}
use aim_mips.Prelude.{
  ℕ, zero, suc, ◌+◌, ◌-◌, ◌*◌, ◌/◌, ◌%◌, ◌^◌, Bool, true, false, Option, none, some, ltb, leb, ◌==◌,
  ◌&&◌, ◌||◌, not, if◌then◌else◌, add32, sub32,
}
use aim_mips.Prelude.Bits.{bit}
use aim_mips.Bitops.{complement, ffs, ffz, fls, hweight32}

abbrev pub WordMemory : Type 0
WordMemory = ℕ → ℕ

-- `*p = v`
unfoldable pub store : ℕ → ℕ → WordMemory → WordMemory
store p v m a = if a == p then v else m a

-- `~0UL`
abbrev pub ones : ℕ
ones = 2 ^ 32 - 1

-- `~0UL << s`
abbrev pub ones_from : ℕ → ℕ
ones_from s = ones * 2 ^ s % 2 ^ 32

unfoldable pub bits_to_longs : ℕ → ℕ
bits_to_longs n = (n + 4 - 1) / 4

unfoldable pub bitmap_first_word_mask : ℕ → ℕ
bitmap_first_word_mask start = ones_from (start % 32)

unfoldable pub bitmap_last_word_mask : ℕ → ℕ
bitmap_last_word_mask nbits = if nbits % 32 == 0 then ones else 2 ^ (nbits % 32) - 1

-- Bit `n` of the map at `map`.
unfoldable pub member : WordMemory → ℕ → ℕ → Bool
member m map n = bit (m (map + n / 32)) (n % 32)

-- `memset(dst, c, n * sizeof(unsigned long))`, where `w` is a word of bytes `c`.
unfoldable pub fill_words : ℕ → ℕ → ℕ → WordMemory → WordMemory
fill_words zero dst w m = m
fill_words (suc n) dst w m = fill_words n (dst + 1) w (store dst w m)

unfoldable pub bitmap_zero : ℕ → ℕ → WordMemory → WordMemory
bitmap_zero dst nbits m = fill_words (bits_to_longs nbits) dst 0 m

unfoldable pub bitmap_fill : ℕ → ℕ → WordMemory → WordMemory
bitmap_fill dst nbits m =
    let nlongs = bits_to_longs nbits in
    store (add32 dst (sub32 nlongs 1)) (bitmap_last_word_mask nbits)
      (fill_words (sub32 nlongs 1 * 4 % 2 ^ 32 / 4) dst ones m)

unfoldable pub bitmap_test_bit : ℕ → ℕ → WordMemory → Bool
bitmap_test_bit nr addr m = m (addr + nr / 32) / 2 ^ bit_and (nr - 1) (32 - 1) % 2 == 1
