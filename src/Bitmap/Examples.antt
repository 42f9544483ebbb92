-- ===== src/Bitmap/Examples.antt =====
-- Maps of 40 bits at 0 and 10, and room for another at 20.
use aim_mips.Bitmap.Shift.{cut_last, right_loop, right_word, bitmap_shift_left, bitmap_shift_right}
use aim_mips.Prelude.Bits.{bit}
use aim_mips.Bitmap.Count.{weight_words, bitmap_weight, count, bitmap_weight-count}
use aim_mips.Bitmap.Decide.{some_word, bitmap_equal, bitmap_intersects, bitmap_subset, bitmap_full}
use aim_mips.Bitops.{complement, down, ffs, ffz, fls, hweight32, up}
use aim_mips.Bitmap.Find.{
  find_from, find_last_from, find_zero_from, found_first, found_first_zero, ones_below,
  bitmap_find_first_bit, bitmap_find_next_bit, bitmap_find_first_zero_bit,
  bitmap_find_next_zero_bit, bitmap_find_last_bit,
}
use aim_mips.Bitmap.{
  bitmap_last_word_mask, bits_to_longs, fill_words, store, WordMemory, member, bitmap_test_bit,
}
use mathlib.Core.Bool.{xor}
use aim_mips.Prelude.{
  ℕ, ◌-◌, ◌^◌, ◌<◌, ◌≡◌, ◌↔◌, inl, inr, refl, arith, true, false, not, ◌&&◌, ◌||◌, ◌==◌, leb,
  if◌then◌else◌, some,
}
use aim_mips.Bitmap.Combine.{Apart, bitmap_and, bitmap_andnot, bitmap_or, bitmap_xor}
use aim_mips.Bitmap.Pointwise.{IsWords, IsPointwise, bitmap_ops-IsPointwise}
use aim_mips.Bitmap.Verdicts.{bitmap_tests_iff}
use aim_mips.Bitmap.Find.Word.{IsFirst}
use aim_mips.Bitmap.Find.Next.{bitmap_find_next_bit-IsFirst}
use aim_mips.Bitmap.Find.Zero.{complements, bitmap_find_zero_bit-IsFirst}
use aim_mips.Bitmap.Area.{IsArea, bitmap_set, bitmap_clear, bitmap_runs-IsArea}
use aim_mips.Bitmap.Shift.Left.{bitmap_shift_left-member}

abbrev words : WordMemory
words a = if a == 0 then 0xf000_0000 else if a == 1 then 1 else if a == 10 then 0x8000_0000 else 0

words-IsWords : IsWords words
words-IsWords a = ground arith

far_enough : Apart 10 20 0 × Apart 10 20 10
unfolding Apart
far_enough = (inr (omega arith), inr (omega arith))

bitmap_ops-IsPointwise_example :
    IsPointwise (◌&&◌) 20 0 10 40 words ((bitmap_and 20 0 10 40 words).0)
    × IsPointwise (λ x y. x && not y) 20 0 10 40 words ((bitmap_andnot 20 0 10 40 words).0)
    × IsPointwise (◌||◌) 20 0 10 40 words (bitmap_or 20 0 10 40 words)
    × IsPointwise xor 20 0 10 40 words (bitmap_xor 20 0 10 40 words)
unfolding bits_to_longs
bitmap_ops-IsPointwise_example =
    bitmap_ops-IsPointwise 20 0 10 40 words words-IsWords (far_enough.0) (far_enough.1)

bitmap_tests_iff_example :
    ((bitmap_intersects 10 0 40 words ≡ false)
      ↔ ((n : ℕ) → n < 40 → (member words 10 n && member words 0 n) ≡ false))
    × ((bitmap_subset 10 0 40 words ≡ true)
        ↔ ((n : ℕ) → n < 40 → (member words 10 n && not (member words 0 n)) ≡ false))
    × ((bitmap_full 10 40 words ≡ true) ↔ ((n : ℕ) → n < 40 → not (member words 10 n) ≡ false))
bitmap_tests_iff_example = bitmap_tests_iff 10 0 40 words words-IsWords

bitmap_find_next_bit-IsFirst_example :
    IsFirst (member words 0) 30 40 (bitmap_find_next_bit 0 40 31 words)
bitmap_find_next_bit-IsFirst_example =
    bitmap_find_next_bit-IsFirst words 0 40 30 words-IsWords (omega arith)

bitmap_find_zero_bit-IsFirst_example :
    IsFirst (member (complements words) 0) 0 40 (bitmap_find_first_zero_bit 0 40 words)
    × IsFirst (member (complements words) 0) 30 40 (bitmap_find_next_zero_bit 0 40 31 words)
bitmap_find_zero_bit-IsFirst_example =
    bitmap_find_zero_bit-IsFirst words 0 40 30 words-IsWords (omega arith)

bitmap_runs-IsArea_example :
    ((m' : WordMemory) × (bitmap_set 0 30 6 words ≡ some m') × IsArea true 0 30 6 words m')
    × ((m' : WordMemory) × (bitmap_clear 0 30 6 words ≡ some m') × IsArea false 0 30 6 words m')
bitmap_runs-IsArea_example = bitmap_runs-IsArea 0 30 6 words words-IsWords

bitmap_shift_left-member_example :
    member (bitmap_shift_left 20 0 5 40 words) 20 33 ≡ (leb 5 33 && member words 0 (33 - 5))
bitmap_shift_left-member_example =
    bitmap_shift_left-member 20 0 5 40 33 words words-IsWords (inl (omega arith)) (omega arith)

bitmap_weight-count_example : bitmap_weight 0 40 words ≡ count (member words 0) 40
bitmap_weight-count_example = bitmap_weight-count 0 40 words words-IsWords

-- The five bits 28 to 32, counted from 0.
searches :
    (bitmap_find_first_bit 0 40 words ≡ 29)
    × (bitmap_find_next_bit 0 40 31 words ≡ 31)
    × (bitmap_find_next_bit 0 40 34 words ≡ 0)
    × (bitmap_find_first_zero_bit 0 40 words ≡ 1)
    × (bitmap_find_next_zero_bit 0 40 30 words ≡ 34)
    × (bitmap_find_last_bit 0 40 words ≡ 33)
    × (bitmap_find_last_bit 5 40 words ≡ 40)
unfolding bitmap_find_first_bit bitmap_find_next_bit bitmap_find_first_zero_bit
    bitmap_find_next_zero_bit bitmap_find_last_bit find_from ffs up complement found_first
    ones_below find_zero_from ffz found_first_zero fls down find_last_from
searches = (refl, refl, refl, refl, refl, refl, refl)

tests :
    (bitmap_subset 10 0 40 words ≡ true)
    × (bitmap_subset 0 10 40 words ≡ false)
    × (bitmap_equal 0 0 40 words ≡ true)
    × (bitmap_intersects 0 10 31 words ≡ false)
    × (bitmap_full 0 40 words ≡ false)
    × (bitmap_weight 0 40 words ≡ 5)
unfolding bitmap_subset bitmap_equal bitmap_intersects bitmap_full bitmap_weight some_word
    complement bitmap_last_word_mask weight_words hweight32
tests = (refl, refl, refl, refl, refl, refl)

-- Bit 32 is set and bit 64 is not.
tested_bit :
    (member words 0 31 ≡ true)
    × (bitmap_test_bit 32 0 words ≡ false)
    × (bitmap_test_bit 32 10 words ≡ false)
    × (member words 10 31 ≡ true)
unfolding member bitmap_test_bit bit
tested_bit = (refl, refl, refl, refl)

-- The right shift of 40 bits brings in bit 41.
slack : member (bitmap_shift_right 20 0 1 40 (λ a. if a == 1 then 2 ^ 8 else 0)) 20 39 ≡ true
unfolding member bitmap_shift_right bit fill_words right_loop bits_to_longs store right_word
    cut_last
slack = refl
