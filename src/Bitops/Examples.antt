-- ===== src/Bitops/Examples.antt =====
-- Words with a few set digits.
use aim_mips.Bitops.{
  complement, down, up, ffs, fls, ffz, flz, ffs64, fls64, ffz64, flz64, hweight32, hweight64,
  count_zero_bits,
}
use aim_mips.Prelude.{◌≡◌, refl}

ffs_f0 : ffs 0x00f0 ≡ 5
unfolding ffs up
ffs_f0 = refl

fls_f0 : fls 0x00f0 ≡ 8
unfolding fls down
fls_f0 = refl

ffz_ones : (ffz 0xffff_ffff ≡ 0) × (ffz 0x0f ≡ 5) × (flz 0xf000_0000 ≡ 28)
unfolding ffz flz ffs fls complement up down
ffz_ones = (refl, refl, refl)

-- The searches on 64 bits, on zero and on words with digits in both halves.
wide_words :
    (ffs64 0 ≡ 32)
    × (fls64 0 ≡ 32)
    × (fls64 0x1_0000_0001 ≡ 1)
    × (flz64 0x1_0000_0000 ≡ 64)
    × (ffz64 0xffff_ffff ≡ 0)
unfolding ffs64 fls64 flz64 ffz64 ffz flz ffs fls down complement
wide_words = (refl, refl, refl, refl, refl)

weights : (hweight32 0xf0f0_0001 ≡ 9) × (hweight64 0x1_0000_00ff ≡ 9) × (count_zero_bits 1 ≡ 31)
unfolding hweight32 hweight64 count_zero_bits complement
weights = (refl, refl, refl)
