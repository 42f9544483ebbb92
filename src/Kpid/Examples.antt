-- ===== src/Kpid/Examples.antt =====
-- Tests of kpid_new, with identifiers 1 to 3 in use.
use aim_mips.Prelude.{
  ℕ, suc, ◌+◌, ◌-◌, ◌%◌, ◌^◌, ◌<◌, ◌≡◌, refl, true, ◌==◌, if◌then◌else◌, arith, ◌∙◌,
}
use aim_mips.Prelude.Bits.{bit, bit-ones}
use aim_mips.Bitmap.{WordMemory, member}
use aim_mips.Bitmap.Pointwise.{IsWords}
use aim_mips.Bitmap.Area.{set_word}
use aim_mips.Kpid.{max_processes, kpid_new, kpid_recycle}
use aim_mips.Kpid.Fresh.{IsFresh, kpid_recycle-kpid_new, kpid_new-full}

abbrev three_used : WordMemory
three_used a = if a == 0 then 7 else 0

three_used-IsWords : IsWords three_used
three_used-IsWords a = ground arith

kpid_recycle-kpid_new_example :
    (k : ℕ) × ((kpid_new 0 three_used).0 ≡ suc k)
    × IsFresh 0 k three_used ((kpid_new 0 three_used).1)
    × ((a : ℕ) → kpid_recycle 0 (suc k) ((kpid_new 0 three_used).1) a ≡ three_used a)
unfolding member bit
kpid_recycle-kpid_new_example =
    kpid_recycle-kpid_new 0 3 three_used three_used-IsWords (omega arith) refl

abbrev all_used : WordMemory
all_used a = 2 ^ 32 - 1

all_used-members : (n : ℕ) → n < max_processes → member all_used 0 n ≡ true
unfolding member
all_used-members n lt = bit-ones 32 (n % 32) ∙ ground arith

kpid_new-full_example :
    ((kpid_new 0 all_used).0 ≡ 0)
    × ((kpid_new 0 all_used).1 ≡ set_word (0 + (2 ^ 27 - 1)) (2 ^ 31) all_used)
kpid_new-full_example = kpid_new-full 0 all_used (λ a. omega arith) all_used-members
