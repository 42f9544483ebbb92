-- ===== src/Kpid.antt =====
-- kpid_new and kpid_recycle of kern/proc/proc.c, with atomic_set_bit and atomic_clear_bit of
-- include/arch/mips/atomic.h. The map of the kernel's process identifiers stands at `map`.
pub mod Fresh
mod Examples
use aim_mips.Prelude.{ℕ, ◌+◌, ◌/◌, ◌%◌, ◌^◌, sub32}
use aim_mips.Bitmap.{WordMemory}
use aim_mips.Bitmap.Find.{bitmap_find_first_zero_bit}
use aim_mips.Bitmap.Area.{set_word, clear_word}

-- The default of configure.ac.
abbrev pub max_processes : ℕ
max_processes = 65536

-- Bits count from 1: `--nr`, in 32 bits.
unfoldable pub atomic_set_bit : ℕ → ℕ → WordMemory → WordMemory
atomic_set_bit nr addr m = let n = sub32 nr 1 in set_word (addr + n / 32) (2 ^ (n % 32)) m

unfoldable pub atomic_clear_bit : ℕ → ℕ → WordMemory → WordMemory
atomic_clear_bit nr addr m = let n = sub32 nr 1 in clear_word (addr + n / 32) (2 ^ (n % 32)) m

unfoldable pub kpid_new : ℕ → WordMemory → ℕ × WordMemory
kpid_new map m =
    let kpid = bitmap_find_first_zero_bit map max_processes m in (kpid, atomic_set_bit kpid map m)

unfoldable pub kpid_recycle : ℕ → ℕ → WordMemory → WordMemory
kpid_recycle map kpid m = atomic_clear_bit kpid map m
