-- ===== src/Libc/Examples.antt =====
-- Copies that overlap, in a memory that holds its own addresses.
use aim_mips.Prelude.{◌≡◌, some}
use aim_mips.Libc.{Memory, memmove}
use aim_mips.Libc.Copied.{IsCopied}
use aim_mips.Libc.Move.{memmove-IsCopied}

abbrev counting : Memory
counting a = a

memmove-IsCopied_example :
    (m' : Memory) × (memmove 0x1004 0x1000 11 counting ≡ some m')
    × IsCopied 0x1004 0x1000 11 counting m'
memmove-IsCopied_example = memmove-IsCopied 0x1004 0x1000 11 counting
