-- ===== src/Pmm/Calls/Align.antt =====
-- `ALIGN_ABOVE`, and `alloc_aligned_pages` over the allocator of palloc.c.
use Prim.Native.Nat.{bit_or}
use aim_mips.Prelude.{
  ℕ, zero, suc, ◌+◌, ◌-◌, ◌/◌, ◌*◌, ◌%◌, ◌^◌, ◌≤◌, ◌<◌, ◌≡◌, arith, sub64, add64-eq,
}
use native.Mathlib.Nat.{zero-mod, mul-mod_left, one-le-pow, div-add-mod', mod-lt}
use aim_mips.Prelude.Bits.{bit_or-mask, bit_ext, bit-or, bit-ones}
use aim_mips.Pmm.Calls.{align_above}

-- `r` is the least multiple of `a` at or above `x`.
abbrev pub IsAlignedAbove : ℕ → ℕ → ℕ → Type 0
IsAlignedAbove x a r = (r % a ≡ 0) × (x ≤ r) × (r < x + a)

-- For a power of two, `ALIGN_ABOVE` is the least multiple at or above the address.
pub align_above_lem :
    (x k : ℕ) → k < 64 → x + 2 ^ k ≤ 2 ^ 64 → IsAlignedAbove x (2 ^ k) (align_above x (2 ^ k))
unfolding align_above
align_above_lem zero k lt fits =
    let m : 1 ≤ 2 ^ k = one-le-pow k 2 (omega arith) in
    let s2 : sub64 (2 ^ k) 1 ≡ 2 ^ k - 1 = omega arith in
    let all : bit_or (2 ^ 64 - 1) (2 ^ k - 1) ≡ 2 ^ 64 - 1 =
      bit_ext (bit_or (2 ^ 64 - 1) (2 ^ k - 1)) (2 ^ 64 - 1)
        λ i. ground (arith, bit-or i (2 ^ 64 - 1) (2 ^ k - 1), bit-ones 64 i, bit-ones k i) in
    rw (s2, all) (zero-mod (2 ^ k), omega arith, omega arith)
align_above_lem (suc y) k lt fits =
    let m : 1 ≤ 2 ^ k = one-le-pow k 2 (omega arith) in
    let s1 : sub64 (suc y) 1 ≡ y = omega arith in
    let s2 : sub64 (2 ^ k) 1 ≡ 2 ^ k - 1 = omega arith in
    let d = div-add-mod' y (2 ^ k) in
    let r : y % 2 ^ k < 2 ^ k = mod-lt y m in
    let up : y / 2 ^ k * 2 ^ k + (2 ^ k - 1) + 1 ≡ (y / 2 ^ k + 1) * 2 ^ k = omega arith in
    rw (s1, s2, bit_or-mask k y, add64-eq (y / 2 ^ k * 2 ^ k + (2 ^ k - 1)) 1 (omega arith), up)
      (mul-mod_left (y / 2 ^ k + 1) (2 ^ k), omega arith, omega arith)
