-- ===== src/Bitmap/Shift.antt =====
-- bitmap_shift_left.c and bitmap_shift_right.c. Where `rem` is 0 the code shifts a zero by 32, which C
-- leaves undefined; here it is 0.
pub mod Left
pub mod Right
use Prim.Native.Nat.{bit_and, bit_or}
use mathlib.Core.Path.{ap₂}
use aim_mips.Prelude.{
  ℕ, zero, suc, ◌+◌, ◌-◌, ◌*◌, ◌/◌, ◌%◌, ◌^◌, ◌≤◌, ◌<◌, ◌≡◌, ◌≢◌, ◌⊎◌, ◌↔◌, inl, inr, refl, sym, ap,
  ◌∙◌, Bool, true, false, not, ◌==◌, ltb, leb, ◌&&◌, ◌||◌, if◌then◌else◌, arith, Bool-cases,
}
use aim_mips.Prelude.Bits.{
  bit, bit-and, bit-or, bit-zero, bit-high, bit-mod, bit-ones, bit-shr, bit-shl,
}
use aim_mips.Bitmap.{WordMemory, store, member, bits_to_longs, fill_words}
use aim_mips.Bitmap.Pointwise.{IsWords, member_at}

-- Words of `lim`, of which the last is cut to `left` bits unless `left` is 0.
unfoldable pub cut_last : ℕ → ℕ → ℕ → ℕ → ℕ
cut_last lim left k x = if not (left == 0) && k == lim - 1 then bit_and x (2 ^ left - 1) else x

-- What one turn of the loop stores at `dst[k + off]`.
unfoldable pub left_word : ℕ → ℕ → ℕ → ℕ → ℕ → ℕ → WordMemory → ℕ
left_word src off rem lim left k m =
    let lower = if not (rem == 0) && ltb 0 k then m (src + k - 1) else 0 in
    let upper = cut_last lim left k (m (src + k)) in
    cut_last lim left (k + off) (bit_or (lower / 2 ^ (32 - rem)) (upper * 2 ^ rem % 2 ^ 32))

-- `for (k = lim - off - 1; k >= 0; --k)`
unfoldable pub left_loop : ℕ → ℕ → ℕ → ℕ → ℕ → ℕ → ℕ → WordMemory → WordMemory
left_loop zero dst src off rem lim left m = m
left_loop (suc k) dst src off rem lim left m =
    left_loop k dst src off rem lim left
      (store (dst + (k + off)) (left_word src off rem lim left k m) m)

unfoldable pub bitmap_shift_left : ℕ → ℕ → ℕ → ℕ → WordMemory → WordMemory
bitmap_shift_left dst src shift bits m =
    let lim = bits_to_longs bits in
    let off = shift / 32 in
    fill_words off dst 0 (left_loop (lim - off) dst src off (shift % 32) lim (bits % 32) m)

-- What one turn stores at `dst[k]`.
unfoldable pub right_word : ℕ → ℕ → ℕ → ℕ → ℕ → ℕ → WordMemory → ℕ
right_word src off rem lim left k m =
    let upper =
      if rem == 0 || leb lim (off + k + 1)
      then 0
      else cut_last lim left (off + k + 1) (m (src + (off + k + 1))) in
    let lower = cut_last lim left (off + k) (m (src + (off + k))) in
    cut_last lim left k (bit_or (upper * 2 ^ (32 - rem) % 2 ^ 32) (lower / 2 ^ rem))

-- `for (k = 0; off + k < lim; ++k)`, with `n` turns to go.
unfoldable pub right_loop : ℕ → ℕ → ℕ → ℕ → ℕ → ℕ → ℕ → ℕ → WordMemory → WordMemory
right_loop zero k dst src off rem lim left m = m
right_loop (suc n) k dst src off rem lim left m =
    right_loop n (k + 1) dst src off rem lim left
      (store (dst + k) (right_word src off rem lim left k m) m)

unfoldable pub bitmap_shift_right : ℕ → ℕ → ℕ → ℕ → WordMemory → WordMemory
bitmap_shift_right dst src shift bits m =
    let lim = bits_to_longs bits in
    let off = shift / 32 in
    fill_words off (dst + lim - off) 0
      (right_loop (lim - off) 0 dst src off (shift % 32) lim (bits % 32) m)
