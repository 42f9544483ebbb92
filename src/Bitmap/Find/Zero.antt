-- ===== src/Bitmap/Find/Zero.antt =====
-- The searches for a zero bit are those for a set bit in the complement of the map.
use Prim.Native.Nat.{bit_and, bit_or}
use mathlib.Core.Path.{subst}
use native.Mathlib.Nat.{div-le_self}
use aim_mips.Prelude.{
  ℕ, zero, suc, ◌+◌, ◌-◌, ◌/◌, ◌%◌, ◌^◌, ◌≤◌, ◌<◌, ◌≡◌, inl, inr, refl, sym, not, ◌==◌, ltb, arith,
  Bool-cases,
}
use aim_mips.Prelude.Bits.{bit, bit-and, bit-or, bit-complement, bit-high, bit_ext}
use aim_mips.Bitops.{ffz, complement}
use aim_mips.Bitmap.{WordMemory, member, ones, ones_from}
use aim_mips.Bitmap.Pointwise.{IsWords, or-lt}
use aim_mips.Bitmap.Find.{
  ones_below, found_first, find_from, found_first_zero, find_zero_from, bitmap_find_first_bit,
  bitmap_find_next_bit, bitmap_find_first_zero_bit, bitmap_find_next_zero_bit,
}
use aim_mips.Bitmap.Find.Word.{IsFirst, bit-ones_from, bit-ones_below}
use aim_mips.Bitmap.Find.Next.{bitmap_find_first_bit-IsFirst, bitmap_find_next_bit-IsFirst}

abbrev pub complements : WordMemory → WordMemory
complements m a = complement (m a)

complement-lt : (x : ℕ) → complement x < 2 ^ 32
unfolding complement
complement-lt x = omega arith

complement-bit : (x i : ℕ) → x < 2 ^ 32 → i < 32 → bit (complement x) i ≡ not (bit x i)
unfolding complement
complement-bit x i l h = bit-complement 32 i x l h

-- `~(x | y)` is `~x & z` when `z` is `~y`.
or-complement :
    (x y z : ℕ)
    → x < 2 ^ 32
    → y < 2 ^ 32
    → ((i : ℕ) → i < 32 → bit z i ≡ not (bit y i))
    → complement (bit_or x y) ≡ bit_and (complement x) z
or-complement x y z p q d =
    let t = bit_or x y in
    let l = or-lt x y p q in
    bit_ext (complement t) (bit_and (complement x) z) λ i. elim (Bool-cases (ltb i 32)) [
      | inl h ↦ ground (
        arith,
        complement-bit t i l (ground arith),
        complement-bit x i p (ground arith),
        bit-or i x y,
        bit-and i (complement x) z,
        d i (ground arith),
      )
      | inr h ↦ ground (
        arith,
        bit-high 32 i (complement t) (complement-lt t) (ground arith),
        bit-high 32 i (complement x) (complement-lt x) (ground arith),
        bit-and i (complement x) z,
      )
    ]

below-lt : (s : ℕ) → ones_below s < 2 ^ 32
unfolding ones_below
below-lt s = omega (arith, div-le_self ones (2 ^ (32 - s)))

found_first_zero-complement :
    (r s x : ℕ) → s < 32 → x < 2 ^ 32 → found_first_zero r s x ≡ found_first r s (complement x)
unfolding found_first_zero found_first ffz complement
found_first_zero-complement r s x h l =
    let t = bit_or x (ones_from s) in
    let tl : t < 2 ^ 32 = or-lt x (ones_from s) l (omega arith) in
    let e : complement t ≡ bit_and (complement x) (ones_below s) =
      or-complement x (ones_from s) (ones_below s) l (omega arith)
        (λ i k. ground (arith, bit-ones_below s i (omega arith), bit-ones_from s i k)) in
    let test : (t == ones) ≡ (complement t == 0) = ground arith in rw (test, e) refl

find_zero_from-complement :
    (m : WordMemory) (n p r size : ℕ)
    → IsWords m
    → n ≡ size / 32
    → find_zero_from n p r size m ≡ find_from n p r size (complements m)
unfolding find_zero_from find_from ffz
find_zero_from-complement m zero p r size w e =
    rw (found_first_zero-complement r size (m p) (omega arith) (w p)) refl
find_zero_from-complement m (suc n) p r size w e =
    rw (find_zero_from-complement m n (p + 1) (r + 32) (size - 32) w (omega arith)) refl

next-complement :
    (m : WordMemory) (addr size offset : ℕ)
    → IsWords m
    → bitmap_find_next_zero_bit addr size (suc offset) m
      ≡ bitmap_find_next_bit addr size (suc offset) (complements m)
unfolding bitmap_find_next_zero_bit bitmap_find_next_bit ffz
next-complement m addr size offset w =
    let p = addr + offset / 32 in
    let k = offset % 32 in
    let r = bit_and offset (complement (32 - 1)) in
    let left = size - r in
    let t = bit_or (m p) (ones_below k) in
    let tl : t < 2 ^ 32 = or-lt (m p) (ones_below k) (w p) (below-lt k) in
    let e : complement t ≡ bit_and (complement (m p)) (ones_from k) =
      or-complement (m p) (ones_below k) (ones_from k) (w p) (below-lt k)
        (λ i h. ground (arith, bit-ones_below k i (omega arith), bit-ones_from k i h)) in
    let whole = find_zero_from-complement m (left / 32) p r left w refl in
    let later =
      find_zero_from-complement m ((left - 32) / 32) (p + 1) (r + 32) (left - 32) w refl in
    elim (Bool-cases (ltb left 32)) [
      | inl s ↦
          let f = found_first_zero-complement r left t (ground arith) tl in rw (s, whole, f, e) refl
      | inr s ↦ rw (s, whole, later, e) refl
    ]

-- `bitmap_find_first_zero_bit` and `bitmap_find_next_zero_bit` find what the searches for a set bit find
-- in the map whose words are complemented.
pub zero_bit-complement :
    (m : WordMemory) (addr size offset : ℕ)
    → IsWords m
    → offset ≤ 2 ^ 32
    → (bitmap_find_first_zero_bit addr size m ≡ bitmap_find_first_bit addr size (complements m))
      × (bitmap_find_next_zero_bit addr size offset m
          ≡ bitmap_find_next_bit addr size offset (complements m))
unfolding bitmap_find_first_zero_bit bitmap_find_first_bit bitmap_find_next_zero_bit
    bitmap_find_next_bit
zero_bit-complement m addr size zero w h =
    (find_zero_from-complement m (size / 32) addr 0 size w refl, refl)
zero_bit-complement m addr size (suc offset) w h = (
  find_zero_from-complement m (size / 32) addr 0 size w refl,
  next-complement m addr size offset w,
)

-- `bitmap_find_first_zero_bit` answers the first zero bit within `size`, counted from 1, and
-- `bitmap_find_next_zero_bit`, asked from a bit on that is counted from 1, the first from there on; either
-- answers 0 when there is none.
pub bitmap_find_zero_bit-IsFirst :
    (m : WordMemory) (addr size offset : ℕ)
    → IsWords m
    → offset < 2 ^ 32
    → IsFirst (member (complements m) addr) 0 size (bitmap_find_first_zero_bit addr size m)
      × IsFirst
          (member (complements m) addr)
          offset
          size
          (bitmap_find_next_zero_bit addr size (suc offset) m)
bitmap_find_zero_bit-IsFirst m addr size offset w h =
    let (e, f) = zero_bit-complement m addr size (suc offset) w (omega arith) in
    let w' : IsWords (complements m) = λ a. complement-lt (m a) in
    (
      subst (IsFirst (member (complements m) addr) 0 size) (sym e)
          (bitmap_find_first_bit-IsFirst (complements m) addr size w'),
      subst (IsFirst (member (complements m) addr) offset size) (sym f)
          (bitmap_find_next_bit-IsFirst (complements m) addr size offset w' h),
    )
