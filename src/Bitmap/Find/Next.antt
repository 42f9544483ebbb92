-- ===== src/Bitmap/Find/Next.antt =====
-- The searches over the words find the first bit.
use Prim.Native.Nat.{bit_and}
use mathlib.Core.Path.{subst}
use aim_mips.Prelude.{
  ℕ, zero, suc, ◌+◌, ◌-◌, ◌*◌, ◌/◌, ◌%◌, ◌^◌, ◌≤◌, ◌<◌, ◌≡◌, inl, inr, refl, ap, Bool, ◌==◌, ltb,
  leb, arith, Bool-cases,
}
use aim_mips.Prelude.Bits.{bit-and, bit_and-high}
use aim_mips.Bitops.{ffs, complement}
use aim_mips.Bitmap.{WordMemory, member, ones_from}
use aim_mips.Bitmap.Pointwise.{IsWords, member_at}
use aim_mips.Bitmap.Find.{
  ones_below, found_first, find_from, bitmap_find_first_bit, bitmap_find_next_bit,
}
use aim_mips.Bitmap.Find.Word.{
  IsFirst, absent, IsCut, bit_and-le, bit-ones_from, bit-ones_below, cut-IsFirst, cut-none,
  later-IsFirst, empty-IsFirst,
}

pub word-IsCut :
    (m : WordMemory) (addr j : ℕ) → IsWords m → IsCut (member m addr) j 0 32 (m (addr + j))
word-IsCut m addr j w = record {
  small = w (addr + j);
  digits = λ i h. ground (arith, member_at m addr j i h);
}

pub below-IsCut :
    (g : ℕ → Bool) (j lo s x : ℕ)
    → s ≤ 32
    → IsCut g j lo 32 x
    → IsCut g j lo s (bit_and x (ones_below s))
below-IsCut g j lo s x le c = record {
  small = let l = c.small in omega (arith, bit_and-le x (ones_below s));
  digits = λ i h. ground (arith, bit-and i x (ones_below s), bit-ones_below s i le, c.digits i h);
}

from-IsCut :
    (g : ℕ → Bool) (j k x : ℕ) → IsCut g j 0 32 x → IsCut g j k 32 (bit_and x (ones_from k))
from-IsCut g j k x c = record {
  small = let l = c.small in omega (arith, bit_and-le x (ones_from k));
  digits = λ i h. ground (arith, bit-and i x (ones_from k), bit-ones_from k i h, c.digits i h);
}

found_first-IsFirst :
    (g : ℕ → Bool) (j lo s x top r : ℕ)
    → s ≤ 32
    → top ≡ 32 * j + s
    → r ≡ 32 * j
    → IsCut g j lo 32 x
    → IsFirst g (32 * j + lo) top (found_first r s x)
unfolding found_first
found_first-IsFirst g j lo s x top r le e er c =
    let t = bit_and x (ones_below s) in
    let cut = below-IsCut g j lo s x le c in
    elim (Bool-cases (t == 0)) [
      | inl z ↦ rw z (absent λ n p q. cut-none g j lo s t cut (ground arith) le n p (omega arith))
      | inr z ↦ rw z (
          cut-IsFirst g j lo s t top (r + ffs t) cut (λ y. ground arith) (omega arith)
            (omega arith))
    ]

find_from-IsFirst :
    (m : WordMemory) (addr size n j p r left : ℕ)
    → IsWords m
    → left ≡ size - 32 * j
    → 32 * j ≤ size
    → n ≡ left / 32
    → p ≡ addr + j
    → r ≡ 32 * j
    → IsFirst (member m addr) (32 * j) size (find_from n p r left m)
unfolding find_from
find_from-IsFirst m addr size zero j p r left w el le en ep er =
    let start : 32 * j + 0 ≡ 32 * j = omega arith in
    let x : m p ≡ m (addr + j) = ap m ep in
    elim (Bool-cases (left == 0)) [
      | inl z ↦ rw z (empty-IsFirst (member m addr) (32 * j) size 0 (ground arith) refl)
      | inr z ↦
          rw (z, x)
            (subst (λ l. IsFirst (member m addr) l size (found_first r left (m (addr + j)))) start
              (found_first-IsFirst (member m addr) j 0 left (m (addr + j)) size r (omega arith)
                (omega arith) er (word-IsCut m addr j w)))
    ]
find_from-IsFirst m addr size (suc n) j p r left w el le en ep er =
    let g = member m addr in
    let start : 32 * j + 0 ≡ 32 * j = omega arith in
    let next : 32 * suc j ≡ 32 * j + 32 = omega arith in
    let c = word-IsCut m addr j w in
    let x : m p ≡ m (addr + j) = ap m ep in
    let rest =
      find_from-IsFirst m addr size n (suc j) (p + 1) (r + 32) (left - 32) w (omega arith)
        (omega arith) (omega arith) (omega arith) (omega arith) in
    elim (Bool-cases (m p == 0)) [
      | inl z ↦ rw z (
          later-IsFirst g (32 * j) (32 * suc j) size _
            (λ k a b.
              cut-none g j 0 32 (m (addr + j)) c (ground (arith, x)) (omega arith) k (omega arith)
                (omega arith))
            (omega arith) rest)
      | inr z ↦ rw z (
          subst (λ l. IsFirst g l size (r + ffs (m p))) start
            (cut-IsFirst g j 0 32 (m (addr + j)) size (r + ffs (m p)) c (λ y. ground (arith, x))
              (omega arith) (omega (arith, ap ffs x))))
    ]

-- `bitmap_find_first_bit` answers the first set bit below `size`, counted from 1, and 0 when there is none.
pub bitmap_find_first_bit-IsFirst :
    (m : WordMemory) (addr size : ℕ)
    → IsWords m
    → IsFirst (member m addr) 0 size (bitmap_find_first_bit addr size m)
unfolding bitmap_find_first_bit
bitmap_find_first_bit-IsFirst m addr size w =
    find_from-IsFirst m addr size (size / 32) 0 addr 0 size w (omega arith) (omega arith) refl
      (omega arith) (omega arith)

aligned : (offset : ℕ) → offset < 2 ^ 32 → bit_and offset (complement (32 - 1)) ≡ 32 * (offset / 32)
unfolding complement
aligned offset h = omega (arith, bit_and-high 5 27 offset (omega arith))

-- `bitmap_find_next_bit`, asked from a bit on that is counted from 1, answers the first set bit from there
-- on within `size`, counted from 1 too, and 0 when there is none.
pub bitmap_find_next_bit-IsFirst :
    (m : WordMemory) (addr size offset : ℕ)
    → IsWords m
    → offset < 2 ^ 32
    → IsFirst (member m addr) offset size (bitmap_find_next_bit addr size (suc offset) m)
unfolding bitmap_find_next_bit
bitmap_find_next_bit-IsFirst m addr size offset w lt =
    let g = member m addr in
    let j = offset / 32 in
    let k = offset % 32 in
    let a = aligned offset lt in
    let here : 32 * j + k ≡ offset = omega arith in
    let c = word-IsCut m addr j w in
    let t = bit_and (m (addr + j)) (ones_from k) in
    let cut : IsCut g j k 32 t = from-IsCut g j k (m (addr + j)) c in
    elim (Bool-cases (leb size offset)) [
      | inl e ↦ rw (a, e) (empty-IsFirst g offset size 0 (ground arith) refl)
      | inr e ↦ elim (Bool-cases (offset % 32 == 0)) [
        | inl z ↦
            rw (a, e, z)
              (let start : 32 * j ≡ offset = ground arith in
                subst
                  (λ l.
                    IsFirst g l size
                      (find_from ((size - 32 * j) / 32) (addr + j) (32 * j) (size - 32 * j) m))
                  start
                  (find_from-IsFirst m addr size ((size - 32 * j) / 32) j (addr + j) (32 * j)
                    (size - 32 * j) w refl (ground arith) refl refl refl))
        | inr z ↦ elim (Bool-cases (ltb (size - 32 * j) 32)) [
          | inl s ↦
              rw (a, e, z, s)
                (subst (λ l. IsFirst g l size (found_first (32 * j) (size - 32 * j) t)) here
                  (found_first-IsFirst g j k (size - 32 * j) t size (32 * j) (ground arith)
                    (ground arith) refl cut))
          | inr s ↦ elim (Bool-cases (t == 0)) [
            | inl y ↦
                rw (a, e, z, s, y)
                  (later-IsFirst g offset (32 * suc j) size _
                    (λ n p q.
                      cut-none g j k 32 t cut (ground arith) (omega arith) n (omega arith)
                        (omega arith))
                    (omega arith)
                    (find_from-IsFirst m addr size ((size - 32 * j - 32) / 32) (suc j)
                      (addr + j + 1) (32 * j + 32) (size - 32 * j - 32) w (omega arith)
                      (ground arith) refl (omega arith) (omega arith)))
            | inr y ↦
                rw (a, e, z, s, y)
                  (subst (λ l. IsFirst g l size (32 * j + ffs t)) here
                    (cut-IsFirst g j k 32 t size (32 * j + ffs t) cut (λ n. ground arith)
                      (ground arith) refl))
          ]
        ]
      ]
    ]
