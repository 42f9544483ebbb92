-- ===== src/Bitmap/Area.antt =====
-- bitmap_set.c and bitmap_clear.c.
use Prim.Native.Nat.{bit_and, bit_or}
use mathlib.Core.Path.{subst}
use aim_mips.Prelude.{
  ℕ, zero, suc, ◌+◌, ◌-◌, ◌/◌, ◌%◌, ◌^◌, ◌≤◌, ◌<◌, ◌≡◌, ◌≢◌, inl, inr, refl, sym, ap, ◌∙◌, Bool,
  true, false, ◌==◌, ltb, leb, ◌&&◌, if◌then◌else◌, arith, Bool-cases, Option, none, some,
}
use aim_mips.Prelude.Bits.{bit, bit-or, bit-and, bit-complement, bit-ones}
use aim_mips.Bitops.{complement}
use aim_mips.Bitmap.{WordMemory, store, member, ones, bitmap_first_word_mask, bitmap_last_word_mask}
use aim_mips.Bitmap.Pointwise.{IsWords, or-lt}
use aim_mips.Bitmap.Find.Word.{bit_and-le, bit-ones_from}

-- `*p |= mask` and `*p &= ~mask`
unfoldable pub set_word : ℕ → ℕ → WordMemory → WordMemory
set_word p mask m = store p (bit_or (m p) mask) m

unfoldable pub clear_word : ℕ → ℕ → WordMemory → WordMemory
clear_word p mask m = store p (bit_and (m p) (complement mask)) m

-- `while (nr - bits >= 0)` and what follows it; `none` when the fuel has run out.
module _ (apply : ℕ → ℕ → WordMemory → WordMemory) (size : ℕ) where
  unfoldable pub area_loop : ℕ → ℕ → ℕ → ℕ → ℕ → WordMemory → Option WordMemory
  area_loop zero p nr bits mask m = none
  area_loop (suc fuel) p nr bits mask m =
      let rest = area_loop fuel (p + 1) (nr - bits) 32 ones (apply p mask m) in
      if leb bits nr
      then rest
      else if nr == 0
      then some m
      else some (apply p (bit_and mask (bitmap_last_word_mask size)) m)

unfoldable pub bitmap_set : ℕ → ℕ → ℕ → WordMemory → Option WordMemory
bitmap_set map start nr m =
    area_loop set_word (start + nr) (nr / 32 + 2) (map + start / 32) nr (32 - start % 32)
      (bitmap_first_word_mask start) m

unfoldable pub bitmap_clear : ℕ → ℕ → ℕ → WordMemory → Option WordMemory
bitmap_clear map start nr m =
    area_loop clear_word (start + nr) (nr / 32 + 2) (map + start / 32) nr (32 - start % 32)
      (bitmap_first_word_mask start) m

-- What `apply p mask` does: the digits of `mask` become `b` in word `p`.
pub record IsMasked (b : Bool) (apply : ℕ → ℕ → WordMemory → WordMemory) : Type 0 where
  pub elsewhere : (p mask a : ℕ) (m : WordMemory) → a ≢ p → apply p mask m a ≡ m a
  pub small :
      (p mask : ℕ) (m : WordMemory) → m p < 2 ^ 32 → mask < 2 ^ 32 → apply p mask m p < 2 ^ 32
  pub digits :
      (p mask i : ℕ) (m : WordMemory)
      → i < 32
      → mask < 2 ^ 32
      → bit (apply p mask m p) i ≡ (if bit mask i then b else bit (m p) i)

pub set_word-IsMasked : IsMasked true set_word
unfolding set_word store
set_word-IsMasked = record {
  elsewhere = λ p mask a m ne. ground arith;
  small = λ p mask m h k. ground (arith, or-lt (m p) mask h k);
  digits = λ p mask i m h k. ground (arith, bit-or i (m p) mask);
}

pub clear_word-IsMasked : IsMasked false clear_word
unfolding clear_word store complement
clear_word-IsMasked = record {
  elsewhere = λ p mask a m ne. ground arith;
  small = λ p mask m h k. ground (arith, bit_and-le (m p) (complement mask));
  digits = λ p mask i m h k.
      ground (arith, bit-and i (m p) (complement mask), bit-complement 32 i mask k h);
}

-- The `nr` bits of the map from `start` on are `b`, and nothing else has changed.
pub record IsArea (b : Bool) (map start nr : ℕ) (m m' : WordMemory) : Type 0 where
  pub words : IsWords m'
  pub members :
      (n : ℕ) → member m' map n ≡ (if leb start n && ltb n (start + nr) then b else member m map n)
  pub outside : (a : ℕ) → a < map → m' a ≡ m a

module _ (b : Bool) (apply : ℕ → ℕ → WordMemory → WordMemory) (h : IsMasked b apply) where
  -- One word.
  apply-IsArea :
      (map pos nr mask : ℕ) (m : WordMemory)
      → IsWords m
      → mask < 2 ^ 32
      → pos % 32 + nr ≤ 32
      → ((i : ℕ) → i < 32 → bit mask i ≡ (leb (pos % 32) i && ltb i (pos % 32 + nr)))
      → IsArea b map pos nr m (apply (map + pos / 32) mask m)
  unfolding member
  apply-IsArea map pos nr mask m w lt le d =
      let p = map + pos / 32 in
      record {
        words = λ a. elim (Bool-cases (a == p)) [
          | inl e ↦
              let same : a ≡ p = ground arith in
              let l = h.small p mask m (w p) lt in omega (arith, ap (apply p mask m) same)
          | inr e ↦ omega (arith, h.elsewhere p mask a m (λ x. ground arith), w a)
        ];
        members = λ n. elim (Bool-cases (n / 32 == pos / 32)) [
          | inl e ↦
              let same : n / 32 ≡ pos / 32 = ground arith in
              ap (λ j. bit (apply p mask m (map + j)) (n % 32)) same
              ∙ h.digits p mask (n % 32) m (omega arith) lt
              ∙ ground (arith, d (n % 32) (omega arith), ap (λ j. bit (m (map + j)) (n % 32)) same)
          | inr e ↦
              ap (λ x. bit x (n % 32)) (h.elsewhere p mask (map + n / 32) m (λ x. ground arith))
              ∙ ground arith
        ];
        outside = λ a l. h.elsewhere p mask a m (λ x. omega arith);
      }

  skip-IsArea : (map pos : ℕ) (m : WordMemory) → IsWords m → IsArea b map pos 0 m m
  skip-IsArea map pos m w = record { words = w; members = λ n. ground arith; outside = λ a l. refl }

  join-IsArea :
      (map pos k nr : ℕ) (m m1 m2 : WordMemory)
      → k ≤ nr
      → IsArea b map pos k m m1
      → IsArea b map (pos + k) (nr - k) m1 m2
      → IsArea b map pos nr m m2
  join-IsArea map pos k nr m m1 m2 le p q = record {
    words = q.words;
    members = λ n. ground (arith, q.members n, p.members n);
    outside = λ a l. q.outside a l ∙ p.outside a l;
  }

  whole_step :
      (map p pos bits mask : ℕ) (m : WordMemory)
      → IsWords m
      → p ≡ map + pos / 32
      → bits ≡ 32 - pos % 32
      → mask < 2 ^ 32
      → ((i : ℕ) → i < 32 → bit mask i ≡ leb (pos % 32) i)
      → IsArea b map pos bits m (apply p mask m)
  whole_step map p pos bits mask m w ep eb lt d =
      subst (λ q. IsArea b map pos bits m (apply q mask m)) (sym ep)
        (apply-IsArea map pos bits mask m w lt (omega arith) (λ i l. ground (arith, d i l)))

  last_step :
      (map size p pos nr mask : ℕ) (m : WordMemory)
      → IsWords m
      → size ≡ pos + nr
      → p ≡ map + pos / 32
      → nr < 32 - pos % 32
      → nr ≢ 0
      → mask < 2 ^ 32
      → ((i : ℕ) → i < 32 → bit mask i ≡ leb (pos % 32) i)
      → IsArea b map pos nr m (apply p (bit_and mask (bitmap_last_word_mask size)) m)
  unfolding bitmap_last_word_mask
  last_step map size p pos nr mask m w es ep few ne lt d =
      let end : size % 32 ≡ pos % 32 + nr = omega arith in
      let partial : (size % 32 == 0) ≡ false = ground arith in
      let last = 2 ^ (size % 32) - 1 in
      rw partial (
        subst (λ q. IsArea b map pos nr m (apply q (bit_and mask last) m)) (sym ep)
          (apply-IsArea map pos nr (bit_and mask last) m w (omega (arith, bit_and-le mask last))
            (omega arith)
            (λ i l. ground (arith, d i l, bit-and i mask last, bit-ones (size % 32) i))))

  area_loop-IsArea :
      (map size fuel p pos nr bits mask : ℕ) (m : WordMemory)
      → IsWords m
      → (nr + pos % 32) / 32 < fuel
      → size ≡ pos + nr
      → p ≡ map + pos / 32
      → bits ≡ 32 - pos % 32
      → mask < 2 ^ 32
      → ((i : ℕ) → i < 32 → bit mask i ≡ leb (pos % 32) i)
      → (m' : WordMemory) × (area_loop apply size fuel p nr bits mask m ≡ some m')
        × IsArea b map pos nr m m'
  unfolding area_loop
  area_loop-IsArea map size zero p pos nr bits mask m w f es ep eb lt d = absurd (omega arith)
  area_loop-IsArea map size (suc fuel) p pos nr bits mask m w f es ep eb lt d =
      elim (Bool-cases (leb bits nr)) [
        | inl e ↦
            let one : IsArea b map pos bits m (apply p mask m) =
              whole_step map p pos bits mask m w ep eb lt d in
            let (m', run, rest) =
              area_loop-IsArea map size fuel (p + 1) (pos + bits) (nr - bits) 32 ones
                (apply p mask m) one.words (ground arith) (ground arith) (omega arith) (omega arith)
                (omega arith) (λ i l. ground (arith, bit-ones 32 i)) in
            (
              m',
              rw e run,
              join-IsArea map pos bits nr m (apply p mask m) m' (ground arith) one rest,
            )
        | inr e ↦ elim (Bool-cases (nr == 0)) [
          | inl z ↦
              let none_left : nr ≡ 0 = ground arith in
              (m, rw (e, z) refl, rw none_left (skip-IsArea map pos m w))
          | inr z ↦ (
            apply p (bit_and mask (bitmap_last_word_mask size)) m,
            rw (e, z) refl,
            last_step map size p pos nr mask m w es ep (ground arith) (ground arith) lt d,
          )
        ]
      ]

first_mask : (start i : ℕ) → i < 32 → bit (bitmap_first_word_mask start) i ≡ leb (start % 32) i
unfolding bitmap_first_word_mask
first_mask start i h = bit-ones_from (start % 32) i h

first_mask-lt : (start : ℕ) → bitmap_first_word_mask start < 2 ^ 32
unfolding bitmap_first_word_mask
first_mask-lt start = omega arith

-- `bitmap_set` ends, with the bits from `start` below `start + nr` set and every other bit as it was, and
-- `bitmap_clear` ends with them clear.
pub bitmap_runs-IsArea :
    (map start nr : ℕ) (m : WordMemory)
    → IsWords m
    → ((m' : WordMemory) × (bitmap_set map start nr m ≡ some m') × IsArea true map start nr m m')
      × ((m' : WordMemory) × (bitmap_clear map start nr m ≡ some m')
          × IsArea false map start nr m m')
unfolding bitmap_set bitmap_clear
bitmap_runs-IsArea map start nr m w = (
  area_loop-IsArea true set_word set_word-IsMasked map (start + nr) (nr / 32 + 2) (map + start / 32)
      start nr (32 - start % 32) (bitmap_first_word_mask start) m w (omega arith) refl refl refl
      (first_mask-lt start) (first_mask start),
  area_loop-IsArea false clear_word clear_word-IsMasked map (start + nr) (nr / 32 + 2)
      (map + start / 32) start nr (32 - start % 32) (bitmap_first_word_mask start) m w (omega arith)
      refl refl refl (first_mask-lt start) (first_mask start),
)
