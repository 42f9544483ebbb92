-- ===== src/Bitmap/Fill.antt =====
-- bitmap_zero, bitmap_fill and __bitmap_complement.
use Prim.Native.Nat.{bit_and}
use aim_mips.Prelude.{
  ℕ, zero, suc, ◌+◌, ◌-◌, ◌*◌, ◌/◌, ◌%◌, ◌^◌, ◌≤◌, ◌<◌, ◌≡◌, ◌⊎◌, inl, inr, refl, sym, ap, ◌∙◌,
  true, false, not, ◌==◌, ltb, arith, Bool-cases, add32, sub32,
}
use aim_mips.Prelude.Bits.{bit, bit-and, bit-zero, bit-ones, bit-complement}
use aim_mips.Bitops.{complement}
use aim_mips.Bitmap.{
  WordMemory, store, ones, member, bits_to_longs, fill_words, bitmap_zero, bitmap_fill,
  bitmap_last_word_mask,
}
use aim_mips.Bitmap.Combine.{
  Apart, complement_words, bitmap_complement, kept, written, Apart-suc, store_unread, below_suc,
}
use aim_mips.Bitmap.Pointwise.{IsWords}

-- `n` words from `dst` are `w`.
pub record IsFilled (n dst w : ℕ) (m m' : WordMemory) : Type 0 where
  pub inside : (i : ℕ) → i < n → m' (dst + i) ≡ w
  pub outside : (a : ℕ) → (a < dst) ⊎ (dst + n ≤ a) → m' a ≡ m a

pub fill_words-IsFilled : (n dst w : ℕ) (m : WordMemory) → IsFilled n dst w m (fill_words n dst w m)
unfolding fill_words
fill_words-IsFilled zero dst w m = record {
  inside = λ i h. absurd (omega arith);
  outside = λ a h. refl;
}
fill_words-IsFilled (suc n) dst w m =
    let rest = fill_words-IsFilled n (dst + 1) w (store dst w m) in
    let end = fill_words n (dst + 1) w (store dst w m) in
    record {
      inside =
          below_suc (λ i. end (dst + i) ≡ w) n
            (ap end {x = dst + 0} {y = dst} (omega arith)
              ∙ rest.outside dst (inl (omega arith))
              ∙ written dst w m)
            (λ i h. ap end {x = dst + suc i} {y = dst + 1 + i} (omega arith) ∙ rest.inside i h);
      outside = λ a h.
          rest.outside a (elim h [ inl l ↦ inl (omega arith) | inr l ↦ inr (omega arith) ])
          ∙ kept dst w a m (λ e. elim h [ inl l ↦ omega arith | inr l ↦ omega arith ]);
    }

-- After `bitmap_zero` each of the bits is clear, and after `bitmap_fill` each is set, if there is one and
-- the array fits in the address space.
pub bitmap_constant-member :
    (dst nbits n : ℕ) (m : WordMemory)
    → n < nbits
    → dst + nbits < 2 ^ 30
    → (member (bitmap_zero dst nbits m) dst n ≡ false)
      × (member (bitmap_fill dst nbits m) dst n ≡ true)
unfolding bitmap_zero bitmap_fill member bits_to_longs bitmap_last_word_mask store
bitmap_constant-member dst nbits n m h fit =
    let nlongs = (nbits + 4 - 1) / 4 in
    let z = fill_words-IsFilled nlongs dst 0 m in
    let k = sub32 nlongs 1 in
    let same : k ≡ nlongs - 1 = omega arith in
    let span : k * 4 % 2 ^ 32 / 4 ≡ nlongs - 1 = omega arith in
    let place : add32 dst k ≡ dst + (nlongs - 1) = omega arith in
    let f = fill_words-IsFilled (nlongs - 1) dst ones m in
    (
      ap (λ x. bit x (n % 32)) (z.inside (n / 32) (omega arith)) ∙ bit-zero (n % 32),
      rw (place, span)
          (elim (Bool-cases (n / 32 == nlongs - 1)) [
            | inl e ↦
                let last : (dst + n / 32 == dst + (nlongs - 1)) ≡ true = ground arith in
                rw last (elim (Bool-cases (nbits % 32 == 0)) [
                  | inl r ↦ rw r (ground (arith, bit-ones 32 (n % 32)))
                  | inr r ↦ rw r (ground (arith, bit-ones (nbits % 32) (n % 32)))
                ])
            | inr e ↦
                let other : (dst + n / 32 == dst + (nlongs - 1)) ≡ false = ground arith in
                rw other (
                  ap (λ x. bit x (n % 32)) (f.inside (n / 32) (ground arith))
                  ∙ ground (arith, bit-ones 32 (n % 32)))
          ]),
    )

-- The first `n` words are complemented.
record IsComplemented (n dst src : ℕ) (m m' : WordMemory) : Type 0 where
  inside : (i : ℕ) → i < n → m' (dst + i) ≡ complement (m (src + i))
  outside : (a : ℕ) → (a < dst) ⊎ (dst + n ≤ a) → m' a ≡ m a

complement_words-IsComplemented :
    (n dst src : ℕ) (m : WordMemory)
    → Apart n dst src
    → IsComplemented n dst src m (complement_words n dst src m)
unfolding complement_words
complement_words-IsComplemented zero dst src m p = record {
  inside = λ i h. absurd (omega arith);
  outside = λ a h. refl;
}
complement_words-IsComplemented (suc n) dst src m p =
    let v = complement (m src) in
    let rest =
      complement_words-IsComplemented n (dst + 1) (src + 1) (store dst v m)
        (Apart-suc n dst src p) in
    let end = complement_words n (dst + 1) (src + 1) (store dst v m) in
    record {
      inside =
          below_suc (λ i. end (dst + i) ≡ complement (m (src + i))) n
            (ap end {x = dst + 0} {y = dst} (omega arith)
              ∙ rest.outside dst (inl (omega arith))
              ∙ written dst v m
              ∙ ap (λ a. complement (m a)) (omega arith))
            (λ i h.
              ap end {x = dst + suc i} {y = dst + 1 + i} (omega arith)
              ∙ rest.inside i h
              ∙ ap complement (store_unread n dst src v m p i h));
      outside = λ a h.
          rest.outside a (elim h [ inl l ↦ inl (omega arith) | inr l ↦ inr (omega arith) ])
          ∙ kept dst v a m (λ e. elim h [ inl l ↦ omega arith | inr l ↦ omega arith ]);
    }

last_complement :
    (bits r x i : ℕ)
    → x < 2 ^ 32
    → i < r
    → r < 32
    → bit (bit_and (complement x) (2 ^ r - 1)) i ≡ not (bit x i)
unfolding complement
last_complement bits r x i l h k = ground (
  arith,
  bit-and i (2 ^ 32 - 1 - x) (2 ^ r - 1),
  bit-ones r i,
  bit-complement 32 i x l (omega arith),
)

-- `bitmap_complement` leaves in each bit of `dst` the negation of the bit of `src`. `src` may be `dst` or
-- start above it, or end below it.
pub bitmap_complement-member :
    (dst src bits n : ℕ) (m : WordMemory)
    → IsWords m
    → Apart (bits / 32 + 1) dst src
    → n < bits
    → member (bitmap_complement dst src bits m) dst n ≡ not (member m src n)
unfolding bitmap_complement member store Apart bitmap_last_word_mask
bitmap_complement-member dst src bits n m w p h =
    let lim = bits / 32 in
    let r = bits % 32 in
    let q : Apart lim dst src = elim p [ inl l ↦ inl l | inr l ↦ inr (omega arith) ] in
    let c = complement_words-IsComplemented lim dst src m q in
    let end = complement_words lim dst src m in
    let early : n / 32 < lim
        → bit (end (dst + n / 32)) (n % 32) ≡ not (bit (m (src + n / 32)) (n % 32)) =
      λ l.
        ap (λ x. bit x (n % 32)) (c.inside (n / 32) l)
        ∙ flip (m (src + n / 32)) (n % 32) (w (src + n / 32)) (omega arith) in
    elim (Bool-cases (r == 0)) [
      | inl z ↦ rw z (early (ground arith))
      | inr z ↦ elim (Bool-cases (ltb (n / 32) lim)) [
        | inl l ↦
            let other : (dst + n / 32 == dst + lim) ≡ false = ground arith in
            rw (z, other) (early (ground arith))
        | inr l ↦
            let same : n / 32 ≡ lim = ground arith in
            let last : (dst + n / 32 == dst + lim) ≡ true = ground arith in
            let unread : end (src + lim) ≡ m (src + lim) =
              c.outside (src + lim)
                (elim p [ inl k ↦ inr (omega arith) | inr k ↦ inl (omega arith) ]) in
            rw (z, last, unread)
              (last_complement bits r (m (src + lim)) (n % 32) (w (src + lim)) (ground arith)
                  (omega arith)
                ∙ ap (λ j. not (bit (m (src + j)) (n % 32))) (sym same))
      ]
    ]
  where
    flip : (x i : ℕ) → x < 2 ^ 32 → i < 32 → bit (complement x) i ≡ not (bit x i)
    flip x i l k = unfold complement in bit-complement 32 i x l k
