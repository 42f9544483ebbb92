-- ===== src/Bitmap/Combine.antt =====
-- bitmap_and.c, bitmap_andnot.c, bitmap_or.c (and bitmap_empty.c, which holds the same function),
-- bitmap_xor.c and bitmap_complement.c.
use Prim.Native.Nat.{bit_and, bit_or, bit_xor}
use aim_mips.Prelude.{
  ℕ, zero, suc, ◌+◌, ◌/◌, ◌%◌, ◌≤◌, ◌<◌, ◌≡◌, ◌≢◌, ◌⊎◌, inl, inr, refl, sym, ap, ◌∙◌, Bool, not,
  ◌==◌, if◌then◌else◌, arith,
}
use mathlib.Core.Path.{ap₂}
use aim_mips.Prelude.Bits.{bit, bit-or, bit-zero, bit_ext}
use aim_mips.Bitops.{complement}
use aim_mips.Bitmap.{WordMemory, store, bits_to_longs, bitmap_last_word_mask}

-- `for (k = 0; k < nr; k++) result |= (dst[k] = f(bitmap1[k], bitmap2[k]))`
unfoldable pub combine : (ℕ → ℕ → ℕ) → ℕ → ℕ → ℕ → ℕ → WordMemory → ℕ → WordMemory × ℕ
unfolding store
combine f zero dst b1 b2 m result = (m, result)
combine f (suc n) dst b1 b2 m result =
    let v = f (m b1) (m b2) in
    combine f n (dst + 1) (b1 + 1) (b2 + 1) (store dst v m) (bit_or result v)

-- The conjunction, and whether it has a set digit.
unfoldable pub bitmap_and : ℕ → ℕ → ℕ → ℕ → WordMemory → WordMemory × Bool
bitmap_and dst b1 b2 bits m =
    let (m', result) = combine bit_and (bits_to_longs bits) dst b1 b2 m 0 in (m', not (result == 0))

unfoldable pub bitmap_andnot : ℕ → ℕ → ℕ → ℕ → WordMemory → WordMemory × Bool
bitmap_andnot dst b1 b2 bits m =
    let (m', result) =
      combine (λ v w. bit_and v (complement w)) (bits_to_longs bits) dst b1 b2 m 0 in
    (m', not (result == 0))

-- These two keep no `result`.
unfoldable pub bitmap_or : ℕ → ℕ → ℕ → ℕ → WordMemory → WordMemory
bitmap_or dst b1 b2 bits m =
    let (m', result) = combine bit_or (bits_to_longs bits) dst b1 b2 m 0 in m'

unfoldable pub bitmap_xor : ℕ → ℕ → ℕ → ℕ → WordMemory → WordMemory
bitmap_xor dst b1 b2 bits m =
    let (m', result) = combine bit_xor (bits_to_longs bits) dst b1 b2 m 0 in m'

-- `for (k = 0; k < lim; ++k) dst[k] = ~src[k]`
unfoldable pub complement_words : ℕ → ℕ → ℕ → WordMemory → WordMemory
unfolding store
complement_words zero dst src m = m
complement_words (suc n) dst src m =
    complement_words n (dst + 1) (src + 1) (store dst (complement (m src)) m)

unfoldable pub bitmap_complement : ℕ → ℕ → ℕ → WordMemory → WordMemory
unfolding store
bitmap_complement dst src bits m =
    let lim = bits / 32 in
    let m' = complement_words lim dst src m in
    if bits % 32 == 0
    then m'
    else store (dst + lim) (bit_and (complement (m' (src + lim))) (bitmap_last_word_mask bits)) m'

-- The loop writes no word of `b` before it reads it.
unfoldable pub Apart : ℕ → ℕ → ℕ → Type 0
Apart n dst b = (dst ≤ b) ⊎ (b + n ≤ dst)

-- What the loop leaves.
pub record IsCombined (f : ℕ → ℕ → ℕ) (n dst b1 b2 : ℕ) (m : WordMemory) (r : ℕ)
    (end : WordMemory × ℕ) : Type 0 where
  pub inside : (i : ℕ) → i < n → end.0 (dst + i) ≡ f (m (b1 + i)) (m (b2 + i))
  pub outside : (a : ℕ) → (a < dst) ⊎ (dst + n ≤ a) → end.0 a ≡ m a
  pub zero : end.1 ≡ 0 → (r ≡ 0) × ((i : ℕ) → i < n → f (m (b1 + i)) (m (b2 + i)) ≡ 0)
  pub all_zero : r ≡ 0 → ((i : ℕ) → i < n → f (m (b1 + i)) (m (b2 + i)) ≡ 0) → end.1 ≡ 0

or_none : (a b : ℕ) → bit_or a b ≡ 0 → (a ≡ 0) × (b ≡ 0)
or_none a b h = (
  bit_ext a 0 (λ i. ground (arith, bit-or i a b, bit-zero i, ap (λ x. bit x i) h)),
  bit_ext b 0 (λ i. ground (arith, bit-or i a b, bit-zero i, ap (λ x. bit x i) h)),
)

pub kept : (dst v a : ℕ) (m : WordMemory) → a ≢ dst → store dst v m a ≡ m a
unfolding store
kept dst v a m ne = ground arith

pub written : (dst v : ℕ) (m : WordMemory) → store dst v m dst ≡ v
unfolding store
written dst v m = ground arith

-- The first element and the others.
pub below_suc :
    (P : ℕ → Type 0) (n : ℕ) → P 0 → ((i : ℕ) → i < n → P (suc i)) → (i : ℕ) → i < suc n → P i
below_suc P n p q zero h = p
below_suc P n p q (suc i) h = q i (omega arith)

pub Apart-suc : (n dst b : ℕ) → Apart (suc n) dst b → Apart n (dst + 1) (b + 1)
unfolding Apart
Apart-suc n dst b p = elim p [ inl l ↦ inl (omega arith) | inr l ↦ inr (omega arith) ]

-- The words of `b` that are still to be read are unchanged.
pub store_unread :
    (n dst b v : ℕ) (m : WordMemory)
    → Apart (suc n) dst b
    → (i : ℕ) → i < n
    → store dst v m (b + 1 + i) ≡ m (b + suc i)
unfolding Apart
store_unread n dst b v m p i h =
    kept dst v (b + 1 + i) m (λ e. elim p [ inl l ↦ omega arith | inr l ↦ omega arith ])
    ∙ ap m (omega arith)

pub combine-IsCombined :
    (f : ℕ → ℕ → ℕ) (n dst b1 b2 : ℕ) (m : WordMemory) (r : ℕ)
    → Apart n dst b1
    → Apart n dst b2
    → IsCombined f n dst b1 b2 m r (combine f n dst b1 b2 m r)
unfolding combine
combine-IsCombined f zero dst b1 b2 m r p q = record {
  inside = λ i h. absurd (omega arith);
  outside = λ a h. refl;
  zero = λ e. (e, λ i h. absurd (omega arith));
  all_zero = λ e h. e;
}
combine-IsCombined f (suc n) dst b1 b2 m r p q =
    let v = f (m b1) (m b2) in
    let m1 = store dst v m in
    let rest =
      combine-IsCombined f n (dst + 1) (b1 + 1) (b2 + 1) m1 (bit_or r v) (Apart-suc n dst b1 p)
        (Apart-suc n dst b2 q) in
    let word : (i : ℕ)
        → i < n
        → f (m1 (b1 + 1 + i)) (m1 (b2 + 1 + i)) ≡ f (m (b1 + suc i)) (m (b2 + suc i)) =
      λ i h. ap₂ f (store_unread n dst b1 v m p i h) (store_unread n dst b2 v m q i h) in
    let first : f (m (b1 + 0)) (m (b2 + 0)) ≡ v =
      ap₂ (λ a b. f (m a) (m b)) (omega arith) (omega arith) in
    let end = combine f n (dst + 1) (b1 + 1) (b2 + 1) m1 (bit_or r v) in
    record {
      inside =
          below_suc (λ i. end.0 (dst + i) ≡ f (m (b1 + i)) (m (b2 + i))) n
            (ap (end.0) {x = dst + 0} {y = dst} (omega arith)
              ∙ rest.outside dst (inl (omega arith))
              ∙ written dst v m
              ∙ sym first)
            (λ i h.
              ap (end.0) {x = dst + suc i} {y = dst + 1 + i} (omega arith)
              ∙ rest.inside i h
              ∙ word i h);
      outside = λ a h.
          rest.outside a (elim h [ inl l ↦ inl (omega arith) | inr l ↦ inr (omega arith) ])
          ∙ kept dst v a m (λ e. elim h [ inl l ↦ omega arith | inr l ↦ omega arith ]);
      zero = λ e.
          let (rv, ws) = rest.zero e in
          let (r0, v0) = or_none r v rv in
          (
            r0,
            below_suc (λ i. f (m (b1 + i)) (m (b2 + i)) ≡ 0) n (first ∙ v0)
                (λ i h. sym (word i h) ∙ ws i h),
          );
      all_zero = λ e ws.
          rest.all_zero (ap₂ bit_or e (sym first ∙ ws 0 (omega arith)) ∙ refl)
            (λ i h. word i h ∙ ws (suc i) (omega arith));
    }
