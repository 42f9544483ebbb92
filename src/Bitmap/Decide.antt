-- ===== src/Bitmap/Decide.antt =====
-- bitmap_equal.c, bitmap_intersects.c, bitmap_subset.c and bitmap_full.c.
use Prim.Native.Nat.{bit_and, bit_xor}
use aim_mips.Prelude.{
  ℕ, zero, suc, ◌+◌, ◌*◌, ◌/◌, ◌%◌, ◌^◌, ◌≤◌, ◌<◌, ◌≡◌, ◌≢◌, ◌↔◌, inl, inr, refl, sym, ap, ◌∙◌,
  Bool, true, false, not, ◌==◌, ltb, if◌then◌else◌, arith, Bool-cases,
}
use mathlib.Core.Path.{ap₂}
use aim_mips.Prelude.Bits.{bit, bit-zero, bit-mod, bit_and-mask, bit_ext}
use aim_mips.Bitops.{complement}
use aim_mips.Bitmap.{WordMemory, member, bitmap_last_word_mask}
use aim_mips.Bitmap.Combine.{below_suc}
use aim_mips.Bitmap.Pointwise.{IsWords, IsDigitwise, member_at}

-- `for (k = 0; k < lim; ++k) if (p(bitmap1[k], bitmap2[k]))`
unfoldable pub some_word : (ℕ → ℕ → Bool) → ℕ → ℕ → ℕ → WordMemory → Bool
some_word p zero b1 b2 m = false
some_word p (suc n) b1 b2 m =
    let rest = some_word p n (b1 + 1) (b2 + 1) m in if p (m b1) (m b2) then true else rest

unfoldable pub bitmap_equal : ℕ → ℕ → ℕ → WordMemory → Bool
bitmap_equal b1 b2 bits m =
    let k = bits / 32 in
    if some_word (λ v w. not (v == w)) k b1 b2 m
    then false
    else if bits % 32 == 0
    then true
    else bit_and (bit_xor (m (b1 + k)) (m (b2 + k))) (bitmap_last_word_mask bits) == 0

unfoldable pub bitmap_intersects : ℕ → ℕ → ℕ → WordMemory → Bool
bitmap_intersects b1 b2 bits m =
    let k = bits / 32 in
    if some_word (λ v w. not (bit_and v w == 0)) k b1 b2 m
    then true
    else if bits % 32 == 0
    then false
    else not (bit_and (bit_and (m (b1 + k)) (m (b2 + k))) (bitmap_last_word_mask bits) == 0)

unfoldable pub bitmap_subset : ℕ → ℕ → ℕ → WordMemory → Bool
bitmap_subset b1 b2 bits m =
    let k = bits / 32 in
    if some_word (λ v w. not (bit_and v (complement w) == 0)) k b1 b2 m
    then false
    else if bits % 32 == 0
    then true
    else bit_and (bit_and (m (b1 + k)) (complement (m (b2 + k)))) (bitmap_last_word_mask bits) == 0

unfoldable pub bitmap_full : ℕ → ℕ → WordMemory → Bool
bitmap_full b bits m =
    let k = bits / 32 in
    if some_word (λ v w. not (complement v == 0)) k b b m
    then false
    else if bits % 32 == 0
    then true
    else bit_and (complement (m (b + k))) (bitmap_last_word_mask bits) == 0

or_false : (x y : Bool) → (if x then true else y) ≡ false → (x ≡ false) × (y ≡ false)
or_false true y h = absurd (ground (arith, h))
or_false false y h = (refl, h)

some_word_iff :
    (p : ℕ → ℕ → Bool) (n b1 b2 : ℕ) (m : WordMemory)
    → (some_word p n b1 b2 m ≡ false) ↔ ((i : ℕ) → i < n → p (m (b1 + i)) (m (b2 + i)) ≡ false)
unfolding some_word
some_word_iff p zero b1 b2 m = (λ e i h. absurd (omega arith), λ h. refl)
some_word_iff p (suc n) b1 b2 m =
    let (to, from) = some_word_iff p n (b1 + 1) (b2 + 1) m in
    let next : (i : ℕ) → p (m (b1 + 1 + i)) (m (b2 + 1 + i)) ≡ p (m (b1 + suc i)) (m (b2 + suc i)) =
      λ i. ap₂ (λ a b. p (m a) (m b)) (omega arith) (omega arith) in
    let first : p (m (b1 + 0)) (m (b2 + 0)) ≡ p (m b1) (m b2) =
      ap₂ (λ a b. p (m a) (m b)) (omega arith) (omega arith) in
    (
      λ e.
          let (x, y) = or_false (p (m b1) (m b2)) (some_word p n (b1 + 1) (b2 + 1) m) e in
          below_suc (λ i. p (m (b1 + i)) (m (b2 + i)) ≡ false) n (first ∙ x)
            (λ i h. sym (next i) ∙ to y i h),
      λ h.
          let x : p (m b1) (m b2) ≡ false = sym first ∙ h 0 (omega arith) in
          rw x (from (λ i l. next i ∙ h (suc i) (omega arith))),
    )

module _ (p : ℕ → ℕ → Bool) (f : ℕ → ℕ → ℕ) (g : Bool → Bool → Bool)
    (test : (a b : ℕ) → p a b ≡ not (f a b == 0)) (digits : IsDigitwise f g)
    (short : (a b i : ℕ) → a < 2 ^ 32 → b < 2 ^ 32 → 32 ≤ i → bit (f a b) i ≡ false) where
  -- The loop and the last word.
  unfoldable pub some_bit : ℕ → ℕ → ℕ → WordMemory → Bool
  some_bit b1 b2 bits m =
      let k = bits / 32 in
      if some_word p k b1 b2 m
      then true
      else if bits % 32 == 0
      then false
      else not (bit_and (f (m (b1 + k)) (m (b2 + k))) (bitmap_last_word_mask bits) == 0)

  word_bit :
      (b1 b2 i k : ℕ) (m : WordMemory)
      → IsWords m
      → k < 32
      → bit (f (m (b1 + i)) (m (b2 + i))) k
        ≡ g (member m b1 (32 * i + k)) (member m b2 (32 * i + k))
  word_bit b1 b2 i k m w h =
      digits k (m (b1 + i)) (m (b2 + i)) h (w (b1 + i)) (w (b2 + i))
      ∙ sym (ap₂ g (member_at m b1 i k h) (member_at m b2 i k h))

  -- A bit that the loop reads, or the last word.
  read_bit :
      (b1 b2 n : ℕ) (m : WordMemory)
      → IsWords m
      → bit (f (m (b1 + n / 32)) (m (b2 + n / 32))) (n % 32) ≡ false
      → g (member m b1 n) (member m b2 n) ≡ false
  read_bit b1 b2 n m w h =
      let whole : n ≡ 32 * (n / 32) + n % 32 = omega arith in
      ap (λ k. g (member m b1 k) (member m b2 k)) whole
      ∙ sym (word_bit b1 b2 (n / 32) (n % 32) m w (omega arith))
      ∙ h

  clear_word :
      (b1 b2 i : ℕ) (m : WordMemory)
      → IsWords m
      → ((k : ℕ) → k < 32 → g (member m b1 (32 * i + k)) (member m b2 (32 * i + k)) ≡ false)
      → p (m (b1 + i)) (m (b2 + i)) ≡ false
  clear_word b1 b2 i m w h =
      let x = f (m (b1 + i)) (m (b2 + i)) in
      let zero : x ≡ 0 = bit_ext x 0 λ k. elim (Bool-cases (ltb k 32)) [
        | inl l ↦ word_bit b1 b2 i k m w (ground arith) ∙ h k (ground arith) ∙ sym (bit-zero k)
        | inr l ↦
            short (m (b1 + i)) (m (b2 + i)) k (w (b1 + i)) (w (b2 + i)) (ground arith)
            ∙ sym (bit-zero k)
      ] in
      test (m (b1 + i)) (m (b2 + i)) ∙ ground (arith, zero)

  clear_last :
      (b1 b2 bits : ℕ) (m : WordMemory)
      → IsWords m
      → ((n : ℕ) → n < bits → g (member m b1 n) (member m b2 n) ≡ false)
      → f (m (b1 + bits / 32)) (m (b2 + bits / 32)) % 2 ^ (bits % 32) ≡ 0
  clear_last b1 b2 bits m w h =
      let i = bits / 32 in
      let x = f (m (b1 + i)) (m (b2 + i)) in
      bit_ext (x % 2 ^ (bits % 32)) 0 λ k. elim (Bool-cases (ltb k (bits % 32))) [
        | inl l ↦
            let here : bit x k ≡ false =
              word_bit b1 b2 i k m w (ground arith) ∙ h (32 * i + k) (ground arith) in
            ground (arith, bit-mod (bits % 32) k x, bit-zero k, here)
        | inr l ↦ ground (arith, bit-mod (bits % 32) k x, bit-zero k)
      ]

  last_mask :
      (bits x : ℕ) → bits % 32 ≢ 0 → bit_and x (bitmap_last_word_mask bits) ≡ x % 2 ^ (bits % 32)
  unfolding bitmap_last_word_mask
  last_mask bits x ne =
      let e : (bits % 32 == 0) ≡ false = ground arith in rw e (bit_and-mask (bits % 32) x)

  some_bit_sound :
      (b1 b2 bits : ℕ) (m : WordMemory)
      → IsWords m
      → some_bit b1 b2 bits m ≡ false
      → (n : ℕ) → n < bits
      → g (member m b1 n) (member m b2 n) ≡ false
  unfolding some_bit
  some_bit_sound b1 b2 bits m w e n h =
      let (loop, last) = or_false (some_word p (bits / 32) b1 b2 m) _ e in
      let (to, from) = some_word_iff p (bits / 32) b1 b2 m in
      read_bit b1 b2 n m w (elim (Bool-cases (ltb (n / 32) (bits / 32))) [
        | inl l ↦
            let q = to loop (n / 32) (ground arith) in
            let z : f (m (b1 + n / 32)) (m (b2 + n / 32)) ≡ 0 =
              ground (arith, test (m (b1 + n / 32)) (m (b2 + n / 32)), q) in
            ap (λ x. bit x (n % 32)) z ∙ bit-zero (n % 32)
        | inr l ↦
            let same : n / 32 ≡ bits / 32 = ground arith in
            let ne : bits % 32 ≢ 0 = λ z. ground arith in
            let nz : (bits % 32 == 0) ≡ false = ground arith in
            let x = f (m (b1 + bits / 32)) (m (b2 + bits / 32)) in
            let z : x % 2 ^ (bits % 32) ≡ 0 = ground (arith, last, nz, last_mask bits x ne) in
            ap (λ i. bit (f (m (b1 + i)) (m (b2 + i))) (n % 32)) same
            ∙ ground (
              arith,
              bit-mod (bits % 32) (n % 32) x,
              ap (λ y. bit y (n % 32)) z,
              bit-zero (n % 32),
            )
      ])

  some_bit_complete :
      (b1 b2 bits : ℕ) (m : WordMemory)
      → IsWords m
      → ((n : ℕ) → n < bits → g (member m b1 n) (member m b2 n) ≡ false)
      → some_bit b1 b2 bits m ≡ false
  unfolding some_bit
  some_bit_complete b1 b2 bits m w h =
      let (to, from) = some_word_iff p (bits / 32) b1 b2 m in
      let loop : some_word p (bits / 32) b1 b2 m ≡ false =
        from (λ i l. clear_word b1 b2 i m w (λ k s. h (32 * i + k) (omega arith))) in
      rw loop (elim (Bool-cases (bits % 32 == 0)) [
        | inl z ↦ rw z refl
        | inr z ↦
            let x = f (m (b1 + bits / 32)) (m (b2 + bits / 32)) in
            let e : bit_and x (bitmap_last_word_mask bits) ≡ 0 =
              last_mask bits x (λ e. ground arith) ∙ clear_last b1 b2 bits m w h in
            rw (z, e) refl
      ])

  pub some_bit_iff :
      (b1 b2 bits : ℕ) (m : WordMemory)
      → IsWords m
      → (some_bit b1 b2 bits m ≡ false)
        ↔ ((n : ℕ) → n < bits → g (member m b1 n) (member m b2 n) ≡ false)
  some_bit_iff b1 b2 bits m w = (some_bit_sound b1 b2 bits m w, some_bit_complete b1 b2 bits m w)
