-- ===== src/Bitmap/Count.antt =====
-- bitmap_weight.c.
use Prim.Native.Nat.{bit_and}
use aim_mips.Prelude.{
  ℕ, zero, suc, ◌+◌, ◌-◌, ◌*◌, ◌/◌, ◌%◌, ◌^◌, ◌≤◌, ◌<◌, ◌≡◌, inl, inr, refl, sym, ap, ◌∙◌, Bool,
  false, ◌==◌, ltb, ◌&&◌, if◌then◌else◌, arith, Bool-cases,
}
use aim_mips.Prelude.Bits.{bit, bit-mod, bit_and-mask, bit-shr}
use aim_mips.Bitops.{hweight32}
use aim_mips.Bitops.Weight.{weight, weight-add, hweight32_lem}
use aim_mips.Bitmap.{WordMemory, member, bitmap_last_word_mask}
use aim_mips.Bitmap.Pointwise.{IsWords, member_at}
use aim_mips.Bitmap.Find.Word.{bit_and-le}

-- `for (k = 0; k < lim; k++) w += hweight(bitmap[k])`
unfoldable pub weight_words : ℕ → ℕ → WordMemory → ℕ → ℕ
weight_words zero p m w = w
weight_words (suc n) p m w = weight_words n (p + 1) m (w + hweight32 (m p))

unfoldable pub bitmap_weight : ℕ → ℕ → WordMemory → ℕ
bitmap_weight map bits m =
    let k = bits / 32 in
    let w = weight_words k map m 0 in
    if bits % 32 == 0 then w else w + hweight32 (bit_and (m (map + k)) (bitmap_last_word_mask bits))

-- How many of the indices below `n` satisfy `g`.
unfoldable pub count : (ℕ → Bool) → ℕ → ℕ
count g zero = 0
count g (suc n) = count g n + (if g n then 1 else 0)

pub count_ext : (g h : ℕ → Bool) (n : ℕ) → ((i : ℕ) → i < n → g i ≡ h i) → count g n ≡ count h n
unfolding count
count_ext g h zero e = refl
count_ext g h (suc n) e = rw (count_ext g h n (λ i l. e i (omega arith)), e n (omega arith)) refl

count-add : (g : ℕ → Bool) (n k : ℕ) → count g (n + k) ≡ count g n + count (λ i. g (n + i)) k
unfolding count
count-add g n zero = ap (count g) {x = n + 0} {y = n} (omega arith) ∙ omega arith
count-add g n (suc k) =
    ap (count g) {x = n + suc k} {y = suc (n + k)} (omega arith) ∙ omega (arith, count-add g n k)

count-none : (g : ℕ → Bool) (n : ℕ) → ((i : ℕ) → i < n → g i ≡ false) → count g n ≡ 0
unfolding count
count-none g zero e = refl
count-none g (suc n) e = rw (count-none g n (λ i l. e i (omega arith)), e n (omega arith)) refl

-- Nothing counts from `r` on.
count-cut : (g : ℕ → Bool) (r k : ℕ) → count (λ i. ltb i r && g i) (r + k) ≡ count g r
count-cut g r k =
    let a = count-add (λ i. ltb i r && g i) r k in
    let b : count (λ i. ltb i r && g i) r ≡ count g r =
      count_ext (λ i. ltb i r && g i) g r (λ i l. ground arith) in
    let c : count (λ i. ltb (r + i) r && g (r + i)) k ≡ 0 =
      count-none (λ i. ltb (r + i) r && g (r + i)) k (λ i l. ground arith) in
    omega (arith, a, b, c)

last_digit : (x n : ℕ) → weight 1 (x / 2 ^ n) ≡ (if bit x n then 1 else 0)
unfolding weight bit
last_digit x n =
    let e : (x / 2 ^ n % 2 == 1) ≡ bit x n =
      bit-shr n 0 x ∙ ap (bit x) {x = 0 + n} {y = n} (omega arith) in
    ground (arith, e)

weight-count : (n x : ℕ) → weight n x ≡ count (bit x) n
unfolding count weight
weight-count zero x = refl
weight-count (suc n) x =
    let more : weight (n + 1) x ≡ weight n x + weight 1 (x / 2 ^ n) = weight-add n 1 x in
    let same : weight (suc n) x ≡ weight (n + 1) x =
      ap (λ k. weight k x) {x = suc n} {y = n + 1} (omega arith) in
    let digit : weight 1 (x / 2 ^ n) ≡ (if bit x n then 1 else 0) = last_digit x n in
    same ∙ omega (arith, more, weight-count n x, digit)

-- A whole word, and the last one.
word-count :
    (m : WordMemory) (map i : ℕ)
    → IsWords m
    → hweight32 (m (map + i)) ≡ count (λ k. member m map (32 * i + k)) 32
word-count m map i w =
    hweight32_lem (m (map + i)) (w (map + i))
    ∙ weight-count 32 (m (map + i))
    ∙ count_ext (bit (m (map + i))) (λ k. member m map (32 * i + k)) 32
        (λ k h. sym (member_at m map i k h))

last-count :
    (m : WordMemory) (map i r : ℕ)
    → IsWords m
    → r ≤ 32
    → hweight32 (bit_and (m (map + i)) (2 ^ r - 1)) ≡ count (λ k. member m map (32 * i + k)) r
last-count m map i r w le =
    let x = m (map + i) in
    let g : ℕ → Bool = λ k. member m map (32 * i + k) in
    let full : r + (32 - r) ≡ 32 = omega arith in
    hweight32_lem (bit_and x (2 ^ r - 1)) (omega (arith, bit_and-le x (2 ^ r - 1), w (map + i)))
    ∙ ap (weight 32) (bit_and-mask r x)
    ∙ weight-count 32 (x % 2 ^ r)
    ∙ count_ext (bit (x % 2 ^ r)) (λ k. ltb k r && g k) 32
        (λ k h. ground (arith, bit-mod r k x, member_at m map i k h))
    ∙ ap (count (λ k. ltb k r && g k)) (sym full)
    ∙ count-cut g r (32 - r)

weight_words-count :
    (m : WordMemory) (map n j p w : ℕ)
    → IsWords m
    → p ≡ map + j
    → w ≡ count (member m map) (32 * j)
    → weight_words n p m w ≡ count (member m map) (32 * (j + n))
unfolding weight_words
weight_words-count m map zero j p w ws ep e = e ∙ ap (count (member m map)) (omega arith)
weight_words-count m map (suc n) j p w ws ep e =
    let one : hweight32 (m p) ≡ count (λ k. member m map (32 * j + k)) 32 =
      ap (λ q. hweight32 (m q)) ep ∙ word-count m map j ws in
    let step : count (member m map) (32 * (j + 1)) ≡ count (member m map) (32 * j + 32) =
      ap (count (member m map)) (omega arith) in
    weight_words-count m map n (j + 1) (p + 1) (w + hweight32 (m p)) ws (omega arith)
      (omega (arith, e, one, step, count-add (member m map) (32 * j) 32))
    ∙ ap (count (member m map)) (omega arith)

-- `bitmap_weight` answers how many of the `bits` bits are set.
pub bitmap_weight-count :
    (map bits : ℕ) (m : WordMemory)
    → IsWords m
    → bitmap_weight map bits m ≡ count (member m map) bits
unfolding bitmap_weight bitmap_last_word_mask
bitmap_weight-count map bits m w =
    let k = bits / 32 in
    let r = bits % 32 in
    let whole : weight_words k map m 0 ≡ count (member m map) (32 * (0 + k)) =
      weight_words-count m map k 0 map 0 w (omega arith) (unfold count in refl) in
    elim (Bool-cases (r == 0)) [
      | inl z ↦ rw z (whole ∙ ap (count (member m map)) (ground arith))
      | inr z ↦
          let split : count (member m map) bits ≡ count (member m map) (32 * k + r) =
            ap (count (member m map)) (omega arith) in
          let flat : count (member m map) (32 * (0 + k)) ≡ count (member m map) (32 * k) =
            ap (count (member m map)) (omega arith) in
          rw z (
            omega (
              arith,
              whole,
              flat,
              split,
              last-count m map k r w (omega arith),
              count-add (member m map) (32 * k) r,
            ))
    ]
