-- ===== src/Bitmap/Shift/Right.antt =====
-- What bitmap_shift_right does to each bit.
use Prim.Native.Nat.{bit_or}
use aim_mips.Prelude.{
  ℕ, zero, suc, ◌+◌, ◌-◌, ◌*◌, ◌/◌, ◌%◌, ◌^◌, ◌≤◌, ◌<◌, ◌≡◌, ◌⊎◌, inl, inr, refl, sym, ap, ◌∙◌,
  Bool, true, false, ◌==◌, ltb, leb, ◌||◌, if◌then◌else◌, arith, Bool-cases,
}
use aim_mips.Prelude.Bits.{bit, bit-or, bit-high, bit-mod, bit-shr, bit-shl}
use aim_mips.Bitmap.{WordMemory, store, member, bits_to_longs}
use aim_mips.Bitmap.Combine.{kept, written}
use aim_mips.Bitmap.Pointwise.{IsWords, member_at}
use aim_mips.Bitmap.Fill.{fill_words-IsFilled}
use aim_mips.Bitmap.Find.Word.{bit_and-le}
use aim_mips.Bitmap.Shift.{cut_last, right_word, right_loop, bitmap_shift_right}
use aim_mips.Bitmap.Shift.Left.{bit-cut_last}

cut_last-le : (lim left k x : ℕ) → cut_last lim left k x ≤ x
unfolding cut_last
cut_last-le lim left k x = ground (arith, bit_and-le x (2 ^ left - 1))

-- The part from the word above is empty below the seam.
upper-none : (upper rem j : ℕ) → j + rem < 32 → bit (upper * 2 ^ (32 - rem) % 2 ^ 32) j ≡ false
upper-none upper rem j h =
    ground (arith, bit-mod 32 j (upper * 2 ^ (32 - rem)), bit-shl (32 - rem) j upper)

lower-some :
    (src rem lim bits i j : ℕ) (m : WordMemory)
    → lim ≡ bits_to_longs bits
    → j + rem < 32
    → 32 * i + j + rem < bits
    → bit (cut_last lim (bits % 32) i (m (src + i)) / 2 ^ rem) j ≡ member m src (32 * i + j + rem)
lower-some src rem lim bits i j m e h b =
    let place : 32 * i + (j + rem) ≡ 32 * i + j + rem = omega arith in
    bit-shr rem j (cut_last lim (bits % 32) i (m (src + i)))
    ∙ bit-cut_last bits lim i (m (src + i)) (j + rem) e (omega arith) h
    ∙ sym (member_at m src i (j + rem) h)
    ∙ ap (member m src) place

lower-none : (x rem j : ℕ) → x < 2 ^ 32 → 32 ≤ j + rem → bit (x / 2 ^ rem) j ≡ false
lower-none x rem j l h = bit-shr rem j x ∙ bit-high 32 (j + rem) x l h

upper-some :
    (src rem lim bits i j : ℕ) (m : WordMemory)
    → lim ≡ bits_to_longs bits
    → j < 32
    → rem < 32
    → 32 ≤ j + rem
    → 32 * i + j + rem < bits
    → bit
        ((if rem == 0 || leb lim (i + 1)
            then 0
            else cut_last lim (bits % 32) (i + 1) (m (src + (i + 1))))
          * 2 ^ (32 - rem)
          % 2 ^ 32)
        j
      ≡ member m src (32 * i + j + rem)
unfolding bits_to_longs
upper-some src rem lim bits i j m e jl rl h b =
    let present : (rem == 0 || leb lim (i + 1)) ≡ false = ground arith in
    let x = cut_last lim (bits % 32) (i + 1) (m (src + (i + 1))) in
    let k = j - (32 - rem) in
    let place : 32 * (i + 1) + k ≡ 32 * i + j + rem = omega arith in
    rw present (
      bit-mod 32 j (x * 2 ^ (32 - rem))
      ∙ ground (
        arith,
        bit-shl (32 - rem) j x,
        bit-cut_last bits lim (i + 1) (m (src + (i + 1))) k e (omega arith) (omega arith),
        member_at m src (i + 1) k (omega arith),
        ap (member m src) place,
      ))

right_word-bit :
    (src off rem lim bits k j : ℕ) (m : WordMemory)
    → IsWords m
    → lim ≡ bits_to_longs bits
    → rem < 32
    → j < 32
    → 32 * (off + k) + j + rem < bits
    → bit (right_word src off rem lim (bits % 32) k m) j ≡ member m src (32 * (off + k) + j + rem)
unfolding right_word
right_word-bit src off rem lim bits k j m w e rl jl h =
    let i = off + k in
    let upper : ℕ =
      if rem == 0 || leb lim (i + 1)
      then 0
      else cut_last lim (bits % 32) (i + 1) (m (src + (i + 1))) in
    let lower = cut_last lim (bits % 32) i (m (src + i)) in
    bit-cut_last bits lim k (bit_or (upper * 2 ^ (32 - rem) % 2 ^ 32) (lower / 2 ^ rem)) j e
      (omega arith) jl
    ∙ bit-or j (upper * 2 ^ (32 - rem) % 2 ^ 32) (lower / 2 ^ rem)
    ∙ elim (Bool-cases (ltb (j + rem) 32)) [
      | inl s ↦
          let u = upper-none upper rem j (ground arith) in
          let l = lower-some src rem lim bits i j m e (ground arith) h in rw (u, l) refl
      | inr s ↦
          let u = upper-some src rem lim bits i j m e jl rl (ground arith) h in
          let l =
            lower-none lower rem j
              (omega (arith, cut_last-le lim (bits % 32) i (m (src + i)), w (src + i)))
              (ground arith) in
          rw (u, l) (or-false (member m src (32 * i + j + rem)))
    ]
  where
    or-false : (x : Bool) → (x || false) ≡ x
    or-false true = refl
    or-false false = refl

right_word_ext :
    (src off rem lim left k : ℕ) (m m1 : WordMemory)
    → ((a : ℕ) → src + (off + k) ≤ a → a < src + (off + k + 2) → a < src + lim → m1 a ≡ m a)
    → off + k < lim
    → right_word src off rem lim left k m1 ≡ right_word src off rem lim left k m
unfolding right_word
right_word_ext src off rem lim left k m m1 same h =
    let low = same (src + (off + k)) (omega arith) (omega arith) (omega arith) in
    elim (Bool-cases (rem == 0 || leb lim (off + k + 1))) [
      | inl p ↦ rw (p, low) refl
      | inr p ↦
          let high = same (src + (off + k + 1)) (omega arith) (omega arith) (ground arith) in
          rw (p, low, high) refl
    ]

record IsShifted (src dst off rem lim left k n : ℕ) (m m' : WordMemory) : Type 0 where
  inside : (i : ℕ) → k ≤ i → i < k + n → m' (dst + i) ≡ right_word src off rem lim left i m
  outside : (a : ℕ) → (a < dst + k) ⊎ (dst + (k + n) ≤ a) → m' a ≡ m a

right_loop-IsShifted :
    (n k dst src off rem lim left : ℕ) (m : WordMemory)
    → (dst ≤ src + off) ⊎ (src + lim ≤ dst)
    → k + n ≡ lim - off
    → IsShifted src dst off rem lim left k n m (right_loop n k dst src off rem lim left m)
unfolding right_loop
right_loop-IsShifted zero k dst src off rem lim left m p e = record {
  inside = λ i g h. absurd (omega arith);
  outside = λ a h. refl;
}
right_loop-IsShifted (suc n) k dst src off rem lim left m p e =
    let v = right_word src off rem lim left k m in
    let m1 = store (dst + k) v m in
    let rest = right_loop-IsShifted n (k + 1) dst src off rem lim left m1 p (omega arith) in
    let end = right_loop n (k + 1) dst src off rem lim left m1 in
    let unread : (a : ℕ) → src + (off + k) < a → a < src + lim → m1 a ≡ m a =
      λ a g h. kept (dst + k) v a m (λ z. elim p [ inl l ↦ omega arith | inr l ↦ omega arith ]) in
    record {
      inside = λ i g h. elim (Bool-cases (i == k)) [
        | inl z ↦
            let same : i ≡ k = ground arith in
            ap (λ x. end (dst + x)) same
            ∙ rest.outside (dst + k) (inl (omega arith))
            ∙ written (dst + k) v m
            ∙ ap (λ x. right_word src off rem lim left x m) (sym same)
        | inr z ↦
            rest.inside i (ground arith) (omega arith)
            ∙ right_word_ext src off rem lim left i m m1 (λ a b c d. unread a (ground arith) d)
                (omega arith)
      ];
      outside = λ a h.
          rest.outside a (elim h [ inl l ↦ inl (omega arith) | inr l ↦ inr (omega arith) ])
          ∙ kept (dst + k) v a m (λ z. elim h [ inl l ↦ omega arith | inr l ↦ omega arith ]);
    }

-- `bitmap_shift_right` moves the bits of the map from `shift` on down by `shift`. `dst` may be `src` or
-- start below it, or start after its end.
pub bitmap_shift_right-member :
    (dst src shift bits n : ℕ) (m : WordMemory)
    → IsWords m
    → (dst ≤ src + shift / 32) ⊎ (src + bits_to_longs bits ≤ dst)
    → n + shift < bits
    → member (bitmap_shift_right dst src shift bits m) dst n ≡ member m src (n + shift)
unfolding bitmap_shift_right
bitmap_shift_right-member dst src shift bits n m w p h =
    let lim = bits_to_longs bits in
    let off = shift / 32 in
    let rem = shift % 32 in
    let i = n / 32 in
    let shifted = right_loop (lim - off) 0 dst src off rem lim (bits % 32) m in
    let r = right_loop-IsShifted (lim - off) 0 dst src off rem lim (bits % 32) m p (omega arith) in
    let f = fill_words-IsFilled off (dst + lim - off) 0 shifted in
    let few = in_range bits n shift h in
    let index : 32 * (off + i) + n % 32 + rem ≡ n + shift = omega arith in
    unfold member in
    (ap (λ x. bit x (n % 32))
      (f.outside (dst + i) (inl (omega (arith, few)))
        ∙ r.inside i (omega arith) (omega (arith, few))))
    ∙ right_word-bit src off rem lim bits i (n % 32) m w refl (omega arith) (omega arith)
        (omega arith)
    ∙ ap (member m src) index
  where
    in_range : (bits n shift : ℕ) → n + shift < bits → n / 32 + shift / 32 < bits_to_longs bits
    in_range bits n shift h = unfold bits_to_longs in (omega arith)
