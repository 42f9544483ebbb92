-- ===== src/Bitmap/Shift/Left.antt =====
-- What bitmap_shift_left does to each bit.
use Prim.Native.Nat.{bit_or}
use aim_mips.Prelude.{
  ℕ, zero, suc, ◌+◌, ◌-◌, ◌*◌, ◌/◌, ◌%◌, ◌^◌, ◌≤◌, ◌<◌, ◌≡◌, ◌⊎◌, inl, inr, refl, sym, ap, ◌∙◌,
  Bool, true, false, not, ◌==◌, ltb, leb, ◌&&◌, ◌||◌, if◌then◌else◌, arith, Bool-cases,
}
use aim_mips.Prelude.Bits.{
  bit, bit-and, bit-or, bit-zero, bit-high, bit-mod, bit-ones, bit-shr, bit-shl,
}
use aim_mips.Bitmap.{WordMemory, store, member, bits_to_longs, fill_words}
use aim_mips.Bitmap.Combine.{kept, written}
use aim_mips.Bitmap.Pointwise.{IsWords, member_at}
use aim_mips.Bitmap.Fill.{fill_words-IsFilled}
use aim_mips.Bitmap.Shift.{cut_last, left_word, left_loop, bitmap_shift_left}

-- The cut removes no bit of the map.
pub bit-cut_last :
    (bits lim k x j : ℕ)
    → lim ≡ bits_to_longs bits
    → 32 * k + j < bits
    → j < 32
    → bit (cut_last lim (bits % 32) k x) j ≡ bit x j
unfolding cut_last bits_to_longs
bit-cut_last bits lim k x j e h l = elim (Bool-cases (not (bits % 32 == 0) && k == lim - 1)) [
  | inl c ↦ rw c (ground (arith, bit-and j x (2 ^ (bits % 32) - 1), bit-ones (bits % 32) j))
  | inr c ↦ rw c refl
]

-- The digits of a word that is shifted in from another one.
pub carried_up :
    (lower rem j : ℕ) → lower < 2 ^ 32 → rem ≤ j → rem < 32 → bit (lower / 2 ^ (32 - rem)) j ≡ false
carried_up lower rem j h le l =
    bit-shr (32 - rem) j lower ∙ bit-high 32 (j + (32 - rem)) lower h (omega arith)

upper-bit :
    (src off rem lim bits i j : ℕ) (m : WordMemory)
    → lim ≡ bits_to_longs bits
    → rem ≤ j
    → j < 32
    → 32 * (i + off) + j < bits
    → bit (cut_last lim (bits % 32) i (m (src + i)) * 2 ^ rem % 2 ^ 32) j
      ≡ member m src (32 * i + j - rem)
upper-bit src off rem lim bits i j m e le jl h =
    let upper = cut_last lim (bits % 32) i (m (src + i)) in
    let place : 32 * i + (j - rem) ≡ 32 * i + j - rem = omega arith in
    ground (
      arith,
      bit-mod 32 j (upper * 2 ^ rem),
      bit-shl rem j upper,
      bit-cut_last bits lim i (m (src + i)) (j - rem) e (omega arith) (omega arith),
      member_at m src i (j - rem) (omega arith),
      ap (member m src) place,
    )

lower-bit :
    (src rem i j : ℕ) (m : WordMemory)
    → j < rem
    → rem < 32
    → bit ((if not (rem == 0) && ltb 0 i then m (src + i - 1) else 0) / 2 ^ (32 - rem)) j
      ≡ (leb rem (32 * i + j) && member m src (32 * i + j - rem))
lower-bit src rem i j m lt rl = elim (Bool-cases (ltb 0 i)) [
  | inl p ↦
      let some : (not (rem == 0) && ltb 0 i) ≡ true = ground arith in
      let word : m (src + i - 1) ≡ m (src + (i - 1)) = ap m (ground arith) in
      let place : 32 * (i - 1) + (j + (32 - rem)) ≡ 32 * i + j - rem = ground arith in
      rw some (
        bit-shr (32 - rem) j (m (src + i - 1))
        ∙ ap (λ x. bit x (j + (32 - rem))) word
        ∙ sym (member_at m src (i - 1) (j + (32 - rem)) (omega arith))
        ∙ ground (arith, ap (member m src) place))
  | inr p ↦
      let none : (not (rem == 0) && ltb 0 i) ≡ false = ground arith in
      rw none (bit-shr (32 - rem) j 0 ∙ bit-zero (j + (32 - rem)) ∙ ground arith)
]

left_word-bit :
    (src off rem lim bits i j : ℕ) (m : WordMemory)
    → IsWords m
    → lim ≡ bits_to_longs bits
    → rem < 32
    → j < 32
    → 32 * (i + off) + j < bits
    → bit (left_word src off rem lim (bits % 32) i m) j
      ≡ (leb rem (32 * i + j) && member m src (32 * i + j - rem))
unfolding left_word
left_word-bit src off rem lim bits i j m w e rl jl h =
    let lower : ℕ = if not (rem == 0) && ltb 0 i then m (src + i - 1) else 0 in
    let upper = cut_last lim (bits % 32) i (m (src + i)) in
    let v = bit_or (lower / 2 ^ (32 - rem)) (upper * 2 ^ rem % 2 ^ 32) in
    let lower-lt : lower < 2 ^ 32 = ground (arith, w (src + i - 1)) in
    bit-cut_last bits lim (i + off) v j e h jl
    ∙ bit-or j (lower / 2 ^ (32 - rem)) (upper * 2 ^ rem % 2 ^ 32)
    ∙ elim (Bool-cases (leb rem j)) [
      | inl le ↦
          let l = carried_up lower rem j lower-lt (ground arith) rl in
          let u = upper-bit src off rem lim bits i j m e (ground arith) jl h in
          rw (l, u) (ground arith)
      | inr gt ↦
          let u : bit (upper * 2 ^ rem % 2 ^ 32) j ≡ false =
            ground (arith, bit-mod 32 j (upper * 2 ^ rem), bit-shl rem j upper) in
          let l = lower-bit src rem i j m (ground arith) rl in
          rw (u, l) (or-false (leb rem (32 * i + j) && member m src (32 * i + j - rem)))
    ]
  where
    or-false : (x : Bool) → (x || false) ≡ x
    or-false true = refl
    or-false false = refl

left_word_ext :
    (src off rem lim left i : ℕ) (m m1 : WordMemory)
    → m1 (src + i) ≡ m (src + i)
    → (0 < i → m1 (src + i - 1) ≡ m (src + i - 1))
    → left_word src off rem lim left i m1 ≡ left_word src off rem lim left i m
unfolding left_word
left_word_ext src off rem lim left i m m1 e f = elim (Bool-cases (ltb 0 i)) [
  | inl p ↦ rw (e, f (ground arith)) refl
  | inr p ↦ let none : (not (rem == 0) && ltb 0 i) ≡ false = ground arith in rw (none, e) refl
]

-- The loop reads each word of `src` before it is written over.
record IsShifted (src dst off rem lim left k : ℕ) (m m' : WordMemory) : Type 0 where
  inside : (i : ℕ) → i < k → m' (dst + (i + off)) ≡ left_word src off rem lim left i m
  outside : (a : ℕ) → (a < dst + off) ⊎ (dst + (k + off) ≤ a) → m' a ≡ m a

left_loop-IsShifted :
    (k dst src off rem lim left : ℕ) (m : WordMemory)
    → (src ≤ dst) ⊎ (dst + (k + off) ≤ src)
    → IsShifted src dst off rem lim left k m (left_loop k dst src off rem lim left m)
unfolding left_loop
left_loop-IsShifted zero dst src off rem lim left m p = record {
  inside = λ i h. absurd (omega arith);
  outside = λ a h. refl;
}
left_loop-IsShifted (suc k) dst src off rem lim left m p =
    let v = left_word src off rem lim left k m in
    let m1 = store (dst + (k + off)) v m in
    let q : (src ≤ dst) ⊎ (dst + (k + off) ≤ src) = elim p [
      | inl l ↦ inl l
      | inr l ↦ inr (omega arith)
    ] in
    let rest = left_loop-IsShifted k dst src off rem lim left m1 q in
    let end = left_loop k dst src off rem lim left m1 in
    let unread : (a : ℕ) → (a < src + k) → src ≤ a → m1 a ≡ m a = λ a h g.
      kept (dst + (k + off)) v a m (λ e. elim p [ inl l ↦ omega arith | inr l ↦ omega arith ]) in
    record {
      inside = λ i h. elim (Bool-cases (i == k)) [
        | inl e ↦
            let same : i ≡ k = ground arith in
            ap (λ x. end (dst + (x + off))) same
            ∙ rest.outside (dst + (k + off)) (inr (omega arith))
            ∙ written (dst + (k + off)) v m
            ∙ ap (λ x. left_word src off rem lim left x m) (sym same)
        | inr e ↦
            rest.inside i (ground arith)
            ∙ left_word_ext src off rem lim left i m m1
                (unread (src + i) (ground arith) (omega arith))
                (λ z. unread (src + i - 1) (ground arith) (omega arith))
      ];
      outside = λ a h.
          rest.outside a (elim h [ inl l ↦ inl l | inr l ↦ inr (omega arith) ])
          ∙ kept (dst + (k + off)) v a m
              (λ e. elim h [ inl l ↦ omega arith | inr l ↦ omega arith ]);
    }

-- `bitmap_shift_left` moves each bit of the map up by `shift`; the bits below `shift` are clear. `dst` may
-- be `src` or start above it, or end below it.
pub bitmap_shift_left-member :
    (dst src shift bits n : ℕ) (m : WordMemory)
    → IsWords m
    → (src ≤ dst) ⊎ (dst + (bits_to_longs bits + shift / 32) ≤ src)
    → n < bits
    → member (bitmap_shift_left dst src shift bits m) dst n
      ≡ (leb shift n && member m src (n - shift))
unfolding bitmap_shift_left
bitmap_shift_left-member dst src shift bits n m w p h =
    let lim = bits_to_longs bits in
    let off = shift / 32 in
    let rem = shift % 32 in
    let k = lim - off in
    let shifted = left_loop k dst src off rem lim (bits % 32) m in
    let l =
      left_loop-IsShifted k dst src off rem lim (bits % 32) m
        (elim p [ inl a ↦ inl a | inr a ↦ inr (omega arith) ]) in
    let f = fill_words-IsFilled off dst 0 shifted in
    elim (Bool-cases (ltb (n / 32) off)) [
      | inl b ↦
          unfold member in
          (ap (λ x. bit x (n % 32)) (f.inside (n / 32) (ground arith)) ∙ bit-zero (n % 32))
          ∙ ground arith
      | inr b ↦
          let i = n / 32 - off in
          let back : dst + n / 32 ≡ dst + (i + off) = ground arith in
          let index : 32 * i + n % 32 - rem ≡ n - shift = ground arith in
          unfold member in
          (ap (λ a. bit (fill_words off dst 0 shifted a) (n % 32)) back
            ∙ ap (λ x. bit x (n % 32))
                (f.outside (dst + (i + off)) (inr (omega arith))
                  ∙ l.inside i (in_range bits n off b h)))
          ∙ left_word-bit src off rem lim bits i (n % 32) m w refl (omega arith) (omega arith)
              (ground arith)
          ∙ ground (arith, ap (member m src) index)
    ]
  where
    in_range :
        (bits n off : ℕ)
        → ltb (n / 32) off ≡ false
        → n < bits
        → n / 32 - off < bits_to_longs bits - off
    in_range bits n off b h = unfold bits_to_longs in (ground arith)
