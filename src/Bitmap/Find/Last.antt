-- ===== src/Bitmap/Find/Last.antt =====
-- bitmap_find_last_bit.
use Prim.Native.Nat.{bit_and}
use mathlib.Core.Path.{subst}
use aim_mips.Prelude.{
  ℕ, zero, suc, ◌+◌, ◌-◌, ◌*◌, ◌/◌, ◌%◌, ◌≤◌, ◌<◌, ◌≡◌, ◌≢◌, ◌⊎◌, inl, inr, refl, sym, ap, ◌∙◌,
  Bool, true, false, ◌==◌, ltb, leb, ◌&&◌, arith, Bool-cases,
}
use aim_mips.Prelude.Bits.{bit_and-mask}
use aim_mips.Bitops.{fls}
use aim_mips.Bitops.Last.{fls-IsHighest}
use aim_mips.Bitmap.{WordMemory, member}
use aim_mips.Bitmap.Pointwise.{IsWords}
use aim_mips.Bitmap.Find.{ones_below, find_last_from, bitmap_find_last_bit}
use aim_mips.Bitmap.Find.Word.{IsCut, cut-none}
use aim_mips.Bitmap.Find.Next.{word-IsCut, below-IsCut}

-- `ans` is one more than the last index below `hi` where `g` holds, or `size` if there is none.
pub record IsLast (g : ℕ → Bool) (hi size ans : ℕ) : Type 0 where
  pub verdict :
      ((ans ≡ size) × ((n : ℕ) → n < hi → g n ≡ false))
      ⊎ ((1 ≤ ans) × (ans ≤ hi) × (g (ans - 1) ≡ true) × ((n : ℕ) → ans ≤ n → n < hi → g n ≡ false))

cut-IsLast :
    (g : ℕ → Bool) (j s x size ans : ℕ)
    → IsCut g j 0 s x
    → x ≢ 0
    → s ≤ 32
    → ans ≡ j * 32 + fls x
    → IsLast g (32 * j + s) size ans
cut-IsLast g j s x size ans c ne le e =
    let (o, top, h) = fls-IsHighest x ne c.small in
    let i = fls x - 1 in
    let d : (leb 0 i && (ltb i s && g (32 * j + i))) ≡ true =
      sym (c.digits i (omega (arith, top, o))) ∙ h.here in
    let here : g (32 * j + i) ≡ g (ans - 1) = ap g (omega (arith, o)) in
    record {
      verdict = inr (
        omega (arith, o),
        (ground (arith, d, o)),
        ground (arith, d, here),
        λ n p q.
            let k = n - 32 * j in
            let back : g (32 * j + k) ≡ g n = ap g (omega arith) in
            let f = c.digits k (omega arith) in
            let b = h.above k (omega (arith, o)) in ground (arith, f, b, back),
      );
    }

-- Nothing from `mid` on.
earlier-IsLast :
    (g : ℕ → Bool) (mid hi size ans : ℕ)
    → ((n : ℕ) → mid ≤ n → n < hi → g n ≡ false)
    → mid ≤ hi
    → IsLast g mid size ans
    → IsLast g hi size ans
earlier-IsLast g mid hi size ans none le l = record {
  verdict = elim l.verdict [
    | inl (e, f) ↦ inl (
      e,
      λ n h. elim (Bool-cases (ltb n mid)) [
        | inl k ↦ f n (ground arith)
        | inr k ↦ none n (ground arith) h
      ],
    )
    | inr (o, b, h, f) ↦ inr (
      o,
      omega arith,
      h,
      λ n p q. elim (Bool-cases (ltb n mid)) [
        | inl k ↦ f n p (ground arith)
        | inr k ↦ none n (ground arith) q
      ],
    )
  ];
}

find_last_from-IsLast :
    (m : WordMemory) (words addr size : ℕ)
    → IsWords m
    → IsLast (member m addr) (32 * words) size (find_last_from words addr size m)
unfolding find_last_from
find_last_from-IsLast m zero addr size w = record {
  verdict = inl (refl, λ n h. absurd (omega arith));
}
find_last_from-IsLast m (suc words) addr size w =
    let g = member m addr in
    let x = m (addr + words) in
    let c = word-IsCut m addr words w in
    let next : 32 * words + 32 ≡ 32 * suc words = omega arith in
    elim (Bool-cases (x == 0)) [
      | inl z ↦ rw z (
          earlier-IsLast g (32 * words) (32 * suc words) size _
            (λ n p q.
              cut-none g words 0 32 x c (ground arith) (omega arith) n (omega arith) (omega arith))
            (omega arith) (find_last_from-IsLast m words addr size w))
      | inr z ↦ rw z (
          subst (λ h. IsLast g h size (words * 32 + fls x)) next
            (cut-IsLast g words 32 x size (words * 32 + fls x) c (λ y. ground arith) (omega arith)
              refl))
    ]

-- `bitmap_find_last_bit` answers the last set bit below `size`, counted from 1, and `size` when there is
-- none.
pub bitmap_find_last_bit-IsLast :
    (m : WordMemory) (addr size : ℕ)
    → IsWords m
    → IsLast (member m addr) size size (bitmap_find_last_bit addr size m)
unfolding bitmap_find_last_bit
bitmap_find_last_bit-IsLast m addr size w =
    let g = member m addr in
    let words = size / 32 in
    let r = size % 32 in
    let low : bit_and size (32 - 1) ≡ r = bit_and-mask 5 size in
    let x = bit_and (m (addr + words)) (ones_below r) in
    let cut =
      below-IsCut g words 0 r (m (addr + words)) (omega arith) (word-IsCut m addr words w) in
    let top : 32 * words + r ≡ size = omega arith in
    let rest = find_last_from-IsLast m words addr size w in
    elim (Bool-cases (r == 0)) [
      | inl z ↦
          let flat : 32 * words ≡ size = ground arith in
          rw (low, z) (subst (λ h. IsLast g h size (find_last_from words addr size m)) flat rest)
      | inr z ↦ elim (Bool-cases (x == 0)) [
        | inl y ↦
            rw (low, z, y)
              (earlier-IsLast g (32 * words) size size _
                (λ n p q.
                  cut-none g words 0 r x cut (ground arith) (omega arith) n (omega arith)
                    (omega arith))
                (omega arith) rest)
        | inr y ↦
            rw (low, z, y)
              (subst (λ h. IsLast g h size (words * 32 + fls x)) top
                (cut-IsLast g words r x size (words * 32 + fls x) cut (λ n. ground arith)
                  (omega arith) refl))
      ]
    ]
