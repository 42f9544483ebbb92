-- ===== src/Bitmap/Pointwise.antt =====
-- What the word loops do to each bit.
use Prim.Native.Nat.{bit_and, bit_or, bit_xor}
use aim_mips.Prelude.{
  ℕ, ◌+◌, ◌-◌, ◌*◌, ◌/◌, ◌%◌, ◌^◌, ◌≤◌, ◌<◌, ◌≡◌, ◌⊎◌, ◌↔◌, inl, inr, refl, sym, ap, ◌∙◌, Bool,
  false, not, ltb, ◌&&◌, ◌||◌, arith, Bool-cases,
}
use mathlib.Core.Path.{ap₂}
use mathlib.Core.Bool.{xor}
use aim_mips.Prelude.Bits.{
  bit, bit-and, bit-or, bit-xor, bit-zero, bit-complement, bit-high, bit-mod, bit_ext,
}
use aim_mips.Bitops.{complement}
use aim_mips.Bitmap.{WordMemory, member, bits_to_longs}
use aim_mips.Bitmap.Combine.{
  combine, Apart, IsCombined, combine-IsCombined, bitmap_and, bitmap_andnot, bitmap_or, bitmap_xor,
}

-- Every word has 32 digits.
abbrev pub IsWords : WordMemory → Type 0
IsWords m = (a : ℕ) → m a < 2 ^ 32

-- `x | y` has 32 digits when `x` and `y` have.
pub or-lt : (x y : ℕ) → x < 2 ^ 32 → y < 2 ^ 32 → bit_or x y < 2 ^ 32
or-lt x y p q =
    let e : bit_or x y ≡ bit_or x y % 2 ^ 32 = bit_ext (bit_or x y) (bit_or x y % 2 ^ 32) λ i.
      ground
        (arith, bit-mod 32 i (bit_or x y), bit-or i x y, bit-high 32 i x p, bit-high 32 i y q) in
    omega (arith, e)

-- The bits of `dst` are `g` of those of `b1` and `b2`, and no other word has changed.
pub record IsPointwise (g : Bool → Bool → Bool) (dst b1 b2 bits : ℕ) (m m' : WordMemory)
    : Type 0 where
  pub members : (n : ℕ) → n < bits → member m' dst n ≡ g (member m b1 n) (member m b2 n)
  pub outside : (a : ℕ) → (a < dst) ⊎ (dst + bits_to_longs bits ≤ a) → m' a ≡ m a

abbrev pub IsDigitwise : (ℕ → ℕ → ℕ) → (Bool → Bool → Bool) → Type 0
IsDigitwise f g =
    (i a b : ℕ) → i < 32 → a < 2 ^ 32 → b < 2 ^ 32 → bit (f a b) i ≡ g (bit a i) (bit b i)

-- The array has a word for each of the bits.
word-in_range : (n bits : ℕ) → n < bits → n / 32 < bits_to_longs bits
unfolding bits_to_longs
word-in_range n bits h = omega arith

combine-IsPointwise :
    (f : ℕ → ℕ → ℕ) (g : Bool → Bool → Bool) (dst b1 b2 bits : ℕ) (m : WordMemory)
    (end : WordMemory × ℕ)
    → IsDigitwise f g
    → IsWords m
    → IsCombined f (bits_to_longs bits) dst b1 b2 m 0 end
    → IsPointwise g dst b1 b2 bits m (end.0)
unfolding member
combine-IsPointwise f g dst b1 b2 bits m end d w c = record {
  members = λ n h.
      ap (λ x. bit x (n % 32)) (c.inside (n / 32) (word-in_range n bits h))
      ∙ d (n % 32) (m (b1 + n / 32)) (m (b2 + n / 32)) (omega arith) (w (b1 + n / 32))
          (w (b2 + n / 32));
  outside = c.outside;
}

pub and_not-IsDigitwise : IsDigitwise (λ v w. bit_and v (complement w)) (λ x y. x && not y)
unfolding complement
and_not-IsDigitwise i a b h p q =
    bit-and i a (2 ^ 32 - 1 - b) ∙ ap (λ x. bit a i && x) (bit-complement 32 i b q h)

-- `bitmap_and`, `bitmap_andnot`, `bitmap_or` and `bitmap_xor` leave in each bit of `dst` the Boolean
-- operation of the two bits of the operands, and change no word outside `dst`. An operand may be `dst`
-- or start above it; one that starts below ends before it.
pub bitmap_ops-IsPointwise :
    (dst b1 b2 bits : ℕ) (m : WordMemory)
    → IsWords m
    → Apart (bits_to_longs bits) dst b1
    → Apart (bits_to_longs bits) dst b2
    → IsPointwise (◌&&◌) dst b1 b2 bits m ((bitmap_and dst b1 b2 bits m).0)
      × IsPointwise (λ x y. x && not y) dst b1 b2 bits m ((bitmap_andnot dst b1 b2 bits m).0)
      × IsPointwise (◌||◌) dst b1 b2 bits m (bitmap_or dst b1 b2 bits m)
      × IsPointwise xor dst b1 b2 bits m (bitmap_xor dst b1 b2 bits m)
unfolding bitmap_and bitmap_andnot bitmap_or bitmap_xor
bitmap_ops-IsPointwise dst b1 b2 bits m w p q =
    let by : (f : ℕ → ℕ → ℕ) (g : Bool → Bool → Bool)
        → IsDigitwise f g
        → IsPointwise g dst b1 b2 bits m ((combine f (bits_to_longs bits) dst b1 b2 m 0).0) =
      λ f g d.
        combine-IsPointwise f g dst b1 b2 bits m (combine f (bits_to_longs bits) dst b1 b2 m 0) d w
          (combine-IsCombined f (bits_to_longs bits) dst b1 b2 m 0 p q) in
    (
      by bit_and (◌&&◌) (λ i a b h x y. bit-and i a b),
      by (λ v w. bit_and v (complement w)) (λ x y. x && not y) and_not-IsDigitwise,
      by bit_or (◌||◌) (λ i a b h x y. bit-or i a b),
      by bit_xor xor (λ i a b h x y. bit-xor i a b),
    )

-- Digit `k` of word `i`.
pub member_at :
    (m : WordMemory) (map i k : ℕ) → k < 32 → member m map (32 * i + k) ≡ bit (m (map + i)) k
unfolding member
member_at m map i k h =
    let q : (32 * i + k) / 32 ≡ i = omega arith in
    let r : (32 * i + k) % 32 ≡ k = omega arith in ap₂ (λ j l. bit (m (map + j)) l) q r

disjoint-word :
    (m : WordMemory) (b1 b2 n : ℕ)
    → bit_and (m (b1 + n / 32)) (m (b2 + n / 32)) ≡ 0
    → (member m b1 n && member m b2 n) ≡ false
unfolding member
disjoint-word m b1 b2 n e =
    sym (bit-and (n % 32) (m (b1 + n / 32)) (m (b2 + n / 32)))
    ∙ ap (λ x. bit x (n % 32)) e
    ∙ bit-zero (n % 32)

word-disjoint :
    (m : WordMemory) (b1 b2 i : ℕ)
    → IsWords m
    → ((k : ℕ) → k < 32 → (member m b1 (32 * i + k) && member m b2 (32 * i + k)) ≡ false)
    → bit_and (m (b1 + i)) (m (b2 + i)) ≡ 0
word-disjoint m b1 b2 i w h = bit_ext (bit_and (m (b1 + i)) (m (b2 + i))) 0 λ k.
    elim (Bool-cases (ltb k 32)) [
      | inl l ↦ ground (
        arith,
        bit-zero k,
        bit-and k (m (b1 + i)) (m (b2 + i)),
        member_at m b1 i k (ground arith),
        member_at m b2 i k (ground arith),
        h k (ground arith),
      )
      | inr l ↦ ground (
        arith,
        bit-zero k,
        bit-and k (m (b1 + i)) (m (b2 + i)),
        bit-high 32 k (m (b1 + i)) (w (b1 + i)) (ground arith),
      )
    ]

-- `bitmap_and` answers no exactly when the operands have no bit in common in the `bits_to_longs bits`
-- words that it goes over, which are all of those that `DECLARE_BITMAP` reserves.
pub bitmap_and_iff :
    (dst b1 b2 bits : ℕ) (m : WordMemory)
    → IsWords m
    → Apart (bits_to_longs bits) dst b1
    → Apart (bits_to_longs bits) dst b2
    → ((bitmap_and dst b1 b2 bits m).1 ≡ false)
      ↔ ((n : ℕ) → n < 32 * bits_to_longs bits → (member m b1 n && member m b2 n) ≡ false)
unfolding bitmap_and
bitmap_and_iff dst b1 b2 bits m w p q =
    let nr = bits_to_longs bits in
    let c = combine-IsCombined bit_and nr dst b1 b2 m 0 p q in
    (
      λ e n h.
          disjoint-word m b1 b2 n
            (let (z, ws) = c.zero (ground (arith, e)) in ws (n / 32) (omega arith)),
      λ h.
          let z =
            c.all_zero refl
              (λ i l. word-disjoint m b1 b2 i w (λ k s. h (32 * i + k) (omega arith))) in
          ground (arith, z),
    )
