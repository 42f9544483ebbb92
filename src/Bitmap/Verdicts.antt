-- ===== src/Bitmap/Verdicts.antt =====
-- What the four tests on bitmaps decide.
use Prim.Native.Nat.{bit_and, bit_xor}
use aim_mips.Prelude.{
  ℕ, ◌-◌, ◌^◌, ◌≤◌, ◌<◌, ◌≡◌, ◌≢◌, ◌↔◌, inl, inr, refl, sym, ap, ◌∙◌, Bool, true, false, not, ◌==◌,
  ◌&&◌, if◌then◌else◌, arith, Bool-cases,
}
use mathlib.Core.Bool.{xor}
use aim_mips.Prelude.Bits.{bit, bit-and, bit-xor, bit-zero, bit-complement, bit-high, bit_ext}
use aim_mips.Bitops.{complement}
use aim_mips.Bitmap.{WordMemory, member}
use aim_mips.Bitmap.Pointwise.{IsWords, IsDigitwise, and_not-IsDigitwise}
use aim_mips.Bitmap.Decide.{
  some_bit, some_bit_iff, bitmap_equal, bitmap_intersects, bitmap_subset, bitmap_full,
}

xor_same : (x y : Bool) → xor x y ≡ false → x ≡ y
unfolding xor
xor_same true true h = refl
xor_same false false h = refl
xor_same true false h = h
xor_same false true h = sym h

xor_self : (x : Bool) → xor x x ≡ false
unfolding xor
xor_self true = refl
xor_self false = refl

differ_test : (a b : ℕ) → not (a == b) ≡ not (bit_xor a b == 0)
differ_test a b = elim (Bool-cases (a == b)) [
  | inl e ↦
      let same : a ≡ b = ground arith in
      let z : bit_xor a b ≡ 0 = bit_ext (bit_xor a b) 0 λ i.
        bit-xor i a b
        ∙ ap (λ c. xor (bit c i) (bit b i)) same
        ∙ xor_self (bit b i)
        ∙ sym (bit-zero i) in
      ground (arith, z)
  | inr e ↦
      let ne : bit_xor a b ≢ 0 = λ z.
        let same : a ≡ b = bit_ext a b λ i.
          xor_same (bit a i) (bit b i) (sym (bit-xor i a b) ∙ ap (λ c. bit c i) z ∙ bit-zero i) in
        ground arith in
      ground arith
]

xor-short : (a b i : ℕ) → a < 2 ^ 32 → b < 2 ^ 32 → 32 ≤ i → bit (bit_xor a b) i ≡ false
unfolding xor
xor-short a b i p q h = bit-xor i a b ∙ rw (bit-high 32 i a p h, bit-high 32 i b q h) refl

and-short : (a b i : ℕ) → a < 2 ^ 32 → b < 2 ^ 32 → 32 ≤ i → bit (bit_and a b) i ≡ false
and-short a b i p q h = bit-and i a b ∙ rw (bit-high 32 i a p h) refl

and_not-short :
    (a b i : ℕ) → a < 2 ^ 32 → b < 2 ^ 32 → 32 ≤ i → bit (bit_and a (complement b)) i ≡ false
and_not-short a b i p q h = bit-and i a (complement b) ∙ rw (bit-high 32 i a p h) refl

not-short : (a b i : ℕ) → a < 2 ^ 32 → b < 2 ^ 32 → 32 ≤ i → bit (complement a) i ≡ false
unfolding complement
not-short a b i p q h = bit-high 32 i (2 ^ 32 - 1 - a) (omega arith) h

not-IsDigitwise : IsDigitwise (λ v w. complement v) (λ x y. not x)
unfolding complement
not-IsDigitwise i a b h p q = bit-complement 32 i a p h

-- The four tests as the one walk over the words.
equal_walk : ℕ → ℕ → ℕ → WordMemory → Bool
equal_walk =
    some_bit (λ v w. not (v == w)) bit_xor xor differ_test (λ i a b h p q. bit-xor i a b) xor-short

intersects_walk : ℕ → ℕ → ℕ → WordMemory → Bool
intersects_walk =
    some_bit (λ v w. not (bit_and v w == 0)) bit_and (◌&&◌) (λ a b. refl)
      (λ i a b h p q. bit-and i a b) and-short

subset_walk : ℕ → ℕ → ℕ → WordMemory → Bool
subset_walk =
    some_bit (λ v w. not (bit_and v (complement w) == 0)) (λ v w. bit_and v (complement w))
      (λ x y. x && not y) (λ a b. refl) and_not-IsDigitwise and_not-short

full_walk : ℕ → ℕ → ℕ → WordMemory → Bool
full_walk =
    some_bit (λ v w. not (complement v == 0)) (λ v w. complement v) (λ x y. not x) (λ a b. refl)
      not-IsDigitwise not-short

negated :
    (x y z : Bool)
    → (if x then false else if y then true else z)
      ≡ not (if x then true else if y then false else not z)
negated true y z = refl
negated false true z = refl
negated false false true = refl
negated false false false = refl

equal_lem :
    (b1 b2 bits : ℕ) (m : WordMemory) → bitmap_equal b1 b2 bits m ≡ not (equal_walk b1 b2 bits m)
unfolding bitmap_equal equal_walk some_bit
equal_lem b1 b2 bits m = negated _ _ _

subset_lem :
    (b1 b2 bits : ℕ) (m : WordMemory) → bitmap_subset b1 b2 bits m ≡ not (subset_walk b1 b2 bits m)
unfolding bitmap_subset subset_walk some_bit
subset_lem b1 b2 bits m = negated _ _ _

full_lem : (b bits : ℕ) (m : WordMemory) → bitmap_full b bits m ≡ not (full_walk b b bits m)
unfolding bitmap_full full_walk some_bit
full_lem b bits m = negated _ _ _

intersects_lem :
    (b1 b2 bits : ℕ) (m : WordMemory)
    → bitmap_intersects b1 b2 bits m ≡ intersects_walk b1 b2 bits m
unfolding bitmap_intersects intersects_walk some_bit
intersects_lem b1 b2 bits m = refl

-- From what the walk answers to what the test does.
not-true : (x y : Bool) → x ≡ not y → x ≡ true → y ≡ false
not-true x true e h = absurd (ground (arith, e, h))
not-true x false e h = refl

-- `bitmap_equal` answers yes exactly when the two maps agree in each of their `bits` bits.
pub bitmap_equal_iff :
    (b1 b2 bits : ℕ) (m : WordMemory)
    → IsWords m
    → (bitmap_equal b1 b2 bits m ≡ true) ↔ ((n : ℕ) → n < bits → member m b1 n ≡ member m b2 n)
unfolding equal_walk
bitmap_equal_iff b1 b2 bits m w =
    let (to, from) =
      some_bit_iff (λ v w. not (v == w)) bit_xor xor differ_test (λ i a b h p q. bit-xor i a b)
        xor-short b1 b2 bits m w in
    (
      λ e n h.
          xor_same (member m b1 n) (member m b2 n)
            (to (not-true _ (equal_walk b1 b2 bits m) (equal_lem b1 b2 bits m) e) n h),
      λ h.
          equal_lem b1 b2 bits m
          ∙ ap not
              (from (λ n l. ap (λ x. xor x (member m b2 n)) (h n l) ∙ xor_self (member m b2 n))),
    )

-- `bitmap_intersects` answers no, `bitmap_subset` yes and `bitmap_full` yes exactly when no bit below
-- `bits` is in both maps, when none is in the first and not in the second, and when none is missing.
pub bitmap_tests_iff :
    (b1 b2 bits : ℕ) (m : WordMemory)
    → IsWords m
    → ((bitmap_intersects b1 b2 bits m ≡ false)
        ↔ ((n : ℕ) → n < bits → (member m b1 n && member m b2 n) ≡ false))
      × ((bitmap_subset b1 b2 bits m ≡ true)
          ↔ ((n : ℕ) → n < bits → (member m b1 n && not (member m b2 n)) ≡ false))
      × ((bitmap_full b1 bits m ≡ true) ↔ ((n : ℕ) → n < bits → not (member m b1 n) ≡ false))
unfolding intersects_walk subset_walk full_walk
bitmap_tests_iff b1 b2 bits m w =
    let (to, from) =
      some_bit_iff (λ v w. not (bit_and v w == 0)) bit_and (◌&&◌) (λ a b. refl)
        (λ i a b h p q. bit-and i a b) and-short b1 b2 bits m w in
    let (to', from') =
      some_bit_iff (λ v w. not (bit_and v (complement w) == 0)) (λ v w. bit_and v (complement w))
        (λ x y. x && not y) (λ a b. refl) and_not-IsDigitwise and_not-short b1 b2 bits m w in
    let (to'', from'') =
      some_bit_iff (λ v w. not (complement v == 0)) (λ v w. complement v) (λ x y. not x)
        (λ a b. refl) not-IsDigitwise not-short b1 b1 bits m w in
    (
      (λ e. to (sym (intersects_lem b1 b2 bits m) ∙ e), λ h. intersects_lem b1 b2 bits m ∙ from h),
      (
        λ e. to' (not-true _ (subset_walk b1 b2 bits m) (subset_lem b1 b2 bits m) e),
        λ h. subset_lem b1 b2 bits m ∙ ap not (from' h),
      ),
      (
        λ e. to'' (not-true _ (full_walk b1 b1 bits m) (full_lem b1 bits m) e),
        λ h. full_lem b1 bits m ∙ ap not (from'' h),
      ),
    )
