-- ===== src/Bitops/Wide.antt =====
-- The searches on 64-bit words, which are split in halves.
use aim_mips.Prelude.{
  ℕ, ◌+◌, ◌-◌, ◌/◌, ◌%◌, ◌^◌, ◌≤◌, ◌<◌, ◌≡◌, ◌≢◌, inl, inr, refl, sym, ap, ◌∙◌, true, false, ◌==◌,
  ltb, arith, Bool-cases,
}
use aim_mips.Prelude.Bits.{bit, bit-shr, bit-mod, bit-zero}
use aim_mips.Bitops.{ffs64, fls, fls64}
use aim_mips.Bitops.First.{IsLowest, ffs-IsLowest}
use aim_mips.Bitops.Last.{IsHighest, fls-IsHighest}

high_bit : (x i : ℕ) → bit (x / 2 ^ 32) i ≡ bit x (i + 32)
high_bit x i = bit-shr 32 i x

low_bit : (x i : ℕ) → i < 32 → bit (x % 2 ^ 32) i ≡ bit x i
low_bit x i h = ground (arith, bit-mod 32 i x)

IsLowest-high : (x i k : ℕ) → k ≡ i + 32 → x % 2 ^ 32 ≡ 0 → IsLowest (x / 2 ^ 32) i → IsLowest x k
IsLowest-high x i k e z h = record {
  here = ap (bit x) e ∙ sym (high_bit x i) ∙ h.here;
  below = λ j lt. elim (Bool-cases (ltb j 32)) [
    | inl s ↦ sym (low_bit x j (ground arith)) ∙ ap (λ (w : ℕ). bit w j) z ∙ bit-zero j
    | inr s ↦
        let back : bit x j ≡ bit x (j - 32 + 32) = ap (bit x) (ground arith) in
        back ∙ sym (high_bit x (j - 32)) ∙ h.below (j - 32) (ground arith)
  ];
}

within-low : (x i : ℕ) → bit (x % 2 ^ 32) i ≡ true → i < 32
within-low x i h = elim (Bool-cases (ltb i 32)) [
  | inl s ↦ ground arith
  | inr s ↦ absurd (ground (arith, bit-mod 32 i x))
]

IsLowest-low : (x i : ℕ) → IsLowest (x % 2 ^ 32) i → IsLowest x i
IsLowest-low x i h =
    let lt = within-low x i h.here in
    record {
      here = sym (low_bit x i lt) ∙ h.here;
      below = λ j l. sym (low_bit x j (omega (arith, lt))) ∙ h.below j l;
    }

-- `ffs64` answers one more than the index of the lowest set digit of a 64-bit word that has one.
pub ffs64-IsLowest : (x : ℕ) → x ≢ 0 → x < 2 ^ 64 → (1 ≤ ffs64 x) × IsLowest x (ffs64 x - 1)
unfolding ffs64
ffs64-IsLowest x ne small = elim (Bool-cases (x % 2 ^ 32 == 0)) [
  | inl e ↦
      let z : x % 2 ^ 32 ≡ 0 = ground arith in
      let (o, h) = ffs-IsLowest (x / 2 ^ 32) (λ z'. ne (omega arith)) (omega arith) in
      rw e (omega arith, IsLowest-high x _ _ (omega arith) z h)
  | inr e ↦
      let (o, h) = ffs-IsLowest (x % 2 ^ 32) (λ z. ground arith) (omega arith) in
      rw e (o, IsLowest-low x _ h)
]

-- `fls64` looks at the low half first: when both halves have a set digit, the answer is not the highest.
pub fls64-misses :
    (x : ℕ) → x < 2 ^ 64 → x / 2 ^ 32 ≢ 0 → x % 2 ^ 32 ≢ 0 → ¬ IsHighest x (fls64 x - 1)
unfolding fls64
fls64-misses x small high low h =
    let e : (x % 2 ^ 32 == 0) ≡ false = ground arith in
    let same : fls64 x ≡ fls (x % 2 ^ 32) = rw e refl in
    let (o, le, f) = fls-IsHighest (x % 2 ^ 32) low (omega arith) in
    let (o', le', g) = fls-IsHighest (x / 2 ^ 32) high (omega arith) in
    absurd (
      ground (
        arith,
        high_bit x (fls (x / 2 ^ 32) - 1),
        g.here,
        h.above (fls (x / 2 ^ 32) - 1 + 32) (omega (arith, same, le, o)),
      ))
