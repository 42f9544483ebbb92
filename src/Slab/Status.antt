-- ===== src/Slab/Status.antt =====
-- The bits of `status`.
use Prim.Native.Nat.{bit_xor}
use aim_mips.Prelude.{
  ℕ, ◌/◌, ◌%◌, ◌^◌, ◌<◌, ◌≡◌, ◌≢◌, refl, inl, inr, ltb, ◌==◌, arith, Bool, true, false, not, ◌&&◌,
  ◌∙◌, ap, Bool-cases,
}
use mathlib.Core.Bool.{xor}
use aim_mips.Prelude.Bits.{bit, bit-xor, bit-mod, bit-power, bit_ext}
use aim_mips.Slab.{Status, status_bit, setbit}

-- The mask that setbit uses.
mask-digit : (k j : ℕ) → k < 8 → bit (2 ^ k % 2 ^ 8) j ≡ (j == k)
mask-digit k j lt = bit-mod 8 j (2 ^ k) ∙ ap (λ b. ltb j 8 && b) (bit-power k j) ∙ ground arith

xor-true : (b : Bool) → xor b true ≡ not b
unfolding xor
xor-true true = refl
xor-true false = refl

xor-false : (b : Bool) → xor b false ≡ b
unfolding xor
xor-false true = refl
xor-false false = refl

toggled : (y a j : ℕ) → bit (bit_xor y (2 ^ (a % 8) % 2 ^ 8)) j ≡ xor (bit y j) (j == a % 8)
toggled y a j =
    bit-xor j y (2 ^ (a % 8) % 2 ^ 8) ∙ ap (xor (bit y j)) (mask-digit (a % 8) j (omega arith))

pub setbit_same : (x : Status) (a : ℕ) → status_bit (setbit x a) a ≡ not (status_bit x a)
unfolding status_bit setbit
setbit_same x a =
    let e : (a / 8 == a / 8) ≡ true = ground arith in
    let f : (a % 8 == a % 8) ≡ true = ground arith in
    rw e (
      toggled (x (a / 8)) a (a % 8)
      ∙ ap (xor (bit (x (a / 8)) (a % 8))) f
      ∙ xor-true (bit (x (a / 8)) (a % 8)))

pub setbit_other : (x : Status) (a b : ℕ) → a ≢ b → status_bit (setbit x a) b ≡ status_bit x b
unfolding status_bit setbit
setbit_other x a b ne = elim (Bool-cases (b / 8 == a / 8)) [
  | inl e ↦
      let f : (b % 8 == a % 8) ≡ false = ground arith in
      rw e (
        toggled (x (b / 8)) a (b % 8)
        ∙ ap (xor (bit (x (b / 8)) (b % 8))) f
        ∙ xor-false (bit (x (b / 8)) (b % 8)))
  | inr e ↦ rw e refl
]

xor_twice : (b c : Bool) → xor (xor b c) c ≡ b
unfolding xor
xor_twice true true = refl
xor_twice true false = refl
xor_twice false true = refl
xor_twice false false = refl

bit_xor_twice : (y m : ℕ) → bit_xor (bit_xor y m) m ≡ y
bit_xor_twice y m = bit_ext (bit_xor (bit_xor y m) m) y λ i.
    bit-xor i (bit_xor y m) m
    ∙ ap (λ b. xor b (bit m i)) (bit-xor i y m)
    ∙ xor_twice (bit y i) (bit m i)

setbit_twice-at : (x : Status) (a i : ℕ) → setbit (setbit x a) a i ≡ x i
unfolding setbit
setbit_twice-at x a i = elim (Bool-cases (i == a / 8)) [
  | inl e ↦ rw e (bit_xor_twice (x i) (2 ^ (a % 8) % 2 ^ 8))
  | inr e ↦ rw e refl
]

-- Turning a bit over twice leaves the bytes as they were.
pub setbit_twice : (x : Status) (a : ℕ) → setbit (setbit x a) a ≡ x
setbit_twice x a = λ k i. setbit_twice-at x a i k
