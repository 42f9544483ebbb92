-- ===== src/Prelude/Bits.antt =====
-- The binary digits of a word, and what `&`, `|`, `^`, `~` and the shifts do to each of them.
use Prim.Native.Nat.{
  ℕ, zero, suc, ◌+◌, ◌-◌, ◌*◌, ◌/◌, ◌%◌, ◌^◌, ◌≤◌, ◌<◌, min, max, digits, bitwise, differ, bit_and,
  bit_or, bit_xor, bit_and-bitwise, bit_or-bitwise, bit_xor-bitwise,
}
use mathlib.Core.Path.{◌≡◌, refl, ◌∙◌, sym, ap, ap₂}
use mathlib.Core.Bool.{Bool, false, not, ◌&&◌, ◌||◌, xor}
use native.Mathlib.Omega.{arith}
use native.Mathlib.Nat.{
  pow-suc, one-le-pow, div-div-eq-div-mul, div-add-mod', mul-one, sub-zero, suc-sub-suc,
}
use aim_mips.Prelude.Tests.{ltb, leb, ◌==◌, Bool-cases}
use mathlib.Core.Logic.{inl, inr}

-- The digit of weight `2 ^ i`.
unfoldable pub bit : ℕ → ℕ → Bool
bit x zero = x % 2 == 1
bit x (suc i) = bit (x / 2) i

module _ (z : ℕ → ℕ) (f : ℕ → ℕ → ℕ) where
  more_fuel : (n m a b : ℕ) → a ≤ n → a ≤ m → digits z f n a b ≡ digits z f m a b
  more_fuel zero zero a b p q = refl
  more_fuel zero (suc m) zero b p q = refl
  more_fuel zero (suc m) (suc a) b p q = absurd (omega arith)
  more_fuel (suc n) zero zero b p q = refl
  more_fuel (suc n) zero (suc a) b p q = absurd (omega arith)
  more_fuel (suc n) (suc m) zero b p q = refl
  more_fuel (suc n) (suc m) (suc a) b p q =
      rw (more_fuel n m (suc a / 2) (b / 2) (omega arith) (omega arith))

  -- The lowest digit and the rest.
  bitwise_step :
      (a b : ℕ)
      → ((c : ℕ) → z c ≡ z (c / 2) * 2 + f 0 (c % 2))
      → bitwise z f a b ≡ bitwise z f (a / 2) (b / 2) * 2 + f (a % 2) (b % 2)
  bitwise_step zero b run = run b
  bitwise_step (suc a) b run =
      omega (arith, more_fuel a (suc a / 2) (suc a / 2) (b / 2) (omega arith) (omega arith))

pub bit_and_low : (a b : ℕ) → bit_and a b ≡ bit_and (a / 2) (b / 2) * 2 + min (a % 2) (b % 2)
bit_and_low a b = simp bit_and-bitwise (bitwise_step (λ _. 0) min a b (λ c. omega arith))

pub bit_or_low : (a b : ℕ) → bit_or a b ≡ bit_or (a / 2) (b / 2) * 2 + max (a % 2) (b % 2)
bit_or_low a b = simp bit_or-bitwise (bitwise_step (λ c. c) max a b (λ c. omega arith))

pub bit_xor_low : (a b : ℕ) → bit_xor a b ≡ bit_xor (a / 2) (b / 2) * 2 + differ (a % 2) (b % 2)
bit_xor_low a b = simp bit_xor-bitwise (bitwise_step (λ c. c) differ a b (λ c. omega arith))

pub bit-and : (i a b : ℕ) → bit (bit_and a b) i ≡ (bit a i && bit b i)
unfolding bit
bit-and zero a b = ground (arith, bit_and_low a b)
bit-and (suc i) a b =
    let e : bit_and a b / 2 ≡ bit_and (a / 2) (b / 2) = omega (arith, bit_and_low a b) in
    rw e (bit-and i (a / 2) (b / 2))

pub bit-or : (i a b : ℕ) → bit (bit_or a b) i ≡ (bit a i || bit b i)
unfolding bit
bit-or zero a b = ground (arith, bit_or_low a b)
bit-or (suc i) a b =
    let e : bit_or a b / 2 ≡ bit_or (a / 2) (b / 2) = omega (arith, bit_or_low a b) in
    rw e (bit-or i (a / 2) (b / 2))

differ_digits : (a b : ℕ) → a < 2 → b < 2 → (differ a b == 1) ≡ xor (a == 1) (b == 1)
unfolding xor
differ_digits zero zero p q = refl
differ_digits zero (suc zero) p q = refl
differ_digits (suc zero) zero p q = refl
differ_digits (suc zero) (suc zero) p q = refl
differ_digits (suc (suc a)) b p q = absurd (omega arith)
differ_digits zero (suc (suc b)) p q = absurd (omega arith)
differ_digits (suc zero) (suc (suc b)) p q = absurd (omega arith)

pub differ-lt : (a b : ℕ) → a < 2 → b < 2 → differ a b < 2
differ-lt zero b p q = q
differ-lt (suc zero) zero p q = omega arith
differ-lt (suc zero) (suc zero) p q = omega arith
differ-lt (suc (suc a)) b p q = absurd (omega arith)
differ-lt (suc zero) (suc (suc b)) p q = absurd (omega arith)

pub differ-zero : (a b : ℕ) → a < 2 → b < 2 → differ a b ≡ 0 → a ≡ b
differ-zero zero zero p q h = refl
differ-zero zero (suc b) p q h = absurd (omega arith)
differ-zero (suc zero) zero p q h = absurd (omega arith)
differ-zero (suc zero) (suc zero) p q h = refl
differ-zero (suc zero) (suc (suc b)) p q h = absurd (omega arith)
differ-zero (suc (suc a)) b p q h = absurd (omega arith)

pub bit-xor : (i a b : ℕ) → bit (bit_xor a b) i ≡ xor (bit a i) (bit b i)
unfolding bit
bit-xor zero a b =
    let small = differ-lt (a % 2) (b % 2) (omega arith) (omega arith) in
    let e : bit_xor a b % 2 ≡ differ (a % 2) (b % 2) = omega (arith, bit_xor_low a b) in
    rw e (differ_digits (a % 2) (b % 2) (omega arith) (omega arith))
bit-xor (suc i) a b =
    let small = differ-lt (a % 2) (b % 2) (omega arith) (omega arith) in
    let e : bit_xor a b / 2 ≡ bit_xor (a / 2) (b / 2) = omega (arith, bit_xor_low a b) in
    rw e (bit-xor i (a / 2) (b / 2))

pub bit-zero : (i : ℕ) → bit 0 i ≡ false
unfolding bit
bit-zero zero = refl
bit-zero (suc i) = bit-zero i

-- A word of `w` bits has no digit at `w` or above.
pub bit-high : (w i x : ℕ) → x < 2 ^ w → w ≤ i → bit x i ≡ false
unfolding bit
bit-high zero i x h le = let e : x ≡ 0 = omega arith in rw e (bit-zero i)
bit-high (suc w) zero x h le = absurd (omega arith)
bit-high (suc w) (suc i) x h le = bit-high w i (x / 2) (omega (arith, pow-suc 2 w)) (omega arith)

-- `~x` in words of `w` bits.
pub bit-complement : (w i x : ℕ) → x < 2 ^ w → i < w → bit (2 ^ w - 1 - x) i ≡ not (bit x i)
unfolding bit
bit-complement zero i x h lt = absurd (omega arith)
bit-complement (suc w) zero x h lt = ground (arith, pow-suc 2 w)
bit-complement (suc w) (suc i) x h lt =
    let e : (2 ^ suc w - 1 - x) / 2 ≡ 2 ^ w - 1 - x / 2 = omega (arith, pow-suc 2 w) in
    rw e (bit-complement w i (x / 2) (omega (arith, pow-suc 2 w)) (omega arith))

-- The mask of `k` ones.
pub bit-ones : (k i : ℕ) → bit (2 ^ k - 1) i ≡ ltb i k
unfolding bit
bit-ones zero i = ground (arith, bit-zero i)
bit-ones (suc k) zero = ground (arith, pow-suc 2 k, one-le-pow k 2)
bit-ones (suc k) (suc i) =
    let e : (2 ^ suc k - 1) / 2 ≡ 2 ^ k - 1 = omega (arith, pow-suc 2 k, one-le-pow k 2) in
    rw e (ground (arith, bit-ones k i))

-- Numbers with the same digits are equal; `n` bounds the recursion.
bit_ext_fuel : (n x y : ℕ) → x ≤ n → y ≤ n → ((i : ℕ) → bit x i ≡ bit y i) → x ≡ y
unfolding bit
bit_ext_fuel zero x y p q h = omega arith
bit_ext_fuel (suc n) x y p q h =
    let low = h 0 in
    let rest : x / 2 ≡ y / 2 =
      bit_ext_fuel n (x / 2) (y / 2) (omega arith) (omega arith) (λ i. h (suc i)) in
    ground arith

pub bit_ext : (x y : ℕ) → ((i : ℕ) → bit x i ≡ bit y i) → x ≡ y
bit_ext x y h = bit_ext_fuel (x + y) x y (omega arith) (omega arith) h

pub div-pow_suc : (x k : ℕ) → x / 2 ^ suc k ≡ x / 2 / 2 ^ k
div-pow_suc x k =
    let e : 2 ^ suc k ≡ 2 * 2 ^ k = omega (arith, pow-suc 2 k) in
    rw e (sym (div-div-eq-div-mul x 2 (2 ^ k)))

-- `x >> k`
pub bit-shr : (k i x : ℕ) → bit (x / 2 ^ k) i ≡ bit x (i + k)
bit-shr zero i x = ap₂ bit (omega arith) (omega arith)
bit-shr (suc k) i x =
    ap (λ y. bit y i) (div-pow_suc x k)
    ∙ bit-shr k i (x / 2)
    ∙ unfold bit in (ap (bit x) {x = suc (i + k)} {y = i + suc k} (omega arith))

-- `x << k`, before it is cut to the word.
pub bit-shl : (k i x : ℕ) → bit (x * 2 ^ k) i ≡ (leb k i && bit x (i - k))
unfolding bit
bit-shl zero i x = ground (arith, ap₂ bit (mul-one x) (sub-zero i))
bit-shl (suc k) zero x = ground (arith, pow-suc 2 k, ap (λ (t : ℕ). x * t) (pow-suc 2 k))
bit-shl (suc k) (suc i) x =
    let e : x * 2 ^ suc k / 2 ≡ x * 2 ^ k = omega (arith, ap (λ (t : ℕ). x * t) (pow-suc 2 k)) in
    rw e (ground (arith, bit-shl k i x, ap (bit x) (suc-sub-suc i k)))

two-pow_suc : (k : ℕ) → 2 ^ suc k ≡ 2 * 2 ^ k
two-pow_suc k = omega (arith, pow-suc 2 k)

mod-pow_suc : (x w : ℕ) → x % 2 ^ suc w ≡ x / 2 % 2 ^ w * 2 + x % 2
mod-pow_suc x w = omega (
  arith,
  div-add-mod' x (2 ^ suc w),
  div-add-mod' (x / 2) (2 ^ w),
  ap₂ (λ (a b : ℕ). a * b) (div-pow_suc x w) (two-pow_suc w),
)

-- A word cut to `w` digits.
pub bit-mod : (w i x : ℕ) → bit (x % 2 ^ w) i ≡ (ltb i w && bit x i)
unfolding bit
bit-mod zero i x = let e : x % 2 ^ 0 ≡ 0 = omega arith in rw e (ground (arith, bit-zero i))
bit-mod (suc w) zero x = ground (arith, mod-pow_suc x w)
bit-mod (suc w) (suc i) x =
    let e : x % 2 ^ suc w / 2 ≡ x / 2 % 2 ^ w = omega (arith, mod-pow_suc x w) in
    rw e (ground (arith, bit-mod w i (x / 2)))

pub bit_or-zero : (x : ℕ) → bit_or x 0 ≡ x
bit_or-zero x = bit_ext (bit_or x 0) x λ i. ground (arith, bit-or i x 0, bit-zero i)

-- `x | (2 ^ k - 1)`: up to the end of the aligned block of `2 ^ k`.
pub bit_or-mask : (k x : ℕ) → bit_or x (2 ^ k - 1) ≡ x / 2 ^ k * 2 ^ k + (2 ^ k - 1)
bit_or-mask zero x = omega (arith, bit_or-zero x)
bit_or-mask (suc k) x =
    let m : (2 ^ suc k - 1) / 2 ≡ 2 ^ k - 1 = omega (arith, pow-suc 2 k, one-le-pow k 2) in
    omega (
      arith,
      bit_or_low x (2 ^ suc k - 1),
      ap (bit_or (x / 2)) m,
      bit_or-mask k (x / 2),
      one-le-pow k 2,
      ap₂ (λ (a b : ℕ). a * b) (div-pow_suc x k) (two-pow_suc k),
      two-pow_suc k,
    )

-- `x & ~(2 ^ k - 1)` and `x & (2 ^ k - 1)`.
pub bit_and-mask : (k x : ℕ) → bit_and x (2 ^ k - 1) ≡ x % 2 ^ k
bit_and-mask k x =
    bit_ext (bit_and x (2 ^ k - 1)) (x % 2 ^ k)
      λ i. ground (arith, bit-and i x (2 ^ k - 1), bit-ones k i, bit-mod k i x)

-- `(q << k) | r` is a sum when `r` fits below.
pub bit_or-add : (k q r : ℕ) → r < 2 ^ k → bit_or (q * 2 ^ k) r ≡ q * 2 ^ k + r
bit_or-add zero q r h = let e : r ≡ 0 = omega arith in rw (e, bit_or-zero (q * 2 ^ 0)) (omega arith)
bit_or-add (suc k) q r h = omega (
  arith,
  bit_or_low (q * 2 ^ suc k) r,
  ap (λ y. bit_or y (r / 2)) (half_mul q k),
  bit_or-add k q (r / 2) (omega (arith, two-pow_suc k)),
  double_mul q k,
)
  where
    double_mul : (q k : ℕ) → q * 2 ^ suc k ≡ 2 * (q * 2 ^ k)
    double_mul q k = omega (arith, ap (λ (t : ℕ). q * t) (two-pow_suc k))

    half_mul : (q k : ℕ) → q * 2 ^ suc k / 2 ≡ q * 2 ^ k
    half_mul q k = omega (arith, double_mul q k)

-- Clearing the low `k` digits of a word of `w + k` digits.
pub bit_and-high :
    (k w x : ℕ) → x / 2 ^ k < 2 ^ w → bit_and x ((2 ^ w - 1) * 2 ^ k) ≡ x / 2 ^ k * 2 ^ k
bit_and-high k w x h = bit_ext (bit_and x ((2 ^ w - 1) * 2 ^ k)) (x / 2 ^ k * 2 ^ k) each
  where
    back : (i : ℕ) → k ≤ i → bit (x / 2 ^ k) (i - k) ≡ bit x i
    back i le = bit-shr k (i - k) x ∙ ap (bit x) (omega arith)

    each : (i : ℕ) → bit (bit_and x ((2 ^ w - 1) * 2 ^ k)) i ≡ bit (x / 2 ^ k * 2 ^ k) i
    each i = elim (Bool-cases (leb k i)) [
      | inl e ↦ elim (Bool-cases (ltb (i - k) w)) [
        | inl f ↦ ground (
          arith,
          bit-and i x ((2 ^ w - 1) * 2 ^ k),
          bit-shl k i (2 ^ w - 1),
          bit-shl k i (x / 2 ^ k),
          bit-ones w (i - k),
          back i (ground arith),
        )
        | inr f ↦ ground (
          arith,
          bit-and i x ((2 ^ w - 1) * 2 ^ k),
          bit-shl k i (2 ^ w - 1),
          bit-shl k i (x / 2 ^ k),
          bit-ones w (i - k),
          bit-high w (i - k) (x / 2 ^ k) h (ground arith),
        )
      ]
      | inr e ↦ ground (
        arith,
        bit-and i x ((2 ^ w - 1) * 2 ^ k),
        bit-shl k i (2 ^ w - 1),
        bit-shl k i (x / 2 ^ k),
      )
    ]

bit-one : (j : ℕ) → bit 1 j ≡ (j == 0)
unfolding bit
bit-one zero = refl
bit-one (suc j) = bit-zero j ∙ ground arith

-- `1 << k`
pub bit-power : (k j : ℕ) → bit (2 ^ k) j ≡ (j == k)
bit-power k j =
    let e : 2 ^ k ≡ 1 * 2 ^ k = omega arith in
    ap (λ x. bit x j) e ∙ bit-shl k j 1 ∙ ap (λ b. leb k j && b) (bit-one (j - k)) ∙ ground arith
