-- ===== src/Bitops/Weight.antt =====
-- hweight32 counts the set digits.
use Prim.Native.Nat.{bit_and}
use mathlib.Core.Path.{ap₂}
use native.Mathlib.Nat.{pow-succ'}
use aim_mips.Prelude.{
  ℕ, zero, suc, ◌+◌, ◌*◌, ◌/◌, ◌%◌, ◌^◌, ◌≤◌, ◌<◌, ◌≡◌, refl, ap, ◌∙◌, add32, sub32, arith,
}
use aim_mips.Prelude.Bits.{bit_and_low, bit_and-mask, div-pow_suc}
use aim_mips.Bitops.{hweight32}

-- How many of the `n` lowest digits are set.
unfoldable pub weight : ℕ → ℕ → ℕ
weight zero x = 0
weight (suc n) x = x % 2 + weight n (x / 2)

pub weight-le : (n x : ℕ) → weight n x ≤ n
unfolding weight
weight-le zero x = omega arith
weight-le (suc n) x = omega (arith, weight-le n (x / 2))

weight-zero : (n : ℕ) → weight n 0 ≡ 0
unfolding weight
weight-zero zero = refl
weight-zero (suc n) = omega (arith, weight-zero n)

pub weight-add : (n k x : ℕ) → weight (n + k) x ≡ weight n x + weight k (x / 2 ^ n)
unfolding weight
weight-add zero k x =
    let e : weight (0 + k) x ≡ weight k (x / 2 ^ 0) = ap₂ weight (omega arith) (omega arith) in
    omega (arith, e)
weight-add (suc n) k x =
    ap (λ (t : ℕ). weight t x) {x = suc n + k} {y = suc (n + k)} (omega arith)
    ∙ omega (arith, weight-add n k (x / 2), ap (weight k) (div-pow_suc x n))

-- `n` fields of `w` digits, each of which holds the weight of the field of `x` that stands there.
fields : ℕ → ℕ → ℕ → ℕ
fields w zero x = 0
fields w (suc n) x = weight w x + 2 ^ w * fields w n (x / 2 ^ w)

-- A mask that repeats `low` in `n` fields of `w` digits.
mask : ℕ → ℕ → ℕ → ℕ
mask w low zero = 0
mask w low (suc n) = low + 2 ^ w * mask w low n

and_odd : (a m m' : ℕ) → m' ≡ 1 + 2 * m → bit_and a m' ≡ 2 * bit_and (a / 2) m + a % 2
and_odd a m m' h =
    let e : bit_and (a / 2) (m' / 2) ≡ bit_and (a / 2) m = ap (bit_and (a / 2)) (omega arith) in
    omega (arith, bit_and_low a m', e)

and_even : (a m m' : ℕ) → m' ≡ 2 * m → bit_and a m' ≡ 2 * bit_and (a / 2) m
and_even a m m' h =
    let e : bit_and (a / 2) (m' / 2) ≡ bit_and (a / 2) m = ap (bit_and (a / 2)) (omega arith) in
    omega (arith, bit_and_low a m', e)

and_shr : (a b m : ℕ) → a ≡ b → bit_and a m ≡ bit_and b m
and_shr a b m h = ap (λ (t : ℕ). bit_and t m) h

and_2 : (a m : ℕ) → bit_and a (1 + 4 * m) ≡ 4 * bit_and (a / 4) m + a % 2
and_2 a m = omega (
  arith,
  and_odd a (2 * m) (1 + 4 * m) (omega arith),
  and_even (a / 2) m (2 * m) refl,
  and_shr (a / 2 / 2) (a / 4) m (omega arith),
)

and_4 : (a m : ℕ) → bit_and a (3 + 16 * m) ≡ 16 * bit_and (a / 16) m + a % 4
and_4 a m = omega (
  arith,
  and_odd a (1 + 8 * m) (3 + 16 * m) (omega arith),
  and_odd (a / 2) (4 * m) (1 + 8 * m) (omega arith),
  and_even (a / 2 / 2) (2 * m) (4 * m) (omega arith),
  and_even (a / 2 / 2 / 2) m (2 * m) refl,
  and_shr (a / 2 / 2 / 2 / 2) (a / 16) m (omega arith),
)

and_16 : (a m : ℕ) → bit_and a (16 * m) ≡ 16 * bit_and (a / 16) m
and_16 a m = omega (
  arith,
  and_even a (8 * m) (16 * m) (omega arith),
  and_even (a / 2) (4 * m) (8 * m) (omega arith),
  and_even (a / 2 / 2) (2 * m) (4 * m) (omega arith),
  and_even (a / 2 / 2 / 2) m (2 * m) refl,
  and_shr (a / 2 / 2 / 2 / 2) (a / 16) m (omega arith),
)

and_8 : (a m : ℕ) → bit_and a (15 + 256 * m) ≡ 256 * bit_and (a / 256) m + a % 16
and_8 a m = omega (
  arith,
  and_odd a (7 + 128 * m) (15 + 256 * m) (omega arith),
  and_odd (a / 2) (3 + 64 * m) (7 + 128 * m) (omega arith),
  and_odd (a / 2 / 2) (1 + 32 * m) (3 + 64 * m) (omega arith),
  and_odd (a / 2 / 2 / 2) (16 * m) (1 + 32 * m) (omega arith),
  and_16 (a / 2 / 2 / 2 / 2) m,
  and_shr (a / 2 / 2 / 2 / 2 / 16) (a / 256) m (omega arith),
)

twice : ℕ → ℕ
twice zero = 0
twice (suc n) = suc (suc (twice n))

-- `w - ((w >> 1) & 0x55555555)`
ones_lem : (n x : ℕ) → x < 4 ^ n → bit_and (x / 2) (mask 2 1 n) + fields 2 n x ≡ x
unfolding weight fields mask
ones_lem zero x h = omega (arith, bit_and-mask 0 (x / 2))
ones_lem (suc n) x h =
    let rest = ones_lem n (x / 4) (omega (arith, pow-succ' 4 n)) in
    omega (
      arith,
      and_2 (x / 2) (mask 2 1 n),
      and_shr (x / 2 / 4) (x / 4 / 2) (mask 2 1 n) (omega arith),
      rest,
    )

-- `(res & 0x33333333) + ((res >> 2) & 0x33333333)`
twos_lem :
    (n x : ℕ)
    → bit_and (fields 2 (twice n) x) (mask 4 3 n) + bit_and (fields 2 (twice n) x / 4) (mask 4 3 n)
      ≡ fields 4 n x
unfolding weight fields mask twice
twos_lem zero x = omega (arith, bit_and-mask 0 0)
twos_lem (suc n) x =
    let r = fields 2 (twice (suc n)) x in
    let same : fields 2 (twice n) (x / 4 / 4) ≡ fields 2 (twice n) (x / 16) =
      ap (fields 2 (twice n)) (omega arith) in
    let rest = twos_lem n (x / 16) in
    omega (
      arith,
      and_4 r (mask 4 3 n),
      and_4 (r / 4) (mask 4 3 n),
      and_shr (r / 16) (fields 2 (twice n) (x / 16)) (mask 4 3 n) (omega (arith, same)),
      and_shr (r / 4 / 16) (fields 2 (twice n) (x / 16) / 4) (mask 4 3 n) (omega (arith, same)),
      rest,
    )

-- `(res + (res >> 4)) & 0x0F0F0F0F`
fours_lem :
    (n x : ℕ)
    → bit_and (fields 4 (twice n) x + fields 4 (twice n) x / 16) (mask 8 15 n) ≡ fields 8 n x
unfolding weight fields mask twice
fours_lem zero x = omega (arith, bit_and-mask 0 0)
fours_lem (suc n) x =
    let r = fields 4 (twice (suc n)) x in
    let same : fields 4 (twice n) (x / 16 / 16) ≡ fields 4 (twice n) (x / 256) =
      ap (fields 4 (twice n)) (omega arith) in
    let rest = fours_lem n (x / 256) in
    let low : fields 4 (twice n) (x / 256) % 16 ≤ 4 = fields-low (twice n) (x / 256) in
    omega (
      arith,
      and_8 (r + r / 16) (mask 8 15 n),
      and_shr ((r + r / 16) / 256)
          (fields 4 (twice n) (x / 256) + fields 4 (twice n) (x / 256) / 16) (mask 8 15 n)
          (omega (arith, same, low)),
      rest,
      low,
      same,
    )
  where
    fields-low : (n x : ℕ) → fields 4 n x % 16 ≤ 4
    fields-low zero x = omega arith
    fields-low (suc n) x = omega arith

fours-le : (n x : ℕ) → 15 * fields 4 n x + 4 ≤ 4 * 16 ^ n
unfolding weight fields
fours-le zero x = omega arith
fours-le (suc n) x = omega (arith, fours-le n (x / 16), pow-succ' 16 n)

ones_step : (w : ℕ) → w < 2 ^ 32 → sub32 w (bit_and (w / 2) 0x55555555) ≡ fields 2 16 w
unfolding mask
ones_step w h =
    let e : bit_and (w / 2) 0x55555555 + fields 2 16 w ≡ w = ones_lem 16 w h in omega (arith, e)

twos_step :
    (w : ℕ)
    → add32 (bit_and (fields 2 16 w) 0x33333333) (bit_and (fields 2 16 w / 4) 0x33333333)
      ≡ fields 4 8 w
unfolding mask twice
twos_step w =
    let e : bit_and (fields 2 16 w) 0x33333333 + bit_and (fields 2 16 w / 4) 0x33333333
        ≡ fields 4 8 w =
      twos_lem 8 w in
    omega (arith, e, fours-le 8 w)

fours_step : (w : ℕ) → bit_and (add32 (fields 4 8 w) (fields 4 8 w / 16)) 0x0F0F0F0F ≡ fields 8 4 w
unfolding mask twice
fours_step w =
    let e : bit_and (fields 4 8 w + fields 4 8 w / 16) 0x0F0F0F0F ≡ fields 8 4 w = fours_lem 4 w in
    and_shr (add32 (fields 4 8 w) (fields 4 8 w / 16)) (fields 4 8 w + fields 4 8 w / 16) 0x0F0F0F0F
      (omega (arith, fours-le 8 w))
    ∙ e

eights_step :
    (w : ℕ)
    → w < 2 ^ 32
    → let eights = add32 (fields 8 4 w) (fields 8 4 w / 256) in
      bit_and (add32 eights (eights / 65536)) 0x000000FF ≡ weight 32 w
unfolding fields
eights_step w h =
    let a = weight-le 8 w in
    let b = weight-le 8 (w / 2 ^ 8) in
    let c = weight-le 8 (w / 2 ^ 8 / 2 ^ 8) in
    let d = weight-le 8 (w / 2 ^ 8 / 2 ^ 8 / 2 ^ 8) in
    let eights = add32 (fields 8 4 w) (fields 8 4 w / 256) in
    omega (
      arith,
      bit_and-mask 8 (add32 eights (eights / 65536)),
      a,
      b,
      c,
      d,
      weight-add 8 24 w,
      weight-add 8 16 (w / 2 ^ 8),
      weight-add 8 8 (w / 2 ^ 8 / 2 ^ 8),
    )

-- `hweight32` counts the set digits of a word.
pub hweight32_lem : (w : ℕ) → w < 2 ^ 32 → hweight32 w ≡ weight 32 w
unfolding hweight32
hweight32_lem w h = rw (ones_step w h, twos_step w, fours_step w) (eights_step w h)
