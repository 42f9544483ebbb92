-- ===== src/Bitops/First.antt =====
-- ffs and ffz find the lowest digit.
use Prim.Native.Nat.{bit_and}
use native.Mathlib.Nat.{pow-succ', mul_assoc, div-add-mod', mul-mod_left}
use aim_mips.Prelude.{
  ℕ, zero, suc, ◌+◌, ◌-◌, ◌*◌, ◌/◌, ◌%◌, ◌^◌, ◌≤◌, ◌<◌, ◌≡◌, ◌≢◌, inl, inr, refl, sym, ap, ◌∙◌,
  true, false, ◌==◌, arith, Bool-cases,
}
use aim_mips.Prelude.Bits.{bit, bit_and-mask, bit-shl}
use aim_mips.Bitops.{Search, up, ffs}

-- The lowest set digit of `x` is digit `i`.
pub record IsLowest (x i : ℕ) : Type 0 where
  pub here : bit x i ≡ true
  pub below : (j : ℕ) → j < i → bit x j ≡ false

-- `x` is `word << (num - 1)`, and the low `k` digits of `word` are not all clear.
record IsAt (k x : ℕ) (s : Search) : Type 0 where
  shifted : x ≡ s.word * 2 ^ (s.num - 1)
  started : 1 ≤ s.num
  seen : s.word % 2 ^ k ≢ 0

pub pow_split : (a b : ℕ) → 2 ^ (a + b) ≡ 2 ^ a * 2 ^ b
pow_split zero b = ap (λ (t : ℕ). 2 ^ t) {x = 0 + b} {y = b} (omega arith) ∙ omega arith
pow_split (suc a) b =
    ap (λ (t : ℕ). 2 ^ t) {x = suc a + b} {y = suc (a + b)} (omega arith)
    ∙ pow-succ' 2 (a + b)
    ∙ ap (λ (t : ℕ). 2 * t) (pow_split a b)
    ∙ sym (mul_assoc 2 (2 ^ a) (2 ^ b))
    ∙ ap (λ (t : ℕ). t * 2 ^ b) (sym (pow-succ' 2 a))

whole : (w k : ℕ) → w % 2 ^ k ≡ 0 → w ≡ w / 2 ^ k * 2 ^ k
whole w k z = omega (arith, div-add-mod' w (2 ^ k))

pub mod-mul : (q d : ℕ) → q * d % d ≡ 0
mod-mul q d = mul-mod_left q d

-- Two blocks of `k` clear digits are `2 * k` clear digits.
whole_twice : (w k : ℕ) → w % 2 ^ k ≡ 0 → w / 2 ^ k % 2 ^ k ≡ 0 → w % 2 ^ (k + k) ≡ 0
whole_twice w k z z' =
    let e : w ≡ w / 2 ^ k / 2 ^ k * (2 ^ k * 2 ^ k) =
      whole w k z
      ∙ ap (λ (t : ℕ). t * 2 ^ k) (whole (w / 2 ^ k) k z')
      ∙ mul_assoc (w / 2 ^ k / 2 ^ k) (2 ^ k) (2 ^ k) in
    ap (λ (t : ℕ). w % t) (pow_split k k)
    ∙ ap (λ (t : ℕ). t % (2 ^ k * 2 ^ k)) e
    ∙ mod-mul (w / 2 ^ k / 2 ^ k) (2 ^ k * 2 ^ k)

moved : (w k n : ℕ) → w % 2 ^ k ≡ 0 → 1 ≤ n → w * 2 ^ (n - 1) ≡ w / 2 ^ k * 2 ^ (n + k - 1)
moved w k n z o =
    let e : n + k - 1 ≡ k + (n - 1) = omega arith in
    ap (λ (t : ℕ). t * 2 ^ (n - 1)) (whole w k z)
    ∙ mul_assoc (w / 2 ^ k) (2 ^ k) (2 ^ (n - 1))
    ∙ ap (λ (t : ℕ). w / 2 ^ k * t) (sym (pow_split k (n - 1)) ∙ ap (λ (t : ℕ). 2 ^ t) (sym e))

up-IsAt : (k x : ℕ) (s : Search) → IsAt (k + k) x s → IsAt k x (up k s)
unfolding up
up-IsAt k x s h = elim (Bool-cases (bit_and s.word (2 ^ k - 1) == 0)) [
  | inl e ↦
      let z : s.word % 2 ^ k ≡ 0 = ground (arith, bit_and-mask k s.word) in
      rw e (record {
        shifted = h.shifted ∙ moved s.word k s.num z h.started;
        started = omega (arith, h.started);
        seen = λ z'. h.seen (whole_twice s.word k z z');
      })
  | inr e ↦ rw e (record {
    shifted = h.shifted;
    started = h.started;
    seen = λ z. ground (arith, bit_and-mask k s.word, z);
  })
]

-- An odd word shifted left by `n` has its lowest digit at `n`.
odd-IsLowest : (x w n : ℕ) → x ≡ w * 2 ^ n → w % 2 ≡ 1 → IsLowest x n
unfolding bit
odd-IsLowest x w n e o =
    let here : bit w (n - n) ≡ true = ap (bit w) {x = n - n} {y = 0} (omega arith) ∙ ground arith in
    rw e (record {
      here = ground (arith, bit-shl n n w, here);
      below = λ j h. ground (arith, bit-shl n j w);
    })

-- `ffs` answers one more than the index of the lowest set digit of a word that has one.
pub ffs-IsLowest : (x : ℕ) → x ≢ 0 → x < 2 ^ 32 → (1 ≤ ffs x) × IsLowest x (ffs x - 1)
unfolding ffs
ffs-IsLowest x ne small =
    let e : (x == 0) ≡ false = ground arith in
    let start : IsAt 32 x (record { num = 1; word = x }) = record {
      shifted = omega arith;
      started = omega arith;
      seen = λ z. ne (omega arith);
    } in
    let h = up-IsAt 1 x _ (up-IsAt 2 x _ (up-IsAt 4 x _ (up-IsAt 8 x _ (up-IsAt 16 x _ start)))) in
    rw e (h.started, odd-IsLowest x _ _ h.shifted (let s = h.seen in omega arith))

pub ffs_zero : ffs 0 ≡ 0
unfolding ffs
ffs_zero = refl
