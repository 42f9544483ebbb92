-- ===== src/Bitmap/Find/Word.antt =====
-- The search within one word.
use Prim.Native.Nat.{bit_and}
use mathlib.Core.Path.{subst}
use aim_mips.Prelude.{
  ℕ, zero, suc, ◌+◌, ◌-◌, ◌*◌, ◌/◌, ◌^◌, ◌≤◌, ◌<◌, ◌≡◌, ◌≢◌, inl, inr, sym, ap, ◌∙◌, Bool, true,
  false, ltb, leb, ◌&&◌, arith, Bool-cases,
}
use aim_mips.Prelude.Bits.{
  bit, bit-and, bit-zero, bit-high, bit-mod, bit-ones, bit-shr, bit-shl, bit_and_low, bit_ext,
}
use aim_mips.Bitops.{ffs}
use aim_mips.Bitops.First.{ffs-IsLowest}
use aim_mips.Bitmap.{ones, ones_from}
use aim_mips.Bitmap.Find.{ones_below}

-- `ans` is one more than the first index from `lo` below `hi` where `g` holds, or 0 if there is none.
pub data IsFirst (g : ℕ → Bool) (lo hi : ℕ) : ℕ → Type 0 where
  absent : ((n : ℕ) → lo ≤ n → n < hi → g n ≡ false) → IsFirst g lo hi 0
  present :
      (i : ℕ)
      → lo ≤ i
      → i < hi
      → g i ≡ true
      → ((n : ℕ) → lo ≤ n → n < i → g n ≡ false)
      → IsFirst g lo hi (suc i)

-- Word `j` cut to the digits from `lo` below `hi`.
pub record IsCut (g : ℕ → Bool) (j lo hi x : ℕ) : Type 0 where
  pub small : x < 2 ^ 32
  pub digits : (i : ℕ) → i < 32 → bit x i ≡ (leb lo i && (ltb i hi && g (32 * j + i)))

bit_and-le_fuel : (n a b : ℕ) → a ≤ n → bit_and a b ≤ a
bit_and-le_fuel zero a b h =
    let z : a ≡ 0 = omega arith in
    let e : bit_and a b ≡ 0 =
      bit_ext (bit_and a b) 0 λ i. ground (arith, bit-and i a b, ap (λ x. bit x i) z, bit-zero i) in
    omega arith
bit_and-le_fuel (suc n) a b h =
    omega (arith, bit_and_low a b, bit_and-le_fuel n (a / 2) (b / 2) (omega arith))

pub bit_and-le : (a b : ℕ) → bit_and a b ≤ a
bit_and-le a b = bit_and-le_fuel a a b (omega arith)

pub bit-ones_from : (s i : ℕ) → i < 32 → bit (ones_from s) i ≡ leb s i
bit-ones_from s i h =
    ground (arith, bit-mod 32 i (ones * 2 ^ s), bit-shl s i ones, bit-ones 32 (i - s))

pub bit-ones_below : (s i : ℕ) → s ≤ 32 → bit (ones_below s) i ≡ ltb i s
unfolding ones_below
bit-ones_below s i h = bit-shr (32 - s) i ones ∙ bit-ones 32 (i + (32 - s)) ∙ ground arith

-- The first set digit of a cut word is the first index that `g` holds at from there on.
pub cut-IsFirst :
    (g : ℕ → Bool) (j lo hi x top ans : ℕ)
    → IsCut g j lo hi x
    → x ≢ 0
    → 32 * j + hi ≤ top
    → ans ≡ 32 * j + ffs x
    → IsFirst g (32 * j + lo) top ans
cut-IsFirst g j lo hi x top ans c ne le e =
    let (o, h) = ffs-IsLowest x ne c.small in
    let i = ffs x - 1 in
    let within : i < 32 = elim (Bool-cases (ltb i 32)) [
      | inl l ↦ ground arith
      | inr l ↦ absurd (ground (arith, h.here, bit-high 32 i x c.small (ground arith)))
    ] in
    let d : (leb lo i && (ltb i hi && g (32 * j + i))) ≡ true = sym (c.digits i within) ∙ h.here in
    let same : suc (32 * j + i) ≡ ans = omega (arith, o) in
    subst (IsFirst g (32 * j + lo) top) same (
      present (32 * j + i) (ground (arith, d)) (ground (arith, d)) (ground (arith, d)) λ n p q.
        let k = n - 32 * j in
        let back : g (32 * j + k) ≡ g n = ap g (omega arith) in
        let b = h.below k (omega arith) in
        let f = c.digits k (omega (arith, within)) in ground (arith, b, f, back, d))

pub cut-none :
    (g : ℕ → Bool) (j lo hi x : ℕ)
    → IsCut g j lo hi x
    → x ≡ 0
    → hi ≤ 32
    → (n : ℕ) → 32 * j + lo ≤ n
    → n < 32 * j + hi
    → g n ≡ false
cut-none g j lo hi x c z le n p q =
    let k = n - 32 * j in
    let back : g (32 * j + k) ≡ g n = ap g (omega arith) in
    let f = c.digits k (omega arith) in
    let b : bit x k ≡ false = ap (λ y. bit y k) z ∙ bit-zero k in ground (arith, f, b, back)

pub later-IsFirst :
    (g : ℕ → Bool) (lo mid hi ans : ℕ)
    → ((n : ℕ) → lo ≤ n → n < mid → g n ≡ false)
    → lo ≤ mid
    → IsFirst g mid hi ans
    → IsFirst g lo hi ans
later-IsFirst g lo mid hi zero none le (absent f) = absent λ n p q. elim (Bool-cases (ltb n mid)) [
  | inl l ↦ none n p (ground arith)
  | inr l ↦ f n (ground arith) q
]
later-IsFirst g lo mid hi (suc k) none le (present i p q h f) = present i (omega arith) q h λ n a b.
    elim (Bool-cases (ltb n mid)) [ inl l ↦ none n a (ground arith) | inr l ↦ f n (ground arith) b ]

pub empty-IsFirst : (g : ℕ → Bool) (lo hi ans : ℕ) → hi ≤ lo → ans ≡ 0 → IsFirst g lo hi ans
empty-IsFirst g lo hi ans le e =
    subst (IsFirst g lo hi) (sym e) (absent λ n p q. absurd (omega arith))
