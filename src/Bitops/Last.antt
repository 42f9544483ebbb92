-- ===== src/Bitops/Last.antt =====
-- fls and flz find the highest digit.
use Prim.Native.Nat.{bit_and}
use native.Mathlib.Nat.{
  mul_assoc, mul_comm, div-lt_iff_lt-mul, one-le-pow, div-add-mod', mod-lt, div-eq_of_lt,
  mul-lt-mul_of_pos_right, mul-le-mul_right, lt_of_mul-lt-mul_right,
}
use aim_mips.Prelude.{
  ℕ, ◌+◌, ◌-◌, ◌*◌, ◌/◌, ◌%◌, ◌^◌, ◌≤◌, ◌<◌, ◌≡◌, ◌≢◌, inl, inr, refl, sym, ap, ◌∙◌, true, false,
  ◌==◌, ltb, arith, Bool-cases,
}
use aim_mips.Prelude.Bits.{bit, bit_and-high, bit-shl, bit-high, bit-shr}
use aim_mips.Bitops.{Search, down, fls}
use aim_mips.Bitops.First.{pow_split}

-- The highest set digit of `x` is digit `i`.
pub record IsHighest (x i : ℕ) : Type 0 where
  pub here : bit x i ≡ true
  pub above : (j : ℕ) → i < j → bit x j ≡ false

-- `word` is `x << (32 - num)`, with nothing lost, and the high `k` digits of `word` are not all clear.
record IsAt (k x : ℕ) (s : Search) : Type 0 where
  shifted : s.word ≡ x * 2 ^ (32 - s.num)
  bounded : s.word < 2 ^ 32
  started : k ≤ s.num
  within : s.num ≤ 32
  seen : 2 ^ (32 - k) ≤ s.word

split_32 : (k : ℕ) → k ≤ 32 → 2 ^ k * 2 ^ (32 - k) ≡ 2 ^ 32
split_32 k le =
    sym (pow_split k (32 - k)) ∙ ap (λ (t : ℕ). 2 ^ t) {x = k + (32 - k)} {y = 32} (omega arith)

div_lt : (k x : ℕ) → k ≤ 32 → x < 2 ^ 32 → x / 2 ^ (32 - k) < 2 ^ k
div_lt k x le h =
    let (to, from) =
      div-lt_iff_lt-mul {k = 2 ^ (32 - k)} {x = x} {y = 2 ^ k}
        (one-le-pow (32 - k) 2 (omega arith)) in
    from (omega (arith, split_32 k le))

top :
    (k x : ℕ)
    → k ≤ 32
    → x < 2 ^ 32
    → bit_and x ((2 ^ k - 1) * 2 ^ (32 - k)) ≡ x / 2 ^ (32 - k) * 2 ^ (32 - k)
top k x le h = bit_and-high (32 - k) k x (div_lt k x le h)

high-zero :
    (k x : ℕ) → k ≤ 32 → x < 2 ^ 32 → bit_and x ((2 ^ k - 1) * 2 ^ (32 - k)) ≡ 0 → x < 2 ^ (32 - k)
high-zero k x le h z = omega (
  arith,
  top k x le h,
  div-add-mod' x (2 ^ (32 - k)),
  mod-lt x (one-le-pow (32 - k) 2 (omega arith)),
)

high-some :
    (k x : ℕ) → k ≤ 32 → x < 2 ^ 32 → bit_and x ((2 ^ k - 1) * 2 ^ (32 - k)) ≢ 0 → 2 ^ (32 - k) ≤ x
high-some k x le h ne = elim (Bool-cases (ltb x (2 ^ (32 - k)))) [
  | inl e ↦
      let z : x / 2 ^ (32 - k) ≡ 0 = div-eq_of_lt (ground arith) in
      absurd (ne (top k x le h ∙ ap (λ (t : ℕ). t * 2 ^ (32 - k)) z ∙ omega arith))
  | inr e ↦ ground arith
]

-- A word below `2 ^ (32 - k)` loses nothing when it is shifted by `k`.
shift_lt : (k w : ℕ) → k ≤ 32 → w < 2 ^ (32 - k) → w * 2 ^ k < 2 ^ 32
shift_lt k w le h = omega (
  arith,
  split_32 k le,
  mul-lt-mul_of_pos_right h (one-le-pow k 2 (omega arith)),
  mul_comm (2 ^ k) (2 ^ (32 - k)),
)

grown : (k w : ℕ) → k + k ≤ 32 → 2 ^ (32 - (k + k)) ≤ w → 2 ^ (32 - k) ≤ w * 2 ^ k
grown k w le h = omega (
  arith,
  mul-le-mul_right (2 ^ k) h,
  pow_split (32 - (k + k)) k,
  ap (λ (t : ℕ). 2 ^ t) {x = 32 - (k + k) + k} {y = 32 - k} (omega arith),
)

lost :
    (k x : ℕ) (s : Search)
    → k ≤ s.num
    → s.num ≤ 32
    → s.word ≡ x * 2 ^ (32 - s.num)
    → s.word * 2 ^ k ≡ x * 2 ^ (32 - (s.num - k))
lost k x s le within e =
    ap (λ (t : ℕ). t * 2 ^ k) e
    ∙ mul_assoc x (2 ^ (32 - s.num)) (2 ^ k)
    ∙ ap (λ (t : ℕ). x * t)
        (sym (pow_split (32 - s.num) k)
          ∙ ap (λ (t : ℕ). 2 ^ t) {x = 32 - s.num + k} {y = 32 - (s.num - k)} (omega arith))

down-IsAt : (k x : ℕ) (s : Search) → k + k ≤ 32 → IsAt (k + k) x s → IsAt k x (down k s)
unfolding down
down-IsAt k x s le h = elim (Bool-cases (bit_and s.word ((2 ^ k - 1) * 2 ^ (32 - k)) == 0)) [
  | inl e ↦
      let lt = high-zero k s.word (omega arith) h.bounded (ground arith) in
      let fits = shift_lt k s.word (omega arith) lt in
      let same : s.word * 2 ^ k % 2 ^ 32 ≡ s.word * 2 ^ k = omega (arith, fits) in
      rw e (record {
        shifted = same ∙ lost k x s (omega (arith, h.started)) h.within h.shifted;
        bounded = omega (arith, fits);
        started = omega (arith, h.started);
        within = omega (arith, h.within);
        seen = omega (arith, same, grown k s.word le h.seen);
      })
  | inr e ↦ rw e (record {
    shifted = h.shifted;
    bounded = h.bounded;
    started = omega (arith, h.started);
    within = h.within;
    seen = high-some k s.word (omega arith) h.bounded (λ z. ground (arith, z));
  })
]

top-IsHighest : (x : ℕ) (s : Search) → IsAt 1 x s → IsHighest x (s.num - 1)
unfolding bit
top-IsHighest x s h =
    let one : s.word / 2 ^ 31 ≡ 1 = let b = h.bounded in let c = h.seen in omega arith in
    let lead : bit s.word 31 ≡ true = sym (bit-shr 31 0 s.word) ∙ rw one refl in
    let place : bit (x * 2 ^ (32 - s.num)) 31 ≡ true =
      ap (λ (w : ℕ). bit w 31) (sym h.shifted) ∙ lead in
    let moved : bit x (31 - (32 - s.num)) ≡ bit x (s.num - 1) =
      let a = h.started in
      let b = h.within in ap (bit x) {x = 31 - (32 - s.num)} {y = s.num - 1} (omega arith) in
    let small : x < 2 ^ s.num =
      lt_of_mul-lt-mul_right (2 ^ (32 - s.num))
        (omega (arith, h.shifted, h.bounded, split_32 s.num h.within)) in
    record {
      here = ground (arith, bit-shl (32 - s.num) 31 x, place, moved);
      above = λ j lt. bit-high s.num j x small (let a = h.started in omega arith);
    }

-- `fls` answers one more than the index of the highest set digit of a word that has one.
pub fls-IsHighest :
    (x : ℕ) → x ≢ 0 → x < 2 ^ 32 → (1 ≤ fls x) × (fls x ≤ 32) × IsHighest x (fls x - 1)
unfolding fls
fls-IsHighest x ne small =
    let e : (x == 0) ≡ false = ground arith in
    let start : IsAt 32 x (record { num = 32; word = x }) = record {
      shifted = omega arith;
      bounded = small;
      started = omega arith;
      within = omega arith;
      seen = omega arith;
    } in
    let h = down-IsAt 1 x _ (omega arith) (
      down-IsAt 2 x _ (omega arith) (
        down-IsAt 4 x _ (omega arith)
          (down-IsAt 8 x _ (omega arith) (down-IsAt 16 x _ (omega arith) start)))) in
    rw e (h.started, h.within, top-IsHighest x _ h)
