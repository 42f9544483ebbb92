-- ===== src/Slab/Class.antt =====
-- The size classes of alloc.
use aim_mips.Prelude.{
  ℕ, zero, suc, ◌+◌, ◌*◌, ◌/◌, ◌^◌, ◌≤◌, ◌<◌, ◌≡◌, ◌⊎◌, refl, inl, inr, leb, some, arith,
  Bool-cases, true, ◌∙◌, sym, ap,
}
use native.Mathlib.Nat.{pow-suc, mul_comm, mul_assoc, mul-div_cancel, one-le-pow}
use aim_mips.Slab.{fri_size, class_loop}

-- The size is one of the nine, and the least of them that is large enough.
pub record IsClass (size c : ℕ) : Type 0 where
  pub index : (k : ℕ) × (k < 9) × (c ≡ 16 * 2 ^ k)
  pub fits : size ≤ c
  pub least : (c ≡ 16) ⊎ (c < 2 * size)

power_product : (k n : ℕ) → 2 ^ k * 2 ^ n ≡ 2 ^ (k + n)
power_product zero n =
    let e : 2 ^ (0 + n) ≡ 2 ^ n = ap (λ x. 2 ^ x) {x = 0 + n} {y = n} (omega arith) in
    omega (arith, e)
power_product (suc k) n =
    let e = power_product k n in
    let f : 2 ^ suc k * 2 ^ n ≡ 2 * (2 ^ k * 2 ^ n) =
      ap (λ x. x * 2 ^ n) (pow-suc 2 k ∙ mul_comm (2 ^ k) 2) ∙ mul_assoc 2 (2 ^ k) (2 ^ n) in
    let g : 2 ^ (suc k + n) ≡ 2 ^ suc (k + n) =
      ap (λ x. 2 ^ x) {x = suc k + n} {y = suc (k + n)} (omega arith) in
    omega (arith, e, f, g, pow-suc 2 (k + n))

fri_size_lem : (k ii : ℕ) → k + ii ≡ 8 → fri_size ii ≡ 16 * 2 ^ k
unfolding fri_size
fri_size_lem k ii e =
    let whole : 16 * 2 ^ k * 2 ^ ii ≡ 4096 =
      mul_assoc 16 (2 ^ k) (2 ^ ii)
      ∙ ap (λ x. 16 * x) (power_product k ii ∙ ap (λ x. 2 ^ x) {x = k + ii} {y = 8} e) in
    sym (ap (λ x. x / 2 ^ ii) whole) ∙ mul-div_cancel (16 * 2 ^ k) (one-le-pow ii 2 (omega arith))

IsClass-from :
    (k ii size : ℕ)
    → k + ii ≡ 8
    → size ≤ 4096
    → (16 * 2 ^ k ≡ 16) ⊎ (16 * 2 ^ k < 2 * size)
    → (c : ℕ) × (class_loop (suc ii) size ≡ some c) × IsClass size c
unfolding class_loop
IsClass-from k zero size e le h =
    let f = fri_size_lem k zero e in
    let ek : 16 * 2 ^ k ≡ 4096 = ap (λ x. 16 * 2 ^ x) {x = k} {y = 8} (omega arith) in
    let t : leb size (fri_size zero) ≡ true = ground arith in
    (
      16 * 2 ^ k,
      rw (class_loop, t, f) refl,
      record { index = (k, omega arith, refl); fits = omega arith; least = h },
    )
IsClass-from k (suc ii) size e le h = elim (Bool-cases (leb size (fri_size (suc ii)))) [
  | inl t ↦
      let f = fri_size_lem k (suc ii) e in
      (
        16 * 2 ^ k,
        rw (class_loop, t, f) refl,
        record { index = (k, omega arith, refl); fits = ground arith; least = h },
      )
  | inr t ↦
      let f = fri_size_lem k (suc ii) e in
      let (c, run, is) =
        IsClass-from (suc k) ii size (omega arith) le (inr (ground (arith, pow-suc 2 k))) in
      (c, rw (class_loop, t) run, is)
]

-- The loop of alloc over the size classes answers the smallest that the size fits in.
pub class_loop-IsClass :
    (size : ℕ) → size ≤ 4096 → (c : ℕ) × (class_loop 9 size ≡ some c) × IsClass size c
class_loop-IsClass size le = IsClass-from 0 8 size refl le (inl refl)
