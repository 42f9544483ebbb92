-- ===== src/Prelude/Low.antt =====
-- The two lowest bits of a word, which say how an address is aligned.
use Prim.Native.Nat.{bit_and, bit_or, bit_xor}
use aim_mips.Prelude.{ℕ, ◌/◌, ◌%◌, ◌≡◌, arith}
use aim_mips.Prelude.Bits.{differ-lt, differ-zero, bit_or_low, bit_xor_low, bit_and-mask}

or_low-zero : (a b : ℕ) → bit_or a b % 4 ≡ 0 → (a % 4 ≡ 0) × (b % 4 ≡ 0)
or_low-zero a b h =
    let e = bit_or_low a b in
    let f = bit_or_low (a / 2) (b / 2) in (omega (arith, e, f), omega (arith, e, f))

-- Both words are aligned when their disjunction is.
pub or-aligned : (a b : ℕ) → bit_and (bit_or a b) 3 ≡ 0 → (a % 4 ≡ 0) × (b % 4 ≡ 0)
or-aligned a b h = or_low-zero a b (omega (arith, bit_and-mask 2 (bit_or a b)))

-- They are aligned alike when their difference bit by bit is aligned.
pub xor-aligned : (a b : ℕ) → bit_and (bit_xor a b) 3 ≡ 0 → a % 4 ≡ b % 4
xor-aligned a b h =
    let m = bit_and-mask 2 (bit_xor a b) in
    let e = bit_xor_low a b in
    let f = bit_xor_low (a / 2) (b / 2) in
    let small = differ-lt (a % 2) (b % 2) (omega arith) (omega arith) in
    let small' = differ-lt (a / 2 % 2) (b / 2 % 2) (omega arith) (omega arith) in
    let x : a % 2 ≡ b % 2 =
      differ-zero (a % 2) (b % 2) (omega arith) (omega arith)
        (omega (arith, m, e, f, small, small')) in
    let y : a / 2 % 2 ≡ b / 2 % 2 =
      differ-zero (a / 2 % 2) (b / 2 % 2) (omega arith) (omega arith)
        (omega (arith, m, e, f, small, small')) in
    omega (arith, x, y)
