-- ===== src/Bitmap/TestBit.antt =====
-- bitmap_test_bit.
use Prim.Native.Nat.{bit_and}
use aim_mips.Prelude.{ℕ, ◌+◌, ◌-◌, ◌/◌, ◌%◌, ◌^◌, ◌≤◌, ◌≡◌, ◌≢◌, ap, ◌∙◌, ◌==◌, arith}
use aim_mips.Prelude.Bits.{bit, bit-shr, bit_and-mask}
use aim_mips.Bitmap.{WordMemory, member, bitmap_test_bit}

tested :
    (m : WordMemory) (addr nr : ℕ)
    → bitmap_test_bit nr addr m ≡ bit (m (addr + nr / 32)) ((nr - 1) % 32)
unfolding bitmap_test_bit bit
tested m addr nr =
    let low : bit_and (nr - 1) (32 - 1) ≡ (nr - 1) % 32 = bit_and-mask 5 (nr - 1) in
    let x = m (addr + nr / 32) in
    let shifted : (x / 2 ^ ((nr - 1) % 32) % 2 == 1) ≡ bit x (0 + (nr - 1) % 32) =
      bit-shr ((nr - 1) % 32) 0 x in
    ap (λ k. x / 2 ^ k % 2 == 1) low
    ∙ shifted
    ∙ ap (bit x) {x = 0 + (nr - 1) % 32} {y = (nr - 1) % 32} (omega arith)

-- `bitmap_test_bit` tests bit `nr`, counted from 1, unless 32 divides `nr`: then it tests the bit 32 places
-- further on.
pub bitmap_test_bit-member :
    (m : WordMemory) (addr nr : ℕ)
    → 1 ≤ nr
    → (nr % 32 ≢ 0 → bitmap_test_bit nr addr m ≡ member m addr (nr - 1))
      × (nr % 32 ≡ 0 → bitmap_test_bit nr addr m ≡ member m addr (nr - 1 + 32))
unfolding member
bitmap_test_bit-member m addr nr o = (
  λ ne. tested m addr nr ∙ ap (λ j. bit (m (addr + j)) ((nr - 1) % 32)) (omega arith),
  λ z.
      let d : (nr - 1) % 32 ≡ (nr - 1 + 32) % 32 = omega arith in
      tested m addr nr
      ∙ ap (λ j. bit (m (addr + j)) ((nr - 1) % 32)) (omega arith)
      ∙ ap (bit (m (addr + (nr - 1 + 32) / 32))) d,
)
