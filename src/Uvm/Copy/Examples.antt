-- ===== src/Uvm/Copy/Examples.antt =====
-- User pages below 0x8000, which the kernel sees 0x100000 higher.
use aim_mips.Prelude.{
  ℕ, ◌+◌, ◌≡◌, refl, ltb, Bool, true, false, ap, if◌then◌else◌, Option, none, some, arith, success,
}
use aim_mips.Uvm.Copy.{Bytes, filling, copy_loop}
use aim_mips.Uvm.Copy.Filled.{IsPaged, IsFilled, copy_loop-IsFilled}

abbrev shifted : ℕ → Option ℕ
shifted va = if ltb va 0x8000 then some (va + 0x10_0000) else none

abbrev blank : Bytes
blank a = 0

if_some :
    (b : Bool) (x y : ℕ)
    → Path (Option ℕ) (if b then some x else none) (some y)
    → (b ≡ true) × (x ≡ y)
if_some true x y e = (refl, cc)
if_some false x y e = absurd cc

shifted-IsPaged : IsPaged shifted
shifted-IsPaged va p j e h =
    let (l, same) = if_some (ltb va 0x8000) (va + 0x10_0000) p e in
    let below : ltb (va + j) 0x8000 ≡ true = ground arith in
    rw below (ap some {x = va + j + 0x10_0000} {y = p + j} (omega (arith, same)))

copy_loop-IsFilled_example :
    (m' : Bytes) × (copy_loop 4 shifted (filling 7) 0x1ff0 0x3010 0 blank ≡ some (success, m'))
    × IsFilled shifted 0x1ff0 0x3010 7 blank m'
copy_loop-IsFilled_example =
    copy_loop-IsFilled 4 0x1ff0 0x3010 7 0 shifted blank shifted-IsPaged
      (λ i lo hi. (i + 0x10_0000, ground arith)) (omega arith) (omega arith) (omega arith)
