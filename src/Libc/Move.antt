-- ===== src/Libc/Move.antt =====
-- memcpy and memmove copy, whatever the alignment.
use Prim.Native.Nat.{bit_and, bit_or, bit_xor}
use aim_mips.Prelude.{
  ℕ, ◌+◌, ◌-◌, ◌*◌, ◌/◌, ◌%◌, ◌<◌, ◌≤◌, ◌≡◌, ◌⊎◌, inl, inr, refl, some, ltb, leb, ◌==◌, ◌||◌, arith,
  Bool-cases,
}
use aim_mips.Prelude.Bits.{bit_and-mask}
use aim_mips.Prelude.Low.{or-aligned, xor-aligned}
use aim_mips.Libc.{
  Memory, bytes_up, bytes_down, align_up, copy_up, align_down, copy_down, memcpy, memmove,
}
use aim_mips.Libc.Copied.{
  IsCopied, IsCopied-at, bytes_down_at, same_IsCopied, up-IsCopied, down-IsCopied, IsCopied-length,
  bytes_up-IsCopied, words_up-IsCopied_or_none, words_down-IsCopied_or_none,
}

-- The forward copy takes no more bytes singly than there are, and then both pointers are aligned or
-- nothing is left.
align_up_lem :
    (dst src length : ℕ)
    → let t = align_up dst src length in
      (t ≤ length) × ((length ≡ t) ⊎ (((src + t) % 4 ≡ 0) × ((dst + t) % 4 ≡ 0)))
unfolding align_up
align_up_lem dst src length = elim (Bool-cases (bit_and (bit_or src dst) 3 == 0)) [
  | inl a ↦
      let z : bit_and (bit_or src dst) 3 ≡ 0 = ground arith in
      let (s, d) = or-aligned src dst z in rw a (omega arith, inr (omega arith, omega arith))
  | inr a ↦ elim (Bool-cases (bit_and (bit_xor src dst) 3 == 0)) [
    | inr b ↦ rw (a, b) (omega arith, inl refl)
    | inl b ↦ elim (Bool-cases (ltb length 4)) [
      | inl c ↦ rw (a, b, c) (omega arith, inl refl)
      | inr c ↦
          let z : bit_and (bit_xor src dst) 3 ≡ 0 = ground arith in
          let same = xor-aligned src dst z in
          let m = bit_and-mask 2 src in
          let long : 4 ≤ length = ground arith in
          rw (a, b, c) (omega arith, inr (omega (arith, m, same), omega (arith, m, same)))
    ]
  ]
]

align_down_lem :
    (dst src length : ℕ)
    → let t = align_down dst src length in
      length ≤ src
      → length ≤ dst
      → (t ≤ length) × ((length ≡ t) ⊎ (((src - t) % 4 ≡ 0) × ((dst - t) % 4 ≡ 0)))
unfolding align_down
align_down_lem dst src length ls ld = elim (Bool-cases (bit_and (bit_or src dst) 3 == 0)) [
  | inl a ↦
      let z : bit_and (bit_or src dst) 3 ≡ 0 = ground arith in
      let (s, d) = or-aligned src dst z in rw a (omega arith, inr (omega arith, omega arith))
  | inr a ↦ elim (Bool-cases (bit_and (bit_xor src dst) 3 == 0)) [
    | inr b ↦ rw (a, b) (omega arith, inl refl)
    | inl b ↦ elim (Bool-cases (leb length 4)) [
      | inl c ↦ rw (a, b, c) (omega arith, inl refl)
      | inr c ↦
          let z : bit_and (bit_xor src dst) 3 ≡ 0 = ground arith in
          let same = xor-aligned src dst z in
          let m = bit_and-mask 2 src in
          let long : 4 < length = ground arith in
          rw (a, b, c) (omega (arith, m), inr (omega (arith, m, same), omega (arith, m, same)))
    ]
  ]
]

-- The three stages of the forward copy.
copy_up-IsCopied :
    (dst src length : ℕ) (m : Memory)
    → (dst ≤ src) ⊎ (src + length ≤ dst)
    → (m' : Memory) × (copy_up dst src length m ≡ some m') × IsCopied dst src length m m'
unfolding copy_up
copy_up-IsCopied dst src length m o =
    let t = align_up dst src length in
    let left = length - t in
    let (le, aligned) = align_up_lem dst src length in
    let m1 = bytes_up t dst src m in
    let one : IsCopied dst src t m m1 =
      bytes_up-IsCopied t dst src m (elim o [ inl p ↦ inl p | inr p ↦ inr (omega arith) ]) in
    let (m2, e, two) =
      words_up-IsCopied_or_none (left / 4) (dst + t) (src + t) m1
        (elim aligned [ inl z ↦ inl (omega arith) | inr a ↦ inr a ])
        (elim o [ inl p ↦ inl (omega arith) | inr p ↦ inr (omega arith) ]) in
    let three =
      bytes_up-IsCopied (left % 4) (dst + t + left / 4 * 4) (src + t + left / 4 * 4) m2
        (elim o [ inl p ↦ inl (omega arith) | inr p ↦ inr (omega arith) ]) in
    (
      bytes_up (left % 4) (dst + t + left / 4 * 4) (src + t + left / 4 * 4) m2,
      rw (copy_up, e) refl,
      IsCopied-length dst src (t + (left / 4 * 4 + left % 4)) length m _ (omega arith) (
          up-IsCopied dst src t (left / 4 * 4 + left % 4) m m1 _
            (elim o [ inl p ↦ inl p | inr p ↦ inr (omega arith) ]) one
            (up-IsCopied (dst + t) (src + t) (left / 4 * 4) (left % 4) m1 m2 _
              (elim o [ inl p ↦ inl (omega arith) | inr p ↦ inr (omega arith) ]) two three)),
    )

-- The three stages of the backward copy, which end where the forward one begins.
copy_down-IsCopied :
    (dst src length : ℕ) (m : Memory)
    → (src ≤ dst) ⊎ (dst + length ≤ src)
    → (m' : Memory) × (copy_down (dst + length) (src + length) length m ≡ some m')
      × IsCopied dst src length m m'
unfolding copy_down
copy_down-IsCopied dst src length m o =
    let t = align_down (dst + length) (src + length) length in
    let left = length - t in
    let (le, aligned) =
      align_down_lem (dst + length) (src + length) length (omega arith) (omega arith) in
    let m1 = bytes_down t (dst + length) (src + length) m in
    let top : dst + left + t ≡ dst + length = omega arith in
    let top' : src + left + t ≡ src + length = omega arith in
    let one : IsCopied (dst + left) (src + left) t m m1 =
      bytes_down_at t (dst + left) (src + left) (dst + length) (src + length) m top top'
        (elim o [ inl p ↦ inl (omega arith) | inr p ↦ inr (omega arith) ]) in
    let low = left % 4 in
    let (m2, e, two) =
      words_down-IsCopied_or_none (left / 4) (dst + low) (src + low) (dst + length - t)
        (src + length - t) m1 (omega arith) (omega arith)
        (elim aligned [ inl z ↦ inl (omega arith) | inr (a, b) ↦ inr (omega arith, omega arith) ])
        (elim o [ inl p ↦ inl (omega arith) | inr p ↦ inr (omega arith) ]) in
    let three =
      bytes_down_at low dst src (dst + length - t - left / 4 * 4) (src + length - t - left / 4 * 4)
        m2 (omega arith) (omega arith) (elim o [ inl p ↦ inl p | inr p ↦ inr (omega arith) ]) in
    (
      bytes_down low (dst + length - t - left / 4 * 4) (src + length - t - left / 4 * 4) m2,
      rw (copy_down, e) refl,
      IsCopied-length dst src (low + left / 4 * 4 + t) length m _ (omega arith) (
          down-IsCopied dst src (low + left / 4 * 4) t m m1 _
            (elim o [ inl p ↦ inl p | inr p ↦ inr (omega arith) ])
            (IsCopied-at (dst + left) (src + left) (dst + (low + left / 4 * 4))
              (src + (low + left / 4 * 4)) t m m1 (omega arith) (omega arith) one)
            (down-IsCopied dst src low (left / 4 * 4) m1 m2 _
              (elim o [ inl p ↦ inl p | inr p ↦ inr (omega arith) ]) two three)),
    )

-- `memmove` copies `length` bytes from `src` to `dst` as they were, also where the two regions overlap,
-- and changes nothing else; it makes no unaligned access.
pub memmove-IsCopied :
    (dst src length : ℕ) (m : Memory)
    → (m' : Memory) × (memmove dst src length m ≡ some m') × IsCopied dst src length m m'
unfolding memmove
memmove-IsCopied dst src length m = elim (Bool-cases (length == 0 || dst == src)) [
  | inl b ↦ (m, rw b refl, same_IsCopied dst src length m b)
  | inr b ↦ elim (Bool-cases (ltb dst src)) [
    | inl l ↦
        let (m', e, c) = copy_up-IsCopied dst src length m (inl (ground arith)) in
        (m', rw (b, l) e, c)
    | inr l ↦
        let (m', e, c) = copy_down-IsCopied dst src length m (inl (ground arith)) in
        (m', rw (b, l) e, c)
  ]
]

-- `memcpy` does where `dst` lies below `src`, or at or past its end.
pub memcpy-IsCopied :
    (dst src length : ℕ) (m : Memory)
    → (dst ≤ src) ⊎ (src + length ≤ dst)
    → (m' : Memory) × (memcpy dst src length m ≡ some m') × IsCopied dst src length m m'
unfolding memcpy
memcpy-IsCopied dst src length m o = elim (Bool-cases (length == 0 || dst == src)) [
  | inl b ↦ (m, rw b refl, same_IsCopied dst src length m b)
  | inr b ↦ let (m', e, c) = copy_up-IsCopied dst src length m o in (m', rw b e, c)
]
