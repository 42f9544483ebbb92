-- ===== src/Pmm/Memory.antt =====
-- Memory, one byte to a kernel virtual address of 32 bits, with `memset` of lib/libc/memset.c and `pmemset`
-- of kern/mm/pmm/pmm.c, whose physical addresses have 64 bits and go through `pa2kva`.
use mathlib.Core.Path.{subst}
use aim_mips.Prelude.{
  ℕ, zero, suc, ◌+◌, ◌-◌, ◌/◌, ◌%◌, ◌^◌, ◌≤◌, ◌<◌, ◌≡◌, ◌≢◌, refl, true, false, Bool-cases, inl,
  inr, arith, leb, sub64-eq, ◌∙◌, Option, none, some, ltb, ◌==◌, if◌then◌else◌, add32, sub32, add64,
  sub64, page_size,
}

abbrev pub Memory : Type 0
Memory = ℕ → ℕ

abbrev pub kern_base : ℕ
kern_base = 0x8000_0000

-- `pa2kva` of include/arch/mips/arch-mmu.h: the address as a pointer, and KERN_BASE.
unfoldable pub pa2kva : ℕ → ℕ
pa2kva pa = add32 (pa % 2 ^ 32) kern_base

-- `premap_addr` of include/aim/mmu.h: always a low address.
unfoldable pub premap_addr : ℕ → ℕ
premap_addr a = if leb kern_base a then a - kern_base else a

-- The loop of `memset`: `*d++ = (unsigned char)c`, with `n` bytes to go.
pub memset : ℕ → ℕ → ℕ → Memory → Memory
memset d c zero mem = mem
memset d c (suc n) mem = memset (add32 d 1) c n (λ x. if x == d then c % 2 ^ 8 else mem x)

-- The loop of `pmemset`, on fuel. `size` is unsigned and reaches 0 only in whole pages, so `none`
-- stands for a loop that never ends.
pub pmemset_loop : ℕ → ℕ → ℕ → ℕ → Memory → Option Memory
pmemset_loop zero paddr byte size mem = none
pmemset_loop (suc fuel) paddr byte size mem =
    let rest =
      pmemset_loop fuel (add64 paddr page_size) byte (sub64 size page_size)
        (memset (pa2kva paddr) byte page_size mem) in
    if size == 0 then some mem else rest

pub pmemset : ℕ → ℕ → ℕ → Memory → Option Memory
unfolding pmemset_loop
pmemset paddr byte size mem = pmemset_loop (size / page_size + 1) paddr byte size mem

-- `x` is one of the `n` addresses from `d` on, which go on at 0 after the last of 32 bits.
abbrev pub Inside : ℕ → ℕ → ℕ → Type 0
Inside d n x = (x < 2 ^ 32) × (sub32 x d < n)

-- Those addresses hold the byte, and the others what they held.
pub record Filled (d byte n : ℕ) (mem mem' : Memory) : Type 0 where
  pub inside : (x : ℕ) → Inside d n x → mem' x ≡ byte % 2 ^ 8
  pub outside : (x : ℕ) → ¬ (Inside d n x) → mem' x ≡ mem x

-- `memset` fills its region.
pub memset-Filled : (d c n : ℕ) (mem : Memory) → d < 2 ^ 32 → Filled d c n mem (memset d c n mem)
unfolding memset
memset-Filled d c zero mem word = record {
  inside = λ x h. absurd (let l = h.1 in omega arith);
  outside = λ x h. refl;
}
memset-Filled d c (suc n) mem word =
    let rest =
      memset-Filled (add32 d 1) c n (λ x. if x == d then c % 2 ^ 8 else mem x) (omega arith) in
    record {
      inside = λ x h. elim (Bool-cases (ltb (sub32 x (add32 d 1)) n)) [
        | inl l ↦ rest.inside x (h.0, ground arith)
        | inr l ↦
            let here : (x == d) ≡ true = let w = h.0 in let u = h.1 in ground arith in
            rest.outside x (λ i. let u = i.1 in ground arith) ∙ rw here refl
      ];
      outside = λ x h.
          let away : ¬ (Inside (add32 d 1) n x) =
            λ i. h (i.0, (let u = i.1 in let w = i.0 in omega arith)) in
          let other : (x == d) ≡ false = elim (Bool-cases (x == d)) [
            | inl e ↦ absurd (h (ground arith, ground arith))
            | inr e ↦ e
          ] in
          rest.outside x away ∙ rw other refl;
    }

pa2kva_next : (paddr : ℕ) → pa2kva (add64 paddr page_size) ≡ add32 (pa2kva paddr) page_size
unfolding pa2kva
pa2kva_next paddr = omega arith

pa2kva-lt : (paddr : ℕ) → pa2kva paddr < 2 ^ 32
unfolding pa2kva
pa2kva-lt paddr = omega arith

-- A page, and what follows it.
Filled-page :
    (d byte n : ℕ) (mem mid mem' : Memory)
    → d < 2 ^ 32
    → page_size ≤ n
    → Filled d byte page_size mem mid
    → Filled (add32 d page_size) byte (n - page_size) mid mem'
    → Filled d byte n mem mem'
Filled-page d byte n mem mid mem' word le page rest = record {
  inside = λ x h.
      let w = h.0 in
      let u = h.1 in
      elim (Bool-cases (ltb (sub32 x (add32 d page_size)) (n - page_size))) [
        | inl l ↦ rest.inside x (w, ground arith)
        | inr l ↦
            rest.outside x (λ i. let v = i.1 in ground arith) ∙ page.inside x (w, ground arith)
      ];
  outside = λ x h.
      rest.outside x (λ i. h (i.0, (let v = i.1 in let w = i.0 in omega arith)))
      ∙ page.outside x (λ i. h (i.0, (let v = i.1 in let w = i.0 in omega arith)));
}

pmemset_loop-suc :
    (fuel paddr byte size : ℕ) (mem : Memory)
    → size < 2 ^ 64
    → page_size ≤ size
    → pmemset_loop (suc fuel) paddr byte size mem
      ≡ pmemset_loop fuel
          (add64 paddr page_size)
          byte
          (size - page_size)
          (memset (pa2kva paddr) byte page_size mem)
unfolding pmemset_loop
pmemset_loop-suc fuel paddr byte size mem fits some_left =
    let more : (size == 0) ≡ false = ground arith in
    rw (more, sub64-eq size page_size some_left (omega arith))

pmemset_loop-Filled :
    (fuel paddr byte size : ℕ) (mem : Memory)
    → size < 2 ^ 64
    → size % page_size ≡ 0
    → size / page_size < fuel
    → (mem' : Memory) × (pmemset_loop fuel paddr byte size mem ≡ some mem')
      × Filled (pa2kva paddr) byte size mem mem'
unfolding pmemset_loop
pmemset_loop-Filled zero paddr byte size mem fits whole enough = absurd (omega arith)
pmemset_loop-Filled (suc fuel) paddr byte size mem fits whole enough =
    elim (Bool-cases (size == 0)) [
      | inl e ↦ (
        mem,
        rw e,
        record { inside = λ x h. absurd (let l = h.1 in ground arith); outside = λ x h. refl },
      )
      | inr e ↦
          let some_left : page_size ≤ size = ground arith in
          let step = pmemset_loop-suc fuel paddr byte size mem fits some_left in
          let mid = memset (pa2kva paddr) byte page_size mem in
          let (mem', runs, filled) =
            pmemset_loop-Filled fuel (add64 paddr page_size) byte (size - page_size) mid
              (omega arith) (omega arith) (omega arith) in
          let word = pa2kva-lt paddr in
          (
            mem',
            step ∙ runs,
            Filled-page (pa2kva paddr) byte size mem mid mem' word some_left
                (memset-Filled (pa2kva paddr) byte page_size mem word)
                (subst (λ d. Filled d byte (size - page_size) mid mem') (pa2kva_next paddr) filled),
          )
    ]

-- On whole pages pmemset ends, and has filled the addresses from `pa2kva paddr` on, as many as the size,
-- and no others, with the byte.
pub pmemset-Filled :
    (paddr byte size : ℕ) (mem : Memory)
    → size < 2 ^ 64
    → size % page_size ≡ 0
    → (mem' : Memory) × (pmemset paddr byte size mem ≡ some mem')
      × Filled (pa2kva paddr) byte size mem mem'
unfolding pmemset
pmemset-Filled paddr byte size mem fits whole =
    pmemset_loop-Filled (size / page_size + 1) paddr byte size mem fits whole (omega arith)

-- With a size that is not in whole pages the loop never ends, however long it runs.
pub pmemset_loop-none :
    (fuel paddr byte size : ℕ) (mem : Memory)
    → size % page_size ≢ 0
    → pmemset_loop fuel paddr byte size mem ≡ none
unfolding pmemset_loop
pmemset_loop-none zero paddr byte size mem part = refl
pmemset_loop-none (suc fuel) paddr byte size mem part =
    let more : (size == 0) ≡ false = ground arith in
    rw more (
      pmemset_loop-none fuel (add64 paddr page_size) byte (sub64 size page_size)
        (memset (pa2kva paddr) byte page_size mem) (λ e. part (omega arith)))
