-- ===== src/Uvm/Copy/Filled.antt =====
-- The loop over the pages of __copy_fill_uvm.
use Prim.Native.Nat.{bit_or, min}
use aim_mips.Prelude.{
  ℕ, zero, suc, ◌+◌, ◌-◌, ◌*◌, ◌/◌, ◌%◌, ◌^◌, ◌≤◌, ◌<◌, ◌≡◌, ◌≢◌, inl, inr, refl, sym, ap, ◌∙◌,
  true, false, ◌&&◌, ltb, leb, Option, some, arith, Bool-cases, success, add32, sub32, page_size,
}
use aim_mips.Prelude.Bits.{bit_or-mask}
use aim_mips.Uvm.Copy.{Bytes, filling, transfer, set_bytes, page_above, page_next, copy_loop}

pub page_next-eq :
    (x : ℕ) → x < 2 ^ 32 - page_size → page_next x ≡ x / page_size * page_size + page_size
unfolding page_next page_above
page_next-eq x h =
    let back : sub32 (add32 x 1) 1 ≡ x = omega arith in
    omega (arith, ap (λ y. bit_or y (page_size - 1)) back, bit_or-mask 12 x)

-- Translation keeps the offsets within a page.
abbrev pub IsPaged : (ℕ → Option ℕ) → Type 0
IsPaged uva2kva =
    (va p j : ℕ)
    → uva2kva va ≡ some p
    → va % page_size + j < page_size
    → uva2kva (va + j) ≡ some (p + j)

-- The bytes behind the addresses from `start` below `end` are `c`, and no other byte has changed.
pub record IsFilled (uva2kva : ℕ → Option ℕ) (start end c : ℕ) (m m' : Bytes) : Type 0 where
  pub inside : (i p : ℕ) → start ≤ i → i < end → uva2kva i ≡ some p → m' p ≡ c
  pub kept : (a : ℕ) → m a ≡ c → m' a ≡ c
  pub outside : (a : ℕ) → ((i : ℕ) → start ≤ i → i < end → uva2kva i ≢ some a) → m' a ≡ m a

some_same : (p q : ℕ) → Path (Option ℕ) (some p) (some q) → p ≡ q
some_same p q e = cc

-- One page, and what comes after it.
page-IsFilled :
    (uva2kva : ℕ → Option ℕ) (start end next p c : ℕ) (m m' : Bytes)
    → IsPaged uva2kva
    → next ≡ start / page_size * page_size + page_size
    → start < end
    → uva2kva start ≡ some p
    → IsFilled uva2kva next end c (set_bytes p c (min next end - start) m) m'
    → IsFilled uva2kva start end c m m'
unfolding set_bytes
page-IsFilled uva2kva start end next p c m m' paged en lt here rest = record {
  inside = λ i q lo hi e. elim (Bool-cases (ltb i next)) [
    | inr l ↦ rest.inside i q (ground arith) hi e
    | inl l ↦
        let back : start + (i - start) ≡ i = omega arith in
        let there : uva2kva i ≡ some (p + (i - start)) =
          ap uva2kva (sym back) ∙ paged start p (i - start) here (ground arith) in
        let same : p + (i - start) ≡ q = some_same (p + (i - start)) q (sym there ∙ e) in
        let within : i - start < min next end - start =
          min-lt i start next end (ground arith) hi lo in
        rest.kept q (ground arith)
  ];
  kept = λ a h. rest.kept a (ground arith);
  outside = λ a none_there.
      let missed : (leb p a && ltb a (p + (min next end - start))) ≡ false =
        elim (Bool-cases (leb p a && ltb a (p + (min next end - start)))) [
          | inr f ↦ f
          | inl t ↦
              let short = min-le next end in
              let there : uva2kva (start + (a - p)) ≡ some (p + (a - p)) =
                paged start p (a - p) here (ground (arith, short)) in
              let same : p + (a - p) ≡ a = ground arith in
              absurd (
                none_there (start + (a - p)) (omega arith) (ground (arith, short))
                  (there ∙ ap some same))
        ] in
      rest.outside a (λ i lo hi e. none_there i (omega arith) hi e) ∙ rw missed refl;
}
  where
    min-le : (x y : ℕ) → (min x y ≤ x) × (min x y ≤ y)
    min-le x y = (omega arith, omega arith)

    min-lt :
        (i start next end : ℕ) → i < next → i < end → start ≤ i → i - start < min next end - start
    min-lt i start next end p q r = omega arith

page_turn :
    (fuel start end next p c vaddr : ℕ) (uva2kva : ℕ → Option ℕ) (m : Bytes)
    → ltb start end ≡ true
    → uva2kva start ≡ some p
    → page_next start ≡ next
    → copy_loop (suc fuel) uva2kva (filling c) start end vaddr m
      ≡ copy_loop fuel uva2kva
          (filling c)
          next
          end
          (vaddr + (min next end - start))
          (set_bytes p c (min next end - start) m)
unfolding copy_loop transfer
page_turn fuel start end next p c vaddr uva2kva m more here en =
    rw (copy_loop, more, here)
      (ap
        (λ n.
          copy_loop fuel uva2kva (filling c) n end (vaddr + (min n end - start))
            (set_bytes p c (min n end - start) m))
        en)

-- The loop of `fill_uvm` ends with success when every address of the region is mapped, and then the bytes
-- behind the region, and no others, are set to the given byte. The fuel is more than the number of pages
-- that the region touches.
pub copy_loop-IsFilled :
    (fuel start end c vaddr : ℕ) (uva2kva : ℕ → Option ℕ) (m : Bytes)
    → IsPaged uva2kva
    → ((i : ℕ) → start ≤ i → i < end → (p : ℕ) × (uva2kva i ≡ some p))
    → end < 2 ^ 32 - page_size
    → start / page_size ≤ end / page_size + 1
    → end / page_size + 1 < fuel + start / page_size
    → (m' : Bytes) × (copy_loop fuel uva2kva (filling c) start end vaddr m ≡ some (success, m'))
      × IsFilled uva2kva start end c m m'
unfolding copy_loop transfer
copy_loop-IsFilled zero start end c vaddr uva2kva m paged mapped top reach enough =
    absurd (omega arith)
copy_loop-IsFilled (suc fuel) start end c vaddr uva2kva m paged mapped top reach enough =
    elim (Bool-cases (ltb start end)) [
      | inr done ↦ (
        m,
        rw (copy_loop, done) refl,
        record {
          inside = λ i p lo hi e. absurd (ground arith);
          kept = λ a h. h;
          outside = λ a h. refl;
        },
      )
      | inl more ↦
          let (p, here) = mapped start (omega arith) (ground arith) in
          let next = start / page_size * page_size + page_size in
          let en : page_next start ≡ next = page_next-eq start (ground arith) in
          let l = min next end - start in
          let (m', run, rest) =
            copy_loop-IsFilled fuel next end c (vaddr + l) uva2kva (set_bytes p c l m) paged
              (λ i lo hi. mapped i (omega arith) hi) top (ground arith) (ground arith) in
          (
            m',
            page_turn fuel start end next p c vaddr uva2kva m more here en ∙ run,
            page-IsFilled uva2kva start end next p c m m' paged refl (ground arith) here rest,
          )
    ]
