-- ===== src/Mips/PageTable/Map.antt =====
-- The second pass of `map_pages`, and the whole of it.
use Prim.Native.Nat.{bit_or}
use aim_mips.Prelude.{
  ℕ, zero, suc, ◌+◌, ◌-◌, ◌*◌, ◌/◌, ◌%◌, ◌^◌, ◌<◌, ◌≤◌, ◌≡◌, ◌≢◌, ◌⊎◌, inl, inr, refl, sym, ap, ◌∙◌,
  true, false, some, arith, length, ltb, ltb→lt, Bool-cases, success, page_size, add32, add64,
}
use aim_mips.Mips.PageTable.{
  Tables, write, pdx, ptx, PageDesc, first_pass, second_pass, map_pages, pgtable_perm, no_desc,
}
use aim_mips.Mips.PageTable.Index.{page_number}
use aim_mips.Mips.PageTable.First.{first_pass-IsPassed}
use aim_mips.Mips.PageTable.Walk.{
  lookup, lookup-page, IsTree, getpagedesc-found, pdx_lt, write-IsTree, write-page, lookup-write,
  lookup-write_ne,
}

-- The second pass filled `n` pages from `vcur` and no other.
pub record IsFilled (pg pcur vcur n perm : ℕ) (s t : Tables) : Type 0 where
  pub tree : IsTree pg t
  pub inside :
      (va : ℕ)
      → vcur ≤ va
      → va < vcur + n * page_size
      → lookup pg va t ≡ bit_or (pcur + (va - vcur) / page_size * page_size) perm
  pub outside :
      (va : ℕ)
      → va < 2 ^ 32
      → (va < vcur) ⊎ (vcur + n * page_size ≤ va)
      → lookup pg va t ≡ lookup pg va s

second_pass-step :
    (fuel pg pcur pend vcur perm : ℕ) (pd : PageDesc) (s : Tables)
    → pcur < pend
    → pcur < 2 ^ 32
    → s.words pg (pdx vcur) ≢ 0
    → (pd' : PageDesc) × (second_pass (suc fuel) pg pcur pend vcur perm pd s
        ≡ second_pass fuel pg
            (add64 pcur page_size)
            pend
            (add32 vcur page_size)
            perm
            pd'
            (write (s.words pg (pdx vcur)) (ptx vcur) (bit_or pcur perm) s))
unfolding second_pass
second_pass-step fuel pg pcur pend vcur perm pd s lt b nz =
    let l : ltb pcur pend ≡ true = ground arith in
    let m : pcur % 2 ^ 32 ≡ pcur = omega arith in
    (
      record pd { ptev = s.words pg (pdx vcur); pdx = pdx vcur; ptx = ptx vcur },
      rw (l, m, getpagedesc-found pg vcur pd s nz) refl,
    )

second_pass-end :
    (fuel pg pcur vcur perm : ℕ) (pd : PageDesc) (s : Tables)
    → second_pass (suc fuel) pg pcur pcur vcur perm pd s ≡ s
unfolding second_pass
second_pass-end fuel pg pcur vcur perm pd s =
    let l : ltb pcur pcur ≡ false = ground arith in rw l refl

pub same_page :
    (va va' : ℕ)
    → va < 2 ^ 32
    → va' < 2 ^ 32
    → pdx va ≡ pdx va'
    → ptx va ≡ ptx va'
    → va / page_size ≡ va' / page_size
same_page va va' h h' d x = omega (arith, page_number va h, page_number va' h', d, x)

-- What lies outside `n + 1` pages, or on the first, lies outside the `n` that follow.
pub step_over :
    (n vcur va : ℕ)
    → vcur + suc n * page_size ≤ 2 ^ 32
    → va < 2 ^ 32
    → (va < vcur + page_size) ⊎ (vcur + suc n * page_size ≤ va)
    → (va < add32 vcur page_size) ⊎ (add32 vcur page_size + n * page_size ≤ va)
step_over n vcur va r small o = elim (Bool-cases (ltb va (add32 vcur page_size))) [
  | inl l ↦ inl (ltb→lt va (add32 vcur page_size) l)
  | inr l ↦
      let l' : add32 vcur page_size ≤ va = ground arith in
      elim o [ inl p ↦ inr (omega arith) | inr p ↦ inr (omega arith) ]
]

pub second_pass-IsFilled :
    (n fuel pg pcur pend vcur perm : ℕ) (pd : PageDesc) (s : Tables)
    → n < fuel
    → pcur + n * page_size ≡ pend
    → pend ≤ 2 ^ 32
    → vcur + n * page_size ≤ 2 ^ 32
    → vcur % page_size ≡ 0
    → IsTree pg s
    → ((va : ℕ) → vcur ≤ va → va < vcur + n * page_size → s.words pg (pdx va) ≢ 0)
    → IsFilled pg pcur vcur n perm s (second_pass fuel pg pcur pend vcur perm pd s)
second_pass-IsFilled n zero pg pcur pend vcur perm pd s f e b r al t pr = absurd (omega arith)
second_pass-IsFilled zero (suc fuel) pg pcur pend vcur perm pd s f e b r al t pr =
    let e' : pend ≡ pcur = omega arith in
    rw (e', second_pass-end fuel pg pcur vcur perm pd s)
      (record { tree = t; inside = λ va lo hi. absurd (omega arith); outside = λ va small o. refl })
second_pass-IsFilled (suc n) (suc fuel) pg pcur pend vcur perm pd s f e b r al t pr =
    let nz : s.words pg (pdx vcur) ≢ 0 = pr vcur (omega arith) (omega arith) in
    let (pd', step) =
      second_pass-step fuel pg pcur pend vcur perm pd s (omega arith) (omega arith) nz in
    let np : s.words pg (pdx vcur) ≢ pg = t.apart (pdx vcur) (pdx_lt vcur) in
    let s' : Tables = write (s.words pg (pdx vcur)) (ptx vcur) (bit_or pcur perm) s in
    let next : add64 pcur page_size ≡ pcur + page_size = omega arith in
    let rest =
      second_pass-IsFilled n fuel pg (add64 pcur page_size) pend (add32 vcur page_size) perm pd' s'
        (omega arith) (omega (arith, next)) b (omega arith) (omega arith)
        (write-IsTree pg (s.words pg (pdx vcur)) (ptx vcur) (bit_or pcur perm) s np t)
        (λ va lo hi z. pr va (omega arith) (omega arith) (
          sym (
            write-page (s.words pg (pdx vcur)) (ptx vcur) (bit_or pcur perm) s pg (pdx va)
              (λ q. np (sym q)))
          ∙ z)) in
    rw step (record {
      tree = rest.tree;
      inside = λ va lo hi. elim (Bool-cases (ltb va (vcur + page_size))) [
        | inl l ↦
            let l' : va < vcur + page_size = ltb→lt va (vcur + page_size) l in
            let same : va / page_size ≡ vcur / page_size = omega arith in
            let z : pcur + (va - vcur) / page_size * page_size ≡ pcur = omega arith in
            rest.outside va (omega arith) (step_over n vcur va r (omega arith) (inl l'))
            ∙ lookup-page pg va vcur s' same
            ∙ lookup-write pg vcur (bit_or pcur perm) s t nz
            ∙ ap (λ (x : ℕ). bit_or x perm) (sym z)
        | inr l ↦
            let l' : vcur + page_size ≤ va = ground arith in
            rest.inside va (omega arith) (omega arith) ∙ ap (λ (x : ℕ). bit_or x perm) (omega arith)
      ];
      outside = λ va small o.
          let o' : (va < vcur + page_size) ⊎ (vcur + suc n * page_size ≤ va) = elim o [
            | inl p ↦ inl (omega arith)
            | inr p ↦ inr p
          ] in
          let ne : va / page_size ≢ vcur / page_size = elim o [
            | inl p ↦ omega arith
            | inr p ↦ omega arith
          ] in
          rest.outside va small (step_over n vcur va r small o')
          ∙ lookup-write_ne pg vcur (bit_or pcur perm) va s t nz
              (λ d x. ne (same_page va vcur small (omega arith) d x));
    })

-- Mapping `size` bytes at `vaddr`, all on page bounds, none of the pages mapped yet, with a page left
-- for each: every address is then found in the frame at its offset, with the permissions asked for,
-- all other addresses are as before, and the tables stay apart.
pub map_pages-IsFilled :
    (pg vaddr paddr size flags : ℕ) (s : Tables)
    → IsTree pg s
    → paddr % page_size ≡ 0
    → size % page_size ≡ 0
    → vaddr % page_size ≡ 0
    → vaddr + size ≤ 2 ^ 32
    → paddr + size ≤ 2 ^ 32
    → size / page_size ≤ length s.avail
    → ((va : ℕ) → vaddr ≤ va → va < vaddr + size → lookup pg va s ≡ 0)
    → (s' : Tables) × (map_pages pg vaddr paddr size flags s ≡ some (success, s'))
      × IsFilled pg paddr vaddr (size / page_size) (pgtable_perm flags) s s'
unfolding map_pages
map_pages-IsFilled pg vaddr paddr size flags s t pa sa va r b av un =
    let n = size / page_size in
    let e : n * page_size ≡ size = omega arith in
    let w : add64 paddr size ≡ paddr + size = omega arith in
    let p = first_pass (n + 1) pg paddr (paddr + size) vaddr no_desc s in
    let first =
      first_pass-IsPassed n (n + 1) pg paddr (paddr + size) vaddr no_desc s (omega arith)
        (omega arith) (omega arith) (omega arith) va t av (λ x lo hi. un x lo (omega arith)) in
    let second =
      second_pass-IsFilled n (n + 1) pg paddr (paddr + size) vaddr (pgtable_perm flags) p.desc
        p.tables (omega arith) (omega arith) b (omega arith) va first.tree first.present in
    (
      second_pass (n + 1) pg paddr (paddr + size) vaddr (pgtable_perm flags) p.desc p.tables,
      rw (pa, sa, va, w, first.code) refl,
      record {
        tree = second.tree;
        inside = second.inside;
        outside = λ x small o. second.outside x small o ∙ first.same x;
      },
    )
