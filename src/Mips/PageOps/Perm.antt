-- ===== src/Mips/PageOps/Perm.antt =====
-- `set_pages_perm`.
use Prim.Native.Nat.{bit_and, bit_or}
use aim_mips.Prelude.{
  ℕ, zero, suc, ◌+◌, ◌*◌, ◌/◌, ◌%◌, ◌^◌, ◌<◌, ◌≤◌, ◌≡◌, ◌≢◌, ◌⊎◌, inl, inr, refl, sym, ap, ◌∙◌,
  true, false, some, arith, ltb, ltb→lt, Bool-cases, success, page_size, add32,
}
use aim_mips.Mips.PageTable.{Tables, write, pdx, ptx, PageDesc, no_desc, pgtable_perm}
use aim_mips.Mips.PageTable.Walk.{
  lookup, lookup-found, lookup-page, lookup-write, lookup-write_ne, write-IsTree, write-page,
  IsTree, getpagedesc-found, pdx_lt,
}
use aim_mips.Mips.PageTable.Map.{same_page, step_over}
use aim_mips.Mips.PageOps.{set_pages_loop, set_pages_perm}

-- An entry that keeps its frame and takes the permissions.
pub repermitted : ℕ → ℕ → ℕ
repermitted flags entry = bit_or (bit_and entry 0xffff_f000) (pgtable_perm flags)

-- `n` pages from `vcur` keep their frames and have the permissions, and no other page has changed.
pub record IsPermitted (pg vcur n flags : ℕ) (s t : Tables) : Type 0 where
  pub tree : IsTree pg t
  pub inside :
      (va : ℕ)
      → vcur ≤ va
      → va < vcur + n * page_size
      → lookup pg va t ≡ repermitted flags (lookup pg va s)
  pub outside :
      (va : ℕ)
      → va < 2 ^ 32
      → (va < vcur) ⊎ (vcur + n * page_size ≤ va)
      → lookup pg va t ≡ lookup pg va s

set_pages_loop-step :
    (fuel pg vcur i len flags : ℕ) (pd : PageDesc) (s : Tables)
    → i < len
    → s.words pg (pdx vcur) ≢ 0
    → (pd' : PageDesc) × (set_pages_loop (suc fuel) pg vcur i len flags pd s
        ≡ set_pages_loop fuel pg
            (add32 vcur page_size)
            (add32 i page_size)
            len
            flags
            pd'
            (write (s.words pg (pdx vcur)) (ptx vcur) (repermitted flags (lookup pg vcur s)) s))
unfolding set_pages_loop repermitted
set_pages_loop-step fuel pg vcur i len flags pd s lt nz =
    let l : ltb i len ≡ true = ground arith in
    (
      record pd { ptev = s.words pg (pdx vcur); pdx = pdx vcur; ptx = ptx vcur },
      rw (l, getpagedesc-found pg vcur pd s nz, lookup-found pg vcur s nz) refl,
    )

set_pages_loop-end :
    (fuel pg vcur i flags : ℕ) (pd : PageDesc) (s : Tables)
    → set_pages_loop (suc fuel) pg vcur i i flags pd s ≡ some s
unfolding set_pages_loop
set_pages_loop-end fuel pg vcur i flags pd s = let l : ltb i i ≡ false = ground arith in rw l refl

set_pages_loop-IsPermitted :
    (n fuel pg vcur i len flags : ℕ) (pd : PageDesc) (s : Tables)
    → n < fuel
    → i + n * page_size ≡ len
    → len < 2 ^ 32
    → vcur + n * page_size ≤ 2 ^ 32
    → vcur % page_size ≡ 0
    → IsTree pg s
    → ((va : ℕ) → vcur ≤ va → va < vcur + n * page_size → s.words pg (pdx va) ≢ 0)
    → (t : Tables) × (set_pages_loop fuel pg vcur i len flags pd s ≡ some t)
      × IsPermitted pg vcur n flags s t
set_pages_loop-IsPermitted n zero pg vcur i len flags pd s f e b r al t pr = absurd (omega arith)
set_pages_loop-IsPermitted zero (suc fuel) pg vcur i len flags pd s f e b r al t pr =
    let e' : len ≡ i = omega arith in
    (
      s,
      rw e' (set_pages_loop-end fuel pg vcur i flags pd s),
      record { tree = t; inside = λ va lo hi. absurd (omega arith); outside = λ va small o. refl },
    )
set_pages_loop-IsPermitted (suc n) (suc fuel) pg vcur i len flags pd s f e b r al t pr =
    let nz : s.words pg (pdx vcur) ≢ 0 = pr vcur (omega arith) (omega arith) in
    let w = repermitted flags (lookup pg vcur s) in
    let (pd', step) = set_pages_loop-step fuel pg vcur i len flags pd s (omega arith) nz in
    let np : s.words pg (pdx vcur) ≢ pg = t.apart (pdx vcur) (pdx_lt vcur) in
    let s' : Tables = write (s.words pg (pdx vcur)) (ptx vcur) w s in
    let next : add32 i page_size ≡ i + page_size = omega arith in
    let (u, run, rest) =
      set_pages_loop-IsPermitted n fuel pg (add32 vcur page_size) (add32 i page_size) len flags pd'
        s' (omega arith) (omega (arith, next)) b (omega arith) (omega arith)
        (write-IsTree pg (s.words pg (pdx vcur)) (ptx vcur) w s np t)
        (λ va lo hi z. pr va (omega arith) (omega arith) (
          sym (write-page (s.words pg (pdx vcur)) (ptx vcur) w s pg (pdx va) (λ q. np (sym q)))
          ∙ z)) in
    let kept : (va : ℕ)
        → va < 2 ^ 32
        → va / page_size ≢ vcur / page_size
        → lookup pg va s' ≡ lookup pg va s =
      λ va small ne.
        lookup-write_ne pg vcur w va s t nz
          (λ d x. ne (same_page va vcur small (omega arith) d x)) in
    (
      u,
      step ∙ run,
      record {
        tree = rest.tree;
        inside = λ va lo hi. elim (Bool-cases (ltb va (vcur + page_size))) [
          | inl l ↦
              let l' : va < vcur + page_size = ltb→lt va (vcur + page_size) l in
              let same : va / page_size ≡ vcur / page_size = omega arith in
              rest.outside va (omega arith) (step_over n vcur va r (omega arith) (inl l'))
              ∙ lookup-page pg va vcur s' same
              ∙ lookup-write pg vcur w s t nz
              ∙ ap (repermitted flags) (lookup-page pg vcur va s (sym same))
          | inr l ↦
              let l' : vcur + page_size ≤ va = ground arith in
              rest.inside va (omega arith) (omega arith)
              ∙ ap (repermitted flags) (kept va (omega arith) (omega arith))
        ];
        outside = λ va small o.
            let o' : (va < vcur + page_size) ⊎ (vcur + suc n * page_size ≤ va) = elim o [
              | inl p ↦ inl (omega arith)
              | inr p ↦ inr p
            ] in
            let ne : va / page_size ≢ vcur / page_size = elim o [
              | inl p ↦ omega arith
              | inr p ↦ omega arith
            ] in
            rest.outside va small (step_over n vcur va r small o') ∙ kept va small ne;
      },
    )

-- With a leaf table for every page of the region, `set_pages_perm` answers 0; the pages of the region
-- keep their frames and have the new permissions, and all other pages are as before.
pub set_pages_perm-IsPermitted :
    (pg addr len flags : ℕ) (s : Tables)
    → IsTree pg s
    → len % page_size ≡ 0
    → addr % page_size ≡ 0
    → addr + len ≤ 2 ^ 32
    → len < 2 ^ 32
    → ((va : ℕ) → addr ≤ va → va < addr + len → s.words pg (pdx va) ≢ 0)
    → (t : Tables) × (set_pages_perm pg addr len flags s ≡ some (success, t))
      × IsPermitted pg addr (len / page_size) flags s t
unfolding set_pages_perm
set_pages_perm-IsPermitted pg addr len flags s t sa al r b pr =
    let (u, run, done) =
      set_pages_loop-IsPermitted (len / page_size) (len / page_size + 2) pg addr 0 len flags no_desc
        s (omega arith) (omega arith) b (omega arith) al t (λ va lo hi. pr va lo (omega arith)) in
    (u, rw (set_pages_perm, run) refl, done)
