-- ===== src/Mips/PageOps/Unmap.antt =====
-- `unmap_pages`.
use aim_mips.Prelude.{
  ℕ, suc, ◌+◌, ◌*◌, ◌/◌, ◌%◌, ◌^◌, ◌<◌, ◌≤◌, ◌≡◌, ◌≢◌, inl, inr, refl, sym, ◌∙◌, true, false, none,
  some, arith, ltb, ◌==◌, Bool-cases, page_size, add32, add64,
}
use aim_mips.Mips.PageTable.{Tables, write, pdx, ptx, pte_paddr, PageDesc, no_desc}
use aim_mips.Mips.PageTable.Index.{pte_paddr_lem}
use aim_mips.Mips.PageTable.Walk.{
  lookup, lookup-found, lookup-write, lookup-write_ne, write-IsTree, write-page, IsTree,
  getpagedesc-found, pdx_lt,
}
use aim_mips.Mips.PageTable.Map.{same_page}
use aim_mips.Mips.PageTable.Rollback.{
  IsTree-IsDirectory, free_intermediate_pgtable-one, free_intermediate_pgtable-same,
}
use aim_mips.Mips.PageOps.{Unmapped, unmap_loop, unmap_pages}

-- What is left once the entry of the first page is cleared.
abbrev cleared : ℕ → ℕ → Tables → Tables
cleared pg va s = write (s.words pg (pdx va)) (ptx va) 0 s

unmap_loop-first :
    (fuel pg vcur vend : ℕ) (pd : PageDesc) (s : Tables)
    → vcur < vend
    → s.words pg (pdx vcur) ≢ 0
    → (pd' : PageDesc) × (unmap_loop
          (suc fuel)
          pg
          vcur
          vend
          0
          0
          pd
          (record { bytes = 0; paddr = none; tables = s })
        ≡ unmap_loop fuel pg
            (add32 vcur page_size)
            vend
            (add64 (pte_paddr (lookup pg vcur s)) page_size)
            page_size
            pd'
            (record {
              bytes = page_size;
              paddr = some (pte_paddr (lookup pg vcur s));
              tables = cleared pg vcur s;
            }))
unfolding unmap_loop
unmap_loop-first fuel pg vcur vend pd s lt nz =
    let l : ltb vcur vend ≡ true = ground arith in
    (
      record pd { ptev = s.words pg (pdx vcur); pdx = pdx vcur; ptx = ptx vcur },
      rw (l, getpagedesc-found pg vcur pd s nz, lookup-found pg vcur s nz) refl,
    )

unmap_loop-end :
    (fuel pg vcur vend pcur : ℕ) (pd : PageDesc) (u : Unmapped)
    → vend ≤ vcur
    → unmap_loop (suc fuel) pg vcur vend pcur page_size pd u ≡ some u
unfolding unmap_loop
unmap_loop-end fuel pg vcur vend pcur pd u le =
    let l : ltb vcur vend ≡ false = ground arith in rw l refl

unmap_loop-break :
    (fuel pg vnow vcur vend pcur : ℕ) (pd : PageDesc) (u : Unmapped)
    → vnow ≡ vcur
    → u.tables.words pg (pdx vcur) ≢ 0
    → lookup pg vcur u.tables ≢ pcur
    → unmap_loop (suc fuel) pg vnow vend pcur page_size pd u ≡ some u
unfolding unmap_loop
unmap_loop-break fuel pg vnow vcur vend pcur pd u same nz ne =
    let d : (lookup pg vcur u.tables == pcur) ≡ false = ground arith in
    let d' : (u.tables.words (u.tables.words pg (pdx vcur)) (ptx vcur) == pcur) ≡ false =
      rw (lookup-found pg vcur u.tables nz) at d in
    elim (Bool-cases (ltb vcur vend)) [
      | inl l ↦ rw (same, l, getpagedesc-found pg vcur pd u.tables nz, d') refl
      | inr l ↦ rw (same, l) refl
    ]

-- The first page is unmapped, and nothing else.
pub record IsUnmapped (pg vaddr : ℕ) (s : Tables) (u : Unmapped) : Type 0 where
  pub bytes : u.bytes ≡ page_size
  pub paddr : u.paddr ≡ some (pte_paddr (lookup pg vaddr s))
  pub gone : lookup pg vaddr u.tables ≡ 0
  pub rest :
      (va : ℕ)
      → va < 2 ^ 32
      → va / page_size ≢ vaddr / page_size
      → lookup pg va u.tables ≡ lookup pg va s

cleared-IsUnmapped :
    (pg vaddr size : ℕ) (s : Tables)
    → pg ≢ 0
    → IsTree pg s
    → vaddr < 2 ^ 32
    → s.words pg (pdx vaddr) ≢ 0
    → unmap_loop
        (size / page_size + 2)
        pg
        vaddr
        (add32 vaddr size)
        0
        0
        no_desc
        (record { bytes = 0; paddr = none; tables = s })
      ≡ some (record {
        bytes = page_size;
        paddr = some (pte_paddr (lookup pg vaddr s));
        tables = cleared pg vaddr s;
      })
    → (u : Unmapped) × (unmap_pages pg vaddr size s ≡ some u) × IsUnmapped pg vaddr s u
unfolding unmap_pages
cleared-IsUnmapped pg vaddr size s nz t h there e =
    let leaf = s.words pg (pdx vaddr) in
    let np : leaf ≢ pg = t.apart (pdx vaddr) (pdx_lt vaddr) in
    let dir : (cleared pg vaddr s).words pg (pdx vaddr) ≡ leaf =
      write-page leaf (ptx vaddr) 0 s pg (pdx vaddr) (λ q. np (sym q)) in
    let t' = write-IsTree pg leaf (ptx vaddr) 0 s np t in
    let (s', f) =
      free_intermediate_pgtable-one pg vaddr (cleared pg vaddr s) h (λ z. there (sym dir ∙ z)) in
    let same =
      free_intermediate_pgtable-same pg vaddr page_size (cleared pg vaddr s) s' nz
        (IsTree-IsDirectory pg (cleared pg vaddr s) t') f in
    let u : Unmapped = record {
      bytes = page_size;
      paddr = some (pte_paddr (lookup pg vaddr s));
      tables = s';
    } in
    (
      u,
      rw (unmap_pages, e, f) refl,
      record {
        bytes = refl;
        paddr = refl;
        gone = same vaddr ∙ lookup-write pg vaddr 0 s t there;
        rest = λ va small ne.
            same va
            ∙ lookup-write_ne pg vaddr 0 va s t there (λ d x. ne (same_page va vaddr small h d x));
      },
    )

-- Unmapping the one page of a mapped address clears it, answers a page, and gives its frame.
pub unmap_pages-IsUnmapped :
    (pg vaddr : ℕ) (s : Tables)
    → pg ≢ 0
    → IsTree pg s
    → vaddr + page_size < 2 ^ 32
    → s.words pg (pdx vaddr) ≢ 0
    → (u : Unmapped) × (unmap_pages pg vaddr page_size s ≡ some u) × IsUnmapped pg vaddr s u
unmap_pages-IsUnmapped pg vaddr s nz t h there =
    let (pd', first) =
      unmap_loop-first 2 pg vaddr (add32 vaddr page_size) no_desc s (omega arith) there in
    cleared-IsUnmapped pg vaddr page_size s nz t (omega arith) there (
      first
      ∙ unmap_loop-end 1 pg (add32 vaddr page_size) (add32 vaddr page_size)
          (add64 (pte_paddr (lookup pg vaddr s)) page_size) pd' _ (omega arith))

-- Asked for more, it still unmaps the first page alone when the entry of the second holds any of the
-- twelve flag bits, as every entry of `map_pages` does: the entry is compared with a bare address.
pub unmap_pages-stops :
    (pg vaddr size : ℕ) (s : Tables)
    → pg ≢ 0
    → IsTree pg s
    → vaddr + size < 2 ^ 32
    → 2 * page_size ≤ size
    → s.words pg (pdx vaddr) ≢ 0
    → s.words pg (pdx (vaddr + page_size)) ≢ 0
    → lookup pg vaddr s < 2 ^ 32
    → lookup pg (vaddr + page_size) s % page_size ≢ 0
    → (u : Unmapped) × (unmap_pages pg vaddr size s ≡ some u) × IsUnmapped pg vaddr s u
unmap_pages-stops pg vaddr size s nz t h big there there' word flag =
    let leaf = s.words pg (pdx vaddr) in
    let np : leaf ≢ pg = t.apart (pdx vaddr) (pdx_lt vaddr) in
    let next : add32 vaddr page_size ≡ vaddr + page_size = omega arith in
    let dir : (cleared pg vaddr s).words pg (pdx (vaddr + page_size))
        ≡ s.words pg (pdx (vaddr + page_size)) =
      write-page leaf (ptx vaddr) 0 s pg (pdx (vaddr + page_size)) (λ q. np (sym q)) in
    let ne : (vaddr + page_size) / page_size ≢ vaddr / page_size = omega arith in
    let entry : lookup pg (vaddr + page_size) (cleared pg vaddr s)
        ≡ lookup pg (vaddr + page_size) s =
      lookup-write_ne pg vaddr 0 (vaddr + page_size) s t there
        (λ d x. ne (same_page (vaddr + page_size) vaddr (omega arith) (omega arith) d x)) in
    let pcur = add64 (pte_paddr (lookup pg vaddr s)) page_size in
    let differs : lookup pg (vaddr + page_size) s ≢ pcur =
      omega (arith, pte_paddr_lem (lookup pg vaddr s) word) in
    let (pd', first) =
      unmap_loop-first (suc (size / page_size)) pg vaddr (add32 vaddr size) no_desc s (omega arith)
        there in
    let u : Unmapped = record {
      bytes = page_size;
      paddr = some (pte_paddr (lookup pg vaddr s));
      tables = cleared pg vaddr s;
    } in
    let second =
      unmap_loop-break (size / page_size) pg (add32 vaddr page_size) (vaddr + page_size)
        (add32 vaddr size) pcur pd' u next (λ z. there' (sym dir ∙ z))
        (λ z. differs (sym entry ∙ z)) in
    let two : size / page_size + 2 ≡ suc (suc (size / page_size)) = omega arith in
    cleared-IsUnmapped pg vaddr size s nz t (omega arith) there (rw two (first ∙ second))
