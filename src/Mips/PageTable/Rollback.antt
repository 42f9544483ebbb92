-- ===== src/Mips/PageTable/Rollback.antt =====
-- `__free_intermediate_pgtable`.
use aim_mips.Prelude.{
  ℕ, zero, suc, ◌+◌, ◌%◌, ◌^◌, ◌<◌, ◌≤◌, ◌≡◌, ◌≢◌, inl, inr, refl, sym, ap, ◌∙◌, true, false, none,
  some, arith, leb, ◌==◌, ◌&&◌, if◌then◌else◌, Bool-cases, page_size, add32, sub32,
}
use mathlib.Core.Path.{subst}
use aim_mips.Pmm.Memory.{kern_base, premap_addr}
use aim_mips.Mips.PageTable.{
  Tables, write, pdx, kva2pa, pa2kva, junk_word, all_zero, pgfree, free_tables,
  free_intermediate_pgtable,
}
use aim_mips.Mips.PageTable.Index.{pdx_lem}
use aim_mips.Mips.PageTable.Walk.{IsTree, IsKernelAddress, lookup, pdx_lt, lookup-freed}

all_zero-lem :
    (page : ℕ → ℕ) (n i j : ℕ) → all_zero page n i ≡ true → i ≤ j → j < i + n → page j ≡ 0
unfolding all_zero
all_zero-lem page zero i j h lo hi = absurd (omega arith)
all_zero-lem page (suc n) i j h lo hi = elim (Bool-cases (page i == 0)) [
  | inl e ↦
      let h' : all_zero page n (i + 1) ≡ true = rw e at h in
      elim (Bool-cases (i == j)) [
        | inl q ↦ let q' : i ≡ j = ground arith in rw (sym q') (ground arith)
        | inr q ↦
            let ne : i ≢ j = ground arith in
            all_zero-lem page n (i + 1) j h' (omega arith) (omega arith)
      ]
  | inr e ↦ let h' : false ≡ true = rw e at h in absurd cc
]

-- What of a tree is left while its tables are given up.
pub record IsDirectory (pg : ℕ) (s : Tables) : Type 0 where
  pub kernel : (d : ℕ) → d < 1024 → s.words pg d ≢ 0 → IsKernelAddress (s.words pg d)
  pub apart : (d : ℕ) → d < 1024 → s.words pg d ≢ pg
  pub unique :
      (d d' : ℕ) → d < 1024 → d' < 1024 → s.words pg d ≢ 0 → s.words pg d ≡ s.words pg d' → d ≡ d'

pub IsTree-IsDirectory : (pg : ℕ) (s : Tables) → IsTree pg s → IsDirectory pg s
IsTree-IsDirectory pg s t = record { kernel = t.kernel; apart = t.apart; unique = t.unique }

freed : ℕ → ℕ → Tables → Tables
unfolding write pgfree
freed pg i s = write pg i 0 (pgfree (kva2pa (s.words pg i)) s)

-- The page at a kernel address is the one that is freed.
back_again : (a : ℕ) → IsKernelAddress a → pa2kva (premap_addr (kva2pa a)) ≡ a
unfolding premap_addr
back_again a (lo, hi) =
    let low : leb kern_base (kva2pa a) ≡ false = ground arith in rw low (omega arith)

freed-words :
    (pg i : ℕ) (s : Tables) (p j : ℕ)
    → IsKernelAddress (s.words pg i)
    → (freed pg i s).words p j
      ≡ (if p == pg && j == i then 0 else if p == s.words pg i then junk_word else s.words p j)
unfolding freed write pgfree
freed-words pg i s p j k = rw (back_again (s.words pg i) k) refl

-- Freeing a table without entries changes no page.
freed-lem :
    (pg i : ℕ) (s : Tables)
    → pg ≢ 0
    → i < 1024
    → s.words pg i ≢ 0
    → IsDirectory pg s
    → all_zero (s.words (s.words pg i)) 1024 0 ≡ true
    → IsDirectory pg (freed pg i s) × ((va : ℕ) → lookup pg va (freed pg i s) ≡ lookup pg va s)
freed-lem pg i s nz small there dir z =
    let k = dir.kernel i small there in
    let np = dir.apart i small in
    let entry : (d : ℕ) → (freed pg i s).words pg d ≡ (if d == i then 0 else s.words pg d) =
      λ d. ground (arith, freed-words pg i s pg d k) in
    let kept : (d : ℕ) → (freed pg i s).words pg d ≢ 0 → (freed pg i s).words pg d ≡ s.words pg d =
      λ d h. ground (arith, entry d) in
    (
      record {
        kernel = λ d h some_entry.
            let e = kept d some_entry in
            subst IsKernelAddress (sym e) (dir.kernel d h (λ q. some_entry (e ∙ q)));
        apart = λ d h e. let q = kept d (λ w. nz (sym e ∙ w)) in dir.apart d h (sym q ∙ e);
        unique = λ d d' h h' some_entry e.
            let q = kept d some_entry in
            let q' = kept d' (λ w. some_entry (e ∙ w)) in
            dir.unique d d' h h' (λ w. some_entry (q ∙ w)) (sym q ∙ e ∙ q');
      },
      λ va.
          lookup-freed pg i va junk_word s (freed pg i s) (λ p j. freed-words pg i s p j k) np
            (dir.apart (pdx va) (pdx_lt va))
            (λ some_entry ne e. ne (dir.unique (pdx va) i (pdx_lt va) small some_entry e))
            (λ j h. all_zero-lem (s.words (s.words pg i)) 1024 0 j z (omega arith) (omega arith)),
    )

free_tables-same :
    (fuel pg i last : ℕ) (s s' : Tables)
    → pg ≢ 0
    → last < 1024
    → IsDirectory pg s
    → free_tables fuel pg i last s ≡ some s'
    → (va : ℕ) → lookup pg va s' ≡ lookup pg va s
unfolding free_tables freed
free_tables-same zero pg i last s s' nz top a e va = absurd cc
free_tables-same (suc fuel) pg i last s s' nz top a e va = elim (Bool-cases (leb i last)) [
  | inr l ↦ let q : some s ≡ some s' = rw l at e in let d : s ≡ s' = cc in rw d refl
  | inl l ↦ elim (Bool-cases (s.words pg i == 0)) [
    | inl n ↦ let q : none ≡ some s' = rw (l, n) at e in absurd cc
    | inr n ↦ elim (Bool-cases (all_zero (s.words (s.words pg i)) 1024 0)) [
      | inl z ↦
          let q : free_tables fuel pg (i + 1) last (freed pg i s) ≡ some s' = rw (l, n, z) at e in
          let there : s.words pg i ≢ 0 = ground arith in
          let (a', same) = freed-lem pg i s nz (ground arith) there a z in
          free_tables-same fuel pg (i + 1) last (freed pg i s) s' nz top a' q va ∙ same va
      | inr z ↦
          let q : free_tables fuel pg (i + 1) last s ≡ some s' = rw (l, n, z) at e in
          free_tables-same fuel pg (i + 1) last s s' nz top a q va
    ]
  ]
]

pub free_intermediate_pgtable-same :
    (pg vaddr size : ℕ) (s s' : Tables)
    → pg ≢ 0
    → IsDirectory pg s
    → free_intermediate_pgtable pg vaddr size s ≡ some s'
    → (va : ℕ) → lookup pg va s' ≡ lookup pg va s
unfolding free_intermediate_pgtable
free_intermediate_pgtable-same pg vaddr size s s' nz =
    let last = sub32 (add32 vaddr size) page_size in
    free_tables-same 1025 pg (pdx vaddr) (pdx last) s s' nz (pdx_lt last)

free_tables-last : (fuel pg i : ℕ) (s : Tables) → free_tables (suc fuel) pg (i + 1) i s ≡ some s
unfolding free_tables
free_tables-last fuel pg i s = let l : leb (i + 1) i ≡ false = ground arith in rw l refl

free_tables-one :
    (fuel pg i : ℕ) (s : Tables)
    → s.words pg i ≢ 0
    → (s' : Tables) × (free_tables (suc (suc fuel)) pg i i s ≡ some s')
unfolding free_tables freed
free_tables-one fuel pg i s nz =
    let l : leb i i ≡ true = ground arith in
    let n : (s.words pg i == 0) ≡ false = ground arith in
    let l' : leb (i + 1) i ≡ false = ground arith in
    elim (Bool-cases (all_zero (s.words (s.words pg i)) 1024 0)) [
      | inl z ↦ (freed pg i s, rw (l, n, z, l') refl)
      | inr z ↦ (s, rw (l, n, z, l') refl)
    ]

-- After one page the one table is looked at, and it is there.
pub free_intermediate_pgtable-one :
    (pg vaddr : ℕ) (s : Tables)
    → vaddr < 2 ^ 32
    → s.words pg (pdx vaddr) ≢ 0
    → (s' : Tables) × (free_intermediate_pgtable pg vaddr page_size s ≡ some s')
unfolding free_intermediate_pgtable
free_intermediate_pgtable-one pg vaddr s h nz =
    let (s', e) = free_tables-one 1023 pg (pdx vaddr) s nz in
    let last : sub32 (add32 vaddr page_size) page_size ≡ vaddr = omega arith in
    (s', ap (λ (v : ℕ). free_tables 1025 pg (pdx vaddr) (pdx v) s) last ∙ e)

free_tables-null :
    (fuel pg i last : ℕ) (s : Tables)
    → i ≤ last
    → s.words pg i ≡ 0
    → free_tables (suc fuel) pg i last s ≡ none
unfolding free_tables
free_tables-null fuel pg i last s le z = let l : leb i last ≡ true = ground arith in rw (l, z) refl

pub free_intermediate_pgtable-null :
    (pg vaddr : ℕ) (s : Tables)
    → s.words pg (pdx vaddr) ≡ 0
    → vaddr < 2 ^ 32
    → vaddr % page_size ≡ 0
    → vaddr % 2 ^ 22 ≢ 0
    → free_intermediate_pgtable pg vaddr 0 s ≡ none
unfolding free_intermediate_pgtable
free_intermediate_pgtable-null pg vaddr s z r va al =
    let last = sub32 (add32 vaddr 0) page_size in
    free_tables-null 1024 pg (pdx vaddr) (pdx last) s (omega (arith, pdx_lem vaddr, pdx_lem last)) z
