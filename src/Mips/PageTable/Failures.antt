-- ===== src/Mips/PageTable/Failures.antt =====
-- The failures of `map_pages`, which undo what it began.
use aim_mips.Prelude.{
  ℕ, zero, suc, ◌+◌, ◌/◌, ◌%◌, ◌^◌, ◌<◌, ◌≤◌, ◌≡◌, ◌≢◌, inl, inr, refl, sym, ap, ◌∙◌, true, false,
  Option, none, some, [], arith, ltb, ◌==◌, ◌||◌, not, Bool-cases, Option-cases, ℤ, success, enomem,
  einval, is_neg, page_size, add32, sub32, add64,
}
use aim_mips.Mips.PageTable.{
  Tables, pdx, PageDesc, getpagedesc, first_pass, second_pass, map_pages, pgtable_perm, no_desc,
  free_intermediate_pgtable,
}
use aim_mips.Mips.PageTable.Walk.Grow.{getpagedesc-IsMade, getpagedesc-full}
use aim_mips.Mips.PageTable.Walk.{lookup, IsTree}
use aim_mips.Mips.PageTable.Rollback.{
  IsTree-IsDirectory, free_intermediate_pgtable-same, free_intermediate_pgtable-null,
}

-- The first pass alone maps nothing, however it ends.
record IsUnchanged (pg : ℕ) (s t : Tables) : Type 0 where
  tree : IsTree pg t
  same : (va : ℕ) → lookup pg va t ≡ lookup pg va s

first_pass-IsUnchanged :
    (fuel pg pcur pend vcur : ℕ) (pd : PageDesc) (s : Tables)
    → IsTree pg s
    → IsUnchanged pg s (first_pass fuel pg pcur pend vcur pd s).tables
unfolding first_pass
first_pass-IsUnchanged zero pg pcur pend vcur pd s t = record { tree = t; same = λ va. refl }
first_pass-IsUnchanged (suc fuel) pg pcur pend vcur pd s t =
    let g = getpagedesc pg vcur true pd s in
    elim (Bool-cases (ltb pcur pend)) [
      | inr l ↦ rw l (record { tree = t; same = λ va. refl })
      | inl l ↦ elim (getpagedesc-IsMade pg vcur pd s t) [
        | inr (c, _, _, q) ↦ rw (l, c, q) (record { tree = t; same = λ va. refl })
        | inl (c, _, _, _, grown) ↦ elim (Bool-cases (g.tables.words g.desc.ptev g.desc.ptx == 0)) [
          | inr z ↦ rw (l, c, z) (record { tree = grown.tree; same = grown.same })
          | inl z ↦
              let rest =
                first_pass-IsUnchanged fuel pg (add64 pcur page_size) pend (add32 vcur page_size)
                  g.desc g.tables grown.tree in
              rw (l, c, z) (record { tree = rest.tree; same = λ va. rest.same va ∙ grown.same va })
        ]
      ]
    ]

map_pages-bad :
    (pg vaddr paddr size flags : ℕ) (s : Tables)
    → (not (paddr % page_size == 0)
        || (not (size % page_size == 0) || not (vaddr % page_size == 0)))
      ≡ true
    → map_pages pg vaddr paddr size flags s ≡ some (einval, s)
unfolding map_pages
map_pages-bad pg vaddr paddr size flags s b = rw b refl

map_pages-undone :
    (pg vaddr paddr size flags : ℕ) (s : Tables)
    → let p = first_pass (size / page_size + 1) pg paddr (add64 paddr size) vaddr no_desc s in
      (not (paddr % page_size == 0)
          || (not (size % page_size == 0) || not (vaddr % page_size == 0)))
        ≡ false
      → is_neg p.code ≡ true
      → map_pages pg vaddr paddr size flags s
        ≡ elim (free_intermediate_pgtable pg vaddr (sub32 p.vcur vaddr) p.tables) [
          | none ↦ none
          | some s' ↦ some (p.code, s')
        ]
unfolding map_pages
map_pages-undone pg vaddr paddr size flags s b neg = rw (b, neg) refl

map_pages-done :
    (pg vaddr paddr size flags : ℕ) (s : Tables)
    → let p = first_pass (size / page_size + 1) pg paddr (add64 paddr size) vaddr no_desc s in
      (not (paddr % page_size == 0)
          || (not (size % page_size == 0) || not (vaddr % page_size == 0)))
        ≡ false
      → is_neg p.code ≡ false
      → (t : Tables) × (map_pages pg vaddr paddr size flags s ≡ some (success, t))
unfolding map_pages
map_pages-done pg vaddr paddr size flags s b neg =
    let p = first_pass (size / page_size + 1) pg paddr (add64 paddr size) vaddr no_desc s in
    (
      second_pass (size / page_size + 1) pg paddr (add64 paddr size) vaddr (pgtable_perm flags)
          p.desc p.tables,
      rw (b, neg) refl,
    )

same_answer :
    {c c' : ℤ} {t t' : Tables}
    → Path (Option (ℤ × Tables)) (some (c, t)) (some (c', t'))
    → (c ≡ c') × (t ≡ t')
same_answer e = (cc, cc)

-- When `map_pages` answers with an error, every address is mapped as it was.
pub map_pages-unchanged :
    (pg vaddr paddr size flags : ℕ) (code : ℤ) (s s' : Tables)
    → pg ≢ 0
    → IsTree pg s
    → map_pages pg vaddr paddr size flags s ≡ some (code, s')
    → is_neg code ≡ true
    → (va : ℕ) → lookup pg va s' ≡ lookup pg va s
map_pages-unchanged pg vaddr paddr size flags code s s' nz t e neg va =
    let p = first_pass (size / page_size + 1) pg paddr (add64 paddr size) vaddr no_desc s in
    let first =
      first_pass-IsUnchanged (size / page_size + 1) pg paddr (add64 paddr size) vaddr no_desc s t in
    elim (Bool-cases (
      not (paddr % page_size == 0)
      || (not (size % page_size == 0) || not (vaddr % page_size == 0)))) [
        | inl b ↦
            let (_, d) = same_answer (sym (map_pages-bad pg vaddr paddr size flags s b) ∙ e) in
            rw d refl
        | inr b ↦ elim (Bool-cases (is_neg p.code)) [
          | inr c ↦
              let (u, m) = map_pages-done pg vaddr paddr size flags s b c in
              let (d, _) = same_answer (sym m ∙ e) in
              let n : false ≡ true = rw (sym d) at neg in absurd cc
          | inl c ↦
              elim (Option-cases
                (free_intermediate_pgtable pg vaddr (sub32 p.vcur vaddr) p.tables)) [
                  | inl o ↦
                      let m = sym (map_pages-undone pg vaddr paddr size flags s b c) ∙ e in
                      let q : Path (Option (ℤ × Tables)) none (some (code, s')) = rw o at m in
                      absurd cc
                  | inr (u, o) ↦
                      let m = sym (map_pages-undone pg vaddr paddr size flags s b c) ∙ e in
                      let (_, d) = same_answer (rw o at m) in
                      let o' : free_intermediate_pgtable pg vaddr (sub32 p.vcur vaddr) p.tables
                          ≡ some s' =
                        rw d at o in
                      free_intermediate_pgtable-same pg vaddr (sub32 p.vcur vaddr) p.tables s' nz
                        (IsTree-IsDirectory pg p.tables first.tree) o' va
                      ∙ first.same va
                ]
        ]
      ]

first_pass-full :
    (fuel pg pcur pend vcur : ℕ) (pd : PageDesc) (s : Tables)
    → pcur < pend
    → s.words pg (pdx vcur) ≡ 0
    → s.avail ≡ []
    → first_pass (suc fuel) pg pcur pend vcur pd s
      ≡ record { code = enomem; vcur = vcur; desc = record pd { pdx = pdx vcur }; tables = s }
unfolding first_pass
first_pass-full fuel pg pcur pend vcur pd s lt z av =
    let l : ltb pcur pend ≡ true = ground arith in rw (l, getpagedesc-full pg vcur pd s z av) refl

-- With no page left for the leaf table of the first address, which is not on a bound of 4 MB, the
-- rollback takes the null directory entry for a table.
pub map_pages-none :
    (pg vaddr paddr size flags : ℕ) (s : Tables)
    → s.avail ≡ []
    → s.words pg (pdx vaddr) ≡ 0
    → paddr % page_size ≡ 0
    → size % page_size ≡ 0
    → vaddr % page_size ≡ 0
    → 0 < size
    → paddr + size ≤ 2 ^ 32
    → vaddr < 2 ^ 32
    → vaddr % 2 ^ 22 ≢ 0
    → map_pages pg vaddr paddr size flags s ≡ none
map_pages-none pg vaddr paddr size flags s av z pa sa va pos b r al =
    let w : add64 paddr size ≡ paddr + size = omega arith in
    let bad : (not (paddr % page_size == 0)
          || (not (size % page_size == 0) || not (vaddr % page_size == 0)))
        ≡ false =
      rw (pa, sa, va) refl in
    let one : size / page_size + 1 ≡ suc (size / page_size) = omega arith in
    let full : first_pass (size / page_size + 1) pg paddr (add64 paddr size) vaddr no_desc s
        ≡ record {
          code = enomem;
          vcur = vaddr;
          desc = record no_desc { pdx = pdx vaddr };
          tables = s;
        } =
      ap (λ (n : ℕ). first_pass n pg paddr (add64 paddr size) vaddr no_desc s) one
      ∙ rw w (
          first_pass-full (size / page_size) pg paddr (paddr + size) vaddr no_desc s (omega arith) z
            av) in
    let none' : free_intermediate_pgtable pg vaddr (sub32 vaddr vaddr) s ≡ none =
      ap (λ (n : ℕ). free_intermediate_pgtable pg vaddr n s) (omega arith)
      ∙ free_intermediate_pgtable-null pg vaddr s z r va al in
    map_pages-undone pg vaddr paddr size flags s bad (rw full refl) ∙ rw (full, none') refl
