-- ===== src/Mips/PageTable/First.antt =====
-- The first pass of `map_pages`.
use aim_mips.Prelude.{
  ℕ, zero, suc, ◌+◌, ◌*◌, ◌%◌, ◌^◌, ◌<◌, ◌≤◌, ◌≡◌, ◌≢◌, inl, inr, refl, sym, ap, ◌∙◌, true, false,
  arith, length, ltb, ltb→lt, Bool-cases, success, page_size, add32, add64,
}
use aim_mips.Mips.PageTable.{Tables, pdx, PageDesc, getpagedesc, Pass, first_pass}
use aim_mips.Mips.PageTable.Index.{pdx_lem}
use aim_mips.Mips.PageTable.Walk.Grow.{getpagedesc-IsMade}
use aim_mips.Mips.PageTable.Walk.{lookup, lookup-found, IsTree, pdx_lt}

-- The first pass of `n` pages from `vcur` went through.
pub record IsPassed (pg vcur n : ℕ) (s : Tables) (p : Pass) : Type 0 where
  pub code : p.code ≡ success
  pub tree : IsTree pg p.tables
  pub same : (va : ℕ) → lookup pg va p.tables ≡ lookup pg va s
  pub kept : (d : ℕ) → d < 1024 → s.words pg d ≢ 0 → p.tables.words pg d ≡ s.words pg d
  pub present : (va : ℕ) → vcur ≤ va → va < vcur + n * page_size → p.tables.words pg (pdx va) ≢ 0

first_pass-step :
    (fuel pg pcur pend vcur : ℕ) (pd : PageDesc) (s : Tables)
    → let g = getpagedesc pg vcur true pd s in
      pcur < pend
      → g.code ≡ success
      → g.tables.words g.desc.ptev g.desc.ptx ≡ 0
      → first_pass (suc fuel) pg pcur pend vcur pd s
        ≡ first_pass fuel pg (add64 pcur page_size) pend (add32 vcur page_size) g.desc g.tables
unfolding first_pass
first_pass-step fuel pg pcur pend vcur pd s lt c z =
    let l : ltb pcur pend ≡ true = ground arith in rw (l, c, z) refl

first_pass-end :
    (fuel pg pcur vcur : ℕ) (pd : PageDesc) (s : Tables)
    → first_pass (suc fuel) pg pcur pcur vcur pd s
      ≡ record { code = success; vcur = vcur; desc = pd; tables = s }
unfolding first_pass
first_pass-end fuel pg pcur vcur pd s = let l : ltb pcur pcur ≡ false = ground arith in rw l refl

-- With a page left for each, and nothing mapped there, the first pass goes through.
pub first_pass-IsPassed :
    (n fuel pg pcur pend vcur : ℕ) (pd : PageDesc) (s : Tables)
    → n < fuel
    → pcur + n * page_size ≡ pend
    → pend < 2 ^ 64
    → vcur + n * page_size ≤ 2 ^ 32
    → vcur % page_size ≡ 0
    → IsTree pg s
    → n ≤ length s.avail
    → ((va : ℕ) → vcur ≤ va → va < vcur + n * page_size → lookup pg va s ≡ 0)
    → IsPassed pg vcur n s (first_pass fuel pg pcur pend vcur pd s)
first_pass-IsPassed n zero pg pcur pend vcur pd s f e b r al t av un = absurd (omega arith)
first_pass-IsPassed zero (suc fuel) pg pcur pend vcur pd s f e b r al t av un =
    let e' : pend ≡ pcur = omega arith in
    rw (e', first_pass-end fuel pg pcur vcur pd s)
      (record {
        code = refl;
        tree = t;
        same = λ va. refl;
        kept = λ d h nz. refl;
        present = λ va lo hi. absurd (omega arith);
      })
first_pass-IsPassed (suc n) (suc fuel) pg pcur pend vcur pd s f e b r al t av un =
    let g = getpagedesc pg vcur true pd s in
    elim (getpagedesc-IsMade pg vcur pd s t) [
      | inl (c, page, nz, x, grown) ↦
          let nz' : g.tables.words pg (pdx vcur) ≢ 0 = λ z. nz (page ∙ z) in
          let empty : g.tables.words g.desc.ptev g.desc.ptx ≡ 0 =
            rw (page, x, sym (lookup-found pg vcur g.tables nz'), grown.same vcur)
              (un vcur (omega arith) (omega arith)) in
          let next : add64 pcur page_size ≡ pcur + page_size = omega arith in
          let rest =
            first_pass-IsPassed n fuel pg (add64 pcur page_size) pend (add32 vcur page_size) g.desc
              g.tables (omega arith) (omega (arith, next)) b (omega arith) (omega arith) grown.tree
              (omega (arith, grown.used))
              (λ va lo hi. grown.same va ∙ un va (omega arith) (omega arith)) in
          let ptables =
            (first_pass fuel pg (add64 pcur page_size) pend (add32 vcur page_size) g.desc
              g.tables).tables in
          rw (first_pass-step fuel pg pcur pend vcur pd s (omega arith) c empty) (record {
            code = rest.code;
            tree = rest.tree;
            same = λ va. rest.same va ∙ grown.same va;
            kept = λ d h k. rest.kept d h (λ z. k (sym (grown.kept d h k) ∙ z)) ∙ grown.kept d h k;
            present = λ va lo hi. elim (Bool-cases (ltb va (vcur + page_size))) [
              | inl l ↦
                  let d : pdx va ≡ pdx vcur =
                    omega (arith, pdx_lem va, pdx_lem vcur, ltb→lt va (vcur + page_size) l) in
                  let k : ptables.words pg (pdx vcur) ≡ g.tables.words pg (pdx vcur) =
                    rest.kept (pdx vcur) (pdx_lt vcur) nz' in
                  λ z. nz' (sym k ∙ rw d at z)
              | inr l ↦
                  let l' : vcur + page_size ≤ va = ground arith in
                  rest.present va (omega arith) (omega arith)
            ];
          })
      | inr (_, none_left, _, _) ↦
          let z : length s.avail ≡ 0 = ap length none_left in absurd (omega (arith, z))
    ]
