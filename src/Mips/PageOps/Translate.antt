-- ===== src/Mips/PageOps/Translate.antt =====
-- `uva2kva` follows what the tables say, after `map_pages` in particular.
use Prim.Native.Nat.{bit_and, bit_or}
use aim_mips.Prelude.{
  ℕ, ◌+◌, ◌-◌, ◌*◌, ◌/◌, ◌%◌, ◌^◌, ◌<◌, ◌≤◌, ◌≡◌, ◌≢◌, refl, sym, ◌∙◌, Option, some, arith, length,
  ℤ, success, page_size,
}
use aim_mips.Prelude.Bits.{bit_and-mask, bit_or-add}
use aim_mips.Mips.PageTable.{Tables, pdx, pa2kva, pte_paddr, no_desc, map_pages, pgtable_perm}
use aim_mips.Mips.PageTable.Index.{pgtable_perm_bounds, entry_parts}
use aim_mips.Mips.PageTable.Walk.{lookup, lookup-found, lookup-absent, IsTree, getpagedesc-found}
use aim_mips.Mips.PageTable.Map.{map_pages-IsFilled}
use aim_mips.Mips.PageOps.{uva2kva}

uva2kva-lookup :
    (pg va : ℕ) (s : Tables)
    → lookup pg va s ≢ 0
    → uva2kva pg va s
      ≡ some (pa2kva (bit_or (pte_paddr (lookup pg va s)) (bit_and va (page_size - 1))))
unfolding uva2kva
uva2kva-lookup pg va s nz =
    let there : s.words pg (pdx va) ≢ 0 = λ z. nz (lookup-absent pg va s z) in
    rw (getpagedesc-found pg va no_desc s there, lookup-found pg va s there) refl

-- Once `map_pages` has mapped a region, the kernel reaches each byte of it in its frame.
pub map_pages-uva2kva :
    (pg vaddr paddr size flags va : ℕ) (s s' : Tables)
    → IsTree pg s
    → paddr % page_size ≡ 0
    → size % page_size ≡ 0
    → vaddr % page_size ≡ 0
    → vaddr + size ≤ 2 ^ 32
    → paddr + size ≤ 2 ^ 32
    → size / page_size ≤ length s.avail
    → ((x : ℕ) → vaddr ≤ x → x < vaddr + size → lookup pg x s ≡ 0)
    → map_pages pg vaddr paddr size flags s ≡ some (success, s')
    → vaddr ≤ va
    → va < vaddr + size
    → uva2kva pg va s' ≡ some (pa2kva (paddr + (va - vaddr)))
map_pages-uva2kva pg vaddr paddr size flags va s s' t pa sa al r b av un m lo hi =
    let (u, m', filled) = map_pages-IsFilled pg vaddr paddr size flags s t pa sa al r b av un in
    let q : Path (Option (ℤ × Tables)) (some (success, u)) (some (success, s')) = sym m' ∙ m in
    let d : u ≡ s' = cc in
    let frame = paddr + (va - vaddr) / page_size * page_size in
    let (pos, small) = pgtable_perm_bounds flags in
    let (sum, high) = entry_parts frame (pgtable_perm flags) (omega arith) (omega arith) small in
    let found : lookup pg va s' ≡ bit_or frame (pgtable_perm flags) =
      rw (sym d) (filled.inside va lo (omega arith)) in
    let nz : lookup pg va s' ≢ 0 = omega (arith, found, sum, pos) in
    let low : bit_and va (page_size - 1) ≡ va % page_size = bit_and-mask 12 va in
    let join : bit_or (frame / page_size * page_size) (va % page_size)
        ≡ frame / page_size * page_size + va % page_size =
      bit_or-add 12 (frame / page_size) (va % page_size) (omega arith) in
    let whole : frame / page_size * page_size ≡ frame = omega arith in
    let join' : bit_or frame (va % page_size) ≡ frame + va % page_size = rw whole at join in
    let end : frame + va % page_size ≡ paddr + (va - vaddr) = omega arith in
    uva2kva-lookup pg va s' nz ∙ rw (found, high, low, join', end) refl
