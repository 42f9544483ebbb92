-- ===== src/Uvm/Operations.antt =====
-- create_uvm, destroy_uvm, set_uvm_perm and mm_clone.
use aim_mips.Prelude.{
  ℕ, zero, suc, ◌/◌, ◌%◌, not, ◌||◌, ◌==◌, if◌then◌else◌, Option, none, some, List, [], ◌∷◌, ◌++◌,
  ◌⊎◌, inl, inr, ℤ, success, efault, einval, enoent, add32, page_size,
}
use aim_mips.Uvm.{
  Vma, Mm, Made, is_pos, find_vma_before, find_continuous_vma, unmap_and_free_vma, new_area,
  create_loop, finish,
}
use aim_mips.Uvm.Calls.{Kernel}

-- `vma->flags = flags` on the first of the areas.
unfoldable pub set_flags : ℕ → List Vma → List Vma
set_flags flags [] = []
set_flags flags (v ∷ vs) = record v { flags = flags } ∷ vs

module _ {S : Type 0} (k : Kernel S) (ghost : ℕ) where
  unfoldable pub create_uvm : Option Mm → ℕ → ℕ → ℕ → S → Option (ℤ × Option Mm × S)
  create_uvm none addr len flags s = some (einval, none, s)
  create_uvm (some mm) addr len flags s =
      if not (len % page_size == 0) || not (addr % page_size == 0)
      then some (einval, some mm, s)
      else if len == 0
      then some (success, some mm, s)
      else elim (find_vma_before ghost addr len mm.vmas) [
        | none ↦ some (efault, some mm, s)
        | some (front, back) ↦
            elim (finish k mm front back
              (create_loop k (len / page_size) mm.pgindex addr flags 0 [] s)) [
                | none ↦ none
                | some (code, mm', s1) ↦ some (code, some mm', s1)
              ]
      ]

  unfoldable pub destroy_uvm : Option Mm → ℕ → ℕ → S → Option (ℤ × Option Mm × S)
  destroy_uvm none addr len s = some (einval, none, s)
  destroy_uvm (some mm) addr len s =
      if not (len % page_size == 0) || not (addr % page_size == 0)
      then some (einval, some mm, s)
      else elim (find_continuous_vma ghost addr len mm.vmas) [
        | none ↦ none
        | some none ↦ some (efault, some mm, s)
        | some (some (front, back)) ↦ elim (unmap_and_free_vma k mm.pgindex 0 len back s) [
          | none ↦ none
          | some (left, s1) ↦ some (success, some (record mm { vmas = front ++ left }), s1)
        ]
      ]

  -- `for (; i < len; i += PAGE_SIZE, addr += PAGE_SIZE)`, with `n` turns to go; `vma` stays where it is.
  unfoldable pub perm_loop : ℕ → ℕ → ℕ → ℕ → List Vma → S → ℤ × List Vma × S
  perm_loop zero pg addr flags vs s = (success, vs, s)
  perm_loop (suc n) pg addr flags vs s =
      let (code, s1) = k.set_pages_perm pg addr page_size flags s in
      let rest = perm_loop n pg (add32 addr page_size) flags (set_flags flags vs) s1 in
      if is_pos code 0 then rest else (enoent, set_flags flags vs, s1)

  unfoldable pub set_uvm_perm : Option Mm → ℕ → ℕ → ℕ → S → Option (ℤ × Option Mm × S)
  set_uvm_perm none addr len flags s = some (einval, none, s)
  set_uvm_perm (some mm) addr len flags s =
      if not (len % page_size == 0) || not (addr % page_size == 0)
      then some (einval, some mm, s)
      else elim (find_continuous_vma ghost addr len mm.vmas) [
        | none ↦ none
        | some none ↦ some (efault, some mm, s)
        | some (some (front, back)) ↦
            let (code, back', s1) = perm_loop (len / page_size) mm.pgindex addr flags back s in
            some (code, some (record mm { vmas = front ++ back' }), s1)
      ]

  -- `for_each_entry (vma, &(src->vma_head), node)` of mm_clone.
  unfoldable pub clone_loop : ℕ → List Vma → ℕ → List Vma → S → Made S ⊎ Made S
  clone_loop pg [] cloned fresh s =
      inr (record { code = success; fresh = fresh; mapped = cloned; state = s })
  clone_loop pg (v ∷ vs) cloned fresh s =
      elim (new_area k pg v.start v.size v.flags v.pages.size v.pages.flags s) [
        | inl (code, s1) ↦ inl (record { code = code; fresh = fresh; mapped = cloned; state = s1 })
        | inr (w, s1) ↦
            clone_loop pg vs (add32 cloned v.size) (fresh ++ (w ∷ []))
              (k.copy_page w.pages.paddr v.pages.paddr v.size s1)
      ]

  -- The new areas go before those of `dst`.
  unfoldable pub mm_clone : Mm → Mm → S → Option (ℤ × Mm × S)
  mm_clone dst src s = finish k dst [] dst.vmas (clone_loop dst.pgindex src.vmas 0 [] s)
