-- ===== src/Uvm/Permitted.antt =====
-- set_uvm_perm changes the recorded flags of one area.
use aim_mips.Prelude.{
  ℕ, zero, suc, ◌-◌, ◌/◌, ◌%◌, ◌≤◌, ◌≡◌, inl, inr, refl, ap, ◌∙◌, false, not, ◌||◌, ◌==◌, some,
  List, [], ◌∷◌, ◌++◌, arith, Bool-cases, page_size, add32, ℤ,
}
use aim_mips.Uvm.Calls.{Kernel}
use aim_mips.Uvm.{Vma, Mm, is_pos, find_continuous_vma}
use aim_mips.Uvm.Operations.{set_flags, perm_loop, set_uvm_perm}

set_flags_twice :
    (flags : ℕ) (vs : List Vma) → set_flags flags (set_flags flags vs) ≡ set_flags flags vs
unfolding set_flags
set_flags_twice flags [] = refl
set_flags_twice flags (v ∷ vs) = refl

module _ {S : Type 0} (k : Kernel S) (ghost : ℕ) where
  perm_loop-set_flags :
      (n pg addr flags : ℕ) (vs ws : List Vma) (s : S)
      → set_flags flags vs ≡ ws
      → set_flags flags ws ≡ ws
      → (perm_loop k ghost (suc n) pg addr flags vs s).1 ≡ ws
  unfolding perm_loop
  perm_loop-set_flags zero pg addr flags vs ws s e f =
      elim (Bool-cases (is_pos ((k.set_pages_perm pg addr page_size flags s).0) 0)) [
        | inr z ↦ rw (perm_loop, z) e
        | inl z ↦ rw (perm_loop, z) e
      ]
  perm_loop-set_flags (suc n) pg addr flags vs ws s e f =
      let s1 = (k.set_pages_perm pg addr page_size flags s).1 in
      let rest : (perm_loop k ghost (suc n) pg (add32 addr page_size) flags (set_flags flags vs)
            s1).1
          ≡ ws =
        perm_loop-set_flags n pg (add32 addr page_size) flags (set_flags flags vs) ws s1
          (ap (set_flags flags) e ∙ f) f in
      elim (Bool-cases (is_pos ((k.set_pages_perm pg addr page_size flags s).0) 0)) [
        | inr z ↦ rw (perm_loop, z) e
        | inl z ↦ rw (perm_loop, z) rest
      ]

  perm_recorded :
      (n : ℕ) (mm : Mm) (addr len flags : ℕ) (front back : List Vma) (s : S)
      → len / page_size ≡ suc n
      → len % page_size ≡ 0
      → addr % page_size ≡ 0
      → find_continuous_vma ghost addr len mm.vmas ≡ some (some (front, back))
      → (code : ℤ) × (s1 : S) × (set_uvm_perm k ghost (some mm) addr len flags s
          ≡ some (code, some (record mm { vmas = front ++ set_flags flags back }), s1))
  unfolding set_uvm_perm
  perm_recorded n mm addr len flags front back s turns whole aligned found =
      let guard : (not (len % page_size == 0) || not (addr % page_size == 0)) ≡ false =
        ground arith in
      let end = perm_loop k ghost (suc n) mm.pgindex addr flags back s in
      let same : end.1 ≡ set_flags flags back =
        perm_loop-set_flags n mm.pgindex addr flags back (set_flags flags back) s refl
          (set_flags_twice flags back) in
      (
        end.0,
        end.2,
        rw (set_uvm_perm, guard, found, turns)
            (ap (λ (t : List Vma). some (end.0, some (record mm { vmas = front ++ t }), end.2))
              same),
      )

  -- `set_uvm_perm` on a region that areas cover, in whole pages, records the new flags in the first of these
  -- areas and changes nothing else of any area, whether or not it succeeds, and however many areas the region
  -- has.
  pub set_uvm_perm-set_flags :
      (mm : Mm) (addr len flags : ℕ) (front back : List Vma) (v : Vma) (s : S)
      → len % page_size ≡ 0
      → addr % page_size ≡ 0
      → 1 ≤ len
      → find_continuous_vma ghost addr len mm.vmas ≡ some (some (front, v ∷ back))
      → (code : ℤ) × (s1 : S) × (set_uvm_perm k ghost (some mm) addr len flags s
          ≡ some
              (code, some (record mm { vmas = front ++ (record v { flags = flags } ∷ back) }), s1))
  unfolding set_flags
  set_uvm_perm-set_flags mm addr len flags front back v s whole aligned one found =
      perm_recorded (len / page_size - 1) mm addr len flags front (v ∷ back) s (omega arith) whole
        aligned found
