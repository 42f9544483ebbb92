-- ===== src/Uvm/Forget.antt =====
-- The count of the calls changes nothing: uvm.c does with a kernel what it does with the kernel and a count.
use aim_mips.Prelude.{
  ℕ, zero, suc, ◌+◌, ◌/◌, ◌%◌, ◌≡◌, ◌⊎◌, inl, inr, refl, ap, ◌∙◌, not, ◌||◌, ltb, ◌==◌, Option,
  none, some, List, [], ◌∷◌, ◌++◌, Bool-cases, Option-cases, ℤ, is_neg, page_size, add32, sub32,
}
use aim_mips.Uvm.Calls.{Kernel, vma_object, upages_object}
use aim_mips.Uvm.{
  Vma, Mm, Made, is_pos, unref_and_free_upages, drop_vma, unmap_and_free_vma, new_area, create_loop,
  finish, find_vma_before, find_continuous_vma,
}
use aim_mips.Uvm.Operations.{create_uvm, destroy_uvm}
use aim_mips.Uvm.Laws.{Seen}
use aim_mips.Uvm.Counted.{counted}

module _ {S : Type 0} where
  abbrev forget_area : (ℤ × (S × Seen)) ⊎ (Vma × (S × Seen)) → (ℤ × S) ⊎ (Vma × S)
  forget_area (inl (c, t)) = inl (c, t.0)
  forget_area (inr (v, t)) = inr (v, t.0)

  abbrev forget_state : Made (S × Seen) → Made S
  forget_state m = record { code = m.code; fresh = m.fresh; mapped = m.mapped; state = m.state.0 }

  abbrev forget_made : Made (S × Seen) ⊎ Made (S × Seen) → Made S ⊎ Made S
  forget_made (inl m) = inl (forget_state m)
  forget_made (inr m) = inr (forget_state m)

  abbrev forget_left : Option (List Vma × (S × Seen)) → Option (List Vma × S)
  forget_left none = none
  forget_left (some (vs, t)) = some (vs, t.0)

  abbrev forget_end : Option (ℤ × Mm × (S × Seen)) → Option (ℤ × Mm × S)
  forget_end none = none
  forget_end (some (c, mm, t)) = some (c, mm, t.0)

  -- An answer of a call on a region without the count.
  abbrev pub forget : Option (ℤ × Option Mm × (S × Seen)) → Option (ℤ × Option Mm × S)
  forget none = none
  forget (some (c, mm, t)) = some (c, mm, t.0)

Sum-cases : {A B : Type 0} (x : A ⊎ B) → ((a : A) × (x ≡ inl a)) ⊎ ((b : B) × (x ≡ inr b))
Sum-cases (inl a) = inl (a, refl)
Sum-cases (inr b) = inr (b, refl)

module _ {S : Type 0} (k : Kernel S) where
  new_area-forget :
      (pg va size flags pages_size pages_flags : ℕ) (t : S × Seen)
      → new_area k pg va size flags pages_size pages_flags (t.0)
        ≡ forget_area (new_area (counted k) pg va size flags pages_size pages_flags t)
  unfolding new_area
  new_area-forget pg va size flags psize pflags t =
      elim (Option-cases (k.kmalloc vma_object (t.0))) [
        | inl e ↦ rw (new_area, e) refl
        | inr ((p, s1), e) ↦ elim (Option-cases (k.kmalloc upages_object s1)) [
          | inl f ↦ rw (new_area, e, f) refl
          | inr ((q, s2), f) ↦ elim (Option-cases (k.alloc_pages psize s2)) [
            | inl g ↦ rw (new_area, e, f, g) refl
            | inr ((pa, s3), g) ↦
                elim (Bool-cases (is_neg ((k.map_pages pg va pa size flags s3).0))) [
                  | inl h ↦ rw (new_area, e, f, g, h) refl
                  | inr h ↦ rw (new_area, e, f, g, h) refl
                ]
          ]
        ]
      ]

  create_loop-forget :
      (n pg vcur flags mapped : ℕ) (fresh : List Vma) (t : S × Seen)
      → create_loop k n pg vcur flags mapped fresh (t.0)
        ≡ forget_made (create_loop (counted k) n pg vcur flags mapped fresh t)
  unfolding create_loop
  create_loop-forget zero pg vcur flags mapped fresh t = refl
  create_loop-forget (suc n) pg vcur flags mapped fresh t =
      let same = new_area-forget pg vcur page_size flags page_size 0 t in
      elim (Sum-cases (new_area (counted k) pg vcur page_size flags page_size 0 t)) [
        | inl ((c, t1), e) ↦ rw (create_loop, same, e) refl
        | inr ((v, t1), e) ↦
            rw (create_loop, same, e)
              (create_loop-forget n pg (add32 vcur page_size) flags (mapped + page_size)
                (fresh ++ (v ∷ [])) t1)
      ]

  drop_vma-forget : (v : Vma) (t : S × Seen) → drop_vma k v (t.0) ≡ (drop_vma (counted k) v t).0
  unfolding drop_vma unref_and_free_upages
  drop_vma-forget v t = elim (Bool-cases (sub32 v.pages.refs 1 == 0)) [
    | inl e ↦ rw (drop_vma, unref_and_free_upages, e) refl
    | inr e ↦ rw (drop_vma, unref_and_free_upages, e) refl
  ]

  unmap_and_free_vma-forget :
      (pg i size : ℕ) (vs : List Vma) (t : S × Seen)
      → unmap_and_free_vma k pg i size vs (t.0)
        ≡ forget_left (unmap_and_free_vma (counted k) pg i size vs t)
  unfolding unmap_and_free_vma
  unmap_and_free_vma-forget pg i size [] t = elim (Bool-cases (ltb i size)) [
    | inl e ↦ rw (unmap_and_free_vma, e) refl
    | inr e ↦ rw (unmap_and_free_vma, e) refl
  ]
  unmap_and_free_vma-forget pg i size (v ∷ vs) t = elim (Bool-cases (ltb i size)) [
    | inr e ↦ rw (unmap_and_free_vma, e) refl
    | inl e ↦ elim (Bool-cases (is_pos ((k.unmap_pages pg v.start v.size (t.0)).0) v.size)) [
      | inr f ↦ rw (unmap_and_free_vma, e, f) refl
      | inl f ↦
          let t1 = ((counted k).unmap_pages pg v.start v.size t).2 in
          rw (unmap_and_free_vma, e, f)
            (ap (unmap_and_free_vma k pg (add32 i v.size) size vs) (drop_vma-forget v t1)
              ∙ unmap_and_free_vma-forget pg (add32 i v.size) size vs (drop_vma (counted k) v t1))
    ]
  ]

  finish-forget :
      (mm : Mm) (front back : List Vma) (m : Made (S × Seen) ⊎ Made (S × Seen))
      → finish k mm front back (forget_made m) ≡ forget_end (finish (counted k) mm front back m)
  unfolding finish
  finish-forget mm front back (inr m) = refl
  finish-forget mm front back (inl m) =
      let same = unmap_and_free_vma-forget mm.pgindex 0 m.mapped (m.fresh ++ back) m.state in
      elim (Option-cases
        (unmap_and_free_vma (counted k) mm.pgindex 0 m.mapped (m.fresh ++ back) m.state)) [
          | inl e ↦ rw (finish, same, e) refl
          | inr ((vs, t), e) ↦ rw (finish, same, e) refl
        ]

  pub create_uvm-forget :
      (ghost : ℕ) (mm : Mm) (addr len flags : ℕ) (t : S × Seen)
      → create_uvm k ghost (some mm) addr len flags (t.0)
        ≡ forget (create_uvm (counted k) ghost (some mm) addr len flags t)
  unfolding create_uvm
  create_uvm-forget ghost mm addr len flags t =
      elim (Bool-cases (not (len % page_size == 0) || not (addr % page_size == 0))) [
        | inl g ↦ rw (create_uvm, g) refl
        | inr g ↦ elim (Bool-cases (len == 0)) [
          | inl z ↦ rw (create_uvm, g, z) refl
          | inr z ↦ elim (Option-cases (find_vma_before ghost addr len mm.vmas)) [
            | inl f ↦ rw (create_uvm, g, z, f) refl
            | inr ((front, back), f) ↦
                let made = create_loop (counted k) (len / page_size) mm.pgindex addr flags 0 [] t in
                let loop : create_loop k (len / page_size) mm.pgindex addr flags 0 [] (t.0)
                    ≡ forget_made made =
                  create_loop-forget (len / page_size) mm.pgindex addr flags 0 [] t in
                let same : finish k mm front back
                      (create_loop k (len / page_size) mm.pgindex addr flags 0 [] (t.0))
                    ≡ forget_end (finish (counted k) mm front back made) =
                  ap (finish k mm front back) loop ∙ finish-forget mm front back made in
                elim (Option-cases (finish (counted k) mm front back made)) [
                  | inl e ↦ rw (create_uvm, g, z, f, same, e) refl
                  | inr ((c, mm', t1), e) ↦ rw (create_uvm, g, z, f, same, e) refl
                ]
          ]
        ]
      ]

  pub destroy_uvm-forget :
      (ghost : ℕ) (mm : Mm) (addr len : ℕ) (t : S × Seen)
      → destroy_uvm k ghost (some mm) addr len (t.0)
        ≡ forget (destroy_uvm (counted k) ghost (some mm) addr len t)
  unfolding destroy_uvm
  destroy_uvm-forget ghost mm addr len t =
      elim (Bool-cases (not (len % page_size == 0) || not (addr % page_size == 0))) [
        | inl g ↦ rw (destroy_uvm, g) refl
        | inr g ↦ elim (Option-cases (find_continuous_vma ghost addr len mm.vmas)) [
          | inl f ↦ rw (destroy_uvm, g, f) refl
          | inr (none, f) ↦ rw (destroy_uvm, g, f) refl
          | inr (some (front, back), f) ↦
              let same = unmap_and_free_vma-forget mm.pgindex 0 len back t in
              elim (Option-cases (unmap_and_free_vma (counted k) mm.pgindex 0 len back t)) [
                | inl e ↦ rw (destroy_uvm, g, f, same, e) refl
                | inr ((vs, t1), e) ↦ rw (destroy_uvm, g, f, same, e) refl
              ]
        ]
      ]
