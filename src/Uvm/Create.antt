-- ===== src/Uvm/Create.antt =====
-- What create_uvm leaves, when it succeeds and when it does not.
use mathlib.Core.Path.{subst}
use aim_mips.Prelude.{
  ℕ, zero, suc, ◌+◌, ◌*◌, ◌^◌, ◌<◌, ◌≡◌, ◌⊎◌, inl, inr, refl, sym, ap, ◌∙◌, true, some, List, [],
  ◌∷◌, ◌++◌, arith, Bool-cases, Option-cases, ℤ, is_neg, success, page_size, add32, length,
  length-append, enomem,
}
use aim_mips.Uvm.Calls.{Kernel, vma_object, upages_object}
use aim_mips.Uvm.{Vma, Made, new_area, create_loop}
use aim_mips.Uvm.Laws.{
  Seen, more_objects, less_objects, more_bytes, less_bytes, map_page, IsCounted, entered,
  entered_all, IsPage, IsRun, seen_ext,
}

IsRun-append :
    (va : ℕ) (vs : List Vma) (v : Vma)
    → IsRun va vs
    → IsPage (va + length vs * page_size) v
    → IsRun va (vs ++ (v ∷ []))
unfolding IsRun
IsRun-append va [] v r h = (subst (λ x. IsPage x v) {x = va + 0} {y = va} (omega arith) h, tt)
IsRun-append va (w ∷ vs) v r h =
    let (p, rest) = r in
    let place : va + suc (length vs) * page_size ≡ va + page_size + length vs * page_size =
      omega arith in
    (p, IsRun-append (va + page_size) vs v rest (subst (λ x. IsPage x v) place h))

entered_all-append :
    (pg : ℕ) (vs : List Vma) (v : Vma) (o : Seen)
    → entered_all pg (vs ++ (v ∷ [])) o ≡ entered pg v (entered_all pg vs o)
unfolding entered_all
entered_all-append pg [] v o = refl
entered_all-append pg (w ∷ vs) v o = entered_all-append pg vs v (entered pg w o)

-- What a loop that makes areas has made by the time it stops.
pub record IsMade {S : Type 0} (seen : S → Seen) (pg va : ℕ) (o : Seen) (m : Made S) : Type 0 where
  pub run : IsRun va m.fresh
  pub state_seen : seen m.state ≡ entered_all pg m.fresh o
  pub mapped : m.mapped ≡ length m.fresh * page_size

module _ {S : Type 0} (k : Kernel S) (seen : S → Seen) (laws : IsCounted k seen) where
  less-more : (o : Seen) → less_objects (more_objects o) ≡ o
  unfolding less_objects more_objects
  less-more o = seen_ext (less_objects (more_objects o)) o (omega arith) refl (λ p v. refl)

  less-more_bytes : (o : Seen) → less_bytes page_size (more_bytes page_size o) ≡ o
  unfolding less_bytes more_bytes
  less-more_bytes o =
      seen_ext (less_bytes page_size (more_bytes page_size o)) o refl (omega arith) (λ p v. refl)

  two_freed :
      (p q : ℕ) (s : S) → seen (k.kfree p (k.kfree q s)) ≡ less_objects (less_objects (seen s))
  two_freed p q s = laws.kfree p (k.kfree q s) ∙ ap less_objects (laws.kfree q s)

  taken_two :
      (s s1 s2 : S) (p q : ℕ)
      → k.kmalloc vma_object s ≡ some (p, s1)
      → k.kmalloc upages_object s1 ≡ some (q, s2)
      → less_objects (less_objects (seen s2)) ≡ seen s
  taken_two s s1 s2 p q e f =
      ap (λ x. less_objects (less_objects x)) (laws.kmalloc upages_object q s1 s2 f)
      ∙ ap less_objects (less-more (seen s1))
      ∙ ap less_objects (laws.kmalloc vma_object p s s1 e)
      ∙ less-more (seen s)

  -- A new area of one page is entered, or nothing is left of the attempt.
  new_area-seen :
      (pg va flags pages_flags : ℕ) (s : S)
      → ((code : ℤ) × (s1 : S) × (new_area k pg va page_size flags page_size pages_flags s
            ≡ inl (code, s1))
          × (is_neg code ≡ true)
          × (seen s1 ≡ seen s))
        ⊎ ((v : Vma) × (s1 : S) × (new_area k pg va page_size flags page_size pages_flags s
              ≡ inr (v, s1))
            × IsPage va v
            × (v.flags ≡ flags)
            × (seen s1 ≡ entered pg v (seen s)))
  unfolding new_area entered
  new_area-seen pg va flags pages_flags s = elim (Option-cases (k.kmalloc vma_object s)) [
    | inl e ↦ inl (enomem, s, rw (new_area, e) refl, refl, refl)
    | inr ((p, s1), e) ↦ elim (Option-cases (k.kmalloc upages_object s1)) [
      | inl f ↦ inl (
        enomem,
        k.kfree p s1,
        rw (new_area, e, f) refl,
        refl,
        laws.kfree p s1 ∙ ap less_objects (laws.kmalloc vma_object p s s1 e) ∙ less-more (seen s),
      )
      | inr ((q, s2), f) ↦ elim (Option-cases (k.alloc_pages page_size s2)) [
        | inl g ↦ inl (
          enomem,
          k.kfree p (k.kfree q s2),
          rw (new_area, e, f, g) refl,
          refl,
          two_freed p q s2 ∙ taken_two s s1 s2 p q e f,
        )
        | inr ((pa, s3), g) ↦
            elim (Bool-cases (is_neg ((k.map_pages pg va pa page_size flags s3).0))) [
              | inl h ↦ inl (
                (k.map_pages pg va pa page_size flags s3).0,
                k.kfree p (
                    k.kfree q
                      (k.free_pages pa page_size ((k.map_pages pg va pa page_size flags s3).1))),
                rw (new_area, e, f, g, h) refl,
                h,
                two_freed p q
                      (k.free_pages pa page_size ((k.map_pages pg va pa page_size flags s3).1))
                    ∙ ap (λ x. less_objects (less_objects x))
                        (laws.free_pages pa page_size ((k.map_pages pg va pa page_size flags s3).1)
                          ∙ ap (less_bytes page_size) (
                              laws.map_failed pg va pa flags s3 h
                              ∙ laws.alloc_pages page_size pa s2 s3 g)
                          ∙ less-more_bytes (seen s2))
                    ∙ taken_two s s1 s2 p q e f,
              )
              | inr h ↦ inr (
                record {
                  self = p;
                  start = va;
                  size = page_size;
                  flags = flags;
                  pages = record {
                    self = q;
                    paddr = pa;
                    size = page_size;
                    flags = pages_flags;
                    refs = 1;
                  };
                },
                (k.map_pages pg va pa page_size flags s3).1,
                rw (new_area, e, f, g, h) refl,
                record { start = refl; size = refl; held = refl; refs = refl },
                refl,
                laws.map_done pg va pa flags s3 h
                    ∙ ap (λ x. map_page pg va (some (pa, flags)) x)
                        (laws.alloc_pages page_size pa s2 s3 g
                          ∙ ap (more_bytes page_size) (
                              laws.kmalloc upages_object q s1 s2 f
                              ∙ ap more_objects (laws.kmalloc vma_object p s s1 e))),
              )
            ]
      ]
    ]
  ]

  pub create_loop-IsMade :
      (n pg va vcur flags mapped : ℕ) (fresh : List Vma) (o : Seen) (s : S)
      → IsRun va fresh
      → seen s ≡ entered_all pg fresh o
      → mapped ≡ length fresh * page_size
      → vcur ≡ va + mapped
      → vcur + n * page_size < 2 ^ 32
      → ((m : Made S) × (create_loop k n pg vcur flags mapped fresh s ≡ inl m)
          × (is_neg m.code ≡ true)
          × IsMade seen pg va o m
          × (length m.fresh < n + length fresh))
        ⊎ ((m : Made S) × (create_loop k n pg vcur flags mapped fresh s ≡ inr m)
            × IsMade seen pg va o m
            × (length m.fresh ≡ n + length fresh))
  unfolding create_loop
  create_loop-IsMade zero pg va vcur flags mapped fresh o s r st em ev fit = inr (
    record { code = success; fresh = fresh; mapped = mapped; state = s },
    refl,
    record { run = r; state_seen = st; mapped = em },
    omega arith,
  )
  create_loop-IsMade (suc n) pg va vcur flags mapped fresh o s r st em ev fit =
      elim (new_area-seen pg vcur flags 0 s) [
        | inl (code, s1, e, neg, same) ↦ inl (
          record { code = code; fresh = fresh; mapped = mapped; state = s1 },
          rw (create_loop, e) refl,
          neg,
          record { run = r; state_seen = same ∙ st; mapped = em },
          omega arith,
        )
        | inr (v, s1, e, page, flagged, put) ↦
            let longer : length (fresh ++ (v ∷ [])) ≡ suc (length fresh) =
              length-append fresh (v ∷ []) ∙ omega arith in
            let next : add32 vcur page_size ≡ vcur + page_size = omega arith in
            let rest =
              create_loop-IsMade n pg va (vcur + page_size) flags (mapped + page_size)
                (fresh ++ (v ∷ [])) o s1
                (IsRun-append va fresh v r (subst (λ x. IsPage x v) (omega arith) page))
                (put ∙ ap (entered pg v) st ∙ sym (entered_all-append pg fresh v o))
                (omega (arith, longer)) (omega arith) (omega arith) in
            elim rest [
              | inl (m, go, neg, made, few) ↦
                  inl (m, rw (create_loop, e, next) go, neg, made, omega (arith, longer))
              | inr (m, go, made, count) ↦
                  inr (m, rw (create_loop, e, next) go, made, omega (arith, longer))
            ]
      ]
