-- ===== src/Uvm/Release.antt =====
-- The rollback of create_uvm, which is also what destroy_uvm does.
use aim_mips.Prelude.{
  ℕ, ◌+◌, ◌*◌, ◌^◌, ◌<◌, ◌≡◌, ◌≢◌, ◌⊎◌, inl, inr, refl, sym, ap, ◌∙◌, true, false, ◌&&◌, ◌==◌, ltb,
  none, some, List, [], ◌∷◌, ◌++◌, arith, Bool-cases, page_size, add32, sub32, length,
}
use aim_mips.Uvm.Calls.{Kernel}
use aim_mips.Uvm.{Vma, is_pos, unref_and_free_upages, drop_vma, unmap_and_free_vma}
use aim_mips.Uvm.Laws.{
  Seen, more_objects, less_objects, more_bytes, less_bytes, map_page, IsCounted, entered,
  entered_all, IsPage, IsRun, IsFree, IsShort, seen_ext,
}

-- Areas at different pages are entered in either order.
entered_comm :
    (pg : ℕ) (v w : Vma) (o : Seen)
    → v.start ≢ w.start
    → entered pg w (entered pg v o) ≡ entered pg v (entered pg w o)
unfolding entered map_page more_bytes more_objects
entered_comm pg v w o ne =
    seen_ext (entered pg w (entered pg v o)) (entered pg v (entered pg w o)) refl refl
      λ p x. ground arith

-- An area below a run is entered before or after it.
pub entered_all_comm :
    (pg va : ℕ) (v : Vma) (vs : List Vma) (o : Seen)
    → v.start < va
    → IsRun va vs
    → entered_all pg vs (entered pg v o) ≡ entered pg v (entered_all pg vs o)
unfolding entered_all IsRun
entered_all_comm pg va v [] o lt r = refl
entered_all_comm pg va v (w ∷ vs) o lt r =
    let (h, rest) = r in
    let ne : v.start ≢ w.start = λ e. let st = h.start in omega arith in
    ap (entered_all pg vs) (entered_comm pg v w o ne)
    ∙ entered_all_comm pg (va + page_size) v vs (entered pg w o) (omega arith) rest

-- A run maps nothing below its start.
entered_all-page :
    (pg va x : ℕ) (vs : List Vma) (o : Seen)
    → x < va
    → IsRun va vs
    → (entered_all pg vs o).page pg x ≡ o.page pg x
unfolding entered_all IsRun entered map_page more_bytes more_objects
entered_all-page pg va x [] o lt r = refl
entered_all-page pg va x (w ∷ vs) o lt r =
    let (h, rest) = r in
    entered_all-page pg (va + page_size) x vs (entered pg w o) (omega arith) rest
    ∙ (let st = h.start in ground arith)

-- What unmapping an area and freeing what it holds does.
released : ℕ → ℕ → Seen → Seen
released pg va o = less_objects (less_objects (less_bytes page_size (map_page pg va none o)))

released-entered :
    (pg : ℕ) (v : Vma) (o : Seen)
    → o.page pg v.start ≡ none
    → released pg v.start (entered pg v o) ≡ o
unfolding released less_objects less_bytes map_page entered more_bytes more_objects
released-entered pg v o free =
    seen_ext (released pg v.start (entered pg v o)) o (omega arith) (omega arith) λ p x.
      elim (Bool-cases (p == pg && x == v.start)) [
        | inl e ↦
            let ep : p ≡ pg = ground arith in
            let ex : x ≡ v.start = ground arith in
            rw e (sym (ap (λ q. o.page q x) ep ∙ ap (o.page pg) ex ∙ free))
        | inr e ↦ rw e refl
      ]

module _ {S : Type 0} (k : Kernel S) (seen : S → Seen) (laws : IsCounted k seen) where
  drop_vma-seen :
      (va : ℕ) (v : Vma) (s : S)
      → IsPage va v
      → seen (drop_vma k v s) ≡ less_objects (less_objects (less_bytes page_size (seen s)))
  unfolding drop_vma unref_and_free_upages
  drop_vma-seen va v s h =
      let last : (sub32 v.pages.refs 1 == 0) ≡ true = let r = h.refs in ground arith in
      let s1 = k.free_pages v.pages.paddr v.pages.size s in
      let s2 = k.kfree v.pages.self s1 in
      rw (drop_vma, unref_and_free_upages, last)
        (laws.kfree v.self s2
          ∙ ap less_objects (
              laws.kfree v.pages.self s1
              ∙ ap less_objects (
                  laws.free_pages v.pages.paddr v.pages.size s
                  ∙ ap (λ n. less_bytes n (seen s)) h.held)))

  -- The entry that an area has when it has just been entered.
  entered-here :
      (pg va : ℕ) (v : Vma) (o : Seen)
      → IsPage va v
      → (entered pg v o).page pg v.start ≡ some (v.pages.paddr, v.flags)
  unfolding entered map_page more_bytes more_objects
  entered-here pg va v o h = ground arith

  -- What is left once the first area is unmapped and dropped.
  left_over :
      (pg va : ℕ) (v : Vma) (vs : List Vma) (o : Seen) (s : S)
      → IsPage va v
      → IsRun (va + page_size) vs
      → IsFree pg va (length (v ∷ vs) * page_size) o
      → seen s ≡ entered pg v (entered_all pg vs o)
      → seen (drop_vma k v ((k.unmap_pages pg v.start page_size s).2)) ≡ entered_all pg vs o
  left_over pg va v vs o s h rest free here =
      let begins = h.start in
      let after = entered_all pg vs o in
      let s1 = (k.unmap_pages pg v.start page_size s).2 in
      let unmapped : after.page pg v.start ≡ none =
        entered_all-page pg (va + page_size) v.start vs o (omega arith) rest
        ∙ free v.start (omega arith) (omega arith) in
      drop_vma-seen va v s1 h
      ∙ ap (λ x. less_objects (less_objects (less_bytes page_size x)))
          (laws.unmap pg v.start s ∙ ap (map_page pg v.start none) here)
      ∙ unfold released in (released-entered pg v after unmapped)

  -- One turn of the loop.
  turn :
      (pg i size j : ℕ) (v : Vma) (vs : List Vma) (s : S)
      → ltb i size ≡ true
      → v.size ≡ page_size
      → is_pos ((k.unmap_pages pg v.start page_size s).0) page_size ≡ true
      → add32 i v.size ≡ j
      → unmap_and_free_vma k pg i size (v ∷ vs) s
        ≡ unmap_and_free_vma k pg j size vs
            (drop_vma k v ((k.unmap_pages pg v.start page_size s).2))
  unfolding unmap_and_free_vma
  turn pg i size j v vs s more full fits next =
      let whole : is_pos ((k.unmap_pages pg v.start v.size s).0) v.size ≡ true =
        ap (λ n. is_pos ((k.unmap_pages pg v.start n s).0) n) full ∙ fits in
      rw (unmap_and_free_vma, more, whole, next)
        (ap
          (λ n. unmap_and_free_vma k pg j size vs (drop_vma k v ((k.unmap_pages pg v.start n s).2)))
          full)

  -- A turn in which the assertion fails.
  stuck_turn :
      (pg i size : ℕ) (v : Vma) (vs : List Vma) (s : S)
      → ltb i size ≡ true
      → v.size ≡ page_size
      → is_pos ((k.unmap_pages pg v.start page_size s).0) page_size ≡ false
      → unmap_and_free_vma k pg i size (v ∷ vs) s ≡ none
  unfolding unmap_and_free_vma
  stuck_turn pg i size v vs s more full short =
      let part : is_pos ((k.unmap_pages pg v.start v.size s).0) v.size ≡ false =
        ap (λ n. is_pos ((k.unmap_pages pg v.start n s).0) n) full ∙ short in
      rw (unmap_and_free_vma, more, part) refl

  -- `__unmap_and_free_vma` on a run that is mapped gives everything back that entering it had taken, unless
  -- its assertion fails.
  pub unmap_and_free_vma-seen :
      (pg va i size : ℕ) (vs back : List Vma) (o : Seen) (s : S)
      → IsRun va vs
      → IsFree pg va (length vs * page_size) o
      → size ≡ i + length vs * page_size
      → size < 2 ^ 32
      → seen s ≡ entered_all pg vs o
      → ((s1 : S) × (unmap_and_free_vma k pg i size (vs ++ back) s ≡ some (back, s1))
          × (seen s1 ≡ o))
        ⊎ ((unmap_and_free_vma k pg i size (vs ++ back) s ≡ none) × IsShort k seen pg va)
  unfolding unmap_and_free_vma entered_all IsRun
  unmap_and_free_vma-seen pg va i size [] [] o s r free e lt st =
      let done : ltb i size ≡ false = ground arith in
      inl (s, rw (unmap_and_free_vma, done) refl, st)
  unmap_and_free_vma-seen pg va i size [] (w ∷ back) o s r free e lt st =
      let done : ltb i size ≡ false = ground arith in
      inl (s, rw (unmap_and_free_vma, done) refl, st)
  unmap_and_free_vma-seen pg va i size (v ∷ vs) back o s r free e lt st =
      let (h, rest) = r in
      let more : ltb i size ≡ true = ground arith in
      let begins = h.start in
      let after = entered_all pg vs o in
      let here : seen s ≡ entered pg v after =
        st ∙ entered_all_comm pg (va + page_size) v vs o (omega arith) rest in
      let mapped : (seen s).page pg v.start ≡ some (v.pages.paddr, v.flags) =
        ap (λ (x : Seen). x.page pg v.start) here ∙ entered-here pg va v after h in
      elim (Bool-cases (is_pos ((k.unmap_pages pg v.start page_size s).0) page_size)) [
        | inr short ↦ inr (
          stuck_turn pg i size v (vs ++ back) s more h.size short,
          record {
            va = v.start;
            above = omega arith;
            state = s;
            entry = (v.pages.paddr, v.flags);
            mapped = mapped;
            short = short;
          },
        )
        | inl fits ↦
            let s1 = (k.unmap_pages pg v.start page_size s).2 in
            let next : add32 i v.size ≡ i + page_size = let z = h.size in omega arith in
            let step = turn pg i size (i + page_size) v (vs ++ back) s more h.size fits next in
            let gone = left_over pg va v vs o s h rest free here in
            elim (unmap_and_free_vma-seen pg (va + page_size) (i + page_size) size vs back o
              (drop_vma k v s1) rest (λ x p q. free x (omega arith) (omega arith)) (omega arith) lt
              gone) [
                | inl (s3, go, end) ↦ inl (s3, step ∙ go, end)
                | inr (go, short) ↦ inr (
                  step ∙ go,
                  record {
                    va = short.va;
                    above = let l = short.above in omega arith;
                    state = short.state;
                    entry = short.entry;
                    mapped = short.mapped;
                    short = short.short;
                  },
                )
              ]
      ]
