-- ===== src/Slab/Plain.antt =====
-- The memory that the descriptors are taken from.
use aim_mips.Prelude.{
  ℕ, ◌+◌, ◌-◌, ◌^◌, ◌≤◌, ◌<◌, ◌≡◌, ◌≢◌, refl, ltb, leb, ◌==◌, some, arith, true, false, page_size,
  add32,
}
use aim_mips.Pmm.Memory.{pa2kva}
use aim_mips.Slab.{Simple, new_plain_page, get_plain_object}

module _ {S : Type 0} (pgalloc : S → ℕ × S) (pgfree : ℕ → S → S) where
  -- An object, at most a page long, that does not fit in what is left, where pgalloc answers a page that has
  -- a kernel address: it is the start of that page, and so is the next object up to a page long.
  pub get_plain_object-twice :
      (size again pa : ℕ) (st : Simple S)
      → size ≤ page_size
      → again ≤ page_size
      → page_size < st.offset + size
      → (pgalloc st.kernel).0 ≡ pa
      → pa < 2 ^ 32
      → pa2kva pa ≢ 0
      → (st1 st2 : Simple S) × (get_plain_object pgalloc pgfree size st ≡ some (pa2kva pa, st1))
        × (get_plain_object pgalloc pgfree again st1 ≡ some (pa2kva pa, st2))
  unfolding get_plain_object new_plain_page pa2kva
  get_plain_object-twice size again pa st le le2 full got small some_page =
      let fits : ltb page_size size ≡ false = ground arith in
      let fits2 : ltb page_size again ≡ false = ground arith in
      let no_room : leb (st.offset + size) page_size ≡ false = ground arith in
      let room : leb (0 + again) page_size ≡ true = ground arith in
      let answered : (pa == 2 ^ 64 - 1) ≡ false = ground arith in
      let page : (pa2kva pa == 0) ≡ false = ground arith in
      let here : add32 (pa2kva pa) 0 ≡ pa2kva pa = omega arith in
      let st1 = record st {
        now_plain_page = pa2kva pa;
        offset = 0;
        kernel = (pgalloc st.kernel).1;
      } in
      (
        st1,
        record st1 { offset = 0 + again },
        rw (get_plain_object, new_plain_page, fits, no_room, got, answered, page) refl,
        rw (get_plain_object, fits2, room) (λ i. some (here i, record st1 { offset = 0 + again })),
      )
