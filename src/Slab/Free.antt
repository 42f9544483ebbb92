-- ===== src/Slab/Free.antt =====
-- alloc and then free.
use aim_mips.Prelude.{
  ℕ, zero, suc, ◌+◌, ◌-◌, ◌*◌, ◌/◌, ◌≤◌, ◌<◌, ◌≡◌, refl, inl, inr, ltb, ◌==◌, some, arith, Bool,
  true, false, ◌||◌, ◌∙◌, ap, sym, Bool-cases, sub32, page_size, List, [], ◌∷◌, ◌++◌,
}
use native.Mathlib.Nat.{mul_comm, mul_assoc, mul-le-mul_left, mul-le-mul_right}
use aim_mips.Bitmap.Count.{count}
use aim_mips.Slab.{
  Status, AllocedPage, Simple, bit_size, status_bit, setbit, free_space, find_page, find_place,
  has_room, is_empty, holds, class_loop, alloc_in, take_space, alloc, free,
}
use aim_mips.Slab.Status.{setbit_twice}
use aim_mips.Slab.Space.{used, IsSlab, slots_lem, take_space-IsTaken}

-- None of the pages passes the test.
unfoldable pub Misses : (AllocedPage → Bool) → List AllocedPage → Type 0
Misses test [] = Unit
Misses test (a ∷ as') = (test a ≡ false) × Misses test as'

find_page_lem :
    (test : AllocedPage → Bool) (front back : List AllocedPage) (a : AllocedPage)
    → Misses test front
    → test a ≡ true
    → find_page test (front ++ (a ∷ back)) ≡ some (front, a, back)
unfolding find_page Misses
find_page_lem test [] back a m t = rw (find_page, t) refl
find_page_lem test (b ∷ front) back a m t =
    let (f, rest) = m in rw (find_page, f, find_page_lem test front back a rest t) refl

count_le : (g : ℕ → Bool) (n : ℕ) → count g n ≤ n
unfolding count
count_le g zero = omega arith
count_le g (suc n) = let e = count_le g n in ground arith

-- A page with room has an object that is not in use, and is not an empty one.
has_room_lem :
    (leap slots c : ℕ) (a : AllocedPage)
    → IsSlab leap slots a
    → has_room c a ≡ true
    → (a.size ≡ c) × (a.num < slots) × (is_empty a ≡ false)
unfolding has_room is_empty
has_room_lem leap slots c a s t =
    let size = s.size in
    let whole = s.whole in
    let num : a.num ≤ slots = let e = s.num in omega (arith, count_le (used leap a.status) slots) in
    let few = slots_lem leap slots s.whole in
    let page : slots * a.size ≡ 4096 =
      ap (λ n. slots * n) size
      ∙ mul_comm slots (16 * leap)
      ∙ mul_assoc 16 leap slots
      ∙ ap (λ n. 16 * n) whole in
    let small : a.num * a.size ≤ slots * a.size = mul-le-mul_right a.size num in
    let less : a.num * a.size < 4096 = ground arith in
    (
      ground arith,
      elim (Bool-cases (ltb a.num slots)) [
        | inl e ↦ ground arith
        | inr e ↦
            let more : slots * a.size ≤ a.num * a.size = mul-le-mul_right a.size (ground arith) in
            absurd (omega arith)
      ],
      ground arith,
    )

-- An object ends inside the page.
object-within :
    (leap slots r : ℕ) (a : AllocedPage)
    → IsSlab leap slots a
    → r < slots
    → a.size * r + a.size ≤ page_size
object-within leap slots r a s lt =
    let size = s.size in
    let whole = s.whole in
    let page : a.size * slots ≡ 4096 =
      ap (λ n. n * slots) size ∙ mul_assoc 16 leap slots ∙ ap (λ n. 16 * n) whole in
    let le : a.size * suc r ≤ a.size * slots = mul-le-mul_left a.size (omega arith) in omega arith

free_space-setbit :
    (x : Status) (p : ℕ) → status_bit (setbit x p) p ≡ true → free_space (setbit x p) p ≡ x
unfolding free_space
free_space-setbit x p t = rw (free_space, t) (setbit_twice x p)

module _ {S : Type 0} (pgalloc : S → ℕ × S) (pgfree : ℕ → S → S) where
  alloc-run :
      (size c obj : ℕ) (st : Simple S) (front back : List AllocedPage) (a a' : AllocedPage)
      → (size == 0 || ltb page_size size) ≡ false
      → class_loop 9 size ≡ some c
      → find_page (has_room c) st.pages ≡ some (front, a, back)
      → is_empty a ≡ false
      → take_space c a ≡ some (obj, a')
      → alloc pgalloc pgfree size st ≡ some (obj, record st { pages = front ++ (a' ∷ back) })
  unfolding alloc alloc_in find_place
  alloc-run size c obj st front back a a' ok class found full run =
      rw (alloc, ok, class, find_place, found, full, alloc_in, run) refl

  free-run :
      (obj num : ℕ) (st : Simple S) (front back : List AllocedPage) (a : AllocedPage) (x : Status)
      → (obj == 0) ≡ false
      → find_page (holds obj) st.pages ≡ some (front, a, back)
      → free_space a.status ((obj - a.paddr) / bit_size) ≡ x
      → sub32 a.num 1 ≡ num
      → (num == 0) ≡ false
      → free pgalloc pgfree obj st
        ≡ some (record st { pages = front ++ (record a { num = num; status = x } ∷ back) })
  unfolding free
  free-run obj num st front back a x some_obj found space less left =
      rw (free, some_obj, found, space, less, left) refl

  -- Back on the page, whose descriptor is the one from before.
  free-taken :
      (leap slots r : ℕ) (st : Simple S) (front back : List AllocedPage) (a : AllocedPage)
      → st.pages ≡ front ++ (a ∷ back)
      → IsSlab leap slots a
      → 0 < a.num
      → a.num < slots
      → a.size * r + a.size ≤ page_size
      → status_bit (setbit a.status (r * leap)) (r * leap) ≡ true
      → Misses (holds (a.paddr + a.size * r)) front
      → free pgalloc pgfree (a.paddr + a.size * r) (record st {
        pages = front ++ (record a { num = suc a.num; status = setbit a.status (r * leap) } ∷ back);
      })
        ≡ some st
  unfolding holds
  free-taken leap slots r st front back a at_pages s some_num below inside taken misses =
      let obj = a.paddr + a.size * r in
      let x = setbit a.status (r * leap) in
      let a2 = record a { num = suc a.num; status = x } in
      let st1 = record st { pages = front ++ (a2 ∷ back) } in
      let within = s.within in
      let size = s.size in
      let whole = slots_lem leap slots s.whole in
      let paged = s.paged in
      let here : holds obj a2 ≡ true = ground arith in
      let place : bit_size * (r * leap) ≡ a.size * r = sym (
        ap (λ n. n * r) size
        ∙ mul_assoc bit_size leap r
        ∙ ap (λ n. bit_size * n) (mul_comm leap r)) in
      let slot : (obj - a.paddr) / bit_size ≡ r * leap = omega arith in
      let space : free_space x ((obj - a.paddr) / bit_size) ≡ a.status =
        ap (free_space x) slot ∙ free_space-setbit a.status (r * leap) taken in
      free-run obj a.num st1 front back a2 a.status (ground arith)
        (find_page_lem (holds obj) front back a2 misses here) space (omega arith) (ground arith)
      ∙ (let back_again = sym at_pages in λ i. some (record st { pages = back_again i }))

  -- For a size that is neither 0 nor above a page: where the first page with room for its class has an exact
  -- descriptor and an object in use, and no page before it holds its addresses, alloc answers an object
  -- inside that page, and free of the object restores the allocator's state, the bytes of `status` included.
  pub free-alloc_object :
      (size c leap slots : ℕ) (st : Simple S) (front back : List AllocedPage) (a : AllocedPage)
      → 0 < size
      → size ≤ page_size
      → class_loop 9 size ≡ some c
      → st.pages ≡ front ++ (a ∷ back)
      → Misses (has_room c) front
      → has_room c a ≡ true
      → IsSlab leap slots a
      → 0 < a.num
      → ((obj : ℕ) → holds obj a ≡ true → Misses (holds obj) front)
      → (obj : ℕ) × (st1 : Simple S) × (a.paddr ≤ obj)
        × (obj + c ≤ a.paddr + page_size)
        × (alloc pgalloc pgfree size st ≡ some (obj, st1))
        × (free pgalloc pgfree obj st1 ≡ some st)
  unfolding holds
  free-alloc_object size c leap slots st front back a some_size le class at_pages misses room s
        some_num apart =
      let (same, below, full) = has_room_lem leap slots c a s room in
      let (r, a', lt, run, took, s') = take_space-IsTaken leap slots a s below in
      let obj = a.paddr + a.size * r in
      let ok : (size == 0 || ltb page_size size) ≡ false = ground arith in
      let found : find_page (has_room c) st.pages ≡ some (front, a, back) =
        ap (find_page (has_room c)) at_pages
        ∙ find_page_lem (has_room c) front back a misses room in
      let st1 = record st { pages = front ++ (a' ∷ back) } in
      let allocated : alloc pgalloc pgfree size st ≡ some (obj, st1) =
        alloc-run size c obj st front back a a' ok class found full
          (ap (λ n. take_space n a) (sym same) ∙ run) in
      let size_lem = s.size in
      let a2 = record a { num = suc a.num; status = setbit a.status (r * leap) } in
      let inside : a.size * r + a.size ≤ page_size = object-within leap slots r a s lt in
      let within = s.within in
      let here : holds obj a ≡ true =
        let some_leap = slots_lem leap slots s.whole in ground arith in
      (
        obj,
        record st { pages = front ++ (a2 ∷ back) },
        omega arith,
        omega arith,
        allocated ∙ (λ i. some (obj, record st { pages = front ++ (took.page i ∷ back) })),
        free-taken leap slots r st front back a at_pages s some_num below inside
            (ap (λ (b : AllocedPage). status_bit b.status (r * leap)) (sym took.page) ∙ took.taken)
            (apart obj here),
      )
