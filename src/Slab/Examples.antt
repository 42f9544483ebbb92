-- ===== src/Slab/Examples.antt =====
-- Tests of the allocator of small objects, with a page allocator that counts pages up.
use aim_mips.Prelude.Bits.{bit}
use aim_mips.Prelude.Bits.{bit}
use aim_mips.Pmm.Memory.{pa2kva}
use aim_mips.Slab.{
  fri_size, find_place, find_page, new_plain_page, alloc_new, alloc_in, get_space, space_loop,
  status_bit, fresh_page, has_room, is_empty, is_self, status_bit, AllocedPage, Simple, alloc, free,
  get_plain_object, simple_alloc, simple_allocator_init, setbit, class_loop, take_space,
}
use aim_mips.Prelude.{
  ℕ, ◌+◌, ◌*◌, ◌≤◌, ◌<◌, ◌≡◌, ◌≢◌, refl, some, none, Option, arith, [], ◌∷◌, page_size,
}
use aim_mips.Bitmap.Count.{count}
use aim_mips.Slab.Class.{IsClass, class_loop-IsClass}
use aim_mips.Slab.Space.{IsSlab, IsTaken, take_space-IsTaken}
use aim_mips.Slab.Plain.{get_plain_object-twice}
use aim_mips.Slab.Free.{Misses, free-alloc_object}

-- The state is the next page to hand out.
abbrev next_page : ℕ → ℕ × ℕ
next_page n = (n, n + 4096)

abbrev keep_pages : ℕ → ℕ → ℕ
keep_pages pa n = n

abbrev booted : Simple ℕ
booted = simple_allocator_init next_page keep_pages 0x1000

abbrev answer : Option (ℕ × Simple ℕ) → Option ℕ
answer none = none
answer (some (p, st)) = some p

abbrev then_alloc : ℕ → Option (ℕ × Simple ℕ) → Option (ℕ × Simple ℕ)
then_alloc size none = none
then_alloc size (some (p, st)) = alloc next_page keep_pages size st

first_object : answer (alloc next_page keep_pages 24 booted) ≡ some 0x8000_2000
unfolding alloc class_loop fri_size find_place find_page simple_allocator_init new_plain_page
    alloc_new pa2kva get_plain_object alloc_in take_space get_space space_loop status_bit bit
    fresh_page has_room is_empty is_self setbit
first_object = refl

second_object : answer (then_alloc 30 (alloc next_page keep_pages 24 booted)) ≡ some 0x8000_2020
unfolding alloc class_loop fri_size find_place find_page simple_allocator_init new_plain_page
    alloc_new pa2kva get_plain_object alloc_in take_space get_space space_loop status_bit bit
    fresh_page has_room is_empty is_self setbit
second_object = refl

other_class : answer (then_alloc 100 (alloc next_page keep_pages 24 booted)) ≡ some 0x8000_3000
unfolding alloc class_loop fri_size find_place find_page simple_allocator_init new_plain_page
    alloc_new pa2kva get_plain_object alloc_in take_space get_space space_loop status_bit bit
    fresh_page has_room is_empty is_self setbit
other_class = refl

too_large : answer (alloc next_page keep_pages 4097 booted) ≡ some 0
unfolding alloc
too_large = refl

early_full : simple_alloc 0x1000 0x100 0x10f0 0x11 ≡ (0, 0x10f0)
unfolding simple_alloc
early_full = refl

-- A page of 32 byte objects, the first two in use.
abbrev two_used : AllocedPage
two_used = record {
  self = 0x8000_1000;
  paddr = 0x8000_2000;
  size = 32;
  num = 2;
  status = setbit (setbit (λ i. 0) 0) 2;
}

abbrev one_page : Simple ℕ
one_page = record {
  pages = two_used ∷ [];
  now_plain_page = 0x8000_1000;
  offset = 52;
  kernel = 0x3000;
}

two_used-IsSlab : IsSlab 2 128 two_used
unfolding count status_bit bit setbit
two_used-IsSlab = record {
  whole = refl;
  size = refl;
  num = refl;
  within = omega arith;
  paged = omega arith;
}

class_loop-IsClass_example : (c : ℕ) × (class_loop 9 24 ≡ some c) × IsClass 24 c
class_loop-IsClass_example = class_loop-IsClass 24 (omega arith)

take_space-IsTaken_example :
    (r : ℕ) × (a' : AllocedPage) × (r < 128)
    × (take_space 32 two_used ≡ some (0x8000_2000 + 32 * r, a'))
    × IsTaken 2 r two_used a'
    × IsSlab 2 128 a'
take_space-IsTaken_example = take_space-IsTaken 2 128 two_used two_used-IsSlab (omega arith)

free-alloc_object_example :
    (obj : ℕ) × (st1 : Simple ℕ) × (0x8000_2000 ≤ obj)
    × (obj + 32 ≤ 0x8000_2000 + page_size)
    × (alloc next_page keep_pages 24 one_page ≡ some (obj, st1))
    × (free next_page keep_pages obj st1 ≡ some one_page)
unfolding class_loop fri_size Misses has_room
free-alloc_object_example =
    free-alloc_object next_page keep_pages 24 32 2 128 one_page [] [] two_used (omega arith)
      (omega arith) refl refl tt refl two_used-IsSlab (omega arith) (λ obj h. tt)

some_page : pa2kva 0x3000 ≢ 0
unfolding pa2kva
some_page e = absurd (omega arith)

get_plain_object-twice_example :
    (st1 st2 : Simple ℕ) × (get_plain_object next_page keep_pages 52
        (record one_page { offset = 4056 })
      ≡ some (pa2kva 0x3000, st1))
    × (get_plain_object next_page keep_pages 52 st1 ≡ some (pa2kva 0x3000, st2))
get_plain_object-twice_example =
    get_plain_object-twice next_page keep_pages 52 52 0x3000 (record one_page { offset = 4056 })
      (omega arith) (omega arith) (omega arith) refl (omega arith) some_page
