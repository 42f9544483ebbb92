-- ===== src/Uvm/Examples.antt =====
-- A kernel whose state is a count of its calls, with room for `room` bytes of pages.
use aim_mips.Uvm.{
  continues, find_start, last_end, split_at, Vma, Mm, find_vma_before, find_continuous_vma,
}
use aim_mips.Prelude.{
  ℕ, suc, ◌+◌, ◌≡◌, refl, leb, if◌then◌else◌, none, some, [], ◌∷◌, arith, ℤ, pos, success, efault,
  einval,
}
use aim_mips.Uvm.Calls.{Kernel}
use aim_mips.Uvm.Operations.{create_uvm, set_uvm_perm}
use aim_mips.Uvm.Laws.{Seen, more_objects, less_objects, more_bytes, less_bytes, map_page}
use aim_mips.Uvm.Permitted.{set_uvm_perm-set_flags}

abbrev room : ℕ
room = 0x10_0000

abbrev plain : Kernel Seen
plain = record {
  kmalloc = λ x s. some (suc s.objects, more_objects s);
  kfree = λ p s. less_objects s;
  alloc_pages = λ n s. if leb (s.bytes + n) room then some (s.bytes, more_bytes n s) else none;
  free_pages = λ pa n s. less_bytes n s;
  init_pgindex = λ s. some (7, s);
  destroy_pgindex = λ pg s. s;
  map_pages = λ pg va pa size flags s. (success, map_page pg va (some (pa, flags)) s);
  unmap_pages = λ pg va size s. elim (s.page pg va) [
    | none ↦ (pos 0, 0, s)
    | some (pa, flags) ↦ (pos size, pa, map_page pg va none s)
  ];
  set_pages_perm = λ pg va size flags s. (success, s);
  copy_page = λ dst src size s. s;
}

-- The areas of a page at 0x1000 and at 0x5000, and a page for each.
abbrev area : ℕ → ℕ → ℕ → ℕ → Vma
area self start paddr flags = record {
  self = self;
  start = start;
  size = 4096;
  flags = flags;
  pages = record { self = suc self; paddr = paddr; size = 4096; flags = 0; refs = 1 };
}

abbrev two : Mm
two = record {
  self = 100;
  vmas = area 1 0x1000 0x0000 1 ∷ area 3 0x5000 0x1000 1 ∷ [];
  vma_count = 0;
  pgindex = 7;
}

abbrev start : Seen
start = record { objects = 4; bytes = 0x2000; page = λ p v. none }

-- The count before the first call.
abbrev no_calls : Seen
no_calls = record { objects = 0; bytes = 0; page = λ p v. none }

abbrev grown : Mm
grown = record two {
  vmas =
      area 1 0x1000 0x0000 1
      ∷ area 5 0x2000 0x2000 3
      ∷ area 7 0x3000 0x3000 3
      ∷ area 3 0x5000 0x1000 1
      ∷ [];
}

abbrev one_page : ℕ → ℕ → Seen → Seen
one_page va pa s = map_page 7 va (some (pa, 3)) (more_bytes 4096 (more_objects (more_objects s)))

set_uvm_perm-set_flags_example :
    (code : ℤ) × (s1 : Seen) × (set_uvm_perm plain 0 (some grown) 0x2000 0x2000 5 start
      ≡ some (
        code,
        some (record grown {
          vmas =
              area 1 0x1000 0x0000 1
              ∷ area 5 0x2000 0x2000 5
              ∷ area 7 0x3000 0x3000 3
              ∷ area 3 0x5000 0x1000 1
              ∷ [];
        }),
        s1,
      ))
unfolding find_continuous_vma find_start continues
set_uvm_perm-set_flags_example =
    set_uvm_perm-set_flags plain 0 grown 0x2000 0x2000 5 (area 1 0x1000 0x0000 1 ∷ [])
      (area 7 0x3000 0x3000 3 ∷ area 3 0x5000 0x1000 1 ∷ []) (area 5 0x2000 0x2000 3) start refl
      refl (omega arith) refl

-- An area that overlaps, and a region that no page is left for.
create_errors :
    (create_uvm plain 0 (some two) 0x4000 0x2000 3 start ≡ some (efault, some two, start))
    × (create_uvm plain 0 (some two) 0x2001 0x2000 3 start ≡ some (einval, some two, start))
    × (create_uvm plain 0x3000 (some two) 0 0x1000 3 start ≡ some (efault, some two, start))
unfolding create_uvm find_vma_before last_end split_at
create_errors = (refl, refl, refl)
