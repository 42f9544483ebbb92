-- ===== src/Kmmap.antt =====
-- The early mapping queue, kern/mm/kmmap/early_kmmap.c. The array `queue` up to `queue_size` is the
-- list of its entries; pointers and `size_t` have 32 bits. The bases are the defaults of configure.ac.
pub mod Add
pub mod Layout
pub mod Walk
mod Examples
use aim_mips.Prelude.{
  ℕ, ◌+◌, ◌-◌, ◌%◌, ◌^◌, Bool, true, Option, none, some, List, [], ◌∷◌, ◌++◌, leb, ltb, ◌==◌, ◌&&◌,
  ◌||◌, not, if◌then◌else◌, ℤ, success, enomem, einval, is_neg, add32, length,
}

abbrev pub early_mapping_queue_length : ℕ
early_mapping_queue_length = 10

abbrev pub kern_base : ℕ
kern_base = 0x8000_0000

abbrev pub kmmap_base : ℕ
kmmap_base = 0xf000_0000

abbrev pub reserved_base : ℕ
reserved_base = 0xffff_f000

abbrev pub usertop : ℕ
usertop = 0x7ff0_0000

-- `EARLY_MAPPING_MEMORY` and the other kinds of include/aim/early_kmmap.h.
pub data Kind : Type 0 where
  memory kmmap temp other : Kind

-- `struct early_mapping`
pub record Mapping : Type 0 where
  pub paddr : ℕ
  pub vaddr : ℕ
  pub size : ℕ
  pub kind : Kind

pub record Queue : Type 0 where
  pub entries : List Mapping
  pub mem_top : ℕ
  pub kmmap_top : ℕ
  pub umem_top : ℕ

pub early_mapping_clear : Queue
early_mapping_clear = record {
  entries = [];
  mem_top = kern_base;
  kmmap_top = kmmap_base;
  umem_top = 0;
}

-- `OVERLAP` of include/util.h on pointers.
pub overlap : ℕ → ℕ → ℕ → ℕ → Bool
overlap st1 len1 st2 len2 =
    (ltb st2 st1 && ltb st1 (add32 st2 len2)) || (ltb st1 st2 && ltb st2 (add32 st1 len1))

-- `early_mapping_valid` of kern/arch/mips/arch_mmu.c and kern/arch/i386/arch_mmu.c.
pub early_mapping_valid : Mapping → Bool
early_mapping_valid entry = true

pub overlaps_any : Mapping → List Mapping → Bool
unfolding overlap
overlaps_any entry [] = Bool.false
overlaps_any entry (q ∷ rest) =
    overlap entry.vaddr entry.size q.vaddr q.size || overlaps_any entry rest

-- `none` is the failed assertion on `queue_size`.
pub early_mapping_add : Mapping → Queue → Option (ℤ × Queue)
unfolding early_mapping_valid
early_mapping_add entry q =
    if not (leb (length q.entries) early_mapping_queue_length)
    then none
    else if length q.entries == early_mapping_queue_length
    then some (enomem, q)
    else if not (early_mapping_valid entry)
    then some (einval, q)
    else if overlaps_any entry q.entries
    then some (einval, q)
    else some (success, record q { entries = q.entries ++ entry ∷ [] })

-- What an `early_mapping_add_…` function does with the answer: `done` on success, and 0 with the
-- queue that the call leaves otherwise.
abbrev pub after_add : Option (ℤ × Queue) → (Queue → ℕ × Queue) → Option (ℕ × Queue)
after_add none done = none
after_add (some (code, q)) done = some (if is_neg code then (0, q) else done q)

pub early_mapping_add_memory : ℕ → ℕ → Queue → Option (ℕ × Queue)
early_mapping_add_memory base size q =
    let cut = if ltb (kmmap_base - q.mem_top) size then kmmap_base - q.mem_top else size in
    let entry : Mapping = record {
      paddr = base;
      vaddr = q.mem_top;
      size = cut;
      kind = Kind.memory;
    } in
    if leb kmmap_base q.mem_top
    then some (0, q)
    else after_add (early_mapping_add entry q)
        (λ q'. (cut, record q' { mem_top = add32 q'.mem_top cut }))

-- 0 is `NULL`.
pub early_mapping_add_kmmap : ℕ → ℕ → Queue → Option (ℕ × Queue)
early_mapping_add_kmmap base size q =
    let entry : Mapping = record {
      paddr = base;
      vaddr = q.kmmap_top;
      size = size;
      kind = Kind.kmmap;
    } in
    if leb reserved_base q.kmmap_top || ltb (reserved_base - q.kmmap_top) size
    then some (0, q)
    else after_add (early_mapping_add entry q)
        (λ q'. (q.kmmap_top, record q' { kmmap_top = add32 q'.kmmap_top size }))

pub early_mapping_add_umem : ℕ → ℕ → Queue → Option (ℕ × Queue)
early_mapping_add_umem base size q =
    let cut = if ltb (kern_base - q.umem_top) size then kern_base - q.umem_top else size in
    let entry : Mapping = record {
      paddr = base;
      vaddr = q.umem_top;
      size = cut;
      kind = Kind.memory;
    } in
    if leb usertop q.umem_top
    then some (0, q)
    else after_add (early_mapping_add entry q)
        (λ q'. (cut, record q' { umem_top = add32 q'.umem_top cut }))

pub early_mapping_add_devspace : ℕ → ℕ → Queue → Option (ℕ × Queue)
early_mapping_add_devspace base size q =
    let entry : Mapping = record {
      paddr = base;
      vaddr = base % 2 ^ 32;
      size = size;
      kind = Kind.kmmap;
    } in
    after_add (early_mapping_add entry q) (λ q'. (size, q'))

-- The iterator, a pointer into `queue` being an index: from `NULL` to the first entry, and from
-- an entry to the next.
pub early_mapping_next : Option ℕ → Queue → Option ℕ
early_mapping_next base q =
    let next : ℕ = elim base [ none ↦ 0 | some i ↦ i + 1 ] in
    if leb (length q.entries) next then none else some next
