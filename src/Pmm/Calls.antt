-- ===== src/Pmm/Calls.antt =====
-- kern/mm/pmm/pmm.c: the calls of the page allocator that is registered, with what they do to
-- memory. `none` is a panic or a loop that never ends.
pub mod Align
pub mod Aligned
mod Examples
use Prim.Native.Nat.{bit_and, bit_or}
use aim_mips.Prelude.{
  ℕ, ◌+◌, ◌-◌, ◌%◌, Bool, Option, none, some, ltb, ◌==◌, if◌then◌else◌, ℤ, eof, success, is_neg,
  add64, sub64, page_size, not,
}
use aim_mips.Pmm.Blocks
use aim_mips.Pmm.Blocks.{Pages, Pool, Allocated}
use aim_mips.Pmm.Memory.{Memory, pmemset}

-- `struct page_allocator`, over a state of the allocator's own.
pub record PageAllocator (S : Type 0) : Type 0 where
  pub alloc : Pages → S → ℤ × Pages × S
  pub free : Pages → S → Option S
  pub get_free : S → ℕ

-- The dummies that are registered first.
abbrev pub dummy : (S : Type 0) → PageAllocator S
dummy S = record { alloc = λ pages s. (eof, pages, s); free = λ pages s. some s; get_free = λ s. 0 }

-- The allocator of palloc.c; `node` says whether `kmalloc` gives nodes.
abbrev pub palloc : Bool → PageAllocator Pool
palloc node = record {
  alloc = λ pages pool. let r = Blocks.alloc pages pool in (r.code, r.pages, r.pool);
  free = Blocks.free node;
  get_free = Blocks.get_free;
}

-- What the calls work on: the allocator's state, and memory.
pub record Machine (S : Type 0) : Type 0 where
  pub store : S
  pub memory : Memory

-- A call's code, its pages argument and the machine afterwards.
pub record Outcome (S : Type 0) : Type 0 where
  pub code : ℤ
  pub pages : Pages
  pub machine : Machine S

abbrev pub gfp_unsafe : ℕ
gfp_unsafe = 1

abbrev pub gfp_zero : ℕ
gfp_zero = 2

abbrev pub junkbyte : ℕ
junkbyte = 0x20

-- `x & flag` as a condition.
abbrev pub has : ℕ → ℕ → Bool
has flags flag = not (bit_and flags flag == 0)

infixl 5 ◌>>=◌
abbrev pub ◌>>=◌ : {A B : Type 0} → Option A → (A → Option B) → Option B
none >>= f = none
some a >>= f = f a

-- `ALIGN_ABOVE` of include/util.h on 64 bits.
pub align_above : ℕ → ℕ → ℕ
align_above x a = add64 (bit_or (sub64 x 1) (sub64 a 1)) 1

module _ {S : Type 0} (allocator : PageAllocator S) where
  pub alloc_pages : Pages → Machine S → Option (Outcome S)
  alloc_pages pages m =
      let (code, got, store) = allocator.alloc pages m.store in
      do
        memory ←
            (if has got.flags gfp_zero
              then pmemset got.paddr 0 got.size m.memory
              else some m.memory)
        some (record {
          code = code;
          pages = got;
          machine = record { store = store; memory = memory };
        })

  pub free_pages : Pages → Machine S → Option (Machine S)
  free_pages pages m = do
    memory ←
        (if has pages.flags gfp_unsafe
          then some m.memory
          else pmemset pages.paddr junkbyte pages.size m.memory)
    store ← allocator.free pages m.store
    some (record { store = store; memory = memory })

  pub get_free_memory : Machine S → ℕ
  get_free_memory m = allocator.get_free m.store

  -- The padding from `from` up to `to`, freed if there is any.
  pub free_padding : ℕ → ℕ → ℕ → Machine S → Option (Machine S)
  unfolding free_pages
  free_padding flags from to m =
      if ltb from to
      then free_pages (record { paddr = from; size = sub64 to from; flags = flags }) m
      else some m

  pub alloc_aligned_pages : Pages → ℕ → Machine S → Option (Outcome S)
  alloc_aligned_pages pages align m = do
    buf ← alloc_pages (record pages { size = sub64 (add64 pages.size align) page_size }) m
    let start = align_above buf.pages.paddr align
    let out = record pages { paddr = start }
    if is_neg buf.code then some (record buf { pages = pages }) else (do
      m ← free_padding buf.pages.flags buf.pages.paddr start buf.machine
      m ←
          free_padding buf.pages.flags (add64 start pages.size)
            (add64 buf.pages.paddr buf.pages.size) m
      some (record { code = success; pages = out; machine = m }))
