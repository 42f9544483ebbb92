-- ===== src/Slab.antt =====
-- kern/mm/vmm/simple.c: the allocator of small objects that kmalloc and kfree of kern/mm/vmm/vmm.c call,
-- and the bump allocator that stands in for it while the kernel boots. The list of descriptors between
-- `head` and `tail` is the list of its nodes. The page allocator is an argument: `pgalloc` answers the
-- address of a page, or `(addr_t)-1`. A panic is `none`, and so is a descriptor given out twice, with
-- which the list would run into itself.
pub mod Class
pub mod Status
pub mod Space
pub mod Plain
pub mod Free
pub mod Vmm
mod Examples
use Prim.Native.Nat.{bit_xor}
use aim_mips.Prelude.{
  ℕ, zero, suc, ◌+◌, ◌-◌, ◌*◌, ◌/◌, ◌%◌, ◌^◌, Bool, not, ◌&&◌, ◌||◌, ltb, leb, ◌==◌, if◌then◌else◌,
  Option, none, some, List, [], ◌∷◌, ◌++◌, add32, sub32, page_size,
}
use aim_mips.Pmm.Memory.{kern_base, pa2kva}
use aim_mips.Prelude.Bits.{bit}

-- The 32 bytes of `status`.
abbrev pub Status : Type 0
Status = ℕ → ℕ

-- struct alloced_page at the address `self`; `num` is an int, kept as its word.
pub record AllocedPage : Type 0 where
  pub self : ℕ
  pub paddr : ℕ
  pub size : ℕ
  pub num : ℕ
  pub status : Status

-- `pages` is what stands from `head->next` to `tail`; `kernel` is the state of the page allocator.
pub record Simple (S : Type 0) : Type 0 where
  pub pages : List AllocedPage
  pub now_plain_page : ℕ
  pub offset : ℕ
  pub kernel : S

abbrev pub bit_size : ℕ
bit_size = 16

abbrev pub pg_empty : ℕ
pg_empty = 0x7ffff

-- sizeof(struct alloced_page)
abbrev pub sizeof_alloced_page : ℕ
sizeof_alloced_page = 52

unfoldable pub kva2pa : ℕ → ℕ
kva2pa kva = sub32 kva kern_base

-- The bump allocator: `top`, against the region from `bottom` on.
unfoldable pub simple_alloc : ℕ → ℕ → ℕ → ℕ → ℕ × ℕ
simple_alloc bottom ssize top size =
    if ltb (add32 bottom ssize) (add32 top size) then (0, top) else (top, add32 top size)

-- `fri_size[ii]`
unfoldable pub fri_size : ℕ → ℕ
fri_size ii = 0x1000 / 2 ^ ii

-- `for (ii = SIZE_NUM - 1; ii >= 0; --ii)`, from `ii = n - 1` on.
unfoldable pub class_loop : ℕ → ℕ → Option ℕ
class_loop zero size = none
class_loop (suc ii) size =
    let rest = class_loop ii size in if leb size (fri_size ii) then some (fri_size ii) else rest

-- `bit(x, a)` and `setbit(x, a)`, which turns the bit over.
unfoldable pub status_bit : Status → ℕ → Bool
status_bit x a = bit (x (a / 8)) (a % 8)

unfoldable pub setbit : Status → ℕ → Status
setbit x a i = if i == a / 8 then bit_xor (x i) (2 ^ (a % 8) % 2 ^ 8) else x i

-- The loop of get_space, with `n` turns to go: `i` where it stops, and the status.
unfoldable pub space_loop : ℕ → ℕ → ℕ → Status → Option (ℕ × Status)
space_loop zero leap i x = none
space_loop (suc n) leap i x =
    let rest = space_loop n leap (i + leap) x in
    if not (ltb (i * bit_size) page_size)
    then some (i, x)
    else if not (status_bit x i)
    then some (i, setbit x i)
    else rest

-- On 257 turns, one more than there are bits.
unfoldable pub get_space : Status → ℕ → Option (ℕ × Status)
get_space x sz = elim (space_loop 257 (sz / bit_size) 0 x) [
  | none ↦ none
  | some (i, x') ↦ some (bit_size * i, x')
]

unfoldable pub free_space : Status → ℕ → Status
free_space x pos = if status_bit x pos then setbit x pos else x

-- A `for` over the descriptors with a `break`: those before it, the one it stops at and those after.
unfoldable pub find_page :
    (AllocedPage → Bool)
    → List AllocedPage
    → Option (List AllocedPage × AllocedPage × List AllocedPage)
find_page test [] = none
find_page test (a ∷ as') =
    let rest = find_page test as' in
    if test a
    then some ([], a, as')
    else elim rest [ none ↦ none | some (front, b, back) ↦ some (a ∷ front, b, back) ]

unfoldable pub has_room : ℕ → AllocedPage → Bool
has_room size a = size == a.size && ltb (a.num * a.size % 2 ^ 32) page_size

unfoldable pub is_empty : AllocedPage → Bool
is_empty a = a.size == pg_empty

unfoldable pub holds : ℕ → AllocedPage → Bool
holds obj a = leb a.paddr obj && ltb obj (add32 a.paddr page_size)

unfoldable pub is_self : ℕ → AllocedPage → Bool
is_self p a = a.self == p

-- A page with room for the size, or else one that holds nothing.
unfoldable pub find_place :
    ℕ → List AllocedPage → Option (List AllocedPage × AllocedPage × List AllocedPage)
find_place size pages = elim (find_page (has_room size) pages) [
  | some t ↦ some t
  | none ↦ find_page is_empty pages
]

-- The object taken from the page, and the page.
unfoldable pub take_space : ℕ → AllocedPage → Option (ℕ × AllocedPage)
take_space size a = elim (get_space a.status size) [
  | none ↦ none
  | some (off, x) ↦ some (add32 a.paddr off, record a { num = add32 a.num 1; status = x })
]

-- The page with its descriptor in the list.
unfoldable pub alloc_in :
    {S : Type 0}
    → ℕ
    → List AllocedPage
    → AllocedPage
    → List AllocedPage
    → Simple S
    → Option (ℕ × Simple S)
alloc_in size front a back st = elim (take_space size a) [
  | none ↦ none
  | some (obj, a') ↦ some (obj, record st { pages = front ++ (a' ∷ back) })
]

-- What alloc writes into a descriptor for a page that it has just got.
unfoldable pub fresh_page : ℕ → ℕ → ℕ → AllocedPage
fresh_page self paddr size = record {
  self = self;
  paddr = paddr;
  size = size;
  num = 0;
  status = λ i. 0;
}

module _ {S : Type 0} (pgalloc : S → ℕ × S) (pgfree : ℕ → S → S) where
  -- The page's address, or NULL.
  unfoldable pub new_plain_page : Simple S → ℕ × Simple S
  new_plain_page st =
      let (paddr, s) = pgalloc st.kernel in
      (if paddr == 2 ^ 64 - 1 then 0 else pa2kva paddr, record st { offset = 0; kernel = s })

  unfoldable pub get_plain_object : ℕ → Simple S → Option (ℕ × Simple S)
  get_plain_object size st =
      let (page, st1) = new_plain_page st in
      if ltb page_size size
      then none
      else if leb (st.offset + size) page_size
      then some (add32 st.now_plain_page st.offset, record st { offset = st.offset + size })
      else if page == 0
      then none
      else some (page, record st1 { now_plain_page = page })

  unfoldable pub alloc_new : ℕ → Simple S → Option (ℕ × Simple S)
  alloc_new size st =
      let (pa, s) = pgalloc st.kernel in
      let st1 = record st { kernel = s } in
      if pa2kva pa == 0 then some (0, st1) else elim (get_plain_object sizeof_alloced_page st1) [
        | none ↦ none
        | some (p, st2) ↦ elim (find_page (is_self p) st2.pages) [
          | some t ↦ none
          | none ↦ alloc_in size [] (fresh_page p (pa2kva pa) size) st2.pages st2
        ]
      ]

  unfoldable pub alloc : ℕ → Simple S → Option (ℕ × Simple S)
  alloc size st =
      if size == 0 || ltb page_size size then some (0, st) else elim (class_loop 9 size) [
        | none ↦ none
        | some c ↦ elim (find_place c st.pages) [
          | none ↦ alloc_new c st
          | some (front, a, back) ↦
              let (pa, s) = pgalloc st.kernel in
              let st1 = record st { kernel = s } in
              if not (is_empty a)
              then alloc_in c front a back st
              else if pa2kva pa == 0
              then some (0, st1)
              else alloc_in c front (fresh_page a.self (pa2kva pa) c) back st1
        ]
      ]

  unfoldable pub free : ℕ → Simple S → Option (Simple S)
  free obj st = if obj == 0 then some st else elim (find_page (holds obj) st.pages) [
    | none ↦ none
    | some (front, a, back) ↦
        let x = free_space a.status ((obj - a.paddr) / bit_size) in
        let num = sub32 a.num 1 in
        let emptied = record a { size = pg_empty; num = num; status = x } in
        let left = pgfree (kva2pa a.paddr) st.kernel in
        some (
          if num == 0
          then record st { pages = front ++ (emptied ∷ back); kernel = left }
          else record st { pages = front ++ (record a { num = num; status = x } ∷ back) })
  ]

  unfoldable pub simple_allocator_init : S → Simple S
  simple_allocator_init s =
      let (page, st) =
        new_plain_page (record { pages = []; now_plain_page = 0; offset = 0; kernel = s }) in
      record st { now_plain_page = page }

unfoldable pub size_of : {S : Type 0} → ℕ → Simple S → ℕ
size_of obj st = elim (find_page (holds obj) st.pages) [ none ↦ 0 | some (front, a, back) ↦ a.size ]
