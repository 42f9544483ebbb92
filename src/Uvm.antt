-- ===== src/Uvm.antt =====
-- kern/mm/uvm.c: the areas of a process, each mapped to pages of its own, with create_uvm, destroy_uvm,
-- set_uvm_perm, mm_new, mm_destroy and mm_clone. What they call of the allocators and of the page
-- tables is the record Kernel. The ring of areas is the list of its nodes; a step past the list head,
-- like a failed assertion, is `none`.
pub mod Calls
pub mod Operations
pub mod Laws
pub mod Counted
pub mod Forget
pub mod Release
pub mod Create
pub mod Areas
pub mod Runs
pub mod Created
pub mod Destroyed
pub mod Permitted
pub mod Copy
mod Examples
use aim_mips.Prelude.{
  ℕ, zero, suc, ◌+◌, ◌-◌, ◌*◌, ◌/◌, ◌%◌, Bool, true, false, not, ◌&&◌, ◌||◌, ltb, leb, ◌==◌,
  if◌then◌else◌, Option, none, some, List, [], ◌∷◌, ◌++◌, ◌⊎◌, inl, inr, ℤ, pos, negsuc, is_neg,
  success, enomem, efault, einval, enoent, add32, sub32, page_size,
}
use aim_mips.Uvm.Calls.{mm_object, vma_object, upages_object, Kernel}

pub record Upages : Type 0 where
  pub self : ℕ
  pub paddr : ℕ
  pub size : ℕ
  pub flags : ℕ
  pub refs : ℕ

pub record Vma : Type 0 where
  pub self : ℕ
  pub start : ℕ
  pub size : ℕ
  pub flags : ℕ
  pub pages : Upages

-- `vmas` is `vma_head` with the nodes in order.
pub record Mm : Type 0 where
  pub self : ℕ
  pub vmas : List Vma
  pub vma_count : ℕ
  pub pgindex : ℕ

unfoldable pub is_pos : ℤ → ℕ → Bool
is_pos (pos m) n = m == n
is_pos (negsuc m) n = false

-- The areas up to the first that starts at `end` or above, and the others.
unfoldable pub split_at : ℕ → List Vma → List Vma × List Vma
split_at end [] = ([], [])
split_at end (v ∷ vs) =
    let rest = split_at end vs in if leb end v.start then ([], v ∷ vs) else (v ∷ rest.0, rest.1)

-- Where the last area ends; `ghost` is what the code reads there when the list head is taken for one.
unfoldable pub last_end : ℕ → List Vma → ℕ
last_end ghost [] = ghost
last_end ghost (v ∷ []) = add32 v.start v.size
last_end ghost (v ∷ w ∷ vs) = last_end ghost (w ∷ vs)

-- The areas before and after the place of a new one, unless it overlaps.
unfoldable pub find_vma_before : ℕ → ℕ → ℕ → List Vma → Option (List Vma × List Vma)
find_vma_before ghost addr size [] = some ([], [])
find_vma_before ghost addr size (v ∷ vs) =
    let (front, back) = split_at (add32 addr size) (v ∷ vs) in
    if ltb addr (last_end ghost front) then none else some (front, back)

unfoldable pub find_start : ℕ → List Vma → Option (List Vma × List Vma)
find_start addr [] = none
find_start addr (v ∷ vs) =
    let rest = find_start addr vs in
    if v.start == addr
    then some ([], v ∷ vs)
    else elim rest [ none ↦ none | some r ↦ some (v ∷ r.0, r.1) ]

-- `for (; i < len; i += PAGE_SIZE)`, with `n` turns to go; `ghost` is the `start` of the list head.
unfoldable pub continues : ℕ → ℕ → ℕ → ℕ → List Vma → Option Bool
continues ghost addr i zero vs = some true
continues ghost addr i (suc n) [] = if ghost == add32 addr i then none else some false
continues ghost addr i (suc n) (v ∷ vs) =
    let rest = continues ghost addr (i + page_size) n vs in
    if v.start == add32 addr i then rest else some false

-- `none` inside: no such areas.
unfoldable pub find_continuous_vma : ℕ → ℕ → ℕ → List Vma → Option (Option (List Vma × List Vma))
find_continuous_vma ghost addr len vs = elim (find_start addr vs) [
  | none ↦ some none
  | some (front, []) ↦ some none
  | some (front, v ∷ back) ↦ elim (continues ghost addr page_size (len / page_size - 1) back) [
    | none ↦ none
    | some true ↦ some (some (front, v ∷ back))
    | some false ↦ some none
  ]
]

-- How a loop that makes areas stopped, and the areas that it has made.
pub record Made (S : Type 0) : Type 0 where
  pub code : ℤ
  pub fresh : List Vma
  pub mapped : ℕ
  pub state : S

module _ {S : Type 0} (k : Kernel S) where
  unfoldable pub mm_new : S → Option Mm × S
  mm_new s = elim (k.kmalloc mm_object s) [
    | none ↦ (none, s)
    | some (p, s1) ↦ elim (k.init_pgindex s1) [
      | none ↦ (none, k.kfree p s1)
      | some (pg, s2) ↦ (some (record { self = p; vmas = []; vma_count = 0; pgindex = pg }), s2)
    ]
  ]

  unfoldable pub clean_vma : ℕ → Vma → S → Option S
  clean_vma pg v s =
      let (unmapped, pa, s1) = k.unmap_pages pg v.start v.size s in
      if v.size == v.pages.size && (pa == v.pages.paddr && is_pos unmapped v.size)
      then some s1
      else none

  -- Whether the pages were freed.
  unfoldable pub unref_and_free_upages : Upages → S → Bool × S
  unref_and_free_upages p s =
      if sub32 p.refs 1 == 0 then (true, k.free_pages p.paddr p.size s) else (false, s)

  unfoldable pub drop_vma : Vma → S → S
  drop_vma v s =
      let (freed, s1) = unref_and_free_upages v.pages s in
      k.kfree v.self (if freed then k.kfree v.pages.self s1 else s1)

  unfoldable pub clean_vmas : ℕ → List Vma → S → Option S
  clean_vmas pg [] s = some s
  clean_vmas pg (v ∷ vs) s = elim (clean_vma pg v s) [
    | none ↦ none
    | some s1 ↦ clean_vmas pg vs (drop_vma v s1)
  ]

  unfoldable pub mm_destroy : ℕ → Option Mm → S → Option S
  mm_destroy kernel_mm none s = some s
  mm_destroy kernel_mm (some mm) s =
      if mm.self == kernel_mm then some s else elim (clean_vmas mm.pgindex mm.vmas s) [
        | none ↦ none
        | some s1 ↦ some (k.kfree mm.self (k.destroy_pgindex mm.pgindex s1))
      ]

  -- `for (i = 0; i < size; i += vma_size)`: what is left of the list.
  unfoldable pub unmap_and_free_vma : ℕ → ℕ → ℕ → List Vma → S → Option (List Vma × S)
  unmap_and_free_vma pg i size [] s = if ltb i size then none else some ([], s)
  unmap_and_free_vma pg i size (v ∷ vs) s = elim (ltb i size) [
    | false ↦ some (v ∷ vs, s)
    | true ↦
        let (unmapped, pa, s1) = k.unmap_pages pg v.start v.size s in
        elim (is_pos unmapped v.size) [
          | false ↦ none
          | true ↦ unmap_and_free_vma pg (add32 i v.size) size vs (drop_vma v s1)
        ]
  ]

  -- One turn of the loop of create_uvm or mm_clone: an area with new pages, or a code, with what the turn
  -- had taken given back.
  unfoldable pub new_area : ℕ → ℕ → ℕ → ℕ → ℕ → ℕ → S → (ℤ × S) ⊎ (Vma × S)
  new_area pg start size flags pages_size pages_flags s = elim (k.kmalloc vma_object s) [
    | none ↦ inl (enomem, s)
    | some (p, s1) ↦ elim (k.kmalloc upages_object s1) [
      | none ↦ inl (enomem, k.kfree p s1)
      | some (q, s2) ↦ elim (k.alloc_pages pages_size s2) [
        | none ↦ inl (enomem, k.kfree p (k.kfree q s2))
        | some (pa, s3) ↦
            let (code, s4) = k.map_pages pg start pa size flags s3 in
            if is_neg code
            then inl (code, k.kfree p (k.kfree q (k.free_pages pa pages_size s4)))
            else inr (
              record {
                self = p;
                start = start;
                size = size;
                flags = flags;
                pages = record {
                  self = q;
                  paddr = pa;
                  size = pages_size;
                  flags = pages_flags;
                  refs = 1;
                };
              },
              s4,
            )
      ]
    ]
  ]

  -- `for (; mapped < len; mapped += PAGE_SIZE, vcur += PAGE_SIZE)`, with `n` turns to go.
  unfoldable pub create_loop : ℕ → ℕ → ℕ → ℕ → ℕ → List Vma → S → Made S ⊎ Made S
  create_loop zero pg vcur flags mapped fresh s =
      inr (record { code = success; fresh = fresh; mapped = mapped; state = s })
  create_loop (suc n) pg vcur flags mapped fresh s =
      elim (new_area pg vcur page_size flags page_size 0 s) [
        | inl (code, s1) ↦ inl (record { code = code; fresh = fresh; mapped = mapped; state = s1 })
        | inr (v, s1) ↦
            create_loop n pg (add32 vcur page_size) flags (mapped + page_size) (fresh ++ (v ∷ []))
              s1
      ]

  -- The end of a loop that makes areas: it has succeeded, or its areas are removed again.
  unfoldable pub finish : Mm → List Vma → List Vma → Made S ⊎ Made S → Option (ℤ × Mm × S)
  finish mm front back (inr m) =
      some (success, record mm { vmas = front ++ (m.fresh ++ back) }, m.state)
  finish mm front back (inl m) =
      elim (unmap_and_free_vma mm.pgindex 0 m.mapped (m.fresh ++ back) m.state) [
        | none ↦ none
        | some (left, s) ↦ some (m.code, record mm { vmas = front ++ left }, s)
      ]
