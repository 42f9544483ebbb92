-- ===== src/Pmm/Calls/Aligned.antt =====
-- `alloc_aligned_pages` over the allocator of palloc.c.
use aim_mips.Prelude.{
  ℕ, zero, suc, ◌+◌, ◌-◌, ◌%◌, ◌^◌, ◌≤◌, ◌<◌, ◌≡◌, refl, true, false, Bool-cases, inl, inr, arith,
  some, leb, ltb, ◌||◌, ◌⊎◌, ◌∙◌, if◌then◌else◌, add64, sub64, add64-eq, sub64-eq, page_size, ap,
  sym, success, eof,
}
use mathlib.Core.Path.{ap₂}
use native.Mathlib.Nat.{pow-suc, one-le-pow, mod-mod_of_dvd, dvd_of_mod-eq-zero}
use aim_mips.Pmm.Blocks
use aim_mips.Pmm.Blocks.{Pages, Pool, alloc}
use aim_mips.Pmm.Blocks.Chain.{IsRegion, IsPool, within, covers}
use aim_mips.Pmm.Blocks.Alloc.{Granted, alloc-Granted, alloc_outcomes, alloc_keeps}
use aim_mips.Pmm.Blocks.Free.{Returned, free-Returned}
use aim_mips.Pmm.Blocks.Canonical.{Apart-of-taken}
use aim_mips.Pmm.Memory.{Memory, pmemset, pmemset-Filled}
use aim_mips.Pmm.Calls.{
  Machine, Outcome, palloc, has, gfp_zero, gfp_unsafe, junkbyte, alloc_pages, free_pages,
  free_padding, alloc_aligned_pages, align_above,
}
use aim_mips.Pmm.Calls.Align.{align_above_lem}

-- Without `GFP_ZERO`, `alloc_pages` is the allocator's `alloc`.
pub alloc_pages_lem :
    (pages : Pages) (m : Machine Pool)
    → has pages.flags gfp_zero ≡ false
    → alloc_pages (palloc true) pages m
      ≡ some (record {
        code = (alloc pages m.store).code;
        pages = (alloc pages m.store).pages;
        machine = record { store = (alloc pages m.store).pool; memory = m.memory };
      })
unfolding alloc_pages
alloc_pages_lem pages m plain = rw ((alloc_keeps pages m.store).0, plain)

-- The region `[from, to)` went back to the pool, and nothing else changed there.
pub record Padded (from to : ℕ) (pool pool' : Pool) : Type 0 where
  pub pool_ok : IsPool pool'
  pub gives : (x : ℕ) → covers x pool'.blocks ≡ (within x from (to - from) || covers x pool.blocks)
  pub more : pool'.free_size ≡ pool.free_size + (to - from)

junk_written :
    (pages : Pages) (mem : Memory)
    → IsRegion pages.paddr pages.size
    → (mem' : Memory) × ((if has pages.flags gfp_unsafe
          then some mem
          else pmemset pages.paddr junkbyte pages.size mem)
        ≡ some mem')
junk_written pages mem r = elim (Bool-cases (has pages.flags gfp_unsafe)) [
  | inl e ↦ (mem, rw e)
  | inr e ↦
      let (mem', wrote, filled) =
        pmemset-Filled pages.paddr junkbyte pages.size mem (let fit = r.1 in omega arith) r.2 in
      (mem', no_flag e ∙ wrote)
]
  where
    no_flag :
        has pages.flags gfp_unsafe ≡ false
        → (if has pages.flags gfp_unsafe
            then some mem
            else pmemset pages.paddr junkbyte pages.size mem)
          ≡ pmemset pages.paddr junkbyte pages.size mem
    no_flag e = rw e

free_pages_step :
    (pages : Pages) (m : Machine Pool) (pool' : Pool) (mem' : Memory)
    → (if has pages.flags gfp_unsafe
        then some m.memory
        else pmemset pages.paddr junkbyte pages.size m.memory)
      ≡ some mem'
    → Blocks.free true pages m.store ≡ some pool'
    → free_pages (palloc true) pages m ≡ some (record { store = pool'; memory = mem' })
unfolding free_pages
free_pages_step pages m pool' mem' wrote freed = rw (wrote, freed)

free_padding_some :
    (flags from to : ℕ) (m : Machine Pool)
    → ltb from to ≡ true
    → to < 2 ^ 64
    → free_padding (palloc true) flags from to m
      ≡ free_pages (palloc true) (record { paddr = from; size = to - from; flags = flags }) m
unfolding free_padding
free_padding_some flags from to m e fits = rw (e, sub64-eq to from (ground arith) fits)

-- `free_pages` on a region of whole pages that is taken.
free_pages-Returned :
    (pages : Pages) (m : Machine Pool)
    → IsPool m.store
    → IsRegion pages.paddr pages.size
    → ((x : ℕ) → within x pages.paddr pages.size ≡ true → covers x m.store.blocks ≡ false)
    → (m' : Machine Pool) × (free_pages (palloc true) pages m ≡ some m')
      × Returned pages m.store m'.store
free_pages-Returned pages m ok r taken =
    let (pool', freed, back) =
      free-Returned pages m.store ok r
        (Apart-of-taken pages.paddr pages.size 0 m.store.blocks r.0 ok.chain taken) in
    let (mem', wrote) = junk_written pages m.memory r in
    (record { store = pool'; memory = mem' }, free_pages_step pages m pool' mem' wrote freed, back)

-- The padding, where there is any, goes back to the pool.
free_padding-Padded :
    (flags from to : ℕ) (m : Machine Pool)
    → IsPool m.store
    → from ≤ to
    → to < 2 ^ 64
    → (to - from) % page_size ≡ 0
    → from % page_size ≡ 0
    → ((x : ℕ) → within x from (to - from) ≡ true → covers x m.store.blocks ≡ false)
    → (m' : Machine Pool) × (free_padding (palloc true) flags from to m ≡ some m')
      × Padded from to m.store m'.store
free_padding-Padded flags from to m ok le fits whole start taken = elim (Bool-cases (ltb from to)) [
  | inl e ↦
      let (m', runs, back) =
        free_pages-Returned (record { paddr = from; size = to - from; flags = flags }) m ok
          (ground arith, omega arith, whole, start) taken in
      (
        m',
        free_padding_some flags from to m e (omega arith) ∙ runs,
        record { pool_ok = back.pool_ok; gives = back.gives; more = back.more },
      )
  | inr e ↦
      let same : from ≡ to = ground arith in
      (
        m,
        unfold free_padding in rw e,
        record { pool_ok = ok; gives = λ x. ground arith; more = omega arith },
      )
]

-- A power of two from the page size on is in whole pages, and so are its multiples.
page_pow : (k : ℕ) → 12 ≤ k → 2 ^ k % page_size ≡ 0
page_pow zero h = absurd (omega arith)
page_pow (suc k) h = elim (Bool-cases (leb 12 k)) [
  | inl e ↦ omega (arith, pow-suc 2 k, page_pow k (ground arith))
  | inr e ↦ let last : k ≡ 11 = ground arith in rw last refl
]

page_multiple : (x k : ℕ) → 12 ≤ k → x % 2 ^ k ≡ 0 → x % page_size ≡ 0
page_multiple x k h e =
    sym (mod-mod_of_dvd page_size x (dvd_of_mod-eq-zero page_size (page_pow k h)))
    ∙ ap (λ y. y % page_size) e

-- The region `[start, start + size)` at a multiple of `align` was free, is free no more, and the
-- rest of the pool covers what it did.
pub record AlignedGrant (size align : ℕ) (pool pool' : Pool) (start : ℕ) : Type 0 where
  pub aligned : start % align ≡ 0
  pub pool_ok : IsPool pool'
  pub gives : (x : ℕ) → covers x pool.blocks ≡ (within x start size || covers x pool'.blocks)
  pub gone : (x : ℕ) → within x start size ≡ true → covers x pool'.blocks ≡ false
  pub less : pool'.free_size + size ≡ pool.free_size

-- Both paddings of a buffer go back, and what is between them stays taken.
trim-AlignedGrant :
    (size align big start : ℕ) (pool : Pool) (r : Blocks.Allocated) (pool1 pool2 : Pool)
    → Granted big pool r
    → start % align ≡ 0
    → r.pages.paddr ≤ start
    → start + size ≤ r.pages.paddr + big
    → Padded r.pages.paddr start r.pool pool1
    → Padded (start + size) (r.pages.paddr + big) pool1 pool2
    → AlignedGrant size align pool pool2 start
trim-AlignedGrant size align big start pool r pool1 pool2 g al lo hi p1 p2 = record {
  aligned = al;
  pool_ok = p2.pool_ok;
  gives = λ x. ground (arith, g.gives x, p1.gives x, p2.gives x);
  gone = λ x w. ground (arith, g.gone x, p1.gives x, p2.gives x);
  less = omega (arith, g.less, p1.more, p2.more);
}

-- The request for the buffer, and what the calls make of it.
abbrev buffer : Pages → ℕ → Pages
buffer pages align = record pages { size = sub64 (add64 pages.size align) page_size }

aligned_refused :
    (pages : Pages) (align : ℕ) (m : Machine Pool)
    → has pages.flags gfp_zero ≡ false
    → (alloc (buffer pages align) m.store).code ≡ eof
    → alloc_aligned_pages (palloc true) pages align m
      ≡ some (record {
        code = eof;
        pages = pages;
        machine = record { store = (alloc (buffer pages align) m.store).pool; memory = m.memory };
      })
unfolding alloc_aligned_pages
aligned_refused pages align m plain e = rw (alloc_pages_lem (buffer pages align) m plain, e)

aligned_granted :
    (pages : Pages) (align : ℕ) (m m1 m2 : Machine Pool) (r : Blocks.Allocated)
    → has pages.flags gfp_zero ≡ false
    → alloc (buffer pages align) m.store ≡ r
    → r.code ≡ success
    → (let start = align_above r.pages.paddr align in
        (free_padding
            (palloc true)
            r.pages.flags
            r.pages.paddr
            start
            (record { store = r.pool; memory = m.memory })
          ≡ some m1)
        × (free_padding
              (palloc true)
              r.pages.flags
              (add64 start pages.size)
              (add64 r.pages.paddr r.pages.size)
              m1
            ≡ some m2))
    → alloc_aligned_pages (palloc true) pages align m
      ≡ some (record {
        code = success;
        pages = record pages { paddr = align_above r.pages.paddr align };
        machine = m2;
      })
unfolding alloc_aligned_pages
aligned_granted pages align m m1 m2 r plain er e pads =
    rw (alloc_pages_lem (buffer pages align) m plain, er, e, pads.0, pads.1)

-- A granted buffer is cut down to the aligned region in it.
aligned_cut :
    (pages : Pages) (k : ℕ) (m : Machine Pool) (r : Blocks.Allocated) (big : ℕ)
    → 12 ≤ k
    → k < 64
    → 0 < pages.size
    → pages.size % page_size ≡ 0
    → big + page_size ≡ pages.size + 2 ^ k
    → Granted big m.store r
    → (m1 : Machine Pool) × (m2 : Machine Pool) × (let start = align_above r.pages.paddr (2 ^ k) in
        (free_padding
            (palloc true)
            r.pages.flags
            r.pages.paddr
            start
            (record { store = r.pool; memory = m.memory })
          ≡ some m1)
        × (free_padding
              (palloc true)
              r.pages.flags
              (add64 start pages.size)
              (add64 r.pages.paddr big)
              m1
            ≡ some m2)
        × AlignedGrant pages.size (2 ^ k) m.store m2.store start)
aligned_cut pages k m r big wide narrow some_size whole size g =
    let b = r.pages.paddr in
    let start = align_above b (2 ^ k) in
    let pow = page_pow k wide in
    let pos_pow = one-le-pow k 2 (omega arith) in
    let gf = g.fits in
    let ga = g.aligned in
    let a = align_above_lem b k narrow (omega arith) in
    let sp : start % page_size ≡ 0 = page_multiple start k wide a.0 in
    let hi : start + pages.size ≤ b + big = omega arith in
    let (m1, pads1, p1) =
      free_padding-Padded r.pages.flags b start (record { store = r.pool; memory = m.memory })
        g.pool_ok a.1 (omega arith) (omega arith) ga (λ x w. g.gone x (ground arith)) in
    let (m2, pads2, p2) =
      free_padding-Padded r.pages.flags (start + pages.size) (b + big) m1 p1.pool_ok hi gf
        (omega arith) (omega arith) (λ x w. ground (arith, p1.gives x, g.gone x)) in
    (
      m1,
      m2,
      (
        pads1,
        ap₂ (λ f t. free_padding (palloc true) r.pages.flags f t m1)
              (add64-eq start pages.size (omega arith)) (add64-eq b big gf)
            ∙ pads2,
        trim-AlignedGrant pages.size (2 ^ k) big start m.store r m1.store m2.store g a.0 a.1 hi p1
            p2,
      ),
    )

-- With nodes to be had and no `GFP_ZERO`, a request for whole pages at a power-of-two alignment of
-- at least a page always returns: either it fails and leaves the pool as it was, or it takes
-- exactly the region at the multiple of the alignment that it returns, the padding on both sides
-- being free again.
pub alloc_aligned_pages_lem :
    (pages : Pages) (k : ℕ) (m : Machine Pool)
    → IsPool m.store
    → 12 ≤ k
    → k < 64
    → 0 < pages.size
    → pages.size % page_size ≡ 0
    → pages.size + 2 ^ k < 2 ^ 64
    → has pages.flags gfp_zero ≡ false
    → (o : Outcome Pool) × (alloc_aligned_pages (palloc true) pages (2 ^ k) m ≡ some o)
      × (((o.code ≡ eof) × (o.machine.store ≡ m.store))
          ⊎ ((o.code ≡ success)
              × AlignedGrant pages.size (2 ^ k) m.store o.machine.store o.pages.paddr))
alloc_aligned_pages_lem pages k m ok wide narrow some_size whole fits plain =
    elim (alloc_outcomes (buffer pages (2 ^ k)) m.store) [
      | inl e ↦
          let r = alloc (buffer pages (2 ^ k)) m.store in
          let pow = page_pow k wide in
          let pos_pow = one-le-pow k 2 (omega arith) in
          let (m1, m2, done) =
            aligned_cut pages k m r (buffer pages (2 ^ k)).size wide narrow some_size whole
              (omega arith) (alloc-Granted (buffer pages (2 ^ k)) m.store ok e) in
          (
            record {
              code = success;
              pages = record pages { paddr = align_above r.pages.paddr (2 ^ k) };
              machine = m2;
            },
            aligned_granted pages (2 ^ k) m m1 m2 r plain refl e (
              done.0,
              ap
                    (λ z.
                      free_padding (palloc true) r.pages.flags
                        (add64 (align_above r.pages.paddr (2 ^ k)) pages.size)
                        (add64 r.pages.paddr z) m1)
                    (alloc_keeps (buffer pages (2 ^ k)) m.store).1
                  ∙ done.1,
            ),
            inr (refl, done.2),
          )
      | inr e ↦ (
        record {
          code = eof;
          pages = pages;
          machine = record {
            store = (alloc (buffer pages (2 ^ k)) m.store).pool;
            memory = m.memory;
          };
        },
        aligned_refused pages (2 ^ k) m plain e.0,
        inl (refl, e.1),
      )
    ]
