-- ===== src/Pmm/Blocks/Alloc.antt =====
-- `alloc` of palloc.c: first fit takes exactly the region it returns.
use aim_mips.Prelude.{
  ℕ, suc, ◌+◌, ◌-◌, ◌%◌, ◌^◌, ◌≤◌, ◌<◌, ◌≡◌, refl, true, false, none, some, List, [], ◌∷◌, leb, ltb,
  not, ◌==◌, if◌then◌else◌, arith, page_size, ◌||◌, Bool-cases, inl, inr, Option-cases, success,
  eof, ◌↔◌, ◌⊎◌,
}
use aim_mips.Pmm.Blocks.{Block, block, Pages, Pool, Allocated, carve, first_fit, alloc}
use aim_mips.Pmm.Blocks.Chain.{
  IsRegion, Chain, Chain-weaken, total, total-lt, IsPool, within, covers, covers-below,
}

-- What taking `size` bytes from `bs` does: `p` is where, and `rest` the chain after.
pub record Taken (size lo : ℕ) (bs : List Block) (p : ℕ) (rest : List Block) : Type 0 where
  pub above : lo ≤ p
  pub fits : p + size < 2 ^ 64
  pub whole : size % page_size ≡ 0
  pub aligned : p % page_size ≡ 0
  pub chain : Chain lo rest
  pub less : total rest + size ≡ total bs
  pub gives : (x : ℕ) → covers x bs ≡ (within x p size || covers x rest)
  pub gone : (x : ℕ) → within x p size ≡ true → covers x rest ≡ false

carve_lem :
    (size : ℕ) (b : Block) (rest : List Block)
    → b.paddr + b.size < 2 ^ 64
    → size ≤ b.size
    → carve size b rest
      ≡ (if size == b.size then rest else block (b.paddr + size) (b.size - size) ∷ rest)
unfolding carve
carve_lem size b rest h le = ground arith

carve-Taken :
    (size lo : ℕ) (b : Block) (rest : List Block)
    → size % page_size ≡ 0
    → size ≤ b.size
    → Chain lo (b ∷ rest)
    → Taken size lo (b ∷ rest) b.paddr (carve size b rest)
carve-Taken size lo b rest al le c =
    rw (carve_lem size b rest (omega arith) le) (elim (Bool-cases (size == b.size)) [
      | inl e ↦ rw e (record {
        above = omega arith;
        fits = omega arith;
        whole = al;
        aligned = omega arith;
        chain = Chain-weaken (suc (b.paddr + b.size)) lo rest (omega arith) c.2;
        less = ground arith;
        gives = λ x. ground arith;
        gone = λ x h. covers-below (suc (b.paddr + b.size)) x rest c.2 (ground arith);
      })
      | inr e ↦ rw e (record {
        above = omega arith;
        fits = omega arith;
        whole = al;
        aligned = omega arith;
        chain =
            let end : b.paddr + size + (b.size - size) ≡ b.paddr + b.size = omega arith in
            (omega arith, (ground arith, omega arith, omega arith, omega arith), rw end c.2);
        less = ground arith;
        gives = λ x. ground arith;
        gone = λ x h. ground (arith, covers-below (suc (b.paddr + b.size)) x rest c.2);
      })
    ])

-- A search that goes past a block which is too small.
skip-Taken :
    (size lo : ℕ) (b : Block) (bs : List Block) (p : ℕ) (rest : List Block)
    → IsRegion b.paddr b.size
    → lo ≤ b.paddr
    → Taken size (suc (b.paddr + b.size)) bs p rest
    → Taken size lo (b ∷ bs) p (b ∷ rest)
skip-Taken size lo b bs p rest r le t = record {
  above = omega (arith, t.above);
  fits = t.fits;
  whole = t.whole;
  aligned = t.aligned;
  chain = (le, r, t.chain);
  less = omega (arith, t.less);
  gives = λ x. ground (arith, t.gives x);
  gone = λ x h. ground (arith, t.gone x h, t.above);
}

pub first_fit-Taken :
    (size lo : ℕ) (bs : List Block) (p : ℕ) (rest : List Block)
    → size % page_size ≡ 0
    → Chain lo bs
    → first_fit size bs ≡ some (p, rest)
    → Taken size lo bs p rest
unfolding first_fit
first_fit-Taken size lo [] p rest al c h = absurd (cc)
first_fit-Taken size lo (b ∷ bs) p rest al c h = elim (Bool-cases (leb size b.size)) [
  | inl e ↦
      let ep : p ≡ b.paddr = ground arith in
      let er : rest ≡ carve size b bs = ground arith in
      rw (ep, er) (carve-Taken size lo b bs al (ground arith) c)
  | inr e ↦ elim (Option-cases (first_fit size bs)) [
    | inl f ↦ absurd (ground arith)
    | inr (r, f) ↦
        let ep : p ≡ r.0 = ground arith in
        let er : rest ≡ b ∷ r.1 = ground arith in
        rw (ep, er)
          (skip-Taken size lo b bs r.0 r.1 c.1 c.0
            (first_fit-Taken size (suc (b.paddr + b.size)) bs r.0 r.1 al c.2 f))
  ]
]

-- What a granted request does to the pool.
pub record Granted (size : ℕ) (pool : Pool) (r : Allocated) : Type 0 where
  pub pool_ok : IsPool r.pool
  pub fits : r.pages.paddr + size < 2 ^ 64
  pub whole : size % page_size ≡ 0
  pub aligned : r.pages.paddr % page_size ≡ 0
  pub same_request : r.pages.size ≡ size
  pub gives :
      (x : ℕ) → covers x pool.blocks ≡ (within x r.pages.paddr size || covers x r.pool.blocks)
  pub gone : (x : ℕ) → within x r.pages.paddr size ≡ true → covers x r.pool.blocks ≡ false
  pub less : r.pool.free_size + size ≡ pool.free_size

-- When `alloc` succeeds in a well-formed pool, the region it returns was free and is free no
-- more, no other address changes, and the pool stays well formed with `free_size` less the size.
pub alloc-Granted :
    (pages : Pages) (pool : Pool)
    → IsPool pool
    → (alloc pages pool).code ≡ success
    → Granted pages.size pool (alloc pages pool)
unfolding alloc
alloc-Granted pages pool ok h =
    elim (Bool-cases (not (pages.size % page_size == 0) || ltb pool.free_size pages.size)) [
      | inl e ↦ absurd (ground arith)
      | inr e ↦ elim (Option-cases (first_fit pages.size pool.blocks)) [
        | inl f ↦ absurd (ground arith)
        | inr (r, f) ↦
            let t = first_fit-Taken pages.size 0 pool.blocks r.0 r.1 (ground arith) ok.chain f in
            let small = total-lt 0 pool.blocks (omega arith) ok.chain in
            rw (e, f)
              (record {
                pool_ok = record {
                  chain = t.chain;
                  counted = omega (arith, t.less, small, ok.counted);
                };
                fits = t.fits;
                whole = t.whole;
                aligned = t.aligned;
                same_request = refl;
                gives = t.gives;
                gone = t.gone;
                less = omega (arith, t.less, small, ok.counted);
              })
      ]
    ]

-- No block has `size` bytes.
abbrev pub AllBelow : ℕ → List Block → Type 0
AllBelow size [] = Unit
AllBelow size (b ∷ rest) = (b.size < size) × AllBelow size rest

-- `free_size` is at least the largest block.
AllBelow-total : (size : ℕ) (bs : List Block) → total bs < size → AllBelow size bs
AllBelow-total size [] h = tt
AllBelow-total size (b ∷ rest) h = (omega arith, AllBelow-total size rest (omega arith))

first_fit-none : (size : ℕ) (bs : List Block) → AllBelow size bs → first_fit size bs ≡ none
unfolding first_fit
first_fit-none size [] h = refl
first_fit-none size (b ∷ rest) h = ground (arith, first_fit-none size rest h.1)

AllBelow-first_fit : (size : ℕ) (bs : List Block) → first_fit size bs ≡ none → AllBelow size bs
unfolding first_fit
AllBelow-first_fit size [] h = tt
AllBelow-first_fit size (b ∷ rest) h = elim (Option-cases (first_fit size rest)) [
  | inl f ↦ (ground arith, AllBelow-first_fit size rest f)
  | inr (r, f) ↦ absurd (ground arith)
]

-- On whole pages, `alloc` fails exactly when no block is large enough.
pub alloc-eof_iff :
    (pages : Pages) (pool : Pool)
    → IsPool pool
    → pages.size % page_size ≡ 0
    → ((alloc pages pool).code ≡ eof) ↔ AllBelow pages.size pool.blocks
unfolding alloc
alloc-eof_iff pages pool ok al = (there, back)
  where
    there : (alloc pages pool).code ≡ eof → AllBelow pages.size pool.blocks
    there h = elim (Bool-cases (ltb pool.free_size pages.size)) [
      | inl e ↦ AllBelow-total pages.size pool.blocks (ground arith)
      | inr e ↦ AllBelow-first_fit pages.size pool.blocks (ground arith)
    ]

    back : AllBelow pages.size pool.blocks → (alloc pages pool).code ≡ eof
    back h = ground (arith, first_fit-none pages.size pool.blocks h)

-- A failure changes neither the pool nor the request, and every outcome is one of the two codes.
pub alloc_outcomes :
    (pages : Pages) (pool : Pool)
    → ((alloc pages pool).code ≡ success)
      ⊎ (((alloc pages pool).code ≡ eof)
          × ((alloc pages pool).pool ≡ pool)
          × ((alloc pages pool).pages ≡ pages))
unfolding alloc
alloc_outcomes pages pool = ground arith

-- Only `paddr` of the request is ever written.
pub alloc_keeps :
    (pages : Pages) (pool : Pool)
    → ((alloc pages pool).pages.flags ≡ pages.flags) × ((alloc pages pool).pages.size ≡ pages.size)
unfolding alloc
alloc_keeps pages pool = ground arith
