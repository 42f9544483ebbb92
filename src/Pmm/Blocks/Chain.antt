-- ===== src/Pmm/Blocks/Chain.antt =====
-- When a chain of free blocks is well formed, and which addresses it covers.
use aim_mips.Prelude.{
  ℕ, suc, ◌+◌, ◌%◌, ◌^◌, ◌≤◌, ◌<◌, ◌≡◌, refl, Bool, false, List, [], ◌∷◌, leb, ltb, arith,
  page_size, ◌&&◌, ◌||◌, ◌⊎◌,
}
use aim_mips.Pmm.Blocks.{Block, Pool}

-- A region of whole pages, at a page boundary, that ends below 2 ^ 64.
abbrev pub IsRegion : ℕ → ℕ → Type 0
IsRegion paddr size =
    (0 < size) × (paddr + size < 2 ^ 64) × (size % page_size ≡ 0) × (paddr % page_size ≡ 0)

-- The blocks ascend from `lo`, and no two of them touch: neighbours have been merged.
abbrev pub Chain : ℕ → List Block → Type 0
Chain lo [] = Unit
Chain lo (b ∷ rest) = (lo ≤ b.paddr) × IsRegion b.paddr b.size × Chain (suc (b.paddr + b.size)) rest

abbrev pub total : List Block → ℕ
total [] = 0
total (b ∷ rest) = b.size + total rest

-- `free_size` is the sum of the block sizes.
pub record IsPool (pool : Pool) : Type 0 where
  pub chain : Chain 0 pool.blocks
  pub counted : pool.free_size ≡ total pool.blocks

abbrev pub within : ℕ → ℕ → ℕ → Bool
within x paddr size = leb paddr x && ltb x (paddr + size)

-- Is the address `x` free?
abbrev pub covers : ℕ → List Block → Bool
covers x [] = false
covers x (b ∷ rest) = within x b.paddr b.size || covers x rest

-- The region meets no block.
abbrev pub Apart : ℕ → ℕ → List Block → Type 0
Apart paddr size [] = Unit
Apart paddr size (b ∷ rest) =
    ((b.paddr + b.size ≤ paddr) ⊎ (paddr + size ≤ b.paddr)) × Apart paddr size rest

pub Chain-weaken : (lo lo' : ℕ) (bs : List Block) → lo' ≤ lo → Chain lo bs → Chain lo' bs
Chain-weaken lo lo' [] h c = tt
Chain-weaken lo lo' (b ∷ rest) h c = (omega arith, c.1, c.2)

-- Nothing below the bound of a chain is covered.
pub covers-below : (lo x : ℕ) (bs : List Block) → Chain lo bs → x < lo → covers x bs ≡ false
covers-below lo x [] c h = refl
covers-below lo x (b ∷ rest) c h = ground (arith, covers-below (suc (b.paddr + b.size)) x rest c.2)

-- The sizes of a chain fit 64 bits.
pub total-lt : (lo : ℕ) (bs : List Block) → lo < 2 ^ 64 → Chain lo bs → lo + total bs < 2 ^ 64
total-lt lo [] h c = omega arith
total-lt lo (b ∷ []) h c = omega arith
total-lt lo (b ∷ n ∷ rest) h c = omega (
  arith,
  total-lt (b.paddr + b.size) (n ∷ rest) (omega arith)
      (Chain-weaken (suc (b.paddr + b.size)) (b.paddr + b.size) (n ∷ rest) (omega arith) c.2),
)
