-- ===== src/Pmm/Blocks/Canonical.antt =====
-- The chain is determined by the addresses that it covers, so the order of calls leaves no trace:
-- freeing what was allocated restores the pool, and frees commute.
use mathlib.Core.Path.{ap₂, subst}
use mathlib.Core.Option
use aim_mips.Prelude.{
  ℕ, suc, ◌+◌, ◌≤◌, ◌<◌, ◌≡◌, refl, sym, ◌∙◌, true, false, some, List, [], ◌∷◌, leb, ltb, arith,
  ◌||◌, Bool-cases, inl, inr, success, Option, ◌⊎◌, ap,
}
use aim_mips.Pmm.Blocks.{Block, Pages, Pool, alloc, free}
use aim_mips.Pmm.Blocks.Chain.{IsRegion, Chain, total, IsPool, within, covers, covers-below, Apart}
use aim_mips.Pmm.Blocks.Alloc.{alloc-Granted}
use aim_mips.Pmm.Blocks.Free.{Returned, free-Returned}

abbrev pub SameCover : List Block → List Block → Type 0
SameCover bs cs = (x : ℕ) → covers x bs ≡ covers x cs

-- The first blocks of chains with the same cover start together …
starts-le :
    (lo lo' : ℕ) (b c : Block) (bs cs : List Block)
    → Chain lo (b ∷ bs)
    → Chain lo' (c ∷ cs)
    → SameCover (b ∷ bs) (c ∷ cs)
    → c.paddr ≤ b.paddr
starts-le lo lo' b c bs cs k l same = elim (Bool-cases (leb c.paddr b.paddr)) [
  | inl e ↦ ground arith
  | inr e ↦
      absurd (
        ground (arith, same b.paddr, covers-below c.paddr b.paddr (c ∷ cs) (omega arith, l.1, l.2)))
]

-- … and end together.
ends-le :
    (lo lo' : ℕ) (b c : Block) (bs cs : List Block)
    → Chain lo (b ∷ bs)
    → Chain lo' (c ∷ cs)
    → b.paddr ≡ c.paddr
    → SameCover (b ∷ bs) (c ∷ cs)
    → c.paddr + c.size ≤ b.paddr + b.size
ends-le lo lo' b c bs cs k l start same =
    elim (Bool-cases (leb (c.paddr + c.size) (b.paddr + b.size))) [
      | inl e ↦ ground arith
      | inr e ↦ absurd (
          ground (
            arith,
            same (b.paddr + b.size),
            covers-below (suc (b.paddr + b.size)) (b.paddr + b.size) bs k.2,
          ))
    ]

tails :
    (b : Block) (bs cs : List Block)
    → Chain (suc (b.paddr + b.size)) bs
    → Chain (suc (b.paddr + b.size)) cs
    → SameCover (b ∷ bs) (b ∷ cs)
    → SameCover bs cs
tails b bs cs k l same x = elim (Bool-cases (ltb x (suc (b.paddr + b.size)))) [
  | inl e ↦
      covers-below (suc (b.paddr + b.size)) x bs k (ground arith)
      ∙ sym (covers-below (suc (b.paddr + b.size)) x cs l (ground arith))
  | inr e ↦ ground (arith, same x)
]

-- Chains that cover the same addresses are the same list of blocks.
pub Chain-ext :
    (lo lo' : ℕ) (bs cs : List Block) → Chain lo bs → Chain lo' cs → SameCover bs cs → bs ≡ cs
Chain-ext lo lo' [] [] k l same = refl
Chain-ext lo lo' [] (c ∷ cs) k l same = absurd (ground (arith, same c.paddr))
Chain-ext lo lo' (b ∷ bs) [] k l same = absurd (ground (arith, same b.paddr))
Chain-ext lo lo' (b ∷ bs) (c ∷ cs) k l same =
    let flip = λ (x : ℕ). sym (same x) in
    let start : b.paddr ≡ c.paddr =
      omega (arith, starts-le lo lo' b c bs cs k l same, starts-le lo' lo c b cs bs l k flip) in
    let end : c.paddr + c.size ≡ b.paddr + b.size = omega (
      arith,
      ends-le lo lo' b c bs cs k l start same,
      ends-le lo' lo c b cs bs l k (sym start) flip,
    ) in
    let e : b ≡ c = ground arith in
    let l' : Chain (suc (b.paddr + b.size)) cs = rw (← end) l.2 in
    let same' : SameCover (b ∷ bs) (b ∷ cs) =
      subst (λ d. SameCover (b ∷ bs) (d ∷ cs)) (sym e) same in
    ap₂ ◌∷◌ e (
      Chain-ext (suc (b.paddr + b.size)) (suc (b.paddr + b.size)) bs cs k.2 l'
        (tails b bs cs k.2 l' same'))

-- Two well-formed pools with the same free addresses are equal.
pub IsPool-ext : (p q : Pool) → IsPool p → IsPool q → SameCover p.blocks q.blocks → p ≡ q
IsPool-ext p q hp hq same =
    let e = Chain-ext 0 0 p.blocks q.blocks hp.chain hq.chain same in ground (arith, ap total e)

-- A region whose addresses are all taken meets no block.
pub Apart-of-taken :
    (paddr size lo : ℕ) (bs : List Block)
    → 0 < size
    → Chain lo bs
    → ((x : ℕ) → within x paddr size ≡ true → covers x bs ≡ false)
    → Apart paddr size bs
Apart-of-taken paddr size lo [] h c taken = tt
Apart-of-taken paddr size lo (b ∷ bs) h c taken = (
  ground (arith, taken paddr, taken b.paddr),
  Apart-of-taken paddr size (suc (b.paddr + b.size)) bs h c.2 (λ x w. ground (arith, taken x w)),
)

-- Freeing what `alloc` just returned restores the pool, block for block.
pub free-alloc :
    (pages : Pages) (pool : Pool)
    → IsPool pool
    → 0 < pages.size
    → (alloc pages pool).code ≡ success
    → free true (alloc pages pool).pages (alloc pages pool).pool ≡ some pool
free-alloc pages pool ok h granted =
    let g = alloc-Granted pages pool ok granted in
    let out = (alloc pages pool).pages in
    let size : out.size ≡ pages.size = g.same_request in
    let region : IsRegion out.paddr out.size = rw size (h, g.fits, g.whole, g.aligned) in
    let (pool', freed, back) = free-Returned out (alloc pages pool).pool g.pool_ok region (
      Apart-of-taken out.paddr out.size 0 (alloc pages pool).pool.blocks (rw size h) g.pool_ok.chain
        (rw size g.gone)) in
    let same =
      IsPool-ext pool' pool back.pool_ok ok (λ x. back.gives x ∙ (rw size (sym (g.gives x)))) in
    freed ∙ ap some same

taken-of-Apart :
    (paddr size x : ℕ) (bs : List Block)
    → Apart paddr size bs
    → within x paddr size ≡ true
    → covers x bs ≡ false
taken-of-Apart paddr size x [] ap w = refl
taken-of-Apart paddr size x (b ∷ bs) ap w = ground (arith, taken-of-Apart paddr size x bs ap.1 w)

abbrev pub Clear : Pages → Pool → Type 0
Clear p pool = IsRegion p.paddr p.size × Apart p.paddr p.size pool.blocks

-- Freeing `p` leaves a region that is apart from it clear.
Clear-Returned :
    (p q : Pages) (pool pool' : Pool)
    → Returned p pool pool'
    → Clear q pool
    → (p.paddr + p.size ≤ q.paddr) ⊎ (q.paddr + q.size ≤ p.paddr)
    → Clear q pool'
Clear-Returned p q pool pool' r c away = (
  c.0,
  Apart-of-taken q.paddr q.size 0 pool'.blocks c.0.0 r.pool_ok.chain
      λ x w. ground (arith, r.gives x, taken-of-Apart q.paddr q.size x pool.blocks c.1 w),
)

-- The pool after two frees.
abbrev pub free_two : Pages → Pages → Pool → Option Pool
free_two p q pool = Option.bind (free true p pool) (free true q)

pub free_two-Returned :
    (p q : Pages) (pool : Pool)
    → IsPool pool
    → Clear p pool
    → Clear q pool
    → (p.paddr + p.size ≤ q.paddr) ⊎ (q.paddr + q.size ≤ p.paddr)
    → (u : Pool) × (free_two p q pool ≡ some u)
      × IsPool u
      × ((x : ℕ)
          → covers x u.blocks
            ≡ (within x q.paddr q.size || (within x p.paddr p.size || covers x pool.blocks)))
unfolding Option.bind
free_two-Returned p q pool ok cp cq away =
    let (s, hs, rs) = free-Returned p pool ok cp.0 cp.1 in
    let cq' = Clear-Returned p q pool s rs cq away in
    let (u, hu, ru) = free-Returned q s rs.pool_ok cq'.0 cq'.1 in
    (u, rw hs hu, ru.pool_ok, λ x. ru.gives x ∙ ap (λ b. within x q.paddr q.size || b) (rs.gives x))

-- Two regions that meet neither each other nor a free block can be freed in either order, with
-- the same pool in the end.
pub free_comm :
    (p q : Pages) (pool : Pool)
    → IsPool pool
    → Clear p pool
    → Clear q pool
    → (p.paddr + p.size ≤ q.paddr) ⊎ (q.paddr + q.size ≤ p.paddr)
    → (u : Pool) × (free_two p q pool ≡ some u) × (free_two q p pool ≡ some u)
free_comm p q pool ok cp cq away =
    let (u, hu, ku, gu) = free_two-Returned p q pool ok cp cq away in
    let (v, hv, kv, gv) = free_two-Returned q p pool ok cq cp (ground arith) in
    (u, hu, hv ∙ ap some (IsPool-ext v u kv ku λ x. ground (arith, gu x, gv x)))
