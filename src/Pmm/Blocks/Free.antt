-- ===== src/Pmm/Blocks/Free.antt =====
-- `free` of palloc.c: the region joins the free addresses, and neighbours are merged.
use aim_mips.Prelude.{
  ℕ, suc, ◌+◌, ◌≤◌, ◌≡◌, refl, true, some, List, [], ◌∷◌, leb, ◌==◌, arith, ◌||◌, Bool-cases, inl,
  inr, add64, add64-eq,
}
use aim_mips.Pmm.Blocks.{Block, block, Pages, Pool, merge_next, merge, place_after, place, free}
use aim_mips.Pmm.Blocks.Chain.{IsRegion, Chain, total, total-lt, IsPool, within, covers, Apart}

-- `out` is the chain `bs` with the region `a` added.
pub record Joined (a : Block) (lo : ℕ) (bs out : List Block) : Type 0 where
  pub chain : Chain lo out
  pub more : total out ≡ a.size + total bs
  pub gives : (x : ℕ) → covers x out ≡ (within x a.paddr a.size || covers x bs)

merge_next-Joined :
    (lo : ℕ) (a : Block) (rest : List Block)
    → lo ≤ a.paddr
    → IsRegion a.paddr a.size
    → Chain (a.paddr + a.size) rest
    → Joined a lo rest (merge_next a rest)
unfolding merge_next
merge_next-Joined lo a [] h r c = record { chain = (h, r, tt); more = refl; gives = λ x. refl }
merge_next-Joined lo a (n ∷ rest) h r c = elim (Bool-cases (a.paddr + a.size == n.paddr)) [
  | inl e ↦
      let end : a.paddr + (a.size + n.size) ≡ n.paddr + n.size = ground arith in
      rw (add64-eq a.paddr a.size r.1, e, add64-eq a.size n.size (omega arith))
        (record {
          chain = (h, (omega arith, omega arith, omega arith, omega arith), rw end c.2);
          more = omega arith;
          gives = λ x. ground arith;
        })
  | inr e ↦
      rw (add64-eq a.paddr a.size r.1, e)
        (record { chain = (h, r, (ground arith, c.1, c.2)); more = refl; gives = λ x. refl })
]

merge-Joined :
    (lo : ℕ) (p a : Block) (rest : List Block)
    → lo ≤ p.paddr
    → IsRegion p.paddr p.size
    → IsRegion a.paddr a.size
    → p.paddr + p.size ≤ a.paddr
    → Chain (a.paddr + a.size) rest
    → Joined a lo (p ∷ rest) (merge p a rest)
unfolding merge
merge-Joined lo p a rest h rp r le c = elim (Bool-cases (p.paddr + p.size == a.paddr)) [
  | inl e ↦
      let end : p.paddr + (p.size + a.size) ≡ a.paddr + a.size = ground arith in
      let both = block p.paddr (p.size + a.size) in
      let j =
        merge_next-Joined lo both rest h (omega arith, omega arith, omega arith, omega arith)
          (rw end c) in
      rw (add64-eq p.paddr p.size rp.1, e, add64-eq p.size a.size (omega arith))
        (record {
          chain = j.chain;
          more = omega (arith, j.more);
          gives = λ x. ground (arith, j.gives x);
        })
  | inr e ↦
      let j = merge_next-Joined (suc (p.paddr + p.size)) a rest (ground arith) r c in
      rw (add64-eq p.paddr p.size rp.1, e)
        (record {
          chain = (h, rp, j.chain);
          more = omega (arith, j.more);
          gives = λ x. ground (arith, j.gives x);
        })
]

place_after-Joined :
    (lo : ℕ) (p a : Block) (rest : List Block)
    → Chain lo (p ∷ rest)
    → IsRegion a.paddr a.size
    → p.paddr + p.size ≤ a.paddr
    → Apart a.paddr a.size rest
    → Joined a lo (p ∷ rest) (place_after p a rest)
unfolding place_after
place_after-Joined lo p a [] c r le ap = merge-Joined lo p a [] c.0 c.1 r le tt
place_after-Joined lo p a (i ∷ rest) c r le ap = elim (Bool-cases (leb a.paddr i.paddr)) [
  | inl e ↦ rw e (merge-Joined lo p a (i ∷ rest) c.0 c.1 r le (ground arith, c.2.1, c.2.2))
  | inr e ↦
      let j = place_after-Joined (suc (p.paddr + p.size)) i a rest c.2 r (ground arith) ap.1 in
      rw e (record {
        chain = (c.0, c.1, j.chain);
        more = omega (arith, j.more);
        gives = λ x. ground (arith, j.gives x);
      })
]

pub place-Joined :
    (lo : ℕ) (a : Block) (bs : List Block)
    → Chain lo bs
    → lo ≤ a.paddr
    → IsRegion a.paddr a.size
    → Apart a.paddr a.size bs
    → Joined a lo bs (place a bs)
unfolding place
place-Joined lo a [] c h r ap = merge_next-Joined lo a [] h r tt
place-Joined lo a (i ∷ rest) c h r ap = elim (Bool-cases (leb a.paddr i.paddr)) [
  | inl e ↦ rw e (merge_next-Joined lo a (i ∷ rest) h r (ground arith, c.1, c.2))
  | inr e ↦ rw e (place_after-Joined lo i a rest c r (ground arith) ap.1)
]

-- A region that `free` takes back: the pool stays well formed, with neighbours merged, and
-- exactly the addresses of the region become free.
pub record Returned (pages : Pages) (pool pool' : Pool) : Type 0 where
  pub pool_ok : IsPool pool'
  pub gives :
      (x : ℕ) → covers x pool'.blocks ≡ (within x pages.paddr pages.size || covers x pool.blocks)
  pub more : pool'.free_size ≡ pool.free_size + pages.size

-- Freeing whole pages that meet no free block succeeds when there is memory for the node, and
-- gives back exactly that region.
pub free-Returned :
    (pages : Pages) (pool : Pool)
    → IsPool pool
    → IsRegion pages.paddr pages.size
    → Apart pages.paddr pages.size pool.blocks
    → (pool' : Pool) × (free true pages pool ≡ some pool') × Returned pages pool pool'
unfolding free
free-Returned pages pool ok r ap =
    let a = block pages.paddr pages.size in
    let j = place-Joined 0 a pool.blocks ok.chain (omega arith) r ap in
    let small = total-lt 0 (place a pool.blocks) (omega arith) j.chain in
    (
      record { blocks = place a pool.blocks; free_size = add64 pool.free_size pages.size },
      ground arith,
      record {
        pool_ok = record { chain = j.chain; counted = omega (arith, j.more, small, ok.counted) };
        gives = j.gives;
        more = omega (arith, j.more, small, ok.counted);
      },
    )
