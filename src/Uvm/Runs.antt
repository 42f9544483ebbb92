-- ===== src/Uvm/Runs.antt =====
-- Runs of pages among other areas.
use mathlib.Core.Path.{subst}
use aim_mips.Prelude.{
  ℕ, suc, ◌+◌, ◌-◌, ◌*◌, ◌/◌, ◌^◌, ◌≤◌, ◌<◌, ◌≡◌, refl, true, false, ◌==◌, some, List, [], ◌∷◌,
  ◌++◌, arith, page_size, add32, length,
}
use aim_mips.Uvm.{Vma, find_start, continues, find_continuous_vma}
use aim_mips.Uvm.Laws.{IsRun}
use aim_mips.Uvm.Areas.{IsSorted, IsBelow}

-- A run that goes into the gap keeps the areas in order.
run-IsSorted :
    (va : ℕ) (vs back : List Vma)
    → IsRun va vs
    → va + length vs * page_size < 2 ^ 32
    → IsSorted (va + length vs * page_size) back
    → IsSorted va (vs ++ back)
unfolding IsSorted IsRun
run-IsSorted va [] back r fit s = subst (λ l. IsSorted l back) {x = va + 0} {y = va} (omega arith) s
run-IsSorted va (v ∷ vs) back r fit s =
    let (h, rest) = r in
    let st = h.start in
    let sz = h.size in
    let next : va + page_size ≡ v.start + v.size = omega arith in
    let place : va + suc (length vs) * page_size ≡ va + page_size + length vs * page_size =
      omega arith in
    (
      omega arith,
      omega arith,
      omega arith,
      subst (λ l. IsSorted l (vs ++ back)) next
          (run-IsSorted (va + page_size) vs back rest (omega arith)
            (subst (λ l. IsSorted l back) place s)),
    )

pub insert-IsSorted :
    (lo addr : ℕ) (front vs back : List Vma)
    → lo ≤ addr
    → IsSorted lo (front ++ back)
    → IsBelow addr front
    → IsRun addr vs
    → addr + length vs * page_size < 2 ^ 32
    → IsSorted (addr + length vs * page_size) back
    → IsSorted lo (front ++ (vs ++ back))
unfolding IsSorted IsBelow
insert-IsSorted lo addr [] vs back le s b r fit t =
    IsSorted-lower lo addr (vs ++ back) le (run-IsSorted addr vs back r fit t)
  where
    IsSorted-lower : (lo addr : ℕ) (vs : List Vma) → lo ≤ addr → IsSorted addr vs → IsSorted lo vs
    IsSorted-lower lo addr [] le s = tt
    IsSorted-lower lo addr (v ∷ vs) le s = let (a, b, c, d) = s in (omega arith, b, c, d)
insert-IsSorted lo addr (v ∷ front) vs back le s b r fit t =
    let (a, one, top, rest) = s in
    let (h, e, below) = b in
    (a, one, top, insert-IsSorted (v.start + v.size) addr front vs back e rest below r fit t)

-- The first area that starts at `addr` is after those below it.
find_start-front :
    (addr : ℕ) (front back : List Vma) (v : Vma)
    → IsBelow addr front
    → v.start ≡ addr
    → find_start addr (front ++ (v ∷ back)) ≡ some (front, v ∷ back)
unfolding find_start IsBelow
find_start-front addr [] back v b h =
    let e : (v.start == addr) ≡ true = ground arith in rw (find_start, e) refl
find_start-front addr (w ∷ front) back v b h =
    let (lt, le, below) = b in
    let e : (w.start == addr) ≡ false = ground arith in
    rw (find_start, e, find_start-front addr front back v below h) refl

continues-run :
    (ghost addr i : ℕ) (vs back : List Vma)
    → IsRun (addr + i) vs
    → addr + i + length vs * page_size < 2 ^ 32
    → continues ghost addr i (length vs) (vs ++ back) ≡ some true
unfolding continues IsRun
continues-run ghost addr i [] back r fit = refl
continues-run ghost addr i (v ∷ vs) back r fit =
    let (h, rest) = r in
    let e : (v.start == add32 addr i) ≡ true = let st = h.start in ground arith in
    let place : addr + i + page_size ≡ addr + (i + page_size) = omega arith in
    rw (continues, e)
      (continues-run ghost addr (i + page_size) vs back (subst (λ a. IsRun a vs) place rest)
        (omega arith))

-- A run is found again.
pub find_continuous_vma-run :
    (ghost addr len : ℕ) (front vs back : List Vma)
    → IsBelow addr front
    → IsRun addr vs
    → length vs * page_size ≡ len
    → 1 ≤ len
    → addr + len < 2 ^ 32
    → find_continuous_vma ghost addr len (front ++ (vs ++ back)) ≡ some (some (front, vs ++ back))
unfolding find_continuous_vma IsRun
find_continuous_vma-run ghost addr len front [] back b r e one fit = absurd (omega arith)
find_continuous_vma-run ghost addr len front (v ∷ vs) back b r e one fit =
    let (h, rest) = r in
    let found = find_start-front addr front (vs ++ back) v b h.start in
    let turns : len / page_size - 1 ≡ length vs = omega arith in
    let go = continues-run ghost addr page_size vs back rest (omega arith) in
    rw (find_continuous_vma, found, turns, go) refl
