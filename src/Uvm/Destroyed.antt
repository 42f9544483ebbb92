-- ===== src/Uvm/Destroyed.antt =====
-- destroy_uvm after create_uvm.
use aim_mips.Prelude.{
  ℕ, ◌+◌, ◌*◌, ◌%◌, ◌^◌, ◌≤◌, ◌<◌, ◌≡◌, refl, ◌⊎◌, inl, inr, none, false, not, ◌||◌, ◌==◌, Option,
  some, List, ◌++◌, arith, page_size, length, ℤ, success,
}
use aim_mips.Uvm.Calls.{Kernel}
use aim_mips.Uvm.{Vma, Mm}
use aim_mips.Uvm.Operations.{destroy_uvm}
use aim_mips.Uvm.Laws.{Seen, IsCounted, entered_all, IsRun, IsFree, IsShort}
use aim_mips.Uvm.Areas.{IsBelow}
use aim_mips.Uvm.Runs.{find_continuous_vma-run}
use aim_mips.Uvm.Release.{unmap_and_free_vma-seen}
use aim_mips.Uvm.Created.{made}
use aim_mips.Uvm.Counted.{counted, count_of}

module _ {S : Type 0} (k : Kernel S) (seen : S → Seen) (laws : IsCounted k seen) (ghost : ℕ) where
  -- `destroy_uvm` on a run of areas takes it out and gives back what it holds.
  pub destroy_uvm-run :
      (mm : Mm) (addr len : ℕ) (front vs back : List Vma) (o : Seen) (s : S)
      → IsBelow addr front
      → IsRun addr vs
      → length vs * page_size ≡ len
      → 1 ≤ len
      → addr + len < 2 ^ 32
      → addr % page_size ≡ 0
      → IsFree mm.pgindex addr len o
      → seen s ≡ entered_all mm.pgindex vs o
      → ((s2 : S) × (destroy_uvm k ghost
              (some (record mm { vmas = front ++ (vs ++ back) }))
              addr
              len
              s
            ≡ some (success, some (record mm { vmas = front ++ back }), s2))
          × (seen s2 ≡ o))
        ⊎ ((destroy_uvm k ghost (some (record mm { vmas = front ++ (vs ++ back) })) addr len s
              ≡ none)
            × IsShort k seen mm.pgindex addr)
  unfolding destroy_uvm
  destroy_uvm-run mm addr len front vs back o s below run size one fit aligned free st =
      let guard : (not (len % page_size == 0) || not (addr % page_size == 0)) ≡ false =
        ground arith in
      let found = find_continuous_vma-run ghost addr len front vs back below run size one fit in
      elim (unmap_and_free_vma-seen k seen laws mm.pgindex addr 0 len vs back o s run
        (λ x p q. free x p (omega arith)) (omega arith) (omega arith) st) [
          | inl (s2, go, same) ↦ inl (s2, rw (destroy_uvm, guard, found, go) refl, same)
          | inr (go, short) ↦ inr (rw (destroy_uvm, guard, found, go) refl, short)
        ]

-- How `destroy_uvm` on the areas `mm'` and the state `s1` ends, when the creation has answered `r`, counted
-- from `o` on.
pub record IsUndone {S : Type 0} (k : Kernel S) (ghost : ℕ) (mm : Mm) (addr len : ℕ) (o : Seen)
    (r : Option (ℤ × Option Mm × (S × Seen))) (mm' : Option Mm) (s1 : S) : Type 0 where
  pub count : Seen
  pub made : r ≡ some (success, mm', (s1, count))
  pub undone :
      ((s2 : S) × (destroy_uvm k ghost mm' addr len s1 ≡ some (success, some mm, s2))
        × (destroy_uvm (counted k) ghost mm' addr len (s1, count)
            ≡ some (success, some mm, (s2, o))))
      ⊎ ((destroy_uvm k ghost mm' addr len s1 ≡ none)
          × IsShort (counted k) count_of mm.pgindex addr)
