-- ===== src/Uvm/Created.antt =====
-- create_uvm as a whole.
use mathlib.Core.Path.{subst}
use aim_mips.Prelude.{
  ℕ, ◌+◌, ◌*◌, ◌/◌, ◌%◌, ◌^◌, ◌≤◌, ◌<◌, ◌≡◌, inl, inr, refl, sym, true, false, not, ◌||◌, ◌==◌,
  Option, none, some, List, [], ◌++◌, arith, page_size, length, ℤ, is_neg, success, efault,
}
use aim_mips.Uvm.Calls.{Kernel}
use aim_mips.Uvm.{Vma, Mm, finish}
use aim_mips.Uvm.Operations.{create_uvm}
use aim_mips.Uvm.Laws.{Seen, IsCounted, entered_all, IsRun, IsFree, IsShort}
use aim_mips.Uvm.Areas.{IsSorted, IsBelow, Overlaps, find_vma_before-split}
use aim_mips.Uvm.Runs.{insert-IsSorted}
use aim_mips.Uvm.Release.{unmap_and_free_vma-seen}
use aim_mips.Uvm.Create.{create_loop-IsMade}

-- How `create_uvm` on `mm` has ended, when `s` has the count. `failed` and `stuck` come from the rollback.
pub data IsCreated {S : Type 0} (k : Kernel S) (seen : S → Seen) (lo : ℕ) (mm : Mm) (addr len : ℕ)
    (s : S) : Option (ℤ × Option Mm × S) → Type 0 where
  taken : Overlaps addr len mm.vmas → IsCreated k seen lo mm addr len s (some (efault, some mm, s))
  failed :
      (code : ℤ) (s1 : S)
      → is_neg code ≡ true
      → seen s1 ≡ seen s
      → IsCreated k seen lo mm addr len s (some (code, some mm, s1))
  stuck : IsShort k seen mm.pgindex addr → IsCreated k seen lo mm addr len s none
  made :
      (front vs back : List Vma) (s1 : S)
      → front ++ back ≡ mm.vmas
      → IsBelow addr front
      → IsRun addr vs
      → length vs * page_size ≡ len
      → IsSorted lo (front ++ (vs ++ back))
      → seen s1 ≡ entered_all mm.pgindex vs (seen s)
      → IsCreated k seen lo mm addr len s
          (some (success, some (record mm { vmas = front ++ (vs ++ back) }), s1))

module _ {S : Type 0} (k : Kernel S) (seen : S → Seen) (laws : IsCounted k seen) (ghost : ℕ) where
  -- With any count of the calls.
  pub create_uvm-ends :
      (lo : ℕ) (mm : Mm) (addr len flags : ℕ) (s : S)
      → IsSorted lo mm.vmas
      → lo ≤ addr
      → ghost ≤ addr
      → addr + len < 2 ^ 32
      → len % page_size ≡ 0
      → addr % page_size ≡ 0
      → 1 ≤ len
      → IsFree mm.pgindex addr len (seen s)
      → IsCreated k seen lo mm addr len s (create_uvm k ghost (some mm) addr len flags s)
  unfolding create_uvm finish IsRun entered_all
  create_uvm-ends lo mm addr len flags s sorted low g fit whole aligned one free =
      let guard : (not (len % page_size == 0) || not (addr % page_size == 0)) ≡ false =
        ground arith in
      let some_len : (len == 0) ≡ false = ground arith in
      let pg = mm.pgindex in
      elim (find_vma_before-split ghost addr len lo mm.vmas sorted g fit) [
        | inl (e, o) ↦ rw (create_uvm, guard, some_len, e) (taken o)
        | inr (front, back, e, joined, below, above) ↦
            elim (create_loop-IsMade k seen laws (len / page_size) pg addr addr flags 0 [] (seen s)
              s tt refl refl (omega arith) (omega arith)) [
                | inl (m, run, neg, h, few) ↦
                    elim (unmap_and_free_vma-seen k seen laws pg addr 0 m.mapped m.fresh back
                      (seen s) m.state h.run (λ x p q. free x p (omega arith))
                      (let z = h.mapped in omega arith) (let z = h.mapped in omega arith)
                      h.state_seen) [
                        | inl (s1, back_out, same) ↦
                            rw (create_uvm, guard, some_len, e, run, finish, back_out, joined)
                              (failed m.code s1 neg same)
                        | inr (back_out, short) ↦
                            rw (create_uvm, guard, some_len, e, run, finish, back_out) (stuck short)
                      ]
                | inr (m, run, h, count) ↦
                    let size : length m.fresh * page_size ≡ len = omega arith in
                    rw (create_uvm, guard, some_len, e, run, finish)
                      (made front m.fresh back m.state joined below h.run size
                        (insert-IsSorted lo addr front m.fresh back low
                          (subst (IsSorted lo) (sym joined) sorted) below h.run (omega arith)
                          (subst (λ n. IsSorted n back) (omega arith) above))
                        h.state_seen)
              ]
      ]
