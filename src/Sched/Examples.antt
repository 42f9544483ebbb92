-- ===== src/Sched/Examples.antt =====
-- Two processes at 2000 and 3000, with sched_node 100 bytes into each, and the head at 1000.
use aim_mips.Prelude.{
  ℕ, ◌≡◌, ◌≢◌, ◌⊎◌, inl, inr, refl, [], ◌∷◌, arith, some, none, ◌==◌, if◌then◌else◌,
}
use aim_mips.Ring.{Links, list_init, list_add}
use aim_mips.Ring.Linked.{IsRing}
use aim_mips.Ring.Edit.{list_init-IsRing, list_add-IsRing}
use aim_mips.Ring.Search.{In}
use aim_mips.Sched.{Procs, pick, add, remove, wakeup_loop, list_entry, ps_runnable, ps_sleeping}
use aim_mips.Sched.Pick.{IsPlaced, pick-IsFound, remove-add}
use aim_mips.Sched.Wake.{wakeup_loop-none}

abbrev start : Links
start = list_init 1000 (record { next = λ p. 0; prev = λ p. 0 })

abbrev one : Links
one = list_add 2100 1000 start

-- Both processes sleep.
abbrev asleep : Procs
asleep = record {
  links = list_add 3100 1000 one;
  state = λ p. ps_sleeping;
  pid = λ p. if p == 2000 then 1 else 2;
  bed = λ p. 7;
}

asleep-IsRing : IsRing asleep.links 1000 (3100 ∷ 2100 ∷ [])
asleep-IsRing =
    list_add-IsRing 3100 1000 (2100 ∷ []) one (omega arith, (omega arith, tt))
      (list_add-IsRing 2100 1000 [] start (omega arith, tt) (list_init-IsRing 1000 _))

asleep-IsPlaced : IsPlaced 100 1000 (3100 ∷ 2100 ∷ [])
asleep-IsPlaced x i = elim i [
  | inl e ↦ (omega arith, omega arith, omega arith)
  | inr j ↦ elim j [
    | inl e ↦ (omega arith, omega arith, omega arith)
    | inr k ↦ elim k [ inl e ↦ (omega arith, omega arith, omega arith) | inr n ↦ absurd n ]
  ]
]

pick-IsFound_example :
    (z : ℕ) × (pick 3 100 1000 asleep ≡ some (list_entry 100 z))
    × (list_entry 100 z ≢ 0)
    × ((In z (3100 ∷ 2100 ∷ []) × (asleep.state (list_entry 100 z) ≡ ps_runnable))
        ⊎ ((z ≡ 1000)
            × ((x : ℕ) → In x (3100 ∷ 2100 ∷ []) → asleep.state (list_entry 100 x) ≢ ps_runnable)))
pick-IsFound_example =
    pick-IsFound 3 100 1000 (3100 ∷ 2100 ∷ []) asleep (omega arith) asleep-IsRing asleep-IsPlaced

remove-add_example :
    IsRing (add 100 1000 4000 asleep).links 1000 (4100 ∷ 3100 ∷ 2100 ∷ [])
    × IsRing (remove 100 4000 (add 100 1000 4000 asleep)).links 1000 (3100 ∷ 2100 ∷ [])
remove-add_example =
    remove-add 100 1000 4000 (3100 ∷ 2100 ∷ []) asleep
      (omega arith, (omega arith, (omega arith, tt))) asleep-IsRing

wakeup_loop-none_example : wakeup_loop 50 100 1000 7 3000 asleep ≡ none
wakeup_loop-none_example =
    wakeup_loop-none 50 100 1000 7 3100 (3100 ∷ 2100 ∷ []) asleep (omega arith) asleep-IsRing
      asleep-IsPlaced (inr (inl refl))
