-- ===== src/Sched/Wake.antt =====
-- The loop of `wakeup`.
use aim_mips.Prelude.{
  ℕ, zero, suc, ◌^◌, ◌<◌, ◌≡◌, ◌≢◌, refl, ap, ◌∙◌, false, none, List, ◌∷◌, arith, ◌==◌,
}
use aim_mips.Ring.Linked.{IsRing}
use aim_mips.Ring.Search.{In, next-In_ring}
use aim_mips.Sched.{Procs, next, wake, wakeup_loop, list_entry, sched_node}
use aim_mips.Sched.Pick.{IsPlaced}

wake-links : (bed proc : ℕ) (s : Procs) → (wake bed proc s).links ≡ s.links
unfolding wake
wake-links bed proc s = refl

next_lem :
    (node head x : ℕ) (s : Procs)
    → x < 2 ^ 32
    → node < 2 ^ 32
    → list_entry node (s.links.next x) ≢ head
    → next node head (list_entry node x) s ≡ list_entry node (s.links.next x)
unfolding next
next_lem node head x s hx hn ne =
    let e : sched_node node (list_entry node x) ≡ x = omega arith in
    let b : (list_entry node (s.links.next x) == head) ≡ false = ground arith in rw (e, b) refl

wakeup_loop-zero : (node head bed proc : ℕ) (s : Procs) → wakeup_loop 0 node head bed proc s ≡ none
unfolding wakeup_loop
wakeup_loop-zero node head bed proc s = refl

wakeup_loop-step :
    (fuel node head bed proc : ℕ) (s : Procs)
    → proc ≢ 0
    → wakeup_loop (suc fuel) node head bed proc s
      ≡ wakeup_loop fuel node head bed (next node head proc (wake bed proc s)) (wake bed proc s)
unfolding wakeup_loop
wakeup_loop-step fuel node head bed proc s nz =
    let b : (proc == 0) ≡ false = ground arith in rw b refl

-- The loop of `wakeup`, once it is at a process of the ring, never ends: the entry that lies before the
-- head is not NULL, and the loop goes on from it to the first process again.
pub wakeup_loop-none :
    (fuel node head bed x : ℕ) (xs : List ℕ) (s : Procs)
    → node < 2 ^ 32
    → IsRing s.links head xs
    → IsPlaced node head xs
    → In x (head ∷ xs)
    → wakeup_loop fuel node head bed (list_entry node x) s ≡ none
wakeup_loop-none zero node head bed x xs s hn r placed i =
    wakeup_loop-zero node head bed (list_entry node x) s
wakeup_loop-none (suc fuel) node head bed x xs s hn r placed i =
    let (hx, _, nz) = placed x i in
    let s' = wake bed (list_entry node x) s in
    let r' : IsRing s'.links head xs = rw (wake-links bed (list_entry node x) s) r in
    let i' = next-In_ring head x xs s'.links r' i in
    let (_, nh, _) = placed (s'.links.next x) i' in
    wakeup_loop-step fuel node head bed (list_entry node x) s nz
    ∙ ap (λ (p : ℕ). wakeup_loop fuel node head bed p s') (next_lem node head x s' hx hn nh)
    ∙ wakeup_loop-none fuel node head bed (s'.links.next x) xs s' hn r' placed i'
