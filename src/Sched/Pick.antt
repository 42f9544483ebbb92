-- ===== src/Sched/Pick.antt =====
-- What the scheduler answers, and what it does when it has none to answer.
use aim_mips.Prelude.{
  ℕ, ◌^◌, ◌<◌, ◌≡◌, ◌≢◌, ◌⊎◌, refl, inl, inr, Bool, false, some, List, [], ◌∷◌, arith, ◌==◌, length,
}
use aim_mips.Ring.{list_init}
use aim_mips.Ring.Linked.{NotIn, IsRing}
use aim_mips.Ring.Edit.{list_add-IsRing, list_del-IsRing, list_init-keeps}
use aim_mips.Ring.Search.{
  In, first, last, search_lem, search_reverse_lem, last-IsFound, first-IsFound,
}
use aim_mips.Sched.{Procs, pick, find, add, remove, list_entry, sched_node, ps_runnable}

-- Where the processes of the ring lie: no process begins at the address of the head or at 0.
abbrev pub IsPlaced : ℕ → ℕ → List ℕ → Type 0
IsPlaced node head xs =
    (x : ℕ) → In x (head ∷ xs) → (x < 2 ^ 32) × (list_entry node x ≢ head) × (list_entry node x ≢ 0)

pick_lem :
    (fuel node head : ℕ) (xs : List ℕ) (s : Procs)
    → length xs < fuel
    → IsRing s.links head xs
    → let z = last (λ p. s.state (list_entry node p) == ps_runnable) head xs in
      list_entry node z ≢ head → pick fuel node head s ≡ some (list_entry node z)
unfolding pick
pick_lem fuel node head xs s f r ne =
    let found : ℕ → Bool = λ p. s.state (list_entry node p) == ps_runnable in
    let e : (list_entry node (last found head xs) == head) ≡ false = ground arith in
    rw (search_reverse_lem fuel head found xs s.links f r, e) refl

find_lem :
    (fuel node head pid : ℕ) (xs : List ℕ) (s : Procs)
    → length xs < fuel
    → IsRing s.links head xs
    → let z = first (λ p. s.pid (list_entry node p) == pid) head xs in
      list_entry node z ≢ head → find fuel node head pid s ≡ some (list_entry node z)
unfolding find
find_lem fuel node head pid xs s f r ne =
    let found : ℕ → Bool = λ p. s.pid (list_entry node p) == pid in
    let e : (list_entry node (first found head xs) == head) ≡ false = ground arith in
    rw (search_lem fuel head found xs s.links f r, e) refl

-- `pick` answers a process of the ring that is runnable if there is one. If there is none it does not
-- answer NULL: it answers the address before the list head where a process would begin.
pub pick-IsFound :
    (fuel node head : ℕ) (xs : List ℕ) (s : Procs)
    → length xs < fuel
    → IsRing s.links head xs
    → IsPlaced node head xs
    → (z : ℕ) × (pick fuel node head s ≡ some (list_entry node z))
      × (list_entry node z ≢ 0)
      × ((In z xs × (s.state (list_entry node z) ≡ ps_runnable))
          ⊎ ((z ≡ head) × ((x : ℕ) → In x xs → s.state (list_entry node x) ≢ ps_runnable)))
pick-IsFound fuel node head xs s f r placed =
    let found : ℕ → Bool = λ p. s.state (list_entry node p) == ps_runnable in
    let z = last found head xs in
    let is_found = last-IsFound found head xs in
    let i : In z (head ∷ xs) = elim is_found [ inl (i, _) ↦ inr i | inr (e, _) ↦ inl e ] in
    let (_, nh, nz) = placed z i in
    (
      z,
      pick_lem fuel node head xs s f r nh,
      nz,
      elim is_found [
        | inl (j, b) ↦ inl (j, ground arith)
        | inr (e, others) ↦ inr (
          e,
          λ x j q.
              let b : (s.state (list_entry node x) == ps_runnable) ≡ false = others x j in
              ground arith,
        )
      ],
    )

-- `find` answers the first process of the ring with the pid, in the ring's order; if there is none it
-- too answers the address before the list head.
pub find-IsFound :
    (fuel node head pid : ℕ) (xs : List ℕ) (s : Procs)
    → length xs < fuel
    → IsRing s.links head xs
    → IsPlaced node head xs
    → (z : ℕ) × (find fuel node head pid s ≡ some (list_entry node z))
      × (list_entry node z ≢ 0)
      × ((In z xs × (s.pid (list_entry node z) ≡ pid))
          ⊎ ((z ≡ head) × ((x : ℕ) → In x xs → s.pid (list_entry node x) ≢ pid)))
find-IsFound fuel node head pid xs s f r placed =
    let found : ℕ → Bool = λ p. s.pid (list_entry node p) == pid in
    let z = first found head xs in
    let is_found = first-IsFound found head xs in
    let i : In z (head ∷ xs) = elim is_found [ inl (i, _) ↦ inr i | inr (e, _) ↦ inl e ] in
    let (_, nh, nz) = placed z i in
    (
      z,
      find_lem fuel node head pid xs s f r nh,
      nz,
      elim is_found [
        | inl (j, b) ↦ inl (j, ground arith)
        | inr (e, others) ↦ inr (
          e,
          λ x j q. let b : (s.pid (list_entry node x) == pid) ≡ false = others x j in ground arith,
        )
      ],
    )

-- `add` puts a new process first in the ring, and `remove` then takes it out again.
pub remove-add :
    (node head p0 : ℕ) (xs : List ℕ) (s : Procs)
    → NotIn (sched_node node p0) (head ∷ xs)
    → IsRing s.links head xs
    → IsRing (add node head p0 s).links head (sched_node node p0 ∷ xs)
      × IsRing (remove node p0 (add node head p0 s)).links head xs
unfolding add remove
remove-add node head p0 xs s out r =
    let added =
      list_add-IsRing (sched_node node p0) head xs (list_init (sched_node node p0) s.links) out
        (list_init-keeps (sched_node node p0) head xs s.links out r) in
    (added, list_del-IsRing head (sched_node node p0) [] xs _ added)
