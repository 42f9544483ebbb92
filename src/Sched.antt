-- ===== src/Sched.antt =====
-- The plain scheduler of kern/proc/sched/scheduler.c, and `wakeup` of kern/proc/sched/sched.c. Process
-- pointers are addresses, 0 being NULL, and `node` is the offset of sched_node in struct proc.
pub mod Pick
pub mod Wake
mod Examples
use aim_mips.Prelude.{
  ℕ, zero, suc, Bool, true, false, Option, none, some, List, [], ◌∷◌, ◌==◌, ◌&&◌, not,
  if◌then◌else◌, add32, sub32,
}
use mathlib.Core.Option
use aim_mips.Ring.{Links, list_init, list_add, list_del, search, search_reverse}

abbrev pub ps_runnable : ℕ
ps_runnable = 2

abbrev pub ps_sleeping : ℕ
ps_sleeping = 3

-- The fields of every process that the scheduler reads.
pub record Procs : Type 0 where
  pub links : Links
  pub state : ℕ → ℕ
  pub pid : ℕ → ℕ
  pub bed : ℕ → ℕ

-- `list_entry(p, struct proc, sched_node)` and `&a->sched_node`.
abbrev pub list_entry : ℕ → ℕ → ℕ
list_entry node p = sub32 p node

abbrev pub sched_node : ℕ → ℕ → ℕ
sched_node node a = add32 a node

-- `__pick`: the loop ends at a node, and the process of that node is compared with the head.
pub pick : ℕ → ℕ → ℕ → Procs → Option ℕ
pick fuel node head s =
    Option.map (λ pos. if not (list_entry node pos == head) then list_entry node pos else 0)
      (search_reverse fuel (λ p. s.state (list_entry node p) == ps_runnable) head
        (s.links.prev head) s.links)

-- `__add`
pub add : ℕ → ℕ → ℕ → Procs → Procs
add node head p0 s = record s {
  links = list_add (sched_node node p0) head (list_init (sched_node node p0) s.links);
}

-- `__remove`
pub remove : ℕ → ℕ → Procs → Procs
remove node p0 s = record s { links = list_del (sched_node node p0) s.links }

-- `__next`
pub next : ℕ → ℕ → ℕ → Procs → ℕ
next node head p0 s =
    let res = list_entry node (s.links.next (sched_node node p0)) in if res == head then 0 else res

-- `__find`
pub find : ℕ → ℕ → ℕ → ℕ → Procs → Option ℕ
find fuel node head pid s =
    Option.map (λ pos. if not (list_entry node pos == head) then list_entry node pos else 0)
      (search fuel (λ p. s.pid (list_entry node p) == pid) head (s.links.next head) s.links)

-- One process in the loop of `wakeup`.
pub wake : ℕ → ℕ → Procs → Procs
wake bed proc s = record s {
  state = λ p.
      if p == proc && (s.bed proc == bed && s.state proc == ps_sleeping)
      then ps_runnable
      else s.state p;
}

-- The loop of `wakeup` from `proc` on, on fuel.
pub wakeup_loop : ℕ → ℕ → ℕ → ℕ → ℕ → Procs → Option Procs
unfolding wake next
wakeup_loop zero node head bed proc s = none
wakeup_loop (suc fuel) node head bed proc s =
    let s' = wake bed proc s in
    let rest = wakeup_loop fuel node head bed (next node head proc s') s' in
    if proc == 0 then some s else rest
