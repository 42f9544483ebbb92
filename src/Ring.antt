-- ===== src/Ring.antt =====
-- The doubly linked rings of include/list.h, over an explicit store of the links of every node.
pub mod Linked
pub mod Edit
pub mod Search
mod Examples
use aim_mips.Prelude.{
  ℕ, zero, suc, Bool, true, false, Option, none, some, List, [], ◌∷◌, ◌==◌, ◌&&◌, not,
  if◌then◌else◌,
}

-- `struct list_head`, for every address.
pub record Links : Type 0 where
  pub next : ℕ → ℕ
  pub prev : ℕ → ℕ

pub set_next : ℕ → ℕ → Links → Links
set_next p v l = record l { next = λ q. if q == p then v else l.next q }

pub set_prev : ℕ → ℕ → Links → Links
set_prev p v l = record l { prev = λ q. if q == p then v else l.prev q }

-- `INIT_LIST_HEAD`
pub list_init : ℕ → Links → Links
unfolding set_next set_prev
list_init list l = set_prev list list (set_next list list l)

-- `__list_add`
pub list_add_between : ℕ → ℕ → ℕ → Links → Links
unfolding set_next set_prev
list_add_between new prev next l =
    set_next prev new (set_prev new prev (set_next new next (set_prev next new l)))

pub list_add : ℕ → ℕ → Links → Links
unfolding list_add_between
list_add new head l = list_add_between new head (l.next head) l

pub list_add_tail : ℕ → ℕ → Links → Links
unfolding list_add_between
list_add_tail new head l = list_add_between new (l.prev head) head l

-- `__list_del`
pub list_del_between : ℕ → ℕ → Links → Links
unfolding set_next set_prev
list_del_between prev next l = set_next prev next (set_prev next prev l)

pub list_del : ℕ → Links → Links
unfolding list_del_between
list_del entry l = list_del_between (l.prev entry) (l.next entry) l

pub list_del_init : ℕ → Links → Links
unfolding list_del list_init
list_del_init entry l = list_init entry (list_del entry l)

pub list_is_first : ℕ → ℕ → Links → Bool
list_is_first list head l = l.prev list == head

pub list_is_last : ℕ → ℕ → Links → Bool
list_is_last list head l = l.next list == head

pub list_empty : ℕ → Links → Bool
list_empty head l = l.next head == head

pub list_is_singular : ℕ → Links → Bool
unfolding list_empty
list_is_singular head l = not (list_empty head l) && l.next head == l.prev head

-- The loops `for_each_entry` and `for_each_entry_reverse` with a body that breaks on the first node
-- with a property, on fuel: the node that the loop ends at, which is the head if none has it.
pub search : ℕ → (ℕ → Bool) → ℕ → ℕ → Links → Option ℕ
search zero found head pos l = none
search (suc fuel) found head pos l =
    let rest = search fuel found head (l.next pos) l in
    if pos == head then some pos else if found pos then some pos else rest

pub search_reverse : ℕ → (ℕ → Bool) → ℕ → ℕ → Links → Option ℕ
search_reverse zero found head pos l = none
search_reverse (suc fuel) found head pos l =
    let rest = search_reverse fuel found head (l.prev pos) l in
    if pos == head then some pos else if found pos then some pos else rest
