-- ===== src/ProcTree.antt =====
-- The process tree of kern/proc/proctree.c. Process pointers are addresses, 0 being NULL.
pub mod Siblings
pub mod Remove
mod Examples
use aim_mips.Prelude.{ℕ, Bool, Option, none, some, ◌==◌, ◌&&◌, ◌||◌, not, if◌then◌else◌}

-- The links of every `struct proc` in the tree.
pub record Tree : Type 0 where
  pub parent : ℕ → ℕ
  pub first_child : ℕ → ℕ
  pub next_sibling : ℕ → ℕ
  pub prev_sibling : ℕ → ℕ

-- `f[at] = v`
abbrev pub put : ℕ → ℕ → (ℕ → ℕ) → ℕ → ℕ
put at v f p = if p == at then v else f p

-- `if (p != NULL) f[p] = v;`
abbrev pub put_unless_null : ℕ → ℕ → (ℕ → ℕ) → ℕ → ℕ
put_unless_null at v f p = if not (at == 0) && p == at then v else f p

pub proctree_add_child : ℕ → ℕ → Tree → Tree
proctree_add_child child parent t = record {
  parent = put child parent t.parent;
  next_sibling = put child (t.first_child parent) t.next_sibling;
  prev_sibling = put_unless_null (t.first_child parent) child t.prev_sibling;
  first_child = put parent child t.first_child;
}

-- none is a panic.
pub proctree_remove : ℕ → Tree → Option Tree
proctree_remove pos t =
    let father = t.parent pos in
    if not (t.first_child pos == 0) || father == 0
    then none
    else let first' =
        if pos == t.first_child father
        then put father (t.next_sibling pos) t.first_child
        else t.first_child in
      let next' = put_unless_null (t.prev_sibling pos) (t.next_sibling pos) t.next_sibling in
      some (record {
        parent = t.parent;
        first_child = first';
        next_sibling = next';
        prev_sibling = put_unless_null (next' pos) (t.prev_sibling pos) t.prev_sibling;
      })
