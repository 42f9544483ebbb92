-- ===== src/ProcTree/Examples.antt =====
-- A parent at 10 with two children, and a third process.
use aim_mips.Prelude.{◌≡◌, refl, [], ◌∷◌, arith, some, ◌==◌, if◌then◌else◌}
use aim_mips.ProcTree.{Tree, proctree_remove}
use aim_mips.ProcTree.Siblings.{HasChildren}
use aim_mips.ProcTree.Remove.{proctree_remove-HasChildren}

abbrev family : Tree
family = record {
  parent = λ p. if p == 20 then 10 else if p == 30 then 10 else 0;
  first_child = λ p. if p == 10 then 20 else 0;
  next_sibling = λ p. if p == 20 then 30 else 0;
  prev_sibling = λ p. if p == 30 then 20 else 0;
}

family-HasChildren : HasChildren family 10 (20 ∷ 30 ∷ [])
family-HasChildren = record {
  chain = (refl, refl, (refl, refl, refl));
  distinct = ((omega arith, (omega arith, tt)), ((omega arith, tt), (tt, tt)));
}

proctree_remove-HasChildren_example :
    (t' : Tree) × (proctree_remove 30 family ≡ some t') × HasChildren t' 10 (20 ∷ [])
proctree_remove-HasChildren_example =
    proctree_remove-HasChildren 30 10 (20 ∷ []) [] family refl refl (omega arith) family-HasChildren
