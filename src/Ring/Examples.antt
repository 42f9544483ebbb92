-- ===== src/Ring/Examples.antt =====
-- A ring of two nodes, built and searched.
use aim_mips.Prelude.{◌≡◌, [], ◌∷◌, arith, some, false, ◌==◌}
use aim_mips.Ring.{Links, list_init, list_add, list_add_tail, list_del, list_empty, search}
use aim_mips.Ring.Linked.{IsRing}
use aim_mips.Ring.Edit.{
  list_init-IsRing, list_add-IsRing, list_add_tail-IsRing, list_del-IsRing, list_empty_lem,
}
use aim_mips.Ring.Search.{first, search_lem}

abbrev start : Links
start = list_init 10 (record { next = λ p. 0; prev = λ p. 0 })

abbrev one : Links
one = list_add 20 10 start

abbrev two : Links
two = list_add_tail 30 10 one

one-IsRing : IsRing one 10 (20 ∷ [])
one-IsRing = list_add-IsRing 20 10 [] start (omega arith, tt) (list_init-IsRing 10 _)

two-IsRing : IsRing two 10 (20 ∷ 30 ∷ [])
two-IsRing = list_add_tail-IsRing 30 10 (20 ∷ []) one (omega arith, (omega arith, tt)) one-IsRing

list_del-IsRing_example : IsRing (list_del 30 two) 10 (20 ∷ [])
list_del-IsRing_example = list_del-IsRing 10 30 (20 ∷ []) [] two two-IsRing

list_empty_lem_example : list_empty 10 two ≡ false
list_empty_lem_example = list_empty_lem 10 (20 ∷ 30 ∷ []) two two-IsRing

search_lem_example :
    search 3 (λ p. p == 30) 10 (two.next 10) two ≡ some (first (λ p. p == 30) 10 (20 ∷ 30 ∷ []))
search_lem_example = search_lem 3 10 (λ p. p == 30) (20 ∷ 30 ∷ []) two (omega arith) two-IsRing
