-- ===== src/Kmmap/Walk.antt =====
-- The iterator visits the entries in order.
use aim_mips.Prelude.{
  ℕ, zero, suc, ◌-◌, ◌≡◌, ◌<◌, ◌≤◌, refl, arith, Option, none, some, List, [], ◌∷◌, length,
  get_elem?, inl, inr, leb, ap, Bool-cases, drop, drop-all, drop-get_elem?, sym, if◌then◌else◌,
}
use native.Mathlib.Numerals.{add-one}
use aim_mips.Kmmap.{Mapping, Queue, early_mapping_next}

-- The loop `for (m = next(NULL); m != NULL; m = next(m))`, on fuel: the entries it visits.
abbrev pub visit : ℕ → Option ℕ → Queue → List Mapping
visit zero base q = []
visit (suc fuel) base q = elim (early_mapping_next base q) [
  | none ↦ []
  | some i ↦ elim (get_elem? q.entries i) [ none ↦ [] | some m ↦ m ∷ visit fuel (some i) q ]
]

visit-step :
    (fuel k : ℕ) (base : Option ℕ) (q : Queue)
    → early_mapping_next base q ≡ (if leb (length q.entries) k then none else some k)
    → ((k < length q.entries) → visit fuel (some k) q ≡ drop (suc k) q.entries)
    → visit (suc fuel) base q ≡ drop k q.entries
visit-step fuel k base q step rest = elim (Bool-cases (leb (length q.entries) k)) [
  | inl e ↦ rw (visit, step, e) (sym (drop-all k q.entries (ground arith)))
  | inr e ↦
      let (m, got, here) = drop-get_elem? k q.entries (ground arith) in
      rw (visit, step, e, got, here) (ap (λ xs. m ∷ xs) (rest (ground arith)))
]

visit-drop :
    (fuel i : ℕ) (q : Queue)
    → length q.entries - i ≤ fuel
    → visit (suc fuel) (some i) q ≡ drop (suc i) q.entries
unfolding early_mapping_next
visit-drop zero i q h = visit-step zero (suc i) (some i) q (rw add-one) (λ lt. absurd (omega arith))
visit-drop (suc fuel) i q h =
    visit-step (suc fuel) (suc i) (some i) q (rw add-one)
      (λ lt. visit-drop fuel (suc i) q (omega arith))

-- From `NULL` the iterator visits every entry once, in the order of the queue, and ends.
pub visit-all : (q : Queue) → visit (suc (suc (length q.entries))) none q ≡ q.entries
unfolding early_mapping_next
visit-all q =
    visit-step (suc (length q.entries)) 0 none q refl
      (λ lt. visit-drop (length q.entries) 0 q (omega arith))
