-- ===== src/Kmmap/Examples.antt =====
-- Runs of the early mapping queue, and its theorems at a concrete queue.
use aim_mips.Prelude.{
  ℕ, ◌+◌, ◌≤◌, ◌<◌, length, ◌≡◌, ◌⊎◌, refl, some, [], ◌∷◌, ◌++◌, arith, success, einval, ℤ,
}
use aim_mips.Kmmap.{
  Mapping, Queue, Kind, early_mapping_clear, early_mapping_add, overlaps_any,
  early_mapping_add_memory, early_mapping_add_kmmap, early_mapping_queue_length, kmmap_base,
}
use aim_mips.Kmmap.Add.{Added, Fits, AllFit, early_mapping_add-Added}
use aim_mips.Kmmap.Layout.{
  IsMost, IsLaidOut, Extends, early_mapping_clear-IsLaidOut, early_mapping_add_memory-IsLaidOut,
  early_mapping_add_kmmap-IsLaidOut,
}

abbrev entry : ℕ → ℕ → Mapping
entry vaddr size = record { paddr = 0; vaddr = vaddr; size = size; kind = Kind.memory }

abbrev one_entry : Queue
one_entry = record {
  entries = entry 0x8000_0000 0x1000 ∷ [];
  mem_top = 0x8000_1000;
  kmmap_top = 0xf000_0000;
  umem_top = 0;
}

one_entry-IsLaidOut : IsLaidOut one_entry
one_entry-IsLaidOut = ground arith

-- A page inside the first mapping is refused, the same page again at its start is taken.
inside : early_mapping_add (entry 0x8000_0800 0x100) one_entry ≡ some (einval, one_entry)
unfolding early_mapping_add overlaps_any
inside = refl

same_start :
    early_mapping_add (entry 0x8000_0000 0x1000) one_entry
    ≡ some (
      success,
      record one_entry { entries = entry 0x8000_0000 0x1000 ∷ entry 0x8000_0000 0x1000 ∷ [] },
    )
unfolding early_mapping_add overlaps_any
same_start = refl

early_mapping_add-Added_example :
    (code : ℤ) × (q' : Queue) × (early_mapping_add (entry 0x9000_0000 0x1000) one_entry
      ≡ some (code, q'))
    × Added (entry 0x9000_0000 0x1000) one_entry code q'
unfolding Fits AllFit
early_mapping_add-Added_example =
    early_mapping_add-Added (entry 0x9000_0000 0x1000) one_entry (omega arith)
      (omega arith, omega arith) ((omega arith, omega arith), tt)

early_mapping_add_memory-IsLaidOut_example :
    (n : ℕ) × (q' : Queue) × (early_mapping_add_memory 0 0x1000 early_mapping_clear ≡ some (n, q'))
    × IsLaidOut q'
    × (n ≤ 0x1000)
    × (q'.mem_top ≡ early_mapping_clear.mem_top + n)
    × Extends early_mapping_clear
        (record { paddr = 0; vaddr = early_mapping_clear.mem_top; size = n; kind = Kind.memory })
        q'
    × (length early_mapping_clear.entries < early_mapping_queue_length
        → IsMost early_mapping_clear.mem_top kmmap_base 0x1000 n)
    × (length early_mapping_clear.entries < early_mapping_queue_length
        → early_mapping_clear.mem_top < kmmap_base
        → q'.entries
          ≡ early_mapping_clear.entries
            ++ record {
              paddr = 0;
              vaddr = early_mapping_clear.mem_top;
              size = n;
              kind = Kind.memory;
            }
              ∷ [])
    × (length early_mapping_clear.entries ≡ early_mapping_queue_length
        → (n ≡ 0) × (q' ≡ early_mapping_clear))
early_mapping_add_memory-IsLaidOut_example =
    early_mapping_add_memory-IsLaidOut 0 0x1000 early_mapping_clear early_mapping_clear-IsLaidOut

early_mapping_add_kmmap-IsLaidOut_example :
    (v : ℕ) × (q' : Queue) × (early_mapping_add_kmmap 0x1f00_0000 0x10_0000 one_entry
      ≡ some (v, q'))
    × IsLaidOut q'
    × (((v ≡ 0) × (q' ≡ one_entry))
        ⊎ ((v ≡ 0xf000_0000)
            × (q'.kmmap_top ≡ v + 0x10_0000)
            × (q'.entries
                ≡ one_entry.entries
                  ++ record { paddr = 0x1f00_0000; vaddr = v; size = 0x10_0000; kind = Kind.kmmap }
                    ∷ [])))
early_mapping_add_kmmap-IsLaidOut_example =
    early_mapping_add_kmmap-IsLaidOut 0x1f00_0000 0x10_0000 one_entry one_entry-IsLaidOut
