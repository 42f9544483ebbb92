-- ===== src/Kmmap/Layout.antt =====
-- The three calls that choose the virtual address lay the mappings out without overlap, so none of
-- them is ever rejected for one.
use aim_mips.Prelude.{
  ℕ, ◌+◌, ◌-◌, ◌^◌, ◌≤◌, ◌<◌, ◌≡◌, refl, false, Bool-cases, inl, inr, arith, some, List, [], ◌∷◌,
  ◌++◌, leb, ltb, ◌==◌, ◌||◌, ◌⊎◌, if◌then◌else◌, add32-eq, success, enomem, length, length-append,
}
use aim_mips.Kmmap.{
  Mapping, Queue, overlaps_any, early_mapping_add, early_mapping_queue_length, kern_base,
  kmmap_base, reserved_base, usertop, early_mapping_clear, early_mapping_add_memory,
  early_mapping_add_kmmap, early_mapping_add_umem, Kind,
}

-- The mapping lies in its area, below the area's top.
abbrev pub InArea : ℕ → ℕ → ℕ → Mapping → Type 0
InArea mt kt ut e =
    ((kern_base ≤ e.vaddr) × (e.vaddr + e.size ≤ mt))
    ⊎ (((kmmap_base ≤ e.vaddr) × (e.vaddr + e.size ≤ kt)) ⊎ (e.vaddr + e.size ≤ ut))

abbrev pub AllInArea : ℕ → ℕ → ℕ → List Mapping → Type 0
AllInArea mt kt ut [] = Unit
AllInArea mt kt ut (e ∷ rest) = InArea mt kt ut e × AllInArea mt kt ut rest

-- No address in common with any mapping of the list.
abbrev pub ApartFrom : Mapping → List Mapping → Type 0
ApartFrom m [] = Unit
ApartFrom m (e ∷ rest) =
    ((m.vaddr + m.size ≤ e.vaddr) ⊎ (e.vaddr + e.size ≤ m.vaddr)) × ApartFrom m rest

abbrev pub AllApart : List Mapping → Type 0
AllApart [] = Unit
AllApart (e ∷ rest) = ApartFrom e rest × AllApart rest

pub record IsLaidOut (q : Queue) : Type 0 where
  pub room : length q.entries ≤ early_mapping_queue_length
  pub memory_top : (kern_base ≤ q.mem_top) × (q.mem_top ≤ kmmap_base)
  pub kmmap_top : (kmmap_base ≤ q.kmmap_top) × (q.kmmap_top ≤ reserved_base)
  pub umem_top : q.umem_top ≤ kern_base
  pub placed : AllInArea q.mem_top q.kmmap_top q.umem_top q.entries
  pub apart : AllApart q.entries

-- The next mapping begins at the top of an area and ends in it.
abbrev IsNext : ℕ → ℕ → ℕ → Mapping → Type 0
IsNext mt kt ut m =
    ((m.vaddr ≡ mt) × (m.vaddr + m.size ≤ kmmap_base))
    ⊎ (((m.vaddr ≡ kt) × (m.vaddr + m.size ≤ reserved_base))
        ⊎ ((m.vaddr ≡ ut) × (m.vaddr + m.size ≤ kern_base)))

module _ (mt kt ut : ℕ) (mlo : kern_base ≤ mt) (mhi : mt ≤ kmmap_base) (klo : kmmap_base ≤ kt)
    (khi : kt ≤ reserved_base) (uhi : ut ≤ kern_base) (m : Mapping) (n : IsNext mt kt ut m) where
  next-ApartFrom : (es : List Mapping) → AllInArea mt kt ut es → ApartFrom m es
  next-ApartFrom [] h = tt
  next-ApartFrom (e ∷ rest) h = (ground arith, next-ApartFrom rest h.1)

  next-overlaps_any : (es : List Mapping) → AllInArea mt kt ut es → overlaps_any m es ≡ false
  unfolding overlaps_any
  next-overlaps_any [] h = refl
  next-overlaps_any (e ∷ rest) h =
      let f : m.vaddr + m.size < 2 ^ 32 = ground arith in
      let f' : e.vaddr + e.size < 2 ^ 32 = ground arith in
      rw (add32-eq m.vaddr m.size f, add32-eq e.vaddr e.size f')
        (ground (arith, next-overlaps_any rest h.1))

AllInArea-mono :
    (mt kt ut mt' kt' ut' : ℕ) (es : List Mapping)
    → mt ≤ mt'
    → kt ≤ kt'
    → ut ≤ ut'
    → AllInArea mt kt ut es
    → AllInArea mt' kt' ut' es
AllInArea-mono mt kt ut mt' kt' ut' [] p q r h = tt
AllInArea-mono mt kt ut mt' kt' ut' (e ∷ rest) p q r h =
    (ground arith, AllInArea-mono mt kt ut mt' kt' ut' rest p q r h.1)

AllInArea-snoc :
    (mt kt ut : ℕ) (es : List Mapping) (m : Mapping)
    → AllInArea mt kt ut es
    → InArea mt kt ut m
    → AllInArea mt kt ut (es ++ m ∷ [])
AllInArea-snoc mt kt ut [] m h a = (a, tt)
AllInArea-snoc mt kt ut (e ∷ rest) m h a = (h.0, AllInArea-snoc mt kt ut rest m h.1 a)

ApartFrom-snoc :
    (e m : Mapping) (es : List Mapping)
    → ApartFrom e es
    → (m.vaddr + m.size ≤ e.vaddr) ⊎ (e.vaddr + e.size ≤ m.vaddr)
    → ApartFrom e (es ++ m ∷ [])
ApartFrom-snoc e m [] h a = (ground arith, tt)
ApartFrom-snoc e m (x ∷ rest) h a = (h.0, ApartFrom-snoc e m rest h.1 a)

AllApart-snoc :
    (es : List Mapping) (m : Mapping) → AllApart es → ApartFrom m es → AllApart (es ++ m ∷ [])
AllApart-snoc [] m h a = (tt, tt)
AllApart-snoc (e ∷ rest) m h a = (ApartFrom-snoc e m rest h.0 a.0, AllApart-snoc rest m h.1 a.1)

-- In a queue that is laid out, the next mapping is stored unless the queue is full.
add_next :
    (q : Queue) (m : Mapping)
    → IsLaidOut q
    → IsNext q.mem_top q.kmmap_top q.umem_top m
    → early_mapping_add m q ≡ (
        if length q.entries == early_mapping_queue_length
        then some (enomem, q)
        else some (success, record q { entries = q.entries ++ m ∷ [] }))
unfolding early_mapping_add
add_next q m ok n =
    let (mlo, mhi) = ok.memory_top in
    let (klo, khi) = ok.kmmap_top in
    let clear =
      next-overlaps_any q.mem_top q.kmmap_top q.umem_top mlo mhi klo khi ok.umem_top m n q.entries
        ok.placed in
    let room = ok.room in ground arith

-- Room for one more: the queue after storing the next mapping, with the tops moved up.
stored-IsLaidOut :
    (q : Queue) (m : Mapping) (mt kt ut : ℕ)
    → IsLaidOut q
    → (length q.entries == early_mapping_queue_length) ≡ false
    → IsNext q.mem_top q.kmmap_top q.umem_top m
    → q.mem_top ≤ mt
    → mt ≤ kmmap_base
    → q.kmmap_top ≤ kt
    → kt ≤ reserved_base
    → q.umem_top ≤ ut
    → ut ≤ kern_base
    → InArea mt kt ut m
    → IsLaidOut
        (record { entries = q.entries ++ m ∷ []; mem_top = mt; kmmap_top = kt; umem_top = ut })
stored-IsLaidOut q m mt kt ut ok notfull n m1 m2 k1 k2 u1 u2 a =
    let (mlo, mhi) = ok.memory_top in
    let (klo, khi) = ok.kmmap_top in
    let room = ok.room in
    record {
      room = ground (arith, length-append q.entries (m ∷ []));
      memory_top = (omega arith, m2);
      kmmap_top = (omega arith, k2);
      umem_top = u2;
      placed =
          AllInArea-snoc mt kt ut q.entries m
            (AllInArea-mono q.mem_top q.kmmap_top q.umem_top mt kt ut q.entries m1 k1 u1 ok.placed)
            a;
      apart = AllApart-snoc q.entries m ok.apart (
          next-ApartFrom q.mem_top q.kmmap_top q.umem_top mlo mhi klo khi ok.umem_top m n q.entries
            ok.placed);
    }

-- The call left the queue alone, or put `m` at its end.
abbrev pub Extends : Queue → Mapping → Queue → Type 0
Extends q m q' = (q' ≡ q) ⊎ (q'.entries ≡ q.entries ++ m ∷ [])

-- The empty queue is laid out.
pub early_mapping_clear-IsLaidOut : IsLaidOut early_mapping_clear
unfolding early_mapping_clear
early_mapping_clear-IsLaidOut = record {
  room = omega arith;
  memory_top = omega arith;
  kmmap_top = omega arith;
  umem_top = omega arith;
  placed = tt;
  apart = tt;
}

-- The call has taken `n` of `size` bytes at `top`: all of them, or as many as there are below `end`.
pub record IsMost (top end size n : ℕ) : Type 0 where
  pub asked : n ≤ size
  pub fits : top + n ≤ end
  pub most : (n ≡ size) ⊎ (top + n ≡ end)

-- On a queue that is laid out, `early_mapping_add_memory` moves the top of linear memory by what it returns
-- and keeps the mappings apart. With an entry left that is all of the region that fits below `kmmap_base`,
-- and it is mapped at the old top unless nothing is left there. On a full queue it is 0, with the queue as
-- it was.
pub early_mapping_add_memory-IsLaidOut :
    (base size : ℕ) (q : Queue)
    → IsLaidOut q
    → (n : ℕ) × (q' : Queue) × (early_mapping_add_memory base size q ≡ some (n, q'))
      × IsLaidOut q'
      × (n ≤ size)
      × (q'.mem_top ≡ q.mem_top + n)
      × Extends q (record { paddr = base; vaddr = q.mem_top; size = n; kind = Kind.memory }) q'
      × (length q.entries < early_mapping_queue_length → IsMost q.mem_top kmmap_base size n)
      × (length q.entries < early_mapping_queue_length
          → q.mem_top < kmmap_base
          → q'.entries
            ≡ q.entries
              ++ record { paddr = base; vaddr = q.mem_top; size = n; kind = Kind.memory } ∷ [])
      × (length q.entries ≡ early_mapping_queue_length → (n ≡ 0) × (q' ≡ q))
unfolding early_mapping_add_memory
early_mapping_add_memory-IsLaidOut base size q ok = elim (Bool-cases (leb kmmap_base q.mem_top)) [
  | inl e ↦
      let (mlo, mhi) = ok.memory_top in
      (
        0,
        q,
        rw e,
        ok,
        omega arith,
        omega arith,
        inl refl,
        λ l. record { asked = omega arith; fits = omega arith; most = inr (ground arith) },
        λ l h. absurd (ground arith),
        λ l. (refl, refl),
      )
  | inr e ↦
      let (mlo, mhi) = ok.memory_top in
      let (klo, khi) = ok.kmmap_top in
      let cut : ℕ = if ltb (kmmap_base - q.mem_top) size then kmmap_base - q.mem_top else size in
      let m : Mapping = record {
        paddr = base;
        vaddr = q.mem_top;
        size = cut;
        kind = Kind.memory;
      } in
      let fits : q.mem_top + cut ≤ kmmap_base = ground arith in
      let top = add32-eq q.mem_top cut (omega arith) in
      let next : IsNext q.mem_top q.kmmap_top q.umem_top m = inl (refl, fits) in
      elim (Bool-cases (length q.entries == early_mapping_queue_length)) [
        | inl f ↦ (
          0,
          q,
          rw (e, add_next q m ok next, f),
          ok,
          omega arith,
          omega arith,
          inl refl,
          λ l. absurd (ground arith),
          λ l h. absurd (ground arith),
          λ l. (refl, refl),
        )
        | inr f ↦ (
          cut,
          record q { entries = q.entries ++ m ∷ []; mem_top = q.mem_top + cut },
          rw (e, add_next q m ok next, f, top),
          stored-IsLaidOut q m (q.mem_top + cut) q.kmmap_top q.umem_top ok f next (omega arith) fits
              (omega arith) khi (omega arith) ok.umem_top (inl (mlo, omega arith)),
          ground arith,
          refl,
          inr refl,
          λ l. record { asked = ground arith; fits = fits; most = ground arith },
          λ l h. refl,
          λ l. absurd (ground arith),
        )
      ]
]

-- `early_mapping_add_kmmap` maps the whole region at the top of the dynamic area and returns where,
-- or returns `NULL` and leaves the queue alone; mappings stay apart.
pub early_mapping_add_kmmap-IsLaidOut :
    (base size : ℕ) (q : Queue)
    → IsLaidOut q
    → (v : ℕ) × (q' : Queue) × (early_mapping_add_kmmap base size q ≡ some (v, q'))
      × IsLaidOut q'
      × (((v ≡ 0) × (q' ≡ q))
          ⊎ ((v ≡ q.kmmap_top)
              × (q'.kmmap_top ≡ v + size)
              × (q'.entries
                  ≡ q.entries
                    ++ record { paddr = base; vaddr = v; size = size; kind = Kind.kmmap } ∷ [])))
unfolding early_mapping_add_kmmap
early_mapping_add_kmmap-IsLaidOut base size q ok =
    elim (Bool-cases (leb reserved_base q.kmmap_top || ltb (reserved_base - q.kmmap_top) size)) [
      | inl e ↦ (0, q, rw e, ok, inl (refl, refl))
      | inr e ↦
          let (mlo, mhi) = ok.memory_top in
          let (klo, khi) = ok.kmmap_top in
          let m : Mapping = record {
            paddr = base;
            vaddr = q.kmmap_top;
            size = size;
            kind = Kind.kmmap;
          } in
          let fits : q.kmmap_top + size ≤ reserved_base = ground arith in
          let top = add32-eq q.kmmap_top size (omega arith) in
          let next : IsNext q.mem_top q.kmmap_top q.umem_top m = inr (inl (refl, fits)) in
          elim (Bool-cases (length q.entries == early_mapping_queue_length)) [
            | inl f ↦ (0, q, rw (e, add_next q m ok next, f), ok, inl (refl, refl))
            | inr f ↦ (
              q.kmmap_top,
              record q { entries = q.entries ++ m ∷ []; kmmap_top = q.kmmap_top + size },
              rw (e, add_next q m ok next, f, top),
              stored-IsLaidOut q m q.mem_top (q.kmmap_top + size) q.umem_top ok f next (omega arith)
                  mhi (omega arith) fits (omega arith) ok.umem_top (inr (inl (klo, omega arith))),
              inr (refl, refl, refl),
            )
          ]
    ]

-- `early_mapping_add_umem` moves the top of user memory by what it returns, which is what it has mapped
-- there of the region; mappings stay apart.
pub early_mapping_add_umem-IsLaidOut :
    (base size : ℕ) (q : Queue)
    → IsLaidOut q
    → (n : ℕ) × (q' : Queue) × (early_mapping_add_umem base size q ≡ some (n, q'))
      × IsLaidOut q'
      × (n ≤ size)
      × (q'.umem_top ≡ q.umem_top + n)
      × Extends q (record { paddr = base; vaddr = q.umem_top; size = n; kind = Kind.memory }) q'
unfolding early_mapping_add_umem
early_mapping_add_umem-IsLaidOut base size q ok = elim (Bool-cases (leb usertop q.umem_top)) [
  | inl e ↦ (0, q, rw e, ok, omega arith, omega arith, inl refl)
  | inr e ↦
      let (mlo, mhi) = ok.memory_top in
      let (klo, khi) = ok.kmmap_top in
      let uhi = ok.umem_top in
      let cut : ℕ = if ltb (kern_base - q.umem_top) size then kern_base - q.umem_top else size in
      let m : Mapping = record {
        paddr = base;
        vaddr = q.umem_top;
        size = cut;
        kind = Kind.memory;
      } in
      let fits : q.umem_top + cut ≤ kern_base = ground arith in
      let top = add32-eq q.umem_top cut (omega arith) in
      let next : IsNext q.mem_top q.kmmap_top q.umem_top m = inr (inr (refl, fits)) in
      elim (Bool-cases (length q.entries == early_mapping_queue_length)) [
        | inl f ↦ (0, q, rw (e, add_next q m ok next, f), ok, omega arith, omega arith, inl refl)
        | inr f ↦ (
          cut,
          record q { entries = q.entries ++ m ∷ []; umem_top = q.umem_top + cut },
          rw (e, add_next q m ok next, f, top),
          stored-IsLaidOut q m q.mem_top q.kmmap_top (q.umem_top + cut) ok f next (omega arith) mhi
              (omega arith) khi (omega arith) fits (inr (inr (omega arith))),
          ground arith,
          refl,
          inr refl,
        )
      ]
]
