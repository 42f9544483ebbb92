-- ===== src/Kmmap/Add.antt =====
-- `OVERLAP` and `early_mapping_add`: what is rejected, and what is kept.
use aim_mips.Prelude.{
  ℕ, ◌+◌, ◌^◌, ◌≤◌, ◌<◌, ◌≡◌, ◌≢◌, true, false, Bool-cases, inl, inr, arith, some, [], ◌∷◌, ◌++◌,
  ltb, ◌==◌, ◌&&◌, ◌||◌, ◌⊎◌, ◌↔◌, add32-eq, success, enomem, einval, ℤ, length, List, refl, ap,
  ◌∙◌, sym,
}
use aim_mips.Kmmap.{
  Mapping, Queue, overlap, overlaps_any, early_mapping_add, early_mapping_queue_length,
}

-- For non-empty regions that start apart and do not wrap, `OVERLAP` holds exactly when they share
-- an address.
pub overlap_iff :
    (a la b lb : ℕ)
    → 0 < la
    → 0 < lb
    → a + la < 2 ^ 32
    → b + lb < 2 ^ 32
    → a ≢ b
    → (overlap a la b lb ≡ true) ↔ ((x : ℕ) × (a ≤ x) × (x < a + la) × (b ≤ x) × (x < b + lb))
unfolding overlap
overlap_iff a la b lb pa pb fa fb ne =
    rw (add32-eq a la fa, add32-eq b lb fb) (there, λ h. ground (arith, h))
  where
    there :
        (ltb b a && ltb a (b + lb)) || (ltb a b && ltb b (a + la)) ≡ true
        → (x : ℕ) × (a ≤ x) × (x < a + la) × (b ≤ x) × (x < b + lb)
    there h = elim (Bool-cases (ltb a b)) [
      | inl e ↦ (b, ground arith, ground arith, ground arith, ground arith)
      | inr e ↦ (a, ground arith, ground arith, ground arith, ground arith)
    ]

-- Two regions with the same start never count as overlapping, whatever their sizes.
pub overlap_same_start : (a la lb : ℕ) → overlap a la a lb ≡ false
unfolding overlap
overlap_same_start a la lb = ground arith

-- The region is not empty and does not wrap.
unfoldable pub Fits : Mapping → Type 0
Fits m = (0 < m.size) × (m.vaddr + m.size < 2 ^ 32)

unfoldable pub AllFit : List Mapping → Type 0
AllFit [] = Unit
AllFit (e ∷ rest) = Fits e × AllFit rest

-- They start apart and have an address in common.
pub Shares : Mapping → Mapping → Type 0
Shares m e =
    (m.vaddr ≢ e.vaddr)
    × ((x : ℕ) × (m.vaddr ≤ x) × (x < m.vaddr + m.size) × (e.vaddr ≤ x) × (x < e.vaddr + e.size))

-- One of the list shares an address with the mapping.
pub Clashes : Mapping → List Mapping → Type 0
Clashes m [] = ⊥
Clashes m (e ∷ rest) = Shares m e ⊎ Clashes m rest

overlap-Shares :
    (m e : Mapping) → Fits m → Fits e → (overlap m.vaddr m.size e.vaddr e.size ≡ true) ↔ Shares m e
unfolding Fits Shares
overlap-Shares m e fm fe = elim (Bool-cases (m.vaddr == e.vaddr)) [
  | inl same ↦
      let start : m.vaddr ≡ e.vaddr = ground arith in
      let never : overlap m.vaddr m.size e.vaddr e.size ≡ false =
        ap (λ a. overlap m.vaddr m.size a e.size) (sym start)
        ∙ overlap_same_start m.vaddr m.size e.size in
      (λ t. absurd cc, λ s. absurd (s.0 start))
  | inr other ↦
      let ne : m.vaddr ≢ e.vaddr = ground arith in
      let i = overlap_iff m.vaddr m.size e.vaddr e.size fm.0 fe.0 fm.1 fe.1 ne in
      (λ t. (ne, i.0 t), λ s. let (other_start, shared) = s in i.1 shared)
]

overlaps_any_iff :
    (m : Mapping) (es : List Mapping)
    → Fits m
    → AllFit es
    → (overlaps_any m es ≡ true) ↔ Clashes m es
unfolding overlaps_any AllFit Clashes
overlaps_any_iff m [] fm fa = (λ e. absurd cc, λ c. absurd c)
overlaps_any_iff m (e ∷ rest) fm fa =
    let first = overlap-Shares m e fm fa.0 in
    let later = overlaps_any_iff m rest fm fa.1 in
    (
      λ t. elim (Bool-cases (overlap m.vaddr m.size e.vaddr e.size)) [
        | inl o ↦ inl (first.0 o)
        | inr o ↦ inr (later.0 (ground arith))
      ],
      λ c. elim c [
        | inl s ↦ let o = first.1 s in ground arith
        | inr s ↦ let o = later.1 s in ground arith
      ],
    )

-- What each code means, and the queue that comes with it.
pub record Added (entry : Mapping) (q : Queue) (code : ℤ) (q' : Queue) : Type 0 where
  pub full : (code ≡ enomem) ↔ (length q.entries ≡ early_mapping_queue_length)
  pub clash :
      (code ≡ einval) ↔ ((length q.entries < early_mapping_queue_length) × Clashes entry q.entries)
  pub stored :
      (code ≡ success)
      ↔ ((length q.entries < early_mapping_queue_length) × ¬ (Clashes entry q.entries))
  pub kept : code ≢ success → q' ≡ q
  pub appended : code ≡ success → q' ≡ record q { entries = q.entries ++ entry ∷ [] }

-- For an entry and a queue of non-empty regions that do not wrap, no more of them than the queue can hold,
-- `early_mapping_add` returns -ENOMEM exactly when the queue is full, else -EINVAL exactly when the entry
-- has an address in common with one of the queue that starts elsewhere, and else 0. The queue is as it was
-- after an error, and has the entry at its end after a 0.
pub early_mapping_add-Added :
    (entry : Mapping) (q : Queue)
    → length q.entries ≤ early_mapping_queue_length
    → Fits entry
    → AllFit q.entries
    → (code : ℤ) × (q' : Queue) × (early_mapping_add entry q ≡ some (code, q'))
      × Added entry q code q'
unfolding early_mapping_add
early_mapping_add-Added entry q h fm fa =
    let clashing = overlaps_any_iff entry q.entries fm fa in
    elim (Bool-cases (length q.entries == early_mapping_queue_length)) [
      | inl e ↦ (
        enomem,
        q,
        ground arith,
        record {
          full = (λ c. ground arith, λ l. refl);
          clash = (λ c. absurd cc, λ l. absurd (ground arith));
          stored = (λ c. absurd cc, λ l. absurd (ground arith));
          kept = λ ne. refl;
          appended = λ c. absurd cc;
        },
      )
      | inr e ↦ elim (Bool-cases (overlaps_any entry q.entries)) [
        | inl o ↦ (
          einval,
          q,
          ground arith,
          record {
            full = (λ c. absurd cc, λ l. absurd (ground arith));
            clash = (λ c. (ground arith, clashing.0 o), λ l. refl);
            stored = (λ c. absurd cc, λ l. absurd (l.1 (clashing.0 o)));
            kept = λ ne. refl;
            appended = λ c. absurd cc;
          },
        )
        | inr o ↦ (
          success,
          record q { entries = q.entries ++ entry ∷ [] },
          ground arith,
          record {
            full = (λ c. absurd cc, λ l. absurd (ground arith));
            clash = (λ c. absurd cc, λ l. absurd (let t = clashing.1 l.1 in cc));
            stored = (λ c. (ground arith, λ s. let t = clashing.1 s in absurd cc), λ l. refl);
            kept = λ ne. absurd (ne refl);
            appended = λ c. refl;
          },
        )
      ]
    ]
