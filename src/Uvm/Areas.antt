-- ===== src/Uvm/Areas.antt =====
-- Where __find_vma_before and __find_continuous_vma look.
use aim_mips.Prelude.{
  ℕ, ◌+◌, ◌^◌, ◌≤◌, ◌<◌, ◌≡◌, ◌⊎◌, inl, inr, refl, sym, ap, ◌∙◌, true, false, ltb, leb, none, some,
  List, [], ◌∷◌, ◌++◌, arith, Bool-cases, add32,
}
use aim_mips.Uvm.{Vma, split_at, last_end, find_vma_before}

-- Areas in order from `lo` on, apart, below the top of the address space.
unfoldable pub IsSorted : ℕ → List Vma → Type 0
IsSorted lo [] = Unit
IsSorted lo (v ∷ vs) =
    (lo ≤ v.start) × (1 ≤ v.size) × (v.start + v.size < 2 ^ 32) × IsSorted (v.start + v.size) vs

-- All of the areas end at `addr` or below.
unfoldable pub IsBelow : ℕ → List Vma → Type 0
IsBelow addr [] = Unit
IsBelow addr (v ∷ vs) = (v.start < addr) × (v.start + v.size ≤ addr) × IsBelow addr vs

-- One of the areas has an address with the `len` from `addr` in common.
unfoldable pub Overlaps : ℕ → ℕ → List Vma → Type 0
Overlaps addr len [] = ⊥
Overlaps addr len (v ∷ vs) =
    ((v.start < addr + len) × (addr < v.start + v.size)) ⊎ Overlaps addr len vs

split_at-append : (end : ℕ) (vs : List Vma) → (split_at end vs).0 ++ (split_at end vs).1 ≡ vs
unfolding split_at
split_at-append end [] = refl
split_at-append end (v ∷ vs) = elim (Bool-cases (leb end v.start)) [
  | inl e ↦ rw (split_at, e) refl
  | inr e ↦ rw (split_at, e) (ap (λ (t : List Vma). v ∷ t) (split_at-append end vs))
]

-- What it answers when there are areas.
before-fits :
    (ghost addr len : ℕ) (v : Vma) (vs : List Vma)
    → ltb addr (last_end ghost ((split_at (add32 addr len) (v ∷ vs)).0)) ≡ false
    → find_vma_before ghost addr len (v ∷ vs) ≡ some (split_at (add32 addr len) (v ∷ vs))
unfolding find_vma_before
before-fits ghost addr len v vs e = rw (find_vma_before, e) refl

before-none :
    (ghost addr len : ℕ) (v : Vma) (vs : List Vma)
    → ltb addr (last_end ghost ((split_at (add32 addr len) (v ∷ vs)).0)) ≡ true
    → find_vma_before ghost addr len (v ∷ vs) ≡ none
unfolding find_vma_before
before-none ghost addr len v vs e = rw (find_vma_before, e) refl

pub find_vma_before-append :
    (ghost addr len : ℕ) (vs front back : List Vma)
    → find_vma_before ghost addr len vs ≡ some (front, back)
    → front ++ back ≡ vs
find_vma_before-append ghost addr len [] front back h =
    let same : Path (List Vma × List Vma) ([], []) (front, back) = unfold find_vma_before in cc in
    ap (λ (t : List Vma × List Vma). t.0 ++ t.1) (sym same)
find_vma_before-append ghost addr len (v ∷ vs) front back h =
    elim (Bool-cases (ltb addr (last_end ghost ((split_at (add32 addr len) (v ∷ vs)).0)))) [
      | inl e ↦ absurd (let g = before-none ghost addr len v vs e in cc)
      | inr e ↦
          let g = before-fits ghost addr len v vs e in
          let same : split_at (add32 addr len) (v ∷ vs) ≡ (front, back) = cc in
          ap (λ (t : List Vma × List Vma). t.0 ++ t.1) (sym same)
          ∙ split_at-append (add32 addr len) (v ∷ vs)
    ]

last_end-step :
    (g : ℕ) (v : Vma) (vs : List Vma) → last_end g (v ∷ vs) ≡ last_end (add32 v.start v.size) vs
unfolding last_end
last_end-step g v [] = refl
last_end-step g v (w ∷ vs) = last_end-again g (add32 v.start v.size) w vs
  where
    last_end-again : (g h : ℕ) (w : Vma) (vs : List Vma) → last_end g (w ∷ vs) ≡ last_end h (w ∷ vs)
    last_end-again g h w [] = refl
    last_end-again g h w (x ∷ vs) = last_end-again g h x vs

-- The areas in front reach up to where they end.
split_at-reach :
    (lo end : ℕ) (vs : List Vma) → IsSorted lo vs → lo ≤ last_end lo ((split_at end vs).0)
unfolding IsSorted split_at last_end
split_at-reach lo end [] s = omega arith
split_at-reach lo end (v ∷ vs) s =
    let (le, one, top, rest) = s in
    elim (Bool-cases (leb end v.start)) [
      | inl e ↦ rw (split_at, e) (omega arith)
      | inr e ↦
          let next = split_at-reach (v.start + v.size) end vs rest in
          let fits : add32 v.start v.size ≡ v.start + v.size = omega arith in
          rw (split_at, e)
            (omega (
              arith,
              last_end-step lo v ((split_at end vs).0),
              ap (λ g. last_end g ((split_at end vs).0)) fits,
              next,
            ))
    ]

split_at-IsBelow :
    (lo g addr end : ℕ) (vs : List Vma)
    → IsSorted lo vs
    → last_end g ((split_at end vs).0) ≤ addr
    → IsBelow addr ((split_at end vs).0)
unfolding IsSorted IsBelow split_at last_end
split_at-IsBelow lo g addr end [] s h = tt
split_at-IsBelow lo g addr end (v ∷ vs) s h =
    let (le, one, top, rest) = s in
    let fits : add32 v.start v.size ≡ v.start + v.size = omega arith in
    elim (Bool-cases (leb end v.start)) [
      | inl e ↦ rw (split_at, e) tt
      | inr e ↦
          let front = (split_at end vs).0 in
          let whole : (split_at end (v ∷ vs)).0 ≡ v ∷ front = rw (split_at, e) refl in
          let last : last_end (v.start + v.size) front ≤ addr = omega (
            arith,
            h,
            ap (last_end g) whole,
            last_end-step g v front,
            ap (λ x. last_end x front) fits,
          ) in
          rw (split_at, e)
            (
              omega (arith, last, split_at-reach (v.start + v.size) end vs rest),
              omega (arith, last, split_at-reach (v.start + v.size) end vs rest),
              split_at-IsBelow (v.start + v.size) (v.start + v.size) addr end vs rest last,
            )
    ]

split_at-IsSorted :
    (lo end : ℕ) (vs : List Vma) → IsSorted lo vs → IsSorted end ((split_at end vs).1)
unfolding IsSorted split_at
split_at-IsSorted lo end [] s = tt
split_at-IsSorted lo end (v ∷ vs) s =
    let (le, one, top, rest) = s in
    elim (Bool-cases (leb end v.start)) [
      | inl e ↦ rw (split_at, e) (ground arith, one, top, rest)
      | inr e ↦ rw (split_at, e) (split_at-IsSorted (v.start + v.size) end vs rest)
    ]

split_at-Overlaps :
    (lo g addr len : ℕ) (vs : List Vma)
    → IsSorted lo vs
    → g ≤ addr
    → addr < last_end g ((split_at (addr + len) vs).0)
    → Overlaps addr len vs
unfolding IsSorted Overlaps split_at last_end
split_at-Overlaps lo g addr len [] s le h = absurd (omega arith)
split_at-Overlaps lo g addr len (v ∷ vs) s le h =
    let (at_lo, one, top, rest) = s in
    let fits : add32 v.start v.size ≡ v.start + v.size = omega arith in
    elim (Bool-cases (leb (addr + len) v.start)) [
      | inl e ↦
          let whole : (split_at (addr + len) (v ∷ vs)).0 ≡ [] = rw (split_at, e) refl in
          absurd (omega (arith, h, ap (last_end g) whole))
      | inr e ↦
          let front = (split_at (addr + len) vs).0 in
          let whole : (split_at (addr + len) (v ∷ vs)).0 ≡ v ∷ front = rw (split_at, e) refl in
          elim (Bool-cases (ltb addr (v.start + v.size))) [
            | inl c ↦ inl (ground arith, ground arith)
            | inr c ↦ inr (
                split_at-Overlaps (v.start + v.size) (v.start + v.size) addr len vs rest
                  (ground arith)
                  (omega (
                    arith,
                    h,
                    ap (last_end g) whole,
                    last_end-step g v front,
                    ap (λ x. last_end x front) fits,
                  )))
          ]
    ]

-- In areas in order, `__find_vma_before` fails when one of them overlaps the new area, and otherwise splits
-- them into those that end before it and those that start after it. What it reads of the list head must
-- not reach past `addr`.
pub find_vma_before-split :
    (ghost addr len lo : ℕ) (vs : List Vma)
    → IsSorted lo vs
    → ghost ≤ addr
    → addr + len < 2 ^ 32
    → ((find_vma_before ghost addr len vs ≡ none) × Overlaps addr len vs)
      ⊎ ((front : List Vma) × (back : List Vma) × (find_vma_before ghost addr len vs
            ≡ some (front, back))
          × (front ++ back ≡ vs)
          × IsBelow addr front
          × IsSorted (addr + len) back)
find_vma_before-split ghost addr len lo [] s g fit =
    inr ([], [], unfold find_vma_before in refl, refl, unfold IsBelow in tt, unfold IsSorted in tt)
find_vma_before-split ghost addr len lo (v ∷ vs) s g fit =
    let no_wrap : add32 addr len ≡ addr + len = omega arith in
    let at_end : split_at (add32 addr len) (v ∷ vs) ≡ split_at (addr + len) (v ∷ vs) =
      ap (λ e. split_at e (v ∷ vs)) no_wrap in
    elim (Bool-cases (ltb addr (last_end ghost ((split_at (add32 addr len) (v ∷ vs)).0)))) [
      | inl e ↦ inl (
        before-none ghost addr len v vs e,
        split_at-Overlaps lo ghost addr len (v ∷ vs) s g
            (ground (arith, ap (λ (t : List Vma × List Vma). last_end ghost (t.0)) at_end)),
      )
      | inr e ↦ inr (
        (split_at (addr + len) (v ∷ vs)).0,
        (split_at (addr + len) (v ∷ vs)).1,
        before-fits ghost addr len v vs e ∙ ap some at_end,
        split_at-append (addr + len) (v ∷ vs),
        split_at-IsBelow lo ghost addr (addr + len) (v ∷ vs) s
            (ground (arith, ap (λ (t : List Vma × List Vma). last_end ghost (t.0)) at_end)),
        split_at-IsSorted lo (addr + len) (v ∷ vs) s,
      )
    ]
