-- ===== src/Ring/Search.antt =====
-- The loops over a ring, against the search of its list.
use aim_mips.Prelude.{
  ℕ, zero, suc, ◌+◌, ◌<◌, ◌≡◌, ◌⊎◌, ap, refl, sym, ◌∙◌, inl, inr, Bool, true, false, some, List, [],
  ◌∷◌, ◌++◌, arith, ◌==◌, if◌then◌else◌, Bool-cases, length, length-append,
}
use mathlib.Core.Path.{subst}
use aim_mips.Ring.{Links, search, search_reverse}
use aim_mips.Ring.Linked.{Linked, NotIn, IsRing, Linked-split, NotIn-split}

-- The first element with a property, or `d`.
pub first : (ℕ → Bool) → ℕ → List ℕ → ℕ
first found d [] = d
first found d (x ∷ xs) = if found x then x else first found d xs

-- The last one.
pub last : (ℕ → Bool) → ℕ → List ℕ → ℕ
last found d [] = d
last found d (x ∷ xs) = last found (if found x then x else d) xs

search-from :
    (fuel a h : ℕ) (found : ℕ → Bool) (xs : List ℕ) (l : Links)
    → length xs < fuel
    → NotIn h xs
    → Linked l a xs h
    → search fuel found h (l.next a) l ≡ some (first found h xs)
unfolding search first
search-from zero a h found xs l f out r = absurd (omega arith)
search-from (suc fuel) a h found [] l f out (n, q) =
    let e : (h == h) ≡ true = ground arith in rw (n, e) refl
search-from (suc fuel) a h found (x ∷ xs) l f (ne, out) (n, q, r) =
    let e : (x == h) ≡ false = ground arith in
    let rest = search-from fuel x h found xs l (omega arith) out r in
    elim (Bool-cases (found x)) [ inl b ↦ rw (n, e, b) refl | inr b ↦ rw (n, e, b) rest ]

-- `for_each_entry` with a `break` ends at the first node with the property, or at the head.
pub search_lem :
    (fuel h : ℕ) (found : ℕ → Bool) (xs : List ℕ) (l : Links)
    → length xs < fuel
    → IsRing l h xs
    → search fuel found h (l.next h) l ≡ some (first found h xs)
search_lem fuel h found xs l f r =
    let (out, _) = r.distinct in search-from fuel h h found xs l f out r.linked

snoc_view : (xs : List ℕ) → (xs ≡ []) ⊎ ((ys : List ℕ) × (y : ℕ) × (xs ≡ ys ++ y ∷ []))
snoc_view [] = inl refl
snoc_view (x ∷ xs) = elim (snoc_view xs) [
  | inl e ↦ inr ([], x, rw e refl)
  | inr (ys, y, e) ↦ inr (x ∷ ys, y, ap (λ (t : List ℕ). x ∷ t) e)
]

Linked-init :
    (a b y : ℕ) (ys : List ℕ) (l : Links)
    → Linked l a (ys ++ y ∷ []) b
    → Linked l a ys y × (l.prev b ≡ y)
Linked-init a b y ys l t = let (s, (_, q)) = Linked-split a b y ys [] l t in (s, q)

last-nil : (found : ℕ → Bool) (d : ℕ) → last found d [] ≡ d
unfolding last
last-nil found d = refl

last-snoc :
    (found : ℕ → Bool) (d y : ℕ) (ys : List ℕ)
    → last found d (ys ++ y ∷ []) ≡ (if found y then y else last found d ys)
unfolding last
last-snoc found d y [] = refl
last-snoc found d y (x ∷ xs) = last-snoc found (if found x then x else d) y xs

search_reverse-from :
    (fuel a b h : ℕ) (found : ℕ → Bool) (xs : List ℕ) (l : Links)
    → length xs < fuel
    → NotIn h xs
    → a ≡ h
    → Linked l a xs b
    → search_reverse fuel found h (l.prev b) l ≡ some (last found h xs)
unfolding search_reverse
search_reverse-from zero a b h found xs l f out ah r = absurd (omega arith)
search_reverse-from (suc fuel) a b h found xs l f out ah r = elim (snoc_view xs) [
  | inl e ↦
      let r' : Linked l a [] b = rw e at r in
      let (_, q) = r' in
      let s : (h == h) ≡ true = ground arith in rw (q ∙ ah, s, e) (ap some (sym (last-nil found h)))
  | inr (ys, y, e) ↦
      let r' : Linked l a (ys ++ y ∷ []) b = rw e at r in
      let out' : NotIn h (ys ++ y ∷ []) = rw e at out in
      let (before, q) = Linked-init a b y ys l r' in
      let (oys, ne, _) = NotIn-split h y ys [] out' in
      let s : (y == h) ≡ false = ground arith in
      let n : length xs ≡ length ys + 1 = ap length e ∙ length-append ys (y ∷ []) in
      let rest = search_reverse-from fuel a y h found ys l (omega (arith, n)) oys ah before in
      elim (Bool-cases (found y)) [
        | inl c ↦ rw (q, s, c, e, last-snoc found h y ys, c) refl
        | inr c ↦ rw (q, s, c, e, last-snoc found h y ys, c) rest
      ]
]

-- `for_each_entry_reverse` with a `break` ends at the last node with the property, or at the head.
pub search_reverse_lem :
    (fuel h : ℕ) (found : ℕ → Bool) (xs : List ℕ) (l : Links)
    → length xs < fuel
    → IsRing l h xs
    → search_reverse fuel found h (l.prev h) l ≡ some (last found h xs)
search_reverse_lem fuel h found xs l f r =
    let (out, _) = r.distinct in search_reverse-from fuel h h h found xs l f out refl r.linked

-- Does `k` stand in the list?
abbrev pub In : ℕ → List ℕ → Type 0
In k [] = ⊥
In k (x ∷ xs) = (k ≡ x) ⊎ In k xs

-- A node of the list with the property, or `d` and none has it.
abbrev pub IsFound : (ℕ → Bool) → ℕ → List ℕ → ℕ → Type 0
IsFound found d xs z =
    (In z xs × (found z ≡ true)) ⊎ ((z ≡ d) × ((x : ℕ) → In x xs → found x ≡ false))

last-cons :
    (found : ℕ → Bool) (d x : ℕ) (xs : List ℕ)
    → last found d (x ∷ xs) ≡ last found (if found x then x else d) xs
unfolding last
last-cons found d x xs = refl

pub last-IsFound : (found : ℕ → Bool) (d : ℕ) (xs : List ℕ) → IsFound found d xs (last found d xs)
last-IsFound found d [] = inr (last-nil found d, λ x i. absurd i)
last-IsFound found d (x ∷ xs) = elim (Bool-cases (found x)) [
  | inl b ↦
      let e : last found d (x ∷ xs) ≡ last found x xs = rw (last-cons found d x xs, b) refl in
      subst (IsFound found d (x ∷ xs)) (sym e) (elim (last-IsFound found x xs) [
        | inl (i, f) ↦ inl (inr i, f)
        | inr (q, _) ↦ inl (inl q, ap found q ∙ b)
      ])
  | inr b ↦
      let e : last found d (x ∷ xs) ≡ last found d xs = rw (last-cons found d x xs, b) refl in
      subst (IsFound found d (x ∷ xs)) (sym e) (elim (last-IsFound found d xs) [
        | inl (i, f) ↦ inl (inr i, f)
        | inr (q, others) ↦ inr (q, λ y i. elim i [ inl k ↦ ap found k ∙ b | inr j ↦ others y j ])
      ])
]

first-cons :
    (found : ℕ → Bool) (d x : ℕ) (xs : List ℕ)
    → first found d (x ∷ xs) ≡ (if found x then x else first found d xs)
unfolding first
first-cons found d x xs = refl

pub first-IsFound : (found : ℕ → Bool) (d : ℕ) (xs : List ℕ) → IsFound found d xs (first found d xs)
unfolding first
first-IsFound found d [] = inr (refl, λ x i. absurd i)
first-IsFound found d (x ∷ xs) = elim (Bool-cases (found x)) [
  | inl b ↦
      let e : first found d (x ∷ xs) ≡ x = rw (first-cons found d x xs, b) refl in
      subst (IsFound found d (x ∷ xs)) (sym e) (inl (inl refl, b))
  | inr b ↦
      let e : first found d (x ∷ xs) ≡ first found d xs = rw (first-cons found d x xs, b) refl in
      subst (IsFound found d (x ∷ xs)) (sym e) (elim (first-IsFound found d xs) [
        | inl (i, f) ↦ inl (inr i, f)
        | inr (q, others) ↦ inr (q, λ y i. elim i [ inl k ↦ ap found k ∙ b | inr j ↦ others y j ])
      ])
]

-- Following a link stays in the ring.
next-In :
    (a b x : ℕ) (xs : List ℕ) (l : Links)
    → Linked l a xs b
    → In x (a ∷ xs)
    → In (l.next x) xs ⊎ (l.next x ≡ b)
next-In a b x [] l (n, q) i = elim i [ inl e ↦ inr (rw e n) | inr j ↦ absurd j ]
next-In a b x (y ∷ ys) l (n, q, r) i = elim i [
  | inl e ↦ inl (inl (rw e n))
  | inr j ↦ elim (next-In y b x ys l r j) [ inl k ↦ inl (inr k) | inr k ↦ inr k ]
]

pub next-In_ring :
    (h x : ℕ) (xs : List ℕ) (l : Links) → IsRing l h xs → In x (h ∷ xs) → In (l.next x) (h ∷ xs)
next-In_ring h x xs l r i = elim (next-In h h x xs l r.linked i) [ inl k ↦ inr k | inr k ↦ inl k ]
