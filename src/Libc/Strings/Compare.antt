-- ===== src/Libc/Strings/Compare.antt =====
-- The comparisons against the lists of bytes that they compare.
use aim_mips.Prelude.{
  ℕ, zero, suc, ◌+◌, ◌-◌, ◌<◌, ◌≤◌, ◌≡◌, ◌≢◌, ◌↔◌, inl, inr, refl, sym, ap, ◌∙◌, true, false, some,
  List, [], ◌∷◌, leb, ◌==◌, if◌then◌else◌, arith, Bool-cases, length, ℤ, pos, negsuc, success,
}
use aim_mips.Libc.{Memory}
use aim_mips.Libc.Strings.{byte_sub, memcmp, strcmp}

-- The bytes of `xs` stand from `p` on.
abbrev pub BytesAt : Memory → ℕ → List ℕ → Type 0
BytesAt m p [] = Unit
BytesAt m p (x ∷ xs) = (m p ≡ x) × BytesAt m (p + 1) xs

-- They make a string: none of them is NUL, and a NUL follows.
abbrev pub StringAt : Memory → ℕ → List ℕ → Type 0
StringAt m p [] = m p ≡ 0
StringAt m p (x ∷ xs) = (m p ≡ x) × (x ≢ 0) × StringAt m (p + 1) xs

-- The difference at the first byte where two lists differ; the end of a list counts as 0.
pub difference : List ℕ → List ℕ → ℤ
difference [] [] = success
difference [] (y ∷ ys) = byte_sub 0 y
difference (x ∷ xs) [] = byte_sub x 0
difference (x ∷ xs) (y ∷ ys) = if x == y then difference xs ys else byte_sub x y

-- `memcmp` answers the difference of the first bytes that differ.
pub memcmp_lem :
    (s1 s2 : ℕ) (xs ys : List ℕ) (m : Memory)
    → length xs ≡ length ys
    → BytesAt m s1 xs
    → BytesAt m s2 ys
    → memcmp s1 s2 (length xs) m ≡ difference xs ys
unfolding memcmp difference
memcmp_lem s1 s2 [] [] m l a b = refl
memcmp_lem s1 s2 [] (y ∷ ys) m l a b = absurd (omega arith)
memcmp_lem s1 s2 (x ∷ xs) [] m l a b = absurd (omega arith)
memcmp_lem s1 s2 (x ∷ xs) (y ∷ ys) m l (a, as') (b, bs) = elim (Bool-cases (x == y)) [
  | inl e ↦ rw (a, b, e) (memcmp_lem (s1 + 1) (s2 + 1) xs ys m (omega arith) as' bs)
  | inr e ↦ rw (a, b, e) refl
]

-- `strcmp` does on strings of any length, and ends.
pub strcmp_lem :
    (fuel s1 s2 : ℕ) (xs ys : List ℕ) (m : Memory)
    → length xs < fuel
    → StringAt m s1 xs
    → StringAt m s2 ys
    → strcmp fuel s1 s2 m ≡ some (difference xs ys)
unfolding strcmp difference
strcmp_lem zero s1 s2 xs ys m f a b = absurd (omega arith)
strcmp_lem (suc fuel) s1 s2 [] [] m f a b = rw (a, b) refl
strcmp_lem (suc fuel) s1 s2 [] (y ∷ ys) m f a (b, nb, bs) =
    let e : (0 == y) ≡ false = ground arith in rw (a, b, e) refl
strcmp_lem (suc fuel) s1 s2 (x ∷ xs) [] m f (a, na, as') b =
    let e : (x == 0) ≡ false = ground arith in rw (a, b, e) refl
strcmp_lem (suc fuel) s1 s2 (x ∷ xs) (y ∷ ys) m f (a, na, as') (b, nb, bs) =
    elim (Bool-cases (x == y)) [
      | inl e ↦
          let z : (x == 0) ≡ false = ground arith in
          rw (a, b, e, z) (strcmp_lem fuel (s1 + 1) (s2 + 1) xs ys m (omega arith) as' bs)
      | inr e ↦ rw (a, b, e) refl
    ]

byte_sub-ne : (x y : ℕ) → x ≢ y → byte_sub x y ≢ success
byte_sub-ne x y ne e = elim (Bool-cases (leb y x)) [
  | inl l ↦
      let e' : pos (x - y) ≡ pos 0 = rw l at e in
      let q : x - y ≡ 0 = cc in let le : y ≤ x = ground arith in ne (omega arith)
  | inr l ↦ let e' : negsuc (y - x - 1) ≡ pos 0 = rw l at e in absurd cc
]

-- The difference is 0 just when the lists are the same, for bytes that are not NUL.
pub difference_zero :
    (p q : ℕ) (xs ys : List ℕ) (m : Memory)
    → StringAt m p xs
    → StringAt m q ys
    → difference xs ys ≡ success
    → xs ≡ ys
unfolding difference
difference_zero p q [] [] m a b e = refl
difference_zero p q [] (y ∷ ys) m a (b, nb, bs) e = absurd (byte_sub-ne 0 y (λ z. nb (sym z)) e)
difference_zero p q (x ∷ xs) [] m (a, na, as') b e = absurd (byte_sub-ne x 0 na e)
difference_zero p q (x ∷ xs) (y ∷ ys) m (a, na, as') (b, nb, bs) e = elim (Bool-cases (x == y)) [
  | inl s ↦
      let e' : difference xs ys ≡ success = rw s at e in
      let same : x ≡ y = ground arith in
      let rest = difference_zero (p + 1) (q + 1) xs ys m as' bs e' in rw (same, rest) refl
  | inr s ↦
      let e' : byte_sub x y ≡ success = rw s at e in
      let other : x ≢ y = ground arith in absurd (byte_sub-ne x y other e')
]

difference_same : (xs : List ℕ) → difference xs xs ≡ success
unfolding difference
difference_same [] = refl
difference_same (x ∷ xs) = let e : (x == x) ≡ true = ground arith in rw e (difference_same xs)

-- `strcmp` answers 0 just when the two strings are the same.
pub strcmp_zero :
    (fuel s1 s2 : ℕ) (xs ys : List ℕ) (m : Memory)
    → length xs < fuel
    → StringAt m s1 xs
    → StringAt m s2 ys
    → (strcmp fuel s1 s2 m ≡ some success) ↔ (xs ≡ ys)
strcmp_zero fuel s1 s2 xs ys m f a b = (
  (λ e.
      let q : some (difference xs ys) ≡ some success =
        sym (strcmp_lem fuel s1 s2 xs ys m f a b) ∙ e in
      let d : difference xs ys ≡ success = cc in difference_zero s1 s2 xs ys m a b d),
  (λ e. strcmp_lem fuel s1 s2 xs ys m f a b ∙ ap some (rw (sym e) (difference_same xs))),
)
