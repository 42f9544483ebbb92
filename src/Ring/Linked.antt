-- ===== src/Ring/Linked.antt =====
-- The rings as lists, and what a write to a link leaves of one.
use aim_mips.Prelude.{ℕ, ◌≡◌, ◌≢◌, sym, ◌∙◌, List, [], ◌∷◌, ◌++◌, arith}
use aim_mips.Ring.{Links, set_next, set_prev}

-- From `a` the links lead through `xs` to `b`, and back.
abbrev pub Linked : Links → ℕ → List ℕ → ℕ → Type 0
Linked l a [] b = (l.next a ≡ b) × (l.prev b ≡ a)
Linked l a (x ∷ xs) b = (l.next a ≡ x) × (l.prev x ≡ a) × Linked l x xs b

abbrev pub NotIn : ℕ → List ℕ → Type 0
NotIn k [] = Unit
NotIn k (x ∷ xs) = (k ≢ x) × NotIn k xs

abbrev pub Distinct : List ℕ → Type 0
Distinct [] = Unit
Distinct (x ∷ xs) = NotIn x xs × Distinct xs

-- The ring of head `h` holds the nodes of `xs`, in order.
pub record IsRing (l : Links) (h : ℕ) (xs : List ℕ) : Type 0 where
  pub linked : Linked l h xs h
  pub distinct : Distinct (h ∷ xs)

pub set_next-at : (p v : ℕ) (l : Links) → (set_next p v l).next p ≡ v
unfolding set_next
set_next-at p v l = ground arith

pub set_next-ne : (p v q : ℕ) (l : Links) → q ≢ p → (set_next p v l).next q ≡ l.next q
unfolding set_next
set_next-ne p v q l ne = ground arith

pub set_prev-at : (p v : ℕ) (l : Links) → (set_prev p v l).prev p ≡ v
unfolding set_prev
set_prev-at p v l = ground arith

pub set_prev-ne : (p v q : ℕ) (l : Links) → q ≢ p → (set_prev p v l).prev q ≡ l.prev q
unfolding set_prev
set_prev-ne p v q l ne = ground arith

-- A path does not notice the next of a node it does not leave,
pub set_next-Linked :
    (p v a b : ℕ) (xs : List ℕ) (l : Links)
    → NotIn p (a ∷ xs)
    → Linked l a xs b
    → Linked (set_next p v l) a xs b
unfolding set_next
set_next-Linked p v a b [] l (ne, out) (n, q) = (set_next-ne p v a l (λ e. ne (sym e)) ∙ n, q)
set_next-Linked p v a b (x ∷ xs) l (ne, out) (n, q, r) =
    (set_next-ne p v a l (λ e. ne (sym e)) ∙ n, q, set_next-Linked p v x b xs l out r)

-- nor the prev of one it does not come to.
pub set_prev-Linked :
    (p v a b : ℕ) (xs : List ℕ) (l : Links)
    → NotIn p xs
    → p ≢ b
    → Linked l a xs b
    → Linked (set_prev p v l) a xs b
unfolding set_prev
set_prev-Linked p v a b [] l out nb (n, q) = (n, set_prev-ne p v b l (λ e. nb (sym e)) ∙ q)
set_prev-Linked p v a b (x ∷ xs) l (ne, out) nb (n, q, r) =
    (n, set_prev-ne p v x l (λ e. ne (sym e)) ∙ q, set_prev-Linked p v x b xs l out nb r)

-- The node before the end of a path is on it.
pub prev-ne :
    (a b z : ℕ) (xs : List ℕ) (l : Links) → NotIn z (a ∷ xs) → Linked l a xs b → z ≢ l.prev b
prev-ne a b z [] l (ne, out) (n, q) = λ e. ne (e ∙ q)
prev-ne a b z (x ∷ xs) l (ne, out) (n, q, r) = prev-ne x b z xs l out r

-- The node after the start of a path is on it, or its end.
pub next-ne :
    (a b z : ℕ) (xs : List ℕ) (l : Links) → NotIn z xs → z ≢ b → Linked l a xs b → z ≢ l.next a
next-ne a b z [] l out nb (n, q) = λ e. nb (e ∙ n)
next-ne a b z (x ∷ xs) l (ne, out) nb (n, q, r) = λ e. ne (e ∙ n)

-- Paths are cut at a node.
pub Linked-split :
    (a b y : ℕ) (xs ys : List ℕ) (l : Links)
    → Linked l a (xs ++ y ∷ ys) b
    → Linked l a xs y × Linked l y ys b
Linked-split a b y [] ys l (n, q, r) = ((n, q), r)
Linked-split a b y (x ∷ xs) ys l (n, q, r) =
    let (s, t) = Linked-split x b y xs ys l r in ((n, q, s), t)

pub NotIn-split :
    (k y : ℕ) (xs ys : List ℕ) → NotIn k (xs ++ y ∷ ys) → NotIn k xs × (k ≢ y) × NotIn k ys
NotIn-split k y [] ys (ne, out) = (tt, ne, out)
NotIn-split k y (x ∷ xs) ys (ne, out) = let (s, t, u) = NotIn-split k y xs ys out in ((ne, s), t, u)

pub NotIn-append : (k : ℕ) (xs ys : List ℕ) → NotIn k xs → NotIn k ys → NotIn k (xs ++ ys)
NotIn-append k [] ys s t = t
NotIn-append k (x ∷ xs) ys (ne, s) t = (ne, NotIn-append k xs ys s t)

pub Distinct-drop : (y : ℕ) (xs ys : List ℕ) → Distinct (xs ++ y ∷ ys) → Distinct (xs ++ ys)
Distinct-drop y [] ys (out, d) = d
Distinct-drop y (x ∷ xs) ys (out, d) =
    let (s, _, t) = NotIn-split x y xs ys out in (NotIn-append x xs ys s t, Distinct-drop y xs ys d)

pub Distinct-snoc : (y : ℕ) (xs : List ℕ) → Distinct xs → NotIn y xs → Distinct (xs ++ y ∷ [])
Distinct-snoc y [] d out = (tt, tt)
Distinct-snoc y (x ∷ xs) (o, d) (ne, out) =
    (NotIn-append x xs (y ∷ []) o ((λ e. ne (sym e)), tt), Distinct-snoc y xs d out)
