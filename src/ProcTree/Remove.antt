-- ===== src/ProcTree/Remove.antt =====
-- Taking a process out of the tree.
use aim_mips.Prelude.{
  ℕ, ◌≡◌, ◌≢◌, ◌⊎◌, inl, inr, Bool-cases, refl, sym, ap, ◌∙◌, false, List, [], ◌∷◌, ◌++◌, some,
  arith, ◌==◌, ◌||◌, not, if◌then◌else◌,
}
use aim_mips.Ring.Linked.{NotIn, Distinct, NotIn-split, NotIn-append, Distinct-drop}
use aim_mips.ProcTree.{Tree, put, put_unless_null, proctree_remove}
use aim_mips.ProcTree.Siblings.{Siblings, Chain, HasChildren, Siblings-frame}

prev-ne :
    (next prev : ℕ → ℕ) (a z e : ℕ) (xs ys : List ℕ)
    → NotIn z (a ∷ xs)
    → Siblings next prev a (xs ++ e ∷ ys)
    → z ≢ prev e
prev-ne next prev a z e [] ys (za, zx) (n, q, r) = λ w. za (w ∙ q)
prev-ne next prev a z e (x ∷ xs) ys (za, zx) (n, q, r) = prev-ne next prev x z e xs ys zx r

next-ne :
    (next prev : ℕ → ℕ) (a z e : ℕ) (xs ys : List ℕ)
    → NotIn z (0 ∷ ys)
    → Siblings next prev a (xs ++ e ∷ ys)
    → z ≢ next e
next-ne next prev a z e [] [] (z0, zy) (n, q, r) = λ w. z0 (w ∙ r)
next-ne next prev a z e [] (y ∷ ys) (z0, (zy, zs)) (n, q, (n', q', r)) = λ w. zy (w ∙ n')
next-ne next prev a z e (x ∷ xs) ys out (n, q, r) = next-ne next prev x z e xs ys out r

-- Links that pass over `e` and are else the same.
Siblings-drop :
    (next prev next' prev' : ℕ → ℕ) (a e : ℕ) (xs ys : List ℕ)
    → Distinct (a ∷ xs ++ e ∷ ys)
    → NotIn 0 (a ∷ xs ++ e ∷ ys)
    → next' (prev e) ≡ next e
    → (next e ≡ 0) ⊎ (prev' (next e) ≡ prev e)
    → ((p : ℕ) → p ≢ prev e → next' p ≡ next p)
    → ((p : ℕ) → p ≢ next e → prev' p ≡ prev p)
    → Siblings next prev a (xs ++ e ∷ ys)
    → Siblings next' prev' a (xs ++ ys)
Siblings-drop next prev next' prev' a e [] [] d z hn hp fn fp (n, q, r) = ap next' (sym q) ∙ hn ∙ r
Siblings-drop next prev next' prev' a e [] (y ∷ ys) ((ae, (ay, as1)), ((ey, es), (o, d)))
      (z0, (ze, (zy, zs))) hn hp fn fp (n, q, (n', q', r)) =
    (
      ap next' (sym q) ∙ hn ∙ n',
      elim hp [ inl w ↦ absurd (zy (sym w ∙ n')) | inr w ↦ ap prev' (sym n') ∙ w ∙ q ],
      Siblings-frame next prev next' prev' y a y ys (λ p ne. fn p (λ w. ne (w ∙ q)))
          (λ p ne. fp p (λ w. ne (w ∙ n'))) (ay, as1) o r,
    )
Siblings-drop next prev next' prev' a e (x ∷ xs) ys ((ax, o), d) (z0, zs) hn hp fn fp (n, q, r) =
    let (oxs, _, _) = NotIn-split a e xs ys o in
    let (xo, _) = d in
    let (_, _, xys) = NotIn-split x e xs ys xo in
    let (zx, _) = zs in
    (
      fn a (prev-ne next prev x a e xs ys (ax, oxs) r) ∙ n,
      fp x (next-ne next prev x x e xs ys ((λ w. zx (sym w)), xys) r) ∙ q,
      Siblings-drop next prev next' prev' x e xs ys d zs hn hp fn fp r,
    )

-- What `proctree_remove` leaves of a process without children under `father`.
abbrev next_after : ℕ → Tree → ℕ → ℕ
next_after pos t = put_unless_null (t.prev_sibling pos) (t.next_sibling pos) t.next_sibling

abbrev removed : ℕ → Tree → Tree
removed pos t = record {
  parent = t.parent;
  first_child =
      if pos == t.first_child (t.parent pos)
      then put (t.parent pos) (t.next_sibling pos) t.first_child
      else t.first_child;
  next_sibling = next_after pos t;
  prev_sibling = put_unless_null (next_after pos t pos) (t.prev_sibling pos) t.prev_sibling;
}

removes :
    (pos : ℕ) (t : Tree)
    → t.first_child pos ≡ 0
    → t.parent pos ≢ 0
    → proctree_remove pos t ≡ some (removed pos t)
unfolding proctree_remove
removes pos t leaf child =
    let b : (not (t.first_child pos == 0) || t.parent pos == 0) ≡ false = ground arith in rw b refl

next_after-kept :
    (pos p : ℕ) (t : Tree) → p ≢ t.prev_sibling pos → next_after pos t p ≡ t.next_sibling p
next_after-kept pos p t ne = ground arith

prev_after :
    (pos : ℕ) (t : Tree)
    → pos ≢ t.prev_sibling pos
    → (t.next_sibling pos ≡ 0)
      ⊎ ((removed pos t).prev_sibling (t.next_sibling pos) ≡ t.prev_sibling pos)
prev_after pos t ne =
    let e = next_after-kept pos pos t ne in
    elim (Bool-cases (t.next_sibling pos == 0)) [
      | inl z ↦ inl (ground arith)
      | inr z ↦ inr (rw e (ground arith))
    ]

prev_after-kept :
    (pos p : ℕ) (t : Tree)
    → pos ≢ t.prev_sibling pos
    → p ≢ t.next_sibling pos
    → (removed pos t).prev_sibling p ≡ t.prev_sibling p
prev_after-kept pos p t ne other = let e = next_after-kept pos pos t ne in rw e (ground arith)

-- No sibling is linked back to itself.
NotIn-self :
    (t : Tree) (x pos : ℕ) (xs ys : List ℕ)
    → x ≢ pos
    → Distinct (x ∷ xs ++ pos ∷ ys)
    → Siblings t.next_sibling t.prev_sibling x (xs ++ pos ∷ ys)
    → pos ≢ t.prev_sibling pos
NotIn-self t x pos [] ys ne d (n, q, r) = λ w. ne (sym (w ∙ q))
NotIn-self t x pos (z ∷ zs) ys ne (o, (oz, d)) (n, q, r) =
    let (_, zpos, _) = NotIn-split z pos zs ys oz in NotIn-self t z pos zs ys zpos (oz, d) r

removed-Chain :
    (pos p : ℕ) (xs ys : List ℕ) (t : Tree)
    → t.parent pos ≡ p
    → HasChildren t p (xs ++ pos ∷ ys)
    → Chain (removed pos t) p (xs ++ ys)
removed-Chain pos p [] [] t e h = let (f, q, n) = h.chain in rw e (ground arith)
removed-Chain pos p [] (y ∷ ys) t e h =
    let (f, q, (n, q', r)) = h.chain in
    let ((zp, (zy, zs)), ((py, ps), (o, d))) = h.distinct in
    let apart : pos ≢ t.prev_sibling pos = λ w. zp (sym (w ∙ q)) in
    let first : (removed pos t).first_child p ≡ y = rw e (ground arith) in
    let back : (removed pos t).prev_sibling y ≡ 0 = elim (prev_after pos t apart) [
      | inl w ↦ absurd (zy (sym w ∙ n))
      | inr w ↦ ap (removed pos t).prev_sibling (sym n) ∙ w ∙ q
    ] in
    (
      first,
      back,
      Siblings-frame t.next_sibling t.prev_sibling _ _ y 0 y ys
          (λ p' ne. next_after-kept pos p' t (λ w. ne (w ∙ q)))
          (λ p' ne. prev_after-kept pos p' t apart (λ w. ne (w ∙ n))) (zy, zs) o r,
    )
removed-Chain pos p (x ∷ xs) ys t e h =
    let (f, q, r) = h.chain in
    let ((zx, zs), (xo, d)) = h.distinct in
    let (xxs, xpos, xys) = NotIn-split x pos xs ys xo in
    let (zxs, zpos, zys) = NotIn-split 0 pos xs ys zs in
    let nz : 0 ≢ t.prev_sibling pos =
      prev-ne t.next_sibling t.prev_sibling x 0 pos xs ys (zx, zxs) r in
    let apart : pos ≢ t.prev_sibling pos = NotIn-self t x pos xs ys xpos (xo, d) r in
    let first : (removed pos t).first_child p ≡ x = rw e (ground arith) in
    (
      first,
      prev_after-kept pos x t apart
            (next-ne t.next_sibling t.prev_sibling x x pos xs ys ((λ w. zx (sym w)), xys) r)
          ∙ q,
      Siblings-drop t.next_sibling t.prev_sibling _ _ x pos xs ys (xo, d) (zx, zs) (ground arith)
          (prev_after pos t apart) (λ p' ne. next_after-kept pos p' t ne)
          (λ p' ne. prev_after-kept pos p' t apart ne) r,
    )

-- `proctree_remove` takes a process without children out of the children of its parent, wherever it
-- stands among them.
pub proctree_remove-HasChildren :
    (pos p : ℕ) (xs ys : List ℕ) (t : Tree)
    → t.first_child pos ≡ 0
    → t.parent pos ≡ p
    → p ≢ 0
    → HasChildren t p (xs ++ pos ∷ ys)
    → (t' : Tree) × (proctree_remove pos t ≡ some t') × HasChildren t' p (xs ++ ys)
proctree_remove-HasChildren pos p xs ys t leaf e nz h =
    let (zs, d) = h.distinct in
    let (zxs, _, zys) = NotIn-split 0 pos xs ys zs in
    (
      removed pos t,
      removes pos t leaf (λ w. nz (sym e ∙ w)),
      record {
        chain = removed-Chain pos p xs ys t e h;
        distinct = (NotIn-append 0 xs ys zxs zys, Distinct-drop pos xs ys d);
      },
    )
