-- ===== src/ProcTree/Siblings.antt =====
-- The children of a process as a list.
use aim_mips.Prelude.{ℕ, ◌≡◌, ◌≢◌, sym, ◌∙◌, List, [], ◌∷◌, arith}
use aim_mips.Ring.Linked.{NotIn, Distinct}
use aim_mips.ProcTree.{Tree, proctree_add_child}

-- The siblings after `a` are `xs`, each linked back to the one before.
abbrev pub Siblings : (ℕ → ℕ) → (ℕ → ℕ) → ℕ → List ℕ → Type 0
Siblings next prev a [] = next a ≡ 0
Siblings next prev a (x ∷ xs) = (next a ≡ x) × (prev x ≡ a) × Siblings next prev x xs

abbrev pub Chain : Tree → ℕ → List ℕ → Type 0
Chain t p [] = t.first_child p ≡ 0
Chain t p (x ∷ xs) =
    (t.first_child p ≡ x) × (t.prev_sibling x ≡ 0) × Siblings t.next_sibling t.prev_sibling x xs

-- The children of `p` are `xs`, the youngest first.
pub record HasChildren (t : Tree) (p : ℕ) (xs : List ℕ) : Type 0 where
  pub chain : Chain t p xs
  pub distinct : Distinct (0 ∷ xs)

pub Siblings-frame :
    (next prev next' prev' : ℕ → ℕ) (a k j : ℕ) (xs : List ℕ)
    → ((p : ℕ) → p ≢ k → next' p ≡ next p)
    → ((p : ℕ) → p ≢ j → prev' p ≡ prev p)
    → NotIn k (a ∷ xs)
    → NotIn j xs
    → Siblings next prev a xs
    → Siblings next' prev' a xs
Siblings-frame next prev next' prev' a k j [] fn fp (ka, kx) jx n = fn a (λ e. ka (sym e)) ∙ n
Siblings-frame next prev next' prev' a k j (x ∷ xs) fn fp (ka, kx) (jx, js) (n, q, r) = (
  fn a (λ e. ka (sym e)) ∙ n,
  fp x (λ e. jx (sym e)) ∙ q,
  Siblings-frame next prev next' prev' x k j xs fn fp kx js r,
)

-- `proctree_add_child` puts a new process before the children of its parent.
pub proctree_add_child-HasChildren :
    (child parent : ℕ) (xs : List ℕ) (t : Tree)
    → NotIn child (0 ∷ xs)
    → t.prev_sibling child ≡ 0
    → HasChildren t parent xs
    → HasChildren (proctree_add_child child parent t) parent (child ∷ xs)
unfolding proctree_add_child
proctree_add_child-HasChildren child parent [] t (c0, out) pz h =
    let f : t.first_child parent ≡ 0 = h.chain in
    record {
      chain = (ground arith, ground arith, ground arith);
      distinct = (((λ e. c0 (sym e)), tt), (tt, tt));
    }
proctree_add_child-HasChildren child parent (x ∷ xs) t (c0, (cx, cs)) pz h =
    let (f, q, r) = h.chain in
    let ((zx, zs), (o, d)) = h.distinct in
    record {
      chain = (
        ground arith,
        ground arith,
        (
          ground arith,
          ground arith,
          Siblings-frame t.next_sibling t.prev_sibling _ _ x child x xs (λ p ne. ground arith)
              (λ p ne. ground arith) (cx, cs) o r,
        ),
      );
      distinct = (((λ e. c0 (sym e)), (zx, zs)), ((cx, cs), (o, d)));
    }
