-- ===== src/Ring/Edit.antt =====
-- What the operations that change a ring make of its list.
use aim_mips.Prelude.{ℕ, ◌≡◌, ◌≢◌, sym, List, [], ◌∷◌, ◌++◌, arith, true, false}
use mathlib.Core.Path.{subst}
use aim_mips.Ring.{
  Links, set_next, set_prev, list_init, list_add_between, list_add, list_add_tail, list_del_between,
  list_del, list_empty,
}
use aim_mips.Ring.Linked.{
  Linked, NotIn, Distinct, IsRing, set_next-at, set_prev-at, set_next-Linked, set_prev-Linked,
  prev-ne, next-ne, Linked-split, NotIn-split, NotIn-append, Distinct-drop, Distinct-snoc,
}

-- A fresh head is an empty ring.
pub list_init-IsRing : (h : ℕ) (l : Links) → IsRing (list_init h l) h []
unfolding list_init
list_init-IsRing h l = record {
  linked = (set_next-at h h l, set_prev-at h h (set_next h h l));
  distinct = (tt, tt);
}

-- The ends of the link that `__list_add` breaks are joined to the new node.
between-ends :
    (new p q : ℕ) (l : Links)
    → new ≢ p
    → new ≢ q
    → let l' = list_add_between new p q l in
      (l'.next p ≡ new) × (l'.prev new ≡ p) × (l'.next new ≡ q) × (l'.prev q ≡ new)
unfolding list_add_between set_next set_prev
between-ends new p q l np nq = (ground arith, ground arith, ground arith, ground arith)

-- A path that does not use that link stays.
between-Linked :
    (new p q a b : ℕ) (xs : List ℕ) (l : Links)
    → NotIn new (a ∷ xs)
    → new ≢ b
    → NotIn p (a ∷ xs)
    → NotIn q xs
    → q ≢ b
    → Linked l a xs b
    → Linked (list_add_between new p q l) a xs b
unfolding list_add_between
between-Linked new p q a b xs l (na, nx) nb out qx qb t = set_next-Linked p new a b xs _ out (
    set_prev-Linked new p a b xs _ nx nb
      (set_next-Linked new q a b xs _ (na, nx) (set_prev-Linked q new a b xs l qx qb t)))

-- `list_add` puts the new node first.
pub list_add-IsRing :
    (new h : ℕ) (xs : List ℕ) (l : Links)
    → NotIn new (h ∷ xs)
    → IsRing l h xs
    → IsRing (list_add new h l) h (new ∷ xs)
unfolding list_add
list_add-IsRing new h [] l (nh, out) r =
    let (n, _) = r.linked in
    let (e1, e2, e3, e4) = between-ends new h h l nh nh in
    record {
      linked =
          subst (λ q. Linked (list_add_between new h q l) h (new ∷ []) h) (sym n)
            (e1, e2, (e3, e4));
      distinct = (((λ e. nh (sym e)), tt), (tt, tt));
    }
list_add-IsRing new h (x ∷ xs) l (nh, (nx, out)) r =
    let (n, q, rest) = r.linked in
    let ((hx, hs), (o, d)) = r.distinct in
    let (e1, e2, e3, e4) = between-ends new h x l nh nx in
    record {
      linked =
          subst (λ q. Linked (list_add_between new h q l) h (new ∷ x ∷ xs) h) (sym n)
            (
              e1,
              e2,
              (
                e3,
                e4,
                between-Linked new h x x h xs l (nx, out) nh (hx, hs) o (λ e. hx (sym e)) rest,
              ),
            );
      distinct = (((λ e. nh (sym e)), (hx, hs)), ((nx, out), (o, d)));
    }

between-keeps :
    (new p q a x : ℕ) (l : Links)
    → new ≢ a
    → a ≢ p
    → new ≢ x
    → x ≢ q
    → (l.next a ≡ x) × (l.prev x ≡ a)
    → ((list_add_between new p q l).next a ≡ x) × ((list_add_between new p q l).prev x ≡ a)
unfolding list_add_between set_next set_prev
between-keeps new p q a x l na ap nx xq (n, m) = (ground arith, ground arith)

add_tail-Linked :
    (new a b : ℕ) (xs : List ℕ) (l : Links)
    → NotIn new (a ∷ xs)
    → new ≢ b
    → Distinct (a ∷ xs)
    → NotIn b xs
    → Linked l a xs b
    → Linked (list_add_between new (l.prev b) b l) a (xs ++ new ∷ []) b
add_tail-Linked new a b [] l (na, out) nb d bx (n, q) =
    let (e1, e2, e3, e4) = between-ends new a b l na nb in
    subst (λ p. Linked (list_add_between new p b l) a (new ∷ []) b) (sym q) (e1, e2, (e3, e4))
add_tail-Linked new a b (x ∷ xs) l (na, (nx, out)) nb ((ax, o), d) (bx, bs) (n, q, r) =
    let away : a ≢ l.prev b = prev-ne x b a xs l (ax, o) r in
    let (n', q') = between-keeps new (l.prev b) b a x l na away nx (λ e. bx (sym e)) (n, q) in
    (n', q', add_tail-Linked new x b xs l (nx, out) nb d bs r)

-- `list_add_tail` puts it last.
pub list_add_tail-IsRing :
    (new h : ℕ) (xs : List ℕ) (l : Links)
    → NotIn new (h ∷ xs)
    → IsRing l h xs
    → IsRing (list_add_tail new h l) h (xs ++ new ∷ [])
unfolding list_add_tail
list_add_tail-IsRing new h xs l (nh, out) r =
    let (hs, d) = r.distinct in
    record {
      linked = add_tail-Linked new h h xs l (nh, out) nh (hs, d) hs r.linked;
      distinct =
          (NotIn-append h xs (new ∷ []) hs ((λ e. nh (sym e)), tt), Distinct-snoc new xs d out);
    }

-- The two writes of `__list_del`.
del-ends :
    (p q : ℕ) (l : Links)
    → ((list_del_between p q l).next p ≡ q) × ((list_del_between p q l).prev q ≡ p)
unfolding list_del_between set_next set_prev
del-ends p q l = (ground arith, ground arith)

del-keeps :
    (p q a x : ℕ) (l : Links)
    → a ≢ p
    → x ≢ q
    → (l.next a ≡ x) × (l.prev x ≡ a)
    → ((list_del_between p q l).next a ≡ x) × ((list_del_between p q l).prev x ≡ a)
unfolding list_del_between set_next set_prev
del-keeps p q a x l ap xq (n, m) = (ground arith, ground arith)

del-Linked :
    (a b e : ℕ) (xs ys : List ℕ) (l : Links)
    → Distinct (a ∷ xs ++ e ∷ ys)
    → NotIn b (xs ++ e ∷ ys)
    → Linked l a (xs ++ e ∷ ys) b
    → Linked (list_del_between (l.prev e) (l.next e) l) a (xs ++ ys) b
unfolding list_del_between
del-Linked a b e [] [] l d out (n, q, (n', q')) =
    subst (λ p. Linked (list_del_between p (l.next e) l) a [] b) (sym q)
      (subst (λ z. Linked (list_del_between a z l) a [] b) (sym n') (del-ends a b l))
del-Linked a b e [] (y ∷ ys) l ((ae, (ay, ays)), ((ey, es), (o, d))) (be, (by, bs))
      (n, q, (n', q', r)) =
    let (f, g) = del-ends a y l in
    subst (λ p. Linked (list_del_between p (l.next e) l) a (y ∷ ys) b) (sym q)
      (subst (λ z. Linked (list_del_between a z l) a (y ∷ ys) b) (sym n')
        (
          f,
          g,
          set_next-Linked a y y b ys _ (ay, ays)
              (set_prev-Linked y a y b ys l o (λ z. by (sym z)) r),
        ))
del-Linked a b e (x ∷ xs) ys l ((ax, o), d) (bx, bs) (n, q, r) =
    let (before, after) = Linked-split x b e xs ys l r in
    let (oxs, _, _) = NotIn-split a e xs ys o in
    let ap : a ≢ l.prev e = prev-ne x e a xs l (ax, oxs) before in
    let (xo, _) = d in
    let (_, _, xys) = NotIn-split x e xs ys xo in
    let xq : x ≢ l.next e = next-ne e b x ys l xys (λ z. bx (sym z)) after in
    let (n', q') = del-keeps (l.prev e) (l.next e) a x l ap xq (n, q) in
    (n', q', del-Linked x b e xs ys l d bs r)

-- `list_del` takes a node out, wherever it stands.
pub list_del-IsRing :
    (h e : ℕ) (xs ys : List ℕ) (l : Links)
    → IsRing l h (xs ++ e ∷ ys)
    → IsRing (list_del e l) h (xs ++ ys)
unfolding list_del
list_del-IsRing h e xs ys l r =
    let (hs, d) = r.distinct in
    let (s, _, t) = NotIn-split h e xs ys hs in
    record {
      linked = del-Linked h h e xs ys l (hs, d) hs r.linked;
      distinct = (NotIn-append h xs ys s t, Distinct-drop e xs ys d);
    }

-- `list_empty` tells whether the list is.
pub list_empty_lem :
    (h : ℕ) (xs : List ℕ) (l : Links)
    → IsRing l h xs
    → list_empty h l ≡ elim xs [ [] ↦ true | _ ∷ _ ↦ false ]
unfolding list_empty
list_empty_lem h [] l r = let (n, _) = r.linked in ground arith
list_empty_lem h (x ∷ xs) l r =
    let (n, _, _) = r.linked in let ((hx, _), _) = r.distinct in ground arith

-- Initialising the links of another node leaves a ring.
pub list_init-keeps :
    (new h : ℕ) (xs : List ℕ) (l : Links)
    → NotIn new (h ∷ xs)
    → IsRing l h xs
    → IsRing (list_init new l) h xs
unfolding list_init
list_init-keeps new h xs l (nh, out) r = record {
  linked =
      set_prev-Linked new new h h xs _ out nh (set_next-Linked new new h h xs l (nh, out) r.linked);
  distinct = r.distinct;
}
