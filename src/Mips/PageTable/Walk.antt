-- ===== src/Mips/PageTable/Walk.antt =====
-- The page that a table gives an address, ps one would look it up, and what `__getpagedesc` and a
-- write of an entry do to it.
pub mod Grow
use mathlib.Core.Path.{subst}
use aim_mips.Pmm.Memory.{kern_base}
use aim_mips.Prelude.{
  ℕ, ◌+◌, ◌/◌, ◌%◌, ◌^◌, ◌<◌, ◌≤◌, ◌≡◌, ◌≢◌, ◌⊎◌, inl, inr, refl, sym, ap, ◌∙◌, Bool, true, false,
  Option, none, some, List, [], ◌∷◌, arith, tests, length, ◌==◌, ◌&&◌, not, if◌then◌else◌,
  Bool-cases, ℤ, success, enomem, enoent, is_neg, page_size,
}
use aim_mips.Mips.PageTable.{
  Tables, write, clear_page, pdx, ptx, pa2kva, PageDesc, Got, getpagedesc,
}
use aim_mips.Mips.PageTable.Index.{pdx_lem, ptx_lem}

unfoldable pub lookup : ℕ → ℕ → Tables → ℕ
lookup pg va s = if s.words pg (pdx va) == 0 then 0 else s.words (s.words pg (pdx va)) (ptx va)

-- A page table says the same for every address of a page.
pub lookup-page :
    (pg va va' : ℕ) (s : Tables)
    → va / page_size ≡ va' / page_size
    → lookup pg va s ≡ lookup pg va' s
unfolding lookup
lookup-page pg va va' s e =
    let p : pdx va ≡ pdx va' = omega (arith, pdx_lem va, pdx_lem va') in
    let q : ptx va ≡ ptx va' = omega (arith, ptx_lem va, ptx_lem va') in rw (p, q) refl

pub lookup-found :
    (pg va : ℕ) (s : Tables)
    → s.words pg (pdx va) ≢ 0
    → lookup pg va s ≡ s.words (s.words pg (pdx va)) (ptx va)
unfolding lookup
lookup-found pg va s nz = ground arith

unfoldable pub NotIn : ℕ → List ℕ → Type 0
NotIn k [] = Unit
NotIn k (a ∷ ps) = (pa2kva a ≢ k) × NotIn k ps

-- The pages that may be handed out are no table of the tree, and are different.
unfoldable pub IsFresh : ℕ → (ℕ → ℕ) → List ℕ → Type 0
unfolding NotIn
IsFresh pg dir [] = Unit
IsFresh pg dir (a ∷ ps) =
    (a < kern_base)
    × (pa2kva a ≢ 0)
    × (pa2kva a ≢ pg)
    × ((d : ℕ) → d < 1024 → dir d ≢ pa2kva a)
    × NotIn (pa2kva a) ps
    × IsFresh pg dir ps

abbrev pub IsKernelAddress : ℕ → Type 0
IsKernelAddress a = (kern_base ≤ a) × (a < 2 ^ 32)

-- The leaf tables are not the directory and not each other, and stand at kernel addresses.
pub record IsTree (pg : ℕ) (s : Tables) : Type 0 where
  pub kernel : (d : ℕ) → d < 1024 → s.words pg d ≢ 0 → IsKernelAddress (s.words pg d)
  pub apart : (d : ℕ) → d < 1024 → s.words pg d ≢ pg
  pub unique :
      (d d' : ℕ) → d < 1024 → d' < 1024 → s.words pg d ≢ 0 → s.words pg d ≡ s.words pg d' → d ≡ d'
  pub fresh : IsFresh pg (s.words pg) s.avail

pub pdx_lt : (va : ℕ) → pdx va < 1024
pdx_lt va = omega (arith, pdx_lem va)

pub ptx_lt : (va : ℕ) → ptx va < 1024
ptx_lt va = omega (arith, ptx_lem va)

IsFresh-ext :
    (pg : ℕ) (dir dir' : ℕ → ℕ) (ps : List ℕ)
    → ((d : ℕ) → d < 1024 → dir' d ≡ dir d)
    → IsFresh pg dir ps
    → IsFresh pg dir' ps
unfolding IsFresh
IsFresh-ext pg dir dir' [] same f = tt
IsFresh-ext pg dir dir' (a ∷ ps) same (low, nz, np, nd, ni, f) =
    (low, nz, np, λ d h e. nd d h (sym (same d h) ∙ e), ni, IsFresh-ext pg dir dir' ps same f)

pub write-at : (page i w : ℕ) (s : Tables) → (write page i w s).words page i ≡ w
unfolding write
write-at page i w s = ground arith

pub write-page :
    (page i w : ℕ) (s : Tables) (p j : ℕ) → p ≢ page → (write page i w s).words p j ≡ s.words p j
unfolding write
write-page page i w s p j ne = ground arith

pub write-entry :
    (page i w : ℕ) (s : Tables) (p j : ℕ) → j ≢ i → (write page i w s).words p j ≡ s.words p j
unfolding write
write-entry page i w s p j ne = ground arith

-- Only the directory and the pages to hand out matter to a tree.
IsTree-ext :
    (pg : ℕ) (s t : Tables)
    → ((d : ℕ) → d < 1024 → t.words pg d ≡ s.words pg d)
    → t.avail ≡ s.avail
    → IsTree pg s
    → IsTree pg t
IsTree-ext pg s t dir av tree = record {
  kernel =
      λ d h nz. subst IsKernelAddress (sym (dir d h)) (tree.kernel d h (λ z. nz (dir d h ∙ z)));
  apart = λ d h e. tree.apart d h (sym (dir d h) ∙ e);
  unique = λ d d' h h' nz e.
      tree.unique d d' h h' (λ z. nz (dir d h ∙ z)) (sym (dir d h) ∙ e ∙ dir d' h');
  fresh = rw av (IsFresh-ext pg (s.words pg) (t.words pg) s.avail dir tree.fresh);
}

-- Writing an entry of a leaf table leaves the directory.
pub write-IsTree :
    (pg page i w : ℕ) (s : Tables) → page ≢ pg → IsTree pg s → IsTree pg (write page i w s)
unfolding write
write-IsTree pg page i w s ne t =
    IsTree-ext pg s (write page i w s) (λ d h. write-page page i w s pg d (λ e. ne (sym e))) refl t

-- and changes what is found at the one page.
pub lookup-write :
    (pg va w : ℕ) (s : Tables)
    → IsTree pg s
    → s.words pg (pdx va) ≢ 0
    → lookup pg va (write (s.words pg (pdx va)) (ptx va) w s) ≡ w
unfolding lookup
lookup-write pg va w s t nz =
    let leaf = s.words pg (pdx va) in
    let e : (write leaf (ptx va) w s).words pg (pdx va) ≡ leaf =
      write-page leaf (ptx va) w s pg (pdx va) (λ q. t.apart (pdx va) (pdx_lt va) (sym q)) in
    rw e (rw (write-at leaf (ptx va) w s) (ground arith))

pub lookup-write_ne :
    (pg va w va' : ℕ) (s : Tables)
    → IsTree pg s
    → s.words pg (pdx va) ≢ 0
    → ((pdx va' ≡ pdx va) → (ptx va' ≡ ptx va) → ⊥)
    → lookup pg va' (write (s.words pg (pdx va)) (ptx va) w s) ≡ lookup pg va' s
unfolding lookup
lookup-write_ne pg va w va' s t nz other =
    let leaf = s.words pg (pdx va) in
    let leaf' = s.words pg (pdx va') in
    let e : (write leaf (ptx va) w s).words pg (pdx va') ≡ leaf' =
      write-page leaf (ptx va) w s pg (pdx va') (λ q. t.apart (pdx va) (pdx_lt va) (sym q)) in
    let here : leaf' ≢ 0
        → (write leaf (ptx va) w s).words leaf' (ptx va') ≡ s.words leaf' (ptx va') =
      λ nz'. elim (Bool-cases (leaf' == leaf)) [
        | inl q ↦
            write-entry leaf (ptx va) w s leaf' (ptx va')
              (other (t.unique (pdx va') (pdx va) (pdx_lt va') (pdx_lt va) nz' (ground arith)))
        | inr q ↦ write-page leaf (ptx va) w s leaf' (ptx va') (ground arith)
      ] in
    rw e (elim (Bool-cases (leaf' == 0)) [
      | inl z ↦ rw z refl
      | inr z ↦ rw (z, here (ground arith)) refl
    ])

-- A call that may not create a table changes nothing.
pub getpagedesc-found :
    (pg va : ℕ) (pd : PageDesc) (s : Tables)
    → s.words pg (pdx va) ≢ 0
    → getpagedesc pg va false pd s ≡ record {
      code = success;
      desc = record pd { ptev = s.words pg (pdx va); pdx = pdx va; ptx = ptx va };
      tables = s;
    }
unfolding getpagedesc
getpagedesc-found pg va pd s nz =
    let z : (s.words pg (pdx va) == 0) ≡ false = ground arith in rw z refl

pub getpagedesc-absent :
    (pg va : ℕ) (pd : PageDesc) (s : Tables)
    → s.words pg (pdx va) ≡ 0
    → getpagedesc pg va false pd s
      ≡ record { code = enoent; desc = record pd { pdx = pdx va }; tables = s }
unfolding getpagedesc
getpagedesc-absent pg va pd s z = rw z refl

-- Taking a table of zeroes out of the directory and giving the table up changes no page.
pub lookup-freed :
    (pg i va junk : ℕ) (s t : Tables)
    → ((p j : ℕ)
        → t.words p j
          ≡ (if p == pg && j == i then 0 else if p == s.words pg i then junk else s.words p j))
    → s.words pg i ≢ pg
    → s.words pg (pdx va) ≢ pg
    → (s.words pg (pdx va) ≢ 0 → pdx va ≢ i → s.words pg (pdx va) ≢ s.words pg i)
    → ((j : ℕ) → j < 1024 → s.words (s.words pg i) j ≡ 0)
    → lookup pg va t ≡ lookup pg va s
unfolding lookup
lookup-freed pg i va junk s t w np a ne z = elim (Bool-cases (pdx va == i)) [
  | inl e ↦
      let e' : pdx va ≡ i = ground arith in
      rw (w pg (pdx va), e', z (ptx va) (ptx_lt va)) (ground arith)
  | inr e ↦
      let k : t.words pg (pdx va) ≡ s.words pg (pdx va) = ground (arith, w pg (pdx va)) in
      let d : pdx va ≢ i = ground arith in
      elim (Bool-cases (s.words pg (pdx va) == 0)) [
        | inl n ↦ rw (k, n) refl
        | inr n ↦
            let other : s.words pg (pdx va) ≢ s.words pg i = ne (ground arith) d in
            rw (k, w (s.words pg (pdx va)) (ptx va)) (ground arith)
      ]
]

pub lookup-absent : (pg va : ℕ) (s : Tables) → s.words pg (pdx va) ≡ 0 → lookup pg va s ≡ 0
unfolding lookup
lookup-absent pg va s z = rw z refl
