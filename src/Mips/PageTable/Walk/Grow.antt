-- ===== src/Mips/PageTable/Walk/Grow.antt =====
-- `__getpagedesc` when it may create a table.
use mathlib.Core.Path.{subst}
use aim_mips.Prelude.{
  ℕ, ◌+◌, ◌<◌, ◌≤◌, ◌≡◌, ◌≢◌, ◌⊎◌, inl, inr, refl, sym, ap, ◌∙◌, true, List, [], ◌∷◌, arith, length,
  ◌==◌, if◌then◌else◌, Bool-cases, success, enomem,
}
use aim_mips.Mips.PageTable.{
  Tables, write, clear_page, pdx, ptx, pa2kva, PageDesc, Got, getpagedesc,
}
use aim_mips.Mips.PageTable.Walk.{IsKernelAddress, lookup, NotIn, IsFresh, IsTree, pdx_lt}

IsFresh-update :
    (pg k : ℕ) (dir dir' : ℕ → ℕ) (ps : List ℕ)
    → ((d : ℕ) → d < 1024 → (dir' d ≡ dir d) ⊎ (dir' d ≡ k))
    → NotIn k ps
    → IsFresh pg dir ps
    → IsFresh pg dir' ps
unfolding IsFresh NotIn
IsFresh-update pg k dir dir' [] same out f = tt
IsFresh-update pg k dir dir' (a ∷ ps) same (ne, out) (low, nz, np, nd, ni, f) = (
  low,
  nz,
  np,
  (λ d h e. elim (same d h) [ inl q ↦ nd d h (sym q ∙ e) | inr q ↦ ne (sym e ∙ q) ]),
  ni,
  IsFresh-update pg k dir dir' ps same out f,
)

-- What a call of `__getpagedesc` that may create tables leaves: the same pages, no table lost, at
-- most one page used.
pub record IsGrown (pg : ℕ) (s t : Tables) : Type 0 where
  pub tree : IsTree pg t
  pub same : (va : ℕ) → lookup pg va t ≡ lookup pg va s
  pub kept : (d : ℕ) → d < 1024 → s.words pg d ≢ 0 → t.words pg d ≡ s.words pg d
  pub used : length s.avail ≤ length t.avail + 1

-- A new table for the address, cleared and entered into the directory.
new_table : ℕ → ℕ → ℕ → List ℕ → Tables → Tables
unfolding write clear_page
new_table pg va a rest s =
    write pg (pdx va) (pa2kva a) (clear_page (pa2kva a) (record s { avail = rest }))

new_table-dir :
    (pg va a d : ℕ) (rest : List ℕ) (s : Tables)
    → pa2kva a ≢ pg
    → (new_table pg va a rest s).words pg d ≡ (if d == pdx va then pa2kva a else s.words pg d)
unfolding new_table write clear_page
new_table-dir pg va a d rest s np = ground arith

new_table-page :
    (pg va a p j : ℕ) (rest : List ℕ) (s : Tables)
    → p ≢ pg
    → (new_table pg va a rest s).words p j ≡ (if p == pa2kva a then 0 else s.words p j)
unfolding new_table write clear_page
new_table-page pg va a p j rest s np = ground arith

-- The directory entry for the address alone changes, from null to the new page.
new_table-here :
    (pg va a : ℕ) (rest : List ℕ) (s : Tables)
    → pa2kva a ≢ pg
    → (new_table pg va a rest s).words pg (pdx va) ≡ pa2kva a
new_table-here pg va a rest s np = rw (new_table-dir pg va a (pdx va) rest s np) (ground arith)

new_table-there :
    (pg va a d : ℕ) (rest : List ℕ) (s : Tables)
    → pa2kva a ≢ pg
    → d ≢ pdx va
    → (new_table pg va a rest s).words pg d ≡ s.words pg d
new_table-there pg va a d rest s np ne = rw (new_table-dir pg va a d rest s np) (ground arith)

new_table-cases :
    (pg va a d : ℕ) (rest : List ℕ) (s : Tables)
    → pa2kva a ≢ pg
    → ((d ≡ pdx va) × ((new_table pg va a rest s).words pg d ≡ pa2kva a))
      ⊎ ((d ≢ pdx va) × ((new_table pg va a rest s).words pg d ≡ s.words pg d))
new_table-cases pg va a d rest s np = elim (Bool-cases (d == pdx va)) [
  | inl e ↦ let q : d ≡ pdx va = ground arith in inl (q, rw q (new_table-here pg va a rest s np))
  | inr e ↦ let q : d ≢ pdx va = ground arith in inr (q, new_table-there pg va a d rest s np q)
]

new_table-IsTree :
    (pg va a : ℕ) (rest : List ℕ) (s : Tables)
    → s.avail ≡ a ∷ rest
    → IsTree pg s
    → IsTree pg (new_table pg va a rest s)
unfolding IsFresh new_table
new_table-IsTree pg va a rest s av t =
    let f : IsFresh pg (s.words pg) (a ∷ rest) = rw av at t.fresh in
    let (low, nz, np, nd, ni, f') = f in
    let cases = λ (d : ℕ). new_table-cases pg va a d rest s np in
    record {
      kernel = λ d h nz'. elim (cases d) [
        | inl (_, q) ↦ (let e = q in omega arith)
        | inr (_, q) ↦ subst IsKernelAddress (sym q) (t.kernel d h (λ z. nz' (q ∙ z)))
      ];
      apart = λ d h e. elim (cases d) [
        | inl (_, q) ↦ np (sym q ∙ e)
        | inr (_, q) ↦ t.apart d h (sym q ∙ e)
      ];
      unique = λ d d' h h' z e. elim (cases d) [
        | inl (i, q) ↦ elim (cases d') [
          | inl (i', q') ↦ i ∙ sym i'
          | inr (i', q') ↦ absurd (nd d' h' (sym q' ∙ sym e ∙ q))
        ]
        | inr (i, q) ↦ elim (cases d') [
          | inl (i', q') ↦ absurd (nd d h (sym q ∙ e ∙ q'))
          | inr (i', q') ↦ t.unique d d' h h' (λ w. z (q ∙ w)) (sym q ∙ e ∙ q')
        ]
      ];
      fresh =
          IsFresh-update pg (pa2kva a) (s.words pg) ((new_table pg va a rest s).words pg) rest
            (λ d h. elim (cases d) [ inl (_, q) ↦ inr q | inr (_, q) ↦ inl q ]) ni f';
    }

new_table-lookup :
    (pg va a va' : ℕ) (rest : List ℕ) (s : Tables)
    → s.avail ≡ a ∷ rest
    → s.words pg (pdx va) ≡ 0
    → IsTree pg s
    → lookup pg va' (new_table pg va a rest s) ≡ lookup pg va' s
unfolding lookup IsFresh
new_table-lookup pg va a va' rest s av z t =
    let f : IsFresh pg (s.words pg) (a ∷ rest) = rw av at t.fresh in
    let (low, nz, np, nd, ni, f') = f in
    elim (new_table-cases pg va a (pdx va') rest s np) [
      | inl (i, q) ↦
          rw (q, i, z, new_table-page pg va a (pa2kva a) (ptx va') rest s np) (ground arith)
      | inr (i, q) ↦
          let n : s.words pg (pdx va') ≢ pa2kva a = nd (pdx va') (pdx_lt va') in
          rw
            (
              q,
              new_table-page pg va a (s.words pg (pdx va')) (ptx va') rest s
                  (t.apart (pdx va') (pdx_lt va')),
            )
            (ground arith)
    ]

new_table-IsGrown :
    (pg va a : ℕ) (rest : List ℕ) (s : Tables)
    → s.avail ≡ a ∷ rest
    → s.words pg (pdx va) ≡ 0
    → IsTree pg s
    → IsGrown pg s (new_table pg va a rest s)
unfolding IsFresh new_table write clear_page
new_table-IsGrown pg va a rest s av z t =
    let f : IsFresh pg (s.words pg) (a ∷ rest) = rw av at t.fresh in
    let (low, nz, np, nd, ni, f') = f in
    record {
      tree = new_table-IsTree pg va a rest s av t;
      same = λ va'. new_table-lookup pg va a va' rest s av z t;
      kept = λ d h nz'. new_table-there pg va a d rest s np (λ e. nz' (ap (s.words pg) e ∙ z));
      used = rw av (omega arith);
    }

-- What `__getpagedesc` answers when it may create a table.
abbrev pub IsMade : ℕ → ℕ → Tables → Got → Type 0
IsMade pg va s g =
    ((g.code ≡ success)
      × (g.desc.ptev ≡ g.tables.words pg (pdx va))
      × (g.desc.ptev ≢ 0)
      × (g.desc.ptx ≡ ptx va)
      × IsGrown pg s g.tables)
    ⊎ ((g.code ≡ enomem) × (s.avail ≡ []) × (s.words pg (pdx va) ≡ 0) × (g.tables ≡ s))

List-cases : (ps : List ℕ) → (ps ≡ []) ⊎ ((a : ℕ) × (rest : List ℕ) × (ps ≡ a ∷ rest))
List-cases [] = inl refl
List-cases (a ∷ rest) = inr (a, rest, refl)

IsGrown-refl : (pg : ℕ) (s : Tables) → IsTree pg s → IsGrown pg s s
IsGrown-refl pg s t = record {
  tree = t;
  same = λ va. refl;
  kept = λ d h nz. refl;
  used = omega arith;
}

pub getpagedesc-full :
    (pg va : ℕ) (pd : PageDesc) (s : Tables)
    → s.words pg (pdx va) ≡ 0
    → s.avail ≡ []
    → getpagedesc pg va true pd s
      ≡ record { code = enomem; desc = record pd { pdx = pdx va }; tables = s }
unfolding getpagedesc
getpagedesc-full pg va pd s z av = simp (z, av)

getpagedesc-fresh :
    (pg va a : ℕ) (rest : List ℕ) (pd : PageDesc) (s : Tables)
    → s.words pg (pdx va) ≡ 0
    → s.avail ≡ a ∷ rest
    → getpagedesc pg va true pd s ≡ record {
      code = success;
      desc = record pd { ptev = pa2kva a; pdx = pdx va; ptx = ptx va };
      tables = new_table pg va a rest s;
    }
unfolding getpagedesc new_table
getpagedesc-fresh pg va a rest pd s z av = simp (z, av)

-- A call never changes what any address is mapped to, and fails only with no page left.
pub getpagedesc-IsMade :
    (pg va : ℕ) (pd : PageDesc) (s : Tables)
    → IsTree pg s
    → IsMade pg va s (getpagedesc pg va true pd s)
unfolding getpagedesc IsFresh new_table
getpagedesc-IsMade pg va pd s t = elim (Bool-cases (s.words pg (pdx va) == 0)) [
  | inl z ↦
      let z' : s.words pg (pdx va) ≡ 0 = ground arith in
      elim (List-cases s.avail) [
        | inl av ↦ rw (getpagedesc-full pg va pd s z' av) (inr (refl, av, z', refl))
        | inr (a, rest, av) ↦
            let f : IsFresh pg (s.words pg) (a ∷ rest) = rw av at t.fresh in
            let (low, nz, np, nd, ni, f') = f in
            rw (getpagedesc-fresh pg va a rest pd s z' av) (
              inl (
                refl,
                sym (new_table-here pg va a rest s np),
                nz,
                refl,
                new_table-IsGrown pg va a rest s av z' t,
              ))
      ]
  | inr z ↦
      let nz : s.words pg (pdx va) ≢ 0 = ground arith in
      rw z (inl (refl, refl, nz, refl, IsGrown-refl pg s t))
]
