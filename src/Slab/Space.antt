-- ===== src/Slab/Space.antt =====
-- get_space, and what alloc does on a page with room.
use aim_mips.Prelude.{
  ℕ, zero, suc, ◌+◌, ◌-◌, ◌*◌, ◌/◌, ◌^◌, ◌≤◌, ◌<◌, ◌≡◌, ◌≢◌, refl, inl, inr, ltb, ◌==◌, some, arith,
  Bool, true, false, not, ◌∙◌, ap, sym, Bool-cases, add32, page_size,
}
use native.Mathlib.Nat.{mul-le-mul_right, mul_comm, mul_assoc, mul-div_cancel}
use aim_mips.Bitmap.Count.{count, count_ext}
use aim_mips.Slab.{
  Status, AllocedPage, bit_size, status_bit, setbit, space_loop, get_space, take_space,
}
use aim_mips.Slab.Status.{setbit_same, setbit_other}

-- Fewer than `n` of `n` means that one is missing.
missing : (g : ℕ → Bool) (n : ℕ) → count g n < n → (j : ℕ) × (j < n) × (g j ≡ false)
unfolding count
missing g zero lt = absurd (omega arith)
missing g (suc n) lt = elim (Bool-cases (g n)) [
  | inl e ↦
      let (j, below, free) = missing g n (let c = count g n in ground (arith, e)) in
      (j, omega arith, free)
  | inr e ↦ (n, omega arith, e)
]

-- One more.
count_one_more :
    (g h : ℕ → Bool) (n r : ℕ)
    → r < n
    → g r ≡ false
    → h r ≡ true
    → ((i : ℕ) → i ≢ r → h i ≡ g i)
    → count h n ≡ suc (count g n)
unfolding count
count_one_more g h zero r lt f t e = absurd (omega arith)
count_one_more g h (suc n) r lt f t e = elim (Bool-cases (r == n)) [
  | inl same ↦
      let rn : r ≡ n = ground arith in
      let below = count_ext h g n (λ i l. e i (omega arith)) in
      let fn : g n ≡ false = ap g (sym rn) ∙ f in
      let tn : h n ≡ true = ap h (sym rn) ∙ t in rw (below, fn, tn) (omega arith)
  | inr other ↦
      let ne : n ≢ r = ground arith in
      let below = count_one_more g h n r (ground arith) f t e in rw (below, e n ne) (omega arith)
]

-- Bit `q * leap` says whether the object `q` of the page is in use.
abbrev pub used : ℕ → Status → ℕ → Bool
used leap x q = status_bit x (q * leap)

-- The least free object from `j` on, before which all is in use.
record IsNext (leap : ℕ) (x : Status) (j r : ℕ) : Type 0 where
  pub above : j ≤ r
  pub free : used leap x r ≡ false
  pub full : (q : ℕ) → j ≤ q → q < r → used leap x q ≡ true

later : (leap j d : ℕ) (x : Status) → used leap x (j + d) ≡ false → used leap x j ≡ true → 0 < d
later leap j zero x f t =
    let e : used leap x (j + 0) ≡ used leap x j = ap (used leap x) (omega arith) in absurd cc
later leap j (suc d) x f t = omega arith

space_loop_lem :
    (n leap j d : ℕ) (x : Status)
    → d < n
    → (j + d) * leap < 256
    → used leap x (j + d) ≡ false
    → (r : ℕ) × (r ≤ j + d)
      × IsNext leap x j r
      × (space_loop n leap (j * leap) x ≡ some (r * leap, setbit x (r * leap)))
unfolding space_loop
space_loop_lem zero leap j d x lt within free = absurd (omega arith)
space_loop_lem (suc n) leap j d x lt within free =
    let inside : ltb (j * leap * bit_size) page_size ≡ true =
      let less : j * leap ≤ (j + d) * leap = mul-le-mul_right leap (omega arith) in ground arith in
    elim (Bool-cases (status_bit x (j * leap))) [
      | inl t ↦
          let ne : 0 < d = later leap j d x free t in
          let step : suc j * leap ≡ j * leap + leap = omega arith in
          let jd : suc j + (d - 1) ≡ j + d = omega arith in
          let (r, le, next, run) =
            space_loop_lem n leap (suc j) (d - 1) x (omega arith)
              (let e = ap (λ k. k * leap) jd in omega arith) (ap (used leap x) jd ∙ free) in
          (
            r,
            omega arith,
            record {
              above = let z = next.above in omega arith;
              free = next.free;
              full = λ (q : ℕ) (a : j ≤ q) (b : q < r). elim (Bool-cases (q == j)) [
                | inl e ↦ let qj : q ≡ j = ground arith in ap (used leap x) qj ∙ t
                | inr e ↦ next.full q (ground arith) b
              ];
            },
            rw (space_loop, inside, t) (ap (λ i. space_loop n leap i x) (sym step) ∙ run),
          )
      | inr f ↦ (
        j,
        omega arith,
        record { above = omega arith; free = f; full = λ q a b. absurd (omega arith) },
        rw (space_loop, inside, f) refl,
      )
    ]

-- The page of a descriptor holds objects of `16 * leap` bytes each; `num` counts those in use.
pub record IsSlab (leap slots : ℕ) (a : AllocedPage) : Type 0 where
  pub whole : leap * slots ≡ 256
  pub size : a.size ≡ bit_size * leap
  pub num : a.num ≡ count (used leap a.status) slots
  pub within : a.paddr + page_size < 2 ^ 32
  pub paged : 0 < a.paddr

-- The object `r` was free; now it is in use, and nothing else has changed.
pub record IsTaken (leap r : ℕ) (a a' : AllocedPage) : Type 0 where
  pub free : used leap a.status r ≡ false
  pub first : (q : ℕ) → q < r → used leap a.status q ≡ true
  pub taken : used leap a'.status r ≡ true
  pub page : a' ≡ record a { num = suc a.num; status = setbit a.status (r * leap) }

-- How many fit.
pub slots_lem : (leap slots : ℕ) → leap * slots ≡ 256 → (1 ≤ leap) × (slots ≤ 256)
slots_lem zero slots e = absurd (omega arith)
slots_lem (suc leap) slots e = (
  omega arith,
  (let le : 1 * slots ≤ suc leap * slots = mul-le-mul_right slots (omega arith) in omega arith),
)

take_space-run :
    (leap i : ℕ) (a : AllocedPage) (x : Status)
    → a.size / bit_size ≡ leap
    → space_loop 257 leap 0 a.status ≡ some (i, x)
    → take_space a.size a
      ≡ some (add32 a.paddr (bit_size * i), record a { num = add32 a.num 1; status = x })
unfolding take_space get_space
take_space-run leap i a x e run = rw (take_space, get_space, e, run) refl

used_kept :
    (leap r q : ℕ) (x : Status)
    → 1 ≤ leap
    → q ≢ r
    → used leap (setbit x (r * leap)) q ≡ used leap x q
used_kept leap r q x some_leap ne = setbit_other x (r * leap) (q * leap) λ e.
    ne (sym (sym (mul-div_cancel r some_leap) ∙ ap (λ n. n / leap) e ∙ mul-div_cancel q some_leap))

-- The descriptor counts one more.
taken_page :
    (leap slots r : ℕ) (a : AllocedPage)
    → IsSlab leap slots a
    → r < slots
    → used leap a.status r ≡ false
    → IsSlab leap slots (record a { num = suc a.num; status = setbit a.status (r * leap) })
taken_page leap slots r a s lt free = record {
  whole = s.whole;
  size = s.size;
  num =
      ap suc s.num
      ∙ sym (
          count_one_more (used leap a.status) (used leap (setbit a.status (r * leap))) slots r lt
            free (setbit_same a.status (r * leap) ∙ ap not free)
            λ q ne. used_kept leap r q a.status (slots_lem leap slots s.whole).0 ne);
  within = s.within;
  paged = s.paged;
}

-- What alloc does on a page whose descriptor is exact and counts fewer objects than fit: it takes the first
-- free object, inside the page, and the descriptor stays exact.
pub take_space-IsTaken :
    (leap slots : ℕ) (a : AllocedPage)
    → IsSlab leap slots a
    → a.num < slots
    → (r : ℕ) × (a' : AllocedPage) × (r < slots)
      × (take_space a.size a ≡ some (a.paddr + a.size * r, a'))
      × IsTaken leap r a a'
      × IsSlab leap slots a'
take_space-IsTaken leap slots a s room =
    let x = a.status in
    let (some_leap, few) = slots_lem leap slots s.whole in
    let (j, below, free) = missing (used leap x) slots (let n = s.num in omega arith) in
    let inside : (q : ℕ) → q < slots → q * leap + leap ≤ 256 = λ q lt.
      let le : suc q * leap ≤ slots * leap = mul-le-mul_right leap (omega arith) in
      let e = s.whole in omega (arith, mul_comm leap slots) in
    let (r, le, next, run) =
      space_loop_lem 257 leap 0 j x (omega arith) (let b = inside j below in omega arith)
        (ap (used leap x) {x = 0 + j} {y = j} (omega arith) ∙ free) in
    let lt : r < slots = omega arith in
    let within = s.within in
    let size = s.size in
    let room_left = inside r lt in
    let leap_lem : a.size / bit_size ≡ leap = omega arith in
    let start : 0 * leap ≡ 0 = omega arith in
    let here : bit_size * (r * leap) ≡ a.size * r = sym (
      ap (λ n. n * r) size
      ∙ mul_assoc bit_size leap r
      ∙ ap (λ n. bit_size * n) (mul_comm leap r)) in
    let at_page : add32 a.paddr (bit_size * (r * leap)) ≡ a.paddr + a.size * r = omega arith in
    let one : add32 a.num 1 ≡ suc a.num = omega arith in
    let a' = record a { num = suc a.num; status = setbit x (r * leap) } in
    let found : space_loop 257 leap 0 x ≡ some (r * leap, setbit x (r * leap)) =
      ap (λ i. space_loop 257 leap i x) (sym start) ∙ run in
    let result : take_space a.size a ≡ some (a.paddr + a.size * r, a') =
      take_space-run leap (r * leap) a (setbit x (r * leap)) leap_lem found
      ∙ (λ k. some (at_page k, record a { num = one k; status = setbit x (r * leap) })) in
    (
      r,
      a',
      lt,
      result,
      record {
        free = next.free;
        first = λ q b. next.full q (omega arith) b;
        taken = setbit_same x (r * leap) ∙ ap not next.free;
        page = refl;
      },
      taken_page leap slots r a s lt next.free,
    )
