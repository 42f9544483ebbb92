-- ===== src/Libc/Strings/Truncate.antt =====
-- strlcpy.
use aim_mips.Prelude.{
  ℕ, ◌+◌, ◌-◌, ◌<◌, ◌≤◌, ◌≡◌, ◌⊎◌, inl, inr, refl, sym, ap, ◌∙◌, true, false, none, some, List, ltb,
  leb, ◌==◌, ◌&&◌, not, if◌then◌else◌, arith, Bool-cases, length, take, take-all,
}
use aim_mips.Libc.{Memory, bytes_up}
use aim_mips.Libc.Copied.{bytes_up-IsCopied}
use aim_mips.Libc.Strings.{Cursor, copy_string, skip, end_copy, strlcpy}
use aim_mips.Libc.Strings.Compare.{StringAt}
use aim_mips.Libc.Strings.Copy.{
  StringAt-frame, copy_string-full, copy_string-fits, skip_lem, StringAt-drop, StringAt-nul,
  StringAt-take,
}

-- `dst` holds as much of the string as fits with a NUL, if anything does, and nothing else has changed.
pub record IsTruncated (dst dsize : ℕ) (xs : List ℕ) (m m' : Memory) : Type 0 where
  pub string : (dsize ≡ 0) ⊎ StringAt m' dst (take (dsize - 1) xs)
  pub outside : (a : ℕ) → (a < dst) ⊎ (dst + dsize ≤ a) → m' a ≡ m a

-- The two ends of `strlcpy`: the loop stopped at the NUL,
strlcpy-fits :
    (fuel dst src dsize : ℕ) (xs : List ℕ) (m : Memory)
    → length xs < dsize - 1
    → (dst + dsize ≤ src) ⊎ (src + length xs < dst)
    → StringAt m src xs
    → strlcpy fuel dst src dsize m ≡ some (length xs, bytes_up (length xs + 1) dst src m)
unfolding strlcpy end_copy
strlcpy-fits fuel dst src dsize xs m lt o t =
    let two : leb 2 dsize ≡ true = ground arith in
    let left : (dsize - 1 - length xs == 0) ≡ false = ground arith in
    let back : src + (length xs + 1) - src - 1 ≡ length xs = omega arith in
    let c =
      copy_string-fits (dsize - 1) dst src xs m lt
        (elim o [ inl p ↦ inl (omega arith) | inr p ↦ inr p ]) t in
    rw (two, c, left, back) refl

-- or it ran out of room, and `strlcpy` writes a NUL if it may and goes on to the end of the string.
abbrev ended : ℕ → ℕ → ℕ → Memory → Memory
ended dst src dsize m a =
    if not (dsize == 0) && a == dst + (dsize - 1) then 0 else bytes_up (dsize - 1) dst src m a

full-cursor :
    (dst src dsize : ℕ) (xs : List ℕ) (m : Memory)
    → dsize - 1 ≤ length xs
    → (dst + dsize ≤ src) ⊎ (src + length xs < dst)
    → StringAt m src xs
    → Path Cursor
        (if leb 2 dsize
          then copy_string (dsize - 1) dst src m
          else record { d = dst; s = src; n = dsize - 1; memory = m })
        (record {
          d = dst + (dsize - 1);
          s = src + (dsize - 1);
          n = 0;
          memory = bytes_up (dsize - 1) dst src m;
        })
unfolding bytes_up
full-cursor dst src dsize xs m le o t = elim (Bool-cases (leb 2 dsize)) [
  | inl two ↦ rw two (
      copy_string-full (dsize - 1) dst src xs m le
        (elim o [ inl p ↦ inl (omega arith) | inr p ↦ inr p ]) t)
  | inr few ↦
      let z : dsize - 1 ≡ 0 = ground arith in
      let d0 : dst + 0 ≡ dst = omega arith in
      let s0 : src + 0 ≡ src = omega arith in rw (few, z, d0, s0) refl
]

ended-inside :
    (dst src dsize : ℕ) (m : Memory) (i : ℕ)
    → i < dsize - 1
    → ended dst src dsize m (dst + i) ≡ bytes_up (dsize - 1) dst src m (dst + i)
ended-inside dst src dsize m i h = ground arith

ended-nul :
    (dst src dsize : ℕ) (m : Memory)
    → (dsize == 0) ≡ false
    → ended dst src dsize m (dst + (dsize - 1)) ≡ 0
ended-nul dst src dsize m z = ground arith

ended-outside :
    (dst src dsize : ℕ) (m : Memory) (a : ℕ)
    → (a < dst) ⊎ (dst + dsize ≤ a)
    → bytes_up (dsize - 1) dst src m a ≡ m a
    → ended dst src dsize m a ≡ m a
ended-outside dst src dsize m a q e = elim q [ inl p ↦ ground arith | inr p ↦ ground arith ]

strlcpy-full :
    (fuel dst src dsize : ℕ) (xs : List ℕ) (m : Memory)
    → dsize - 1 ≤ length xs
    → (dst + dsize ≤ src) ⊎ (src + length xs < dst)
    → StringAt m src xs
    → strlcpy fuel dst src dsize m ≡ elim (skip fuel (src + (dsize - 1)) (ended dst src dsize m)) [
      | none ↦ none
      | some s ↦ some (s - src - 1, ended dst src dsize m)
    ]
unfolding strlcpy end_copy
strlcpy-full fuel dst src dsize xs m le o t =
    ap (end_copy fuel src dsize) (full-cursor dst src dsize xs m le o t)

strlcpy-fits_IsTruncated :
    (fuel dst src dsize : ℕ) (xs : List ℕ) (m : Memory)
    → length xs < dsize - 1
    → (dst + dsize ≤ src) ⊎ (src + length xs < dst)
    → StringAt m src xs
    → (m' : Memory) × (strlcpy fuel dst src dsize m ≡ some (length xs, m'))
      × IsTruncated dst dsize xs m m'
strlcpy-fits_IsTruncated fuel dst src dsize xs m lt o t =
    let k = length xs + 1 in
    let c =
      bytes_up-IsCopied k dst src m
        (elim o [ inl p ↦ inl (omega arith) | inr p ↦ inr (omega arith) ]) in
    let whole : take (length xs) xs ≡ take (dsize - 1) xs =
      take-all (length xs) xs (omega arith) ∙ sym (take-all (dsize - 1) xs (omega arith)) in
    let nul : m (src + length xs) ≡ 0 = StringAt-nul src xs m t in
    (
      bytes_up k dst src m,
      strlcpy-fits fuel dst src dsize xs m lt o t,
      record {
        string = inr (
            rw (sym whole) (
              StringAt-take (length xs) dst src xs m (bytes_up k dst src m) (omega arith)
                (λ i h. c.inside i (omega arith)) (c.inside (length xs) (omega arith) ∙ nul) t));
        outside = λ a q. c.outside a (elim q [ inl p ↦ inl p | inr p ↦ inr (omega arith) ]);
      },
    )

strlcpy-full_IsTruncated :
    (fuel dst src dsize : ℕ) (xs : List ℕ) (m : Memory)
    → length xs < fuel
    → dsize - 1 ≤ length xs
    → (dst + dsize ≤ src) ⊎ (src + length xs < dst)
    → StringAt m src xs
    → (m' : Memory) × (strlcpy fuel dst src dsize m ≡ some (length xs, m'))
      × IsTruncated dst dsize xs m m'
strlcpy-full_IsTruncated fuel dst src dsize xs m f le o t =
    let n = dsize - 1 in
    let m' = ended dst src dsize m in
    let c =
      bytes_up-IsCopied n dst src m
        (elim o [ inl p ↦ inl (omega arith) | inr p ↦ inr (omega arith) ]) in
    let out : (a : ℕ) → (a < dst) ⊎ (dst + dsize ≤ a) → m' a ≡ m a = λ a q.
      ended-outside dst src dsize m a q
        (c.outside a (elim q [ inl p ↦ inl p | inr p ↦ inr (omega arith) ])) in
    let (ys, count, rest) = StringAt-drop n src xs m le t in
    let rest' =
      StringAt-frame (src + n) ys m m'
        (λ a lo hi. out a (elim o [ inl p ↦ inr (omega arith) | inr p ↦ inl (omega arith) ]))
        rest in
    let walk = skip_lem fuel (src + n) ys m' (omega (arith, count)) rest' in
    let back : src + n + length ys + 1 - src - 1 ≡ length xs = omega (arith, count) in
    (
      m',
      strlcpy-full fuel dst src dsize xs m le o t ∙ rw (walk, back) refl,
      record {
        string = elim (Bool-cases (dsize == 0)) [
          | inl z ↦ inl (ground arith)
          | inr z ↦ inr (
              StringAt-take n dst src xs m m' le
                (λ i h. ended-inside dst src dsize m i h ∙ c.inside i h)
                (ended-nul dst src dsize m z) t)
        ];
        outside = out;
      },
    )

-- `strlcpy` answers the length of the source and leaves as much of it in `dst` as fits, with a NUL; it
-- writes nothing outside its `dsize` bytes. The two regions are apart.
pub strlcpy-IsTruncated :
    (fuel dst src dsize : ℕ) (xs : List ℕ) (m : Memory)
    → length xs < fuel
    → (dst + dsize ≤ src) ⊎ (src + length xs < dst)
    → StringAt m src xs
    → (m' : Memory) × (strlcpy fuel dst src dsize m ≡ some (length xs, m'))
      × IsTruncated dst dsize xs m m'
strlcpy-IsTruncated fuel dst src dsize xs m f o t =
    elim (Bool-cases (ltb (length xs) (dsize - 1))) [
      | inl l ↦ strlcpy-fits_IsTruncated fuel dst src dsize xs m (ground arith) o t
      | inr l ↦ strlcpy-full_IsTruncated fuel dst src dsize xs m f (ground arith) o t
    ]
