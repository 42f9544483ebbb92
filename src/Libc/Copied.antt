-- ===== src/Libc/Copied.antt =====
-- A copy of a region as the two loops over bytes and words make it, step by step.
use aim_mips.Prelude.{
  ℕ, zero, suc, ◌+◌, ◌-◌, ◌*◌, ◌%◌, ◌<◌, ◌≤◌, ◌≡◌, ◌⊎◌, inl, inr, refl, sym, ap, ◌∙◌, true, some,
  ltb, leb, ◌==◌, ◌||◌, ◌&&◌, if◌then◌else◌, arith, Bool-cases,
}
use aim_mips.Libc.{Memory, copy_byte, copy_word, bytes_up, words_up, bytes_down, words_down}

-- `m'` has at `dst` what `m` has at `src`, for `n` bytes, and is `m` elsewhere.
pub record IsCopied (dst src n : ℕ) (m m' : Memory) : Type 0 where
  pub inside : (i : ℕ) → i < n → m' (dst + i) ≡ m (src + i)
  pub outside : (a : ℕ) → (a < dst) ⊎ (dst + n ≤ a) → m' a ≡ m a

pub nothing-IsCopied : (dst src : ℕ) (m : Memory) → IsCopied dst src 0 m m
nothing-IsCopied dst src m = record { inside = λ i h. absurd (omega arith); outside = λ a o. refl }

-- The lower part first, when the copy does not go up into its own source.
pub up-IsCopied :
    (dst src k j : ℕ) (m m1 m2 : Memory)
    → (dst ≤ src) ⊎ (src + (k + j) ≤ dst)
    → IsCopied dst src k m m1
    → IsCopied (dst + k) (src + k) j m1 m2
    → IsCopied dst src (k + j) m m2
up-IsCopied dst src k j m m1 m2 o a b = record {
  inside = λ i h. elim (Bool-cases (ltb i k)) [
    | inl l ↦ b.outside (dst + i) (inl (ground arith)) ∙ a.inside i (ground arith)
    | inr l ↦
        let le : k ≤ i = ground arith in
        let e : dst + k + (i - k) ≡ dst + i = omega arith in
        let e' : src + k + (i - k) ≡ src + i = omega arith in
        ap m2 (sym e)
        ∙ b.inside (i - k) (omega arith)
        ∙ ap m1 e'
        ∙ a.outside (src + i) (elim o [ inl p ↦ inr (omega arith) | inr p ↦ inl (omega arith) ])
  ];
  outside = λ x q.
      b.outside x (elim q [ inl p ↦ inl (omega arith) | inr p ↦ inr (omega arith) ])
      ∙ a.outside x (elim q [ inl p ↦ inl p | inr p ↦ inr (omega arith) ]);
}

-- The upper part first, when the copy does not go down into its own source.
pub down-IsCopied :
    (dst src j k : ℕ) (m m1 m2 : Memory)
    → (src ≤ dst) ⊎ (dst + (j + k) ≤ src)
    → IsCopied (dst + j) (src + j) k m m1
    → IsCopied dst src j m1 m2
    → IsCopied dst src (j + k) m m2
down-IsCopied dst src j k m m1 m2 o a b = record {
  inside = λ i h. elim (Bool-cases (ltb i j)) [
    | inl l ↦
        let lt : i < j = ground arith in
        b.inside i lt
        ∙ a.outside (src + i) (elim o [ inl p ↦ inl (omega arith) | inr p ↦ inr (omega arith) ])
    | inr l ↦
        let le : j ≤ i = ground arith in
        let e : dst + j + (i - j) ≡ dst + i = omega arith in
        let e' : src + j + (i - j) ≡ src + i = omega arith in
        b.outside (dst + i) (inr (omega arith))
        ∙ ap m1 (sym e)
        ∙ a.inside (i - j) (omega arith)
        ∙ ap m e'
  ];
  outside = λ x q.
      b.outside x (elim q [ inl p ↦ inl p | inr p ↦ inr (omega arith) ])
      ∙ a.outside x (elim q [ inl p ↦ inl (omega arith) | inr p ↦ inr (omega arith) ]);
}

pub byte-IsCopied : (dst src : ℕ) (m : Memory) → IsCopied dst src 1 m (copy_byte dst src m)
unfolding copy_byte
byte-IsCopied dst src m = record {
  inside = λ i h. let z : i ≡ 0 = omega arith in rw z (ground arith);
  outside = λ a o. elim o [ inl p ↦ ground arith | inr p ↦ ground arith ];
}

word-IsCopied :
    (dst src : ℕ) (m : Memory)
    → src % 4 ≡ 0
    → dst % 4 ≡ 0
    → (m' : Memory) × (copy_word dst src m ≡ some m') × IsCopied dst src 4 m m'
unfolding copy_word
word-IsCopied dst src m s d = (
  (λ a. if leb dst a && ltb a (dst + 4) then m (src + (a - dst)) else m a),
  rw (s, d) refl,
  record {
    inside = λ i h. let e : dst + i - dst ≡ i = omega arith in rw e (ground arith);
    outside = λ a o. elim o [ inl p ↦ ground arith | inr p ↦ ground arith ];
  },
)

pub IsCopied-length :
    (dst src k n : ℕ) (m m' : Memory) → k ≡ n → IsCopied dst src k m m' → IsCopied dst src n m m'
IsCopied-length dst src k n m m' e c = record {
  inside = λ i h. c.inside i (omega arith);
  outside = λ a o. c.outside a (elim o [ inl p ↦ inl p | inr p ↦ inr (omega arith) ]);
}

copy_word-at : (d s d' s' : ℕ) (m : Memory) → d ≡ d' → s ≡ s' → copy_word d s m ≡ copy_word d' s' m
copy_word-at d s d' s' m p q = rw (p, q) refl

pub bytes_up-IsCopied :
    (t dst src : ℕ) (m : Memory)
    → (dst ≤ src) ⊎ (src + t ≤ dst)
    → IsCopied dst src t m (bytes_up t dst src m)
unfolding bytes_up
bytes_up-IsCopied zero dst src m o = nothing-IsCopied dst src m
bytes_up-IsCopied (suc t) dst src m o = IsCopied-length dst src (1 + t) (suc t) m _ (omega arith) (
    up-IsCopied dst src 1 t m (copy_byte dst src m) _
      (elim o [ inl p ↦ inl p | inr p ↦ inr (omega arith) ]) (byte-IsCopied dst src m)
      (bytes_up-IsCopied t (dst + 1) (src + 1) (copy_byte dst src m)
        (elim o [ inl p ↦ inl (omega arith) | inr p ↦ inr (omega arith) ])))

pub bytes_down-IsCopied :
    (t dst src : ℕ) (m : Memory)
    → (src ≤ dst) ⊎ (dst + t ≤ src)
    → IsCopied dst src t m (bytes_down t (dst + t) (src + t) m)
unfolding bytes_down
bytes_down-IsCopied zero dst src m o = nothing-IsCopied dst src m
bytes_down-IsCopied (suc t) dst src m o =
    let e : dst + suc t - 1 ≡ dst + t = omega arith in
    let e' : src + suc t - 1 ≡ src + t = omega arith in
    rw (e, e')
      (IsCopied-length dst src (t + 1) (suc t) m _ (omega arith) (
        down-IsCopied dst src t 1 m (copy_byte (dst + t) (src + t) m) _
          (elim o [ inl p ↦ inl p | inr p ↦ inr (omega arith) ])
          (byte-IsCopied (dst + t) (src + t) m)
          (bytes_down-IsCopied t dst src (copy_byte (dst + t) (src + t) m)
            (elim o [ inl p ↦ inl p | inr p ↦ inr (omega arith) ]))))

pub words_up-IsCopied :
    (t dst src : ℕ) (m : Memory)
    → src % 4 ≡ 0
    → dst % 4 ≡ 0
    → (dst ≤ src) ⊎ (src + t * 4 ≤ dst)
    → (m' : Memory) × (words_up t dst src m ≡ some m') × IsCopied dst src (t * 4) m m'
unfolding words_up
words_up-IsCopied zero dst src m s d o =
    (m, refl, IsCopied-length dst src 0 (0 * 4) m m (omega arith) (nothing-IsCopied dst src m))
words_up-IsCopied (suc t) dst src m s d o =
    let (m1, e, one) = word-IsCopied dst src m s d in
    let (m2, e', rest) =
      words_up-IsCopied t (dst + 4) (src + 4) m1 (omega arith) (omega arith)
        (elim o [ inl p ↦ inl (omega arith) | inr p ↦ inr (omega arith) ]) in
    (
      m2,
      rw (words_up, e) e',
      IsCopied-length dst src (4 + t * 4) (suc t * 4) m m2 (omega arith) (
          up-IsCopied dst src 4 (t * 4) m m1 m2
            (elim o [ inl p ↦ inl p | inr p ↦ inr (omega arith) ]) one rest),
    )

pub words_down-IsCopied :
    (t dst src dst_end src_end : ℕ) (m : Memory)
    → dst_end ≡ dst + t * 4
    → src_end ≡ src + t * 4
    → src % 4 ≡ 0
    → dst % 4 ≡ 0
    → (src ≤ dst) ⊎ (dst + t * 4 ≤ src)
    → (m' : Memory) × (words_down t dst_end src_end m ≡ some m') × IsCopied dst src (t * 4) m m'
unfolding words_down
words_down-IsCopied zero dst src dst_end src_end m de se s d o =
    (m, refl, IsCopied-length dst src 0 (0 * 4) m m (omega arith) (nothing-IsCopied dst src m))
words_down-IsCopied (suc t) dst src dst_end src_end m de se s d o =
    let low : dst_end - 4 ≡ dst + t * 4 = omega arith in
    let low' : src_end - 4 ≡ src + t * 4 = omega arith in
    let (m1, e, one) = word-IsCopied (dst + t * 4) (src + t * 4) m (omega arith) (omega arith) in
    let there : copy_word (dst_end - 4) (src_end - 4) m ≡ some m1 =
      copy_word-at (dst_end - 4) (src_end - 4) (dst + t * 4) (src + t * 4) m low low' ∙ e in
    let (m2, e', rest) =
      words_down-IsCopied t dst src (dst_end - 4) (src_end - 4) m1 low low' s d
        (elim o [ inl p ↦ inl p | inr p ↦ inr (omega arith) ]) in
    (
      m2,
      rw (words_down, there) e',
      IsCopied-length dst src (t * 4 + 4) (suc t * 4) m m2 (omega arith) (
          down-IsCopied dst src (t * 4) 4 m m1 m2
            (elim o [ inl p ↦ inl p | inr p ↦ inr (omega arith) ]) one rest),
    )

-- With nothing to copy the alignment is of no account.
pub words_up-IsCopied_or_none :
    (t dst src : ℕ) (m : Memory)
    → (t ≡ 0) ⊎ ((src % 4 ≡ 0) × (dst % 4 ≡ 0))
    → (dst ≤ src) ⊎ (src + t * 4 ≤ dst)
    → (m' : Memory) × (words_up t dst src m ≡ some m') × IsCopied dst src (t * 4) m m'
unfolding words_up
words_up-IsCopied_or_none t dst src m (inr (s, d)) o = words_up-IsCopied t dst src m s d o
words_up-IsCopied_or_none t dst src m (inl z) o =
    (m, rw z refl, IsCopied-length dst src 0 (t * 4) m m (omega arith) (nothing-IsCopied dst src m))

pub words_down-IsCopied_or_none :
    (t dst src dst_end src_end : ℕ) (m : Memory)
    → dst_end ≡ dst + t * 4
    → src_end ≡ src + t * 4
    → (t ≡ 0) ⊎ ((src % 4 ≡ 0) × (dst % 4 ≡ 0))
    → (src ≤ dst) ⊎ (dst + t * 4 ≤ src)
    → (m' : Memory) × (words_down t dst_end src_end m ≡ some m') × IsCopied dst src (t * 4) m m'
unfolding words_down
words_down-IsCopied_or_none t dst src de se m p q (inr (s, d)) o =
    words_down-IsCopied t dst src de se m p q s d o
words_down-IsCopied_or_none t dst src de se m p q (inl z) o =
    (m, rw z refl, IsCopied-length dst src 0 (t * 4) m m (omega arith) (nothing-IsCopied dst src m))

pub IsCopied-at :
    (d s d' s' n : ℕ) (m m' : Memory)
    → d ≡ d'
    → s ≡ s'
    → IsCopied d s n m m'
    → IsCopied d' s' n m m'
IsCopied-at d s d' s' n m m' p q c = rw (sym p, sym q) c

pub bytes_down_at :
    (t dst src dst_end src_end : ℕ) (m : Memory)
    → dst + t ≡ dst_end
    → src + t ≡ src_end
    → (src ≤ dst) ⊎ (dst + t ≤ src)
    → IsCopied dst src t m (bytes_down t dst_end src_end m)
bytes_down_at t dst src dst_end src_end m p q o =
    rw (sym p, sym q) (bytes_down-IsCopied t dst src m o)

-- A copy of nothing, or to its own place.
pub same_IsCopied :
    (dst src n : ℕ) (m : Memory) → (n == 0 || dst == src) ≡ true → IsCopied dst src n m m
same_IsCopied dst src n m b = record {
  inside = λ i h. let e : dst ≡ src = ground arith in rw e refl;
  outside = λ a o. refl;
}
