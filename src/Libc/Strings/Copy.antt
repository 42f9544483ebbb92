-- ===== src/Libc/Strings/Copy.antt =====
-- The loops of strlcpy.
use aim_mips.Prelude.{
  ℕ, zero, suc, ◌+◌, ◌-◌, ◌<◌, ◌≤◌, ◌≡◌, ◌⊎◌, inl, inr, refl, sym, ap, ◌∙◌, true, false, some, List,
  [], ◌∷◌, ◌==◌, arith, length, take,
}
use aim_mips.Libc.{Memory, copy_byte, bytes_up}
use aim_mips.Libc.Copied.{byte-IsCopied}
use aim_mips.Libc.Strings.{copy_string, skip}
use aim_mips.Libc.Strings.Compare.{StringAt}

pub StringAt-frame :
    (p : ℕ) (xs : List ℕ) (m m' : Memory)
    → ((a : ℕ) → p ≤ a → a ≤ p + length xs → m' a ≡ m a)
    → StringAt m p xs
    → StringAt m' p xs
StringAt-frame p [] m m' same t = same p (omega arith) (omega arith) ∙ t
StringAt-frame p (x ∷ xs) m m' same (h, nz, t) = (
  same p (omega arith) (omega arith) ∙ h,
  nz,
  StringAt-frame (p + 1) xs m m' (λ a lo hi. same a (omega arith) (omega arith)) t,
)

pub copied_byte-StringAt :
    (d s p : ℕ) (xs : List ℕ) (m : Memory)
    → (d + 1 ≤ p) ⊎ (p + length xs < d)
    → StringAt m p xs
    → StringAt (copy_byte d s m) p xs
copied_byte-StringAt d s p xs m o t =
    StringAt-frame p xs m (copy_byte d s m)
      (λ a lo hi.
        (byte-IsCopied d s m).outside a
          (elim o [ inl p ↦ inr (omega arith) | inr p ↦ inl (omega arith) ]))
      t

-- The copying loop on a string that does not fit: `n` bytes are copied, and none is left to copy.
pub copy_string-full :
    (n d s : ℕ) (xs : List ℕ) (m : Memory)
    → n ≤ length xs
    → (d + n ≤ s) ⊎ (s + length xs < d)
    → StringAt m s xs
    → copy_string n d s m ≡ record { d = d + n; s = s + n; n = 0; memory = bytes_up n d s m }
unfolding copy_string bytes_up
copy_string-full zero d s xs m le o t =
    let e : d + 0 ≡ d = omega arith in let e' : s + 0 ≡ s = omega arith in rw (e, e') refl
copy_string-full (suc n) d s [] m le o t = absurd (omega arith)
copy_string-full (suc n) d s (x ∷ xs) m le o (h, nz, t) =
    let b : (m s == 0) ≡ false = ground arith in
    let t' =
      copied_byte-StringAt d s (s + 1) xs m
        (elim o [ inl p ↦ inl (omega arith) | inr p ↦ inr (omega arith) ]) t in
    let rest =
      copy_string-full n (d + 1) (s + 1) xs (copy_byte d s m) (omega arith)
        (elim o [ inl p ↦ inl (omega arith) | inr p ↦ inr (omega arith) ]) t' in
    let e : d + 1 + n ≡ d + suc n = omega arith in
    let e' : s + 1 + n ≡ s + suc n = omega arith in rw b (rest ∙ rw (e, e') refl)

-- On a string that fits with its NUL the loop ends at the NUL, with room left.
pub copy_string-fits :
    (n d s : ℕ) (xs : List ℕ) (m : Memory)
    → length xs < n
    → (d + n ≤ s) ⊎ (s + length xs < d)
    → StringAt m s xs
    → let k = length xs + 1 in
      copy_string n d s m
      ≡ record { d = d + k; s = s + k; n = n - length xs; memory = bytes_up k d s m }
unfolding copy_string bytes_up
copy_string-fits zero d s xs m lt o t = absurd (omega arith)
copy_string-fits (suc n) d s [] m lt o t =
    let b : (m s == 0) ≡ true = ground arith in
    let z : suc n - 0 ≡ suc n = omega arith in rw (b, z) refl
copy_string-fits (suc n) d s (x ∷ xs) m lt o (h, nz, t) =
    let b : (m s == 0) ≡ false = ground arith in
    let t' =
      copied_byte-StringAt d s (s + 1) xs m
        (elim o [ inl p ↦ inl (omega arith) | inr p ↦ inr (omega arith) ]) t in
    let rest =
      copy_string-fits n (d + 1) (s + 1) xs (copy_byte d s m) (omega arith)
        (elim o [ inl p ↦ inl (omega arith) | inr p ↦ inr (omega arith) ]) t' in
    let one : suc (length xs) + 1 ≡ suc (length xs + 1) = omega arith in
    let e : d + 1 + (length xs + 1) ≡ d + suc (length xs + 1) = omega arith in
    let e' : s + 1 + (length xs + 1) ≡ s + suc (length xs + 1) = omega arith in
    let left : suc n - suc (length xs) ≡ n - length xs = omega arith in
    rw b (rest ∙ rw (one, e, e', left) refl)

pub skip_lem :
    (fuel s : ℕ) (xs : List ℕ) (m : Memory)
    → length xs < fuel
    → StringAt m s xs
    → skip fuel s m ≡ some (s + length xs + 1)
unfolding skip
skip_lem zero s xs m f t = absurd (omega arith)
skip_lem (suc fuel) s [] m f t = let e : s + 0 + 1 ≡ s + 1 = omega arith in rw (t, e) refl
skip_lem (suc fuel) s (x ∷ xs) m f (h, nz, t) =
    let b : (m s == 0) ≡ false = ground arith in
    let e : s + suc (length xs) + 1 ≡ s + 1 + length xs + 1 = omega arith in
    rw (b, e) (skip_lem fuel (s + 1) xs m (omega arith) t)

-- What is left of a string after `n` of its bytes, and the first `n` copied and ended.
pub StringAt-drop :
    (n p : ℕ) (xs : List ℕ) (m : Memory)
    → n ≤ length xs
    → StringAt m p xs
    → (ys : List ℕ) × (length ys + n ≡ length xs) × StringAt m (p + n) ys
StringAt-drop zero p xs m le t = let e : p + 0 ≡ p = omega arith in (xs, omega arith, rw e t)
StringAt-drop (suc n) p [] m le t = absurd (omega arith)
StringAt-drop (suc n) p (x ∷ xs) m le (h, nz, t) =
    let (ys, l, u) = StringAt-drop n (p + 1) xs m (omega arith) t in
    let e : p + suc n ≡ p + 1 + n = omega arith in (ys, omega (arith, l), rw e u)

pub zero_right : (d : ℕ) → d ≡ d + 0
zero_right d = omega arith

pub step : (d i : ℕ) → d + 1 + i ≡ d + suc i
step d i = omega arith

pub StringAt-nul : (p : ℕ) (xs : List ℕ) (m : Memory) → StringAt m p xs → m (p + length xs) ≡ 0
StringAt-nul p [] m t = ap m (sym (zero_right p)) ∙ t
StringAt-nul p (x ∷ xs) m (h, nz, t) = ap m (sym (step p (length xs))) ∙ StringAt-nul (p + 1) xs m t

pub StringAt-take :
    (n d s : ℕ) (xs : List ℕ) (m m' : Memory)
    → n ≤ length xs
    → ((i : ℕ) → i < n → m' (d + i) ≡ m (s + i))
    → m' (d + n) ≡ 0
    → StringAt m s xs
    → StringAt m' d (take n xs)
StringAt-take zero d s xs m m' le same z t =
    let e : d + 0 ≡ d = omega arith in let z' : m' d ≡ 0 = rw e at z in z'
StringAt-take (suc n) d s [] m m' le same z t = absurd (omega arith)
StringAt-take (suc n) d s (x ∷ xs) m m' le same z (h, nz, t) =
    let first : m' d ≡ m s =
      ap m' (zero_right d) ∙ same 0 (omega arith) ∙ ap m (sym (zero_right s)) in
    (
      first ∙ h,
      nz,
      StringAt-take n (d + 1) (s + 1) xs m m' (omega arith)
          (λ i lt. ap m' (step d i) ∙ same (suc i) (omega arith) ∙ ap m (sym (step s i)))
          (ap m' (step d n) ∙ z) t,
    )
