-- ===== src/Kpid/Fresh.antt =====
-- The identifiers that kpid_new hands out.
use native.Mathlib.Nat.{pow-le-pow_right}
use aim_mips.Prelude.{
  ℕ, zero, suc, ◌+◌, ◌-◌, ◌/◌, ◌%◌, ◌^◌, ◌≤◌, ◌<◌, ◌≡◌, ◌≢◌, inl, inr, refl, sym, ap, ◌∙◌, Bool,
  true, false, not, ◌==◌, ltb, if◌then◌else◌, arith, Bool-cases, sub32,
}
use aim_mips.Prelude.Bits.{bit, bit_ext, bit-high, bit-power, bit-complement}
use aim_mips.Bitops.{complement}
use aim_mips.Bitmap.{WordMemory, member}
use aim_mips.Bitmap.Pointwise.{IsWords}
use aim_mips.Bitmap.Find.{bitmap_find_first_zero_bit}
use aim_mips.Bitmap.Find.Word.{IsFirst, absent, present}
use aim_mips.Bitmap.Find.Zero.{complements, bitmap_find_zero_bit-IsFirst}
use aim_mips.Bitmap.Area.{set_word, clear_word, IsMasked, set_word-IsMasked, clear_word-IsMasked}
use aim_mips.Kpid.{max_processes, atomic_set_bit, atomic_clear_bit, kpid_new, kpid_recycle}

power-lt : (k : ℕ) → k < 32 → 2 ^ k < 2 ^ 32
power-lt k lt =
    let le : 2 ^ k ≤ 2 ^ 31 =
      pow-le-pow_right {n = 2} (omega arith) {i = k} {j = 31} (omega arith) in
    omega arith

-- One bit of the map becomes `b`.
masked-member :
    (b : Bool) (apply : ℕ → ℕ → WordMemory → WordMemory) (map j n : ℕ) (m : WordMemory)
    → IsMasked b apply
    → member (apply (map + j / 32) (2 ^ (j % 32)) m) map n ≡ (if n == j then b else member m map n)
unfolding member
masked-member b apply map j n m masked = elim (Bool-cases (n / 32 == j / 32)) [
  | inl e ↦
      let p = map + j / 32 in
      let i = n % 32 in
      let here : map + n / 32 ≡ p = ground arith in
      let same : (i == j % 32) ≡ (n == j) = ground arith in
      ap (λ a. bit (apply p (2 ^ (j % 32)) m a) i) here
      ∙ masked.digits p (2 ^ (j % 32)) i m (omega arith) (power-lt (j % 32) (omega arith))
      ∙ ap (λ c. if c then b else bit (m p) i) (bit-power (j % 32) i ∙ same)
      ∙ ap (λ a. if n == j then b else bit (m a) i) (sym here)
  | inr e ↦
      let other : map + n / 32 ≢ map + j / 32 = λ h. ground arith in
      let ne : (n == j) ≡ false = ground arith in
      rw ne (
        ap (λ x. bit x (n % 32))
          (masked.elsewhere (map + j / 32) (2 ^ (j % 32)) (map + n / 32) m other))
]

-- The word in which a bit that was clear is set and cleared again.
cleared-digit :
    (p k i : ℕ) (m : WordMemory)
    → k < 32
    → IsWords m
    → bit (m p) k ≡ false
    → bit (clear_word p (2 ^ k) (set_word p (2 ^ k) m) p) i ≡ bit (m p) i
cleared-digit p k i m lt w f =
    let mask = power-lt k lt in
    let y = set_word p (2 ^ k) m in
    let set = set_word-IsMasked in
    let clear = clear_word-IsMasked in
    let small : y p < 2 ^ 32 = set.small p (2 ^ k) m (w p) mask in
    elim (Bool-cases (ltb i 32)) [
      | inr h ↦
          bit-high 32 i (clear_word p (2 ^ k) y p) (clear.small p (2 ^ k) y small mask)
            (ground arith)
          ∙ sym (bit-high 32 i (m p) (w p) (ground arith))
      | inl h ↦
          let within : i < 32 = ground arith in
          let first = set.digits p (2 ^ k) i m within mask in
          let second = clear.digits p (2 ^ k) i y within mask in
          elim (Bool-cases (i == k)) [
            | inl e ↦
                let ik : i ≡ k = ground arith in
                let was : bit (m p) i ≡ false = ap (bit (m p)) ik ∙ f in
                let on : bit (2 ^ k) i ≡ true = bit-power k i ∙ e in
                second ∙ ap (λ c. if c then false else bit (y p) i) on ∙ sym was
            | inr e ↦
                let off : bit (2 ^ k) i ≡ false = bit-power k i ∙ e in
                second
                ∙ ap (λ c. if c then false else bit (y p) i) off
                ∙ first
                ∙ ap (λ c. if c then true else bit (m p) i) off
          ]
    ]

clear_word-set_word :
    (p k : ℕ) (m : WordMemory)
    → k < 32
    → IsWords m
    → bit (m p) k ≡ false
    → (a : ℕ) → clear_word p (2 ^ k) (set_word p (2 ^ k) m) a ≡ m a
clear_word-set_word p k m lt w f a = elim (Bool-cases (a == p)) [
  | inl e ↦
      let ap_lem : a ≡ p = ground arith in
      let z = clear_word p (2 ^ k) (set_word p (2 ^ k) m) in
      ap z ap_lem ∙ bit_ext (z p) (m p) (λ i. cleared-digit p k i m lt w f) ∙ ap m (sym ap_lem)
  | inr e ↦
      let ne : a ≢ p = λ h. ground arith in
      let set = set_word-IsMasked in
      let clear = clear_word-IsMasked in
      clear.elsewhere p (2 ^ k) a (set_word p (2 ^ k) m) ne ∙ set.elsewhere p (2 ^ k) a m ne
]

-- Identifier `suc k` is the least that was free, and no other is taken with it.
pub record IsFresh (map k : ℕ) (m m' : WordMemory) : Type 0 where
  pub within : k < max_processes
  pub free : member m map k ≡ false
  pub full : (n : ℕ) → n < k → member m map n ≡ true
  pub members : (n : ℕ) → member m' map n ≡ (if n == k then true else member m map n)

-- What the search finds, in the map itself.
member-complements :
    (m : WordMemory) (map n : ℕ) → IsWords m → member (complements m) map n ≡ not (member m map n)
unfolding member complement
member-complements m map n w =
    bit-complement 32 (n % 32) (m (map + n / 32)) (w (map + n / 32)) (omega arith)

not-true : (b : Bool) → not b ≡ true → b ≡ false
not-true true e = absurd cc
not-true false e = refl

not-false : (b : Bool) → not b ≡ false → b ≡ true
not-false true e = refl
not-false false e = absurd cc

found :
    (m : WordMemory) (map j ans : ℕ)
    → j < max_processes
    → IsWords m
    → member m map j ≡ false
    → IsFirst (member (complements m) map) 0 max_processes ans
    → (k : ℕ) × (ans ≡ suc k)
      × (k < max_processes)
      × (member m map k ≡ false)
      × ((n : ℕ) → n < k → member m map n ≡ true)
found m map j zero lt w f (absent none_there) =
    let there : member (complements m) map j ≡ true = member-complements m map j w ∙ ap not f in
    let gone = none_there j (omega arith) lt in absurd cc
found m map j (suc k) lt w f (present i lo hi here before) = (
  i,
  refl,
  hi,
  not-true (member m map i) (sym (member-complements m map i w) ∙ here),
  λ n b. not-false (member m map n) (sym (member-complements m map n w) ∙ before n (omega arith) b),
)

not_found :
    (m : WordMemory) (map ans : ℕ)
    → IsWords m
    → ((n : ℕ) → n < max_processes → member m map n ≡ true)
    → IsFirst (member (complements m) map) 0 max_processes ans
    → ans ≡ 0
not_found m map zero w all f = refl
not_found m map (suc k) w all (present i lo hi here before) =
    let clear : member m map k ≡ false =
      not-true (member m map k) (sym (member-complements m map k w) ∙ here) in
    let set = all k hi in absurd cc

-- While an identifier is free, in a memory of 32-bit words: kpid_new answers the least free one and takes
-- no other, and kpid_recycle of it restores the memory, every word of it.
pub kpid_recycle-kpid_new :
    (map j : ℕ) (m : WordMemory)
    → IsWords m
    → j < max_processes
    → member m map j ≡ false
    → (k : ℕ) × ((kpid_new map m).0 ≡ suc k)
      × IsFresh map k m ((kpid_new map m).1)
      × ((a : ℕ) → kpid_recycle map (suc k) ((kpid_new map m).1) a ≡ m a)
unfolding kpid_new kpid_recycle atomic_set_bit atomic_clear_bit
kpid_recycle-kpid_new map j m w lt f =
    let (k, e, within, free, full) =
      found m map j (bitmap_find_first_zero_bit map max_processes m) lt w f
        ((bitmap_find_zero_bit-IsFirst m map max_processes 0 w (omega arith)).0) in
    let index : sub32 (suc k) 1 ≡ k = omega arith in
    let p = map + k / 32 in
    let mask = 2 ^ (k % 32) in
    let taken : (kpid_new map m).1 ≡ set_word p mask m =
      ap (λ x. atomic_set_bit x map m) e
      ∙ ap (λ n. set_word (map + n / 32) (2 ^ (n % 32)) m) index in
    (
      k,
      e,
      record {
        within = within;
        free = free;
        full = full;
        members = λ n.
            ap (λ (y : WordMemory). member y map n) taken
            ∙ masked-member true set_word map k n m set_word-IsMasked;
      },
      λ a.
          ap (λ n. clear_word (map + n / 32) (2 ^ (n % 32)) ((kpid_new map m).1) a) index
          ∙ ap (λ (y : WordMemory). clear_word p mask y a) taken
          ∙ clear_word-set_word p (k % 32) m (omega arith) w (unfold member in free) a,
    )

-- With no identifier left kpid_new answers 0, and the bit that it sets lies outside the map.
pub kpid_new-full :
    (map : ℕ) (m : WordMemory)
    → IsWords m
    → ((n : ℕ) → n < max_processes → member m map n ≡ true)
    → ((kpid_new map m).0 ≡ 0) × ((kpid_new map m).1 ≡ set_word (map + (2 ^ 27 - 1)) (2 ^ 31) m)
unfolding kpid_new atomic_set_bit
kpid_new-full map m w all =
    let none_left : bitmap_find_first_zero_bit map max_processes m ≡ 0 =
      not_found m map (bitmap_find_first_zero_bit map max_processes m) w all
        ((bitmap_find_zero_bit-IsFirst m map max_processes 0 w (omega arith)).0) in
    (none_left, ap (λ x. atomic_set_bit x map m) none_left)
