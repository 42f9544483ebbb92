-- ===== src/Libc/Strings.antt =====
-- memcmp, strcmp and strlcpy of lib/libc, over a memory of bytes. The loops are on fuel, `none` when it
-- runs out.
pub mod Compare
pub mod Copy
pub mod Truncate
mod Examples
use aim_mips.Prelude.{
  ℕ, zero, suc, ◌+◌, ◌-◌, Bool, Option, none, some, ltb, leb, ◌==◌, ◌&&◌, not, if◌then◌else◌, ℤ,
  pos, negsuc, success,
}
use aim_mips.Libc.{Memory, copy_byte}

-- The difference of two bytes, as an int.
abbrev pub byte_sub : ℕ → ℕ → ℤ
byte_sub a b = if leb b a then pos (a - b) else negsuc (b - a - 1)

pub memcmp : ℕ → ℕ → ℕ → Memory → ℤ
memcmp s1 s2 zero m = success
memcmp s1 s2 (suc n) m =
    let rest = memcmp (s1 + 1) (s2 + 1) n m in if m s1 == m s2 then rest else byte_sub (m s1) (m s2)

pub strcmp : ℕ → ℕ → ℕ → Memory → Option ℤ
strcmp zero s1 s2 m = none
strcmp (suc fuel) s1 s2 m =
    let rest = strcmp fuel (s1 + 1) (s2 + 1) m in
    if m s1 == m s2
    then (if m s1 == 0 then some success else rest)
    else some (byte_sub (m s1) (m s2))

-- Where a loop of `strlcpy` leaves its pointers and what it has left of `n`.
pub record Cursor : Type 0 where
  pub d : ℕ
  pub s : ℕ
  pub n : ℕ
  pub memory : Memory

-- `do { if ((*d++ = *s++) == 0) break; } while (--n != 0);`, on `n`, which is not 0.
pub copy_string : ℕ → ℕ → ℕ → Memory → Cursor
copy_string zero d s m = record { d = d; s = s; n = 0; memory = m }
copy_string (suc n) d s m =
    let m' = copy_byte d s m in
    let rest = copy_string n (d + 1) (s + 1) m' in
    if m s == 0 then record { d = d + 1; s = s + 1; n = suc n; memory = m' } else rest

-- `while (*s++) ;`
pub skip : ℕ → ℕ → Memory → Option ℕ
skip zero s m = none
skip (suc fuel) s m = let rest = skip fuel (s + 1) m in if m s == 0 then some (s + 1) else rest

-- What follows the loop: a NUL where there was not enough room, and the rest of the source.
pub end_copy : ℕ → ℕ → ℕ → Cursor → Option (ℕ × Memory)
end_copy fuel src dsize c =
    let m' : Memory = λ a. if not (dsize == 0) && a == c.d then 0 else c.memory a in
    if c.n == 0
    then elim (skip fuel c.s m') [ none ↦ none | some s ↦ some (s - src - 1, m') ]
    else some (c.s - src - 1, c.memory)

pub strlcpy : ℕ → ℕ → ℕ → ℕ → Memory → Option (ℕ × Memory)
strlcpy fuel dst src dsize m =
    let start : Cursor = record { d = dst; s = src; n = dsize - 1; memory = m } in
    end_copy fuel src dsize (if leb 2 dsize then copy_string (dsize - 1) dst src m else start)
