-- ===== src/Libc.antt =====
-- memmove and memcpy of lib/libc, over a memory of bytes. A `word` is a `long` of 4 bytes, and an access
-- of one at an address that is no multiple of 4 is `none`, the exception it raises. Pointers move within
-- the two objects, so they do not wrap.
pub mod Copied
pub mod Move
pub mod Strings
mod Examples
use Prim.Native.Nat.{bit_and, bit_or, bit_xor}
use aim_mips.Prelude.{
  ℕ, zero, suc, ◌+◌, ◌-◌, ◌*◌, ◌/◌, ◌%◌, Bool, Option, none, some, ltb, leb, ◌==◌, ◌&&◌, ◌||◌, not,
  if◌then◌else◌,
}

abbrev pub Memory : Type 0
Memory = ℕ → ℕ

-- `*dst = *src`, on chars.
pub copy_byte : ℕ → ℕ → Memory → Memory
copy_byte dst src m a = if a == dst then m src else m a

-- `*(word *)dst = *(word *)src`
pub copy_word : ℕ → ℕ → Memory → Option Memory
copy_word dst src m =
    if (src % 4 == 0) && (dst % 4 == 0)
    then some (λ a. if leb dst a && ltb a (dst + 4) then m (src + (a - dst)) else m a)
    else none

-- `TLOOP(*dst++ = *src++)`
pub bytes_up : ℕ → ℕ → ℕ → Memory → Memory
unfolding copy_byte
bytes_up zero dst src m = m
bytes_up (suc t) dst src m = bytes_up t (dst + 1) (src + 1) (copy_byte dst src m)

-- `TLOOP(*(word *)dst = *(word *)src; src += wsize; dst += wsize)`
pub words_up : ℕ → ℕ → ℕ → Memory → Option Memory
words_up zero dst src m = some m
words_up (suc t) dst src m = elim (copy_word dst src m) [
  | none ↦ none
  | some m' ↦ words_up t (dst + 4) (src + 4) m'
]

-- `TLOOP(*--dst = *--src)`
pub bytes_down : ℕ → ℕ → ℕ → Memory → Memory
unfolding copy_byte
bytes_down zero dst src m = m
bytes_down (suc t) dst src m = bytes_down t (dst - 1) (src - 1) (copy_byte (dst - 1) (src - 1) m)

-- `TLOOP(src -= wsize; dst -= wsize; *(word *)dst = *(word *)src)`
pub words_down : ℕ → ℕ → ℕ → Memory → Option Memory
words_down zero dst src m = some m
words_down (suc t) dst src m = elim (copy_word (dst - 4) (src - 4) m) [
  | none ↦ none
  | some m' ↦ words_down t (dst - 4) (src - 4) m'
]

-- How many bytes the forward copy takes singly before it goes on in words.
pub align_up : ℕ → ℕ → ℕ → ℕ
align_up dst src length =
    if bit_and (bit_or src dst) 3 == 0
    then 0
    else if not (bit_and (bit_xor src dst) 3 == 0) || ltb length 4
    then length
    else 4 - bit_and src 3

pub copy_up : ℕ → ℕ → ℕ → Memory → Option Memory
copy_up dst src length m =
    let t = align_up dst src length in
    let left = length - t in
    elim (words_up (left / 4) (dst + t) (src + t) (bytes_up t dst src m)) [
      | none ↦ none
      | some m' ↦ some (bytes_up (left % 4) (dst + t + left / 4 * 4) (src + t + left / 4 * 4) m')
    ]

-- The same from the ends `dst` and `src` down.
pub align_down : ℕ → ℕ → ℕ → ℕ
align_down dst src length =
    if bit_and (bit_or src dst) 3 == 0
    then 0
    else if not (bit_and (bit_xor src dst) 3 == 0) || leb length 4
    then length
    else bit_and src 3

pub copy_down : ℕ → ℕ → ℕ → Memory → Option Memory
copy_down dst src length m =
    let t = align_down dst src length in
    let left = length - t in
    elim (words_down (left / 4) (dst - t) (src - t) (bytes_down t dst src m)) [
      | none ↦ none
      | some m' ↦ some (bytes_down (left % 4) (dst - t - left / 4 * 4) (src - t - left / 4 * 4) m')
    ]

pub memcpy : ℕ → ℕ → ℕ → Memory → Option Memory
memcpy dst src length m = if length == 0 || dst == src then some m else copy_up dst src length m

pub memmove : ℕ → ℕ → ℕ → Memory → Option Memory
memmove dst src length m =
    if length == 0 || dst == src
    then some m
    else if ltb dst src
    then copy_up dst src length m
    else copy_down (dst + length) (src + length) length m
