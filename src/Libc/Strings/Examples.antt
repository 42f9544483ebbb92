-- ===== src/Libc/Strings/Examples.antt =====
-- Two strings in memory, compared and copied.
use aim_mips.Prelude.{ℕ, ◌≡◌, refl, inr, arith, some, List, [], ◌∷◌, ◌==◌, if◌then◌else◌}
use aim_mips.Libc.{Memory}
use aim_mips.Libc.Strings.{strlcpy}
use aim_mips.Libc.Strings.Compare.{StringAt}
use aim_mips.Libc.Strings.Truncate.{IsTruncated, strlcpy-IsTruncated}

-- "ab" at 100 and "ac" at 200.
abbrev strings : Memory
strings a =
    if a == 100
    then 97
    else if a == 101
    then 98
    else if a == 200
    then 97
    else if a == 201
    then 99
    else 0

abbrev ab_text : List ℕ
ab_text = 97 ∷ 98 ∷ []

abbrev ac_text : List ℕ
ac_text = 97 ∷ 99 ∷ []

ab : StringAt strings 100 (97 ∷ 98 ∷ [])
ab = (refl, omega arith, (refl, omega arith, refl))

ac : StringAt strings 200 (97 ∷ 99 ∷ [])
ac = (refl, omega arith, (refl, omega arith, refl))

strlcpy-IsTruncated_example :
    (m' : Memory) × (strlcpy 3 300 100 2 strings ≡ some (2, m'))
    × IsTruncated 300 2 (97 ∷ 98 ∷ []) strings m'
strlcpy-IsTruncated_example =
    strlcpy-IsTruncated 3 300 100 2 (97 ∷ 98 ∷ []) strings (omega arith) (inr (omega arith)) ab
